-- ===== src/Settings/Values.antt =====
-- The contact address, the rate limit and the retention of the rank history.
pub mod Nearest
use caddybuddy.Text.{text, Text, is_space, member}
use caddybuddy.Text.Split.{split_at}
use caddybuddy.Web.Session.{ℤ}
use caddybuddy.Text.Search.{strip}
use caddybuddy.Prelude.{
  ℕ, suc, ◌+◌, ◌-◌, Bool, true, false, not, ◌&&◌, ◌||◌, Option, none, some, List, [], ◌∷◌, ltb,
  ◌==◌, if◌then◌else◌, length, is_nil, all,
}

-- `[^@\s]+`
unfoldable pub is_mail_char : ℕ → Bool
unfolding is_space
is_mail_char c = not (is_space c) && not (c == b'@')

-- A dot that is not the last character.
unfoldable pub dot_inside : Text → Bool
dot_inside [] = false
dot_inside (c ∷ []) = false
dot_inside (c ∷ d ∷ s) = c == b'.' || dot_inside (d ∷ s)

-- `[^@\s]+\.[^@\s]+`
unfoldable pub is_mail_domain : Text → Bool
unfolding is_mail_char dot_inside all
is_mail_domain [] = false
is_mail_domain (c ∷ s) = all is_mail_char (c ∷ s) && dot_inside s

-- `_SIMPLE_EMAIL_PATTERN`, by the parts between the `@`
unfoldable pub are_mail_parts : List Text → Bool
unfolding is_mail_domain is_mail_char all
are_mail_parts (user ∷ domain ∷ []) =
    not (is_nil user) && all is_mail_char user && is_mail_domain domain
are_mail_parts _ = false

pub data MailResult : Type 0 where
  mail_ok : Text → MailResult
  too_long invalid_mail : MailResult

unfoldable pub normalize_ssllabs_email : (Text → Text) → Text → MailResult
unfolding are_mail_parts split_at strip
normalize_ssllabs_email lower raw_email =
    let normalized = lower (strip raw_email) in
    if is_nil normalized
    then mail_ok []
    else if ltb 255 (length normalized)
    then too_long
    else if not (are_mail_parts (split_at b'@' normalized))
    then invalid_mail
    else mail_ok normalized

abbrev pub off_words : List Text
off_words = text "false" ∷ text "0" ∷ text "no" ∷ text "off" ∷ []

abbrev pub or_default : Text → Text → Text
or_default [] default = default
or_default (c ∷ s) default = c ∷ s

-- `get_rate_limit_enabled` on the stored value
unfoldable pub rate_limit_enabled : (Text → Text) → Text → Bool
unfolding strip member
rate_limit_enabled lower value =
    not (member (lower (strip (or_default value (text "true")))) off_words)

abbrev pub rate_limit_value : Bool → Text
rate_limit_value true = text "true"
rate_limit_value false = text "false"

abbrev pub retention_day_values : List ℕ
retention_day_values = 0 ∷ 7 ∷ 14 ∷ 30 ∷ 90 ∷ 180 ∷ 365 ∷ []

-- `abs(allowed - days)`
unfoldable pub distance : ℤ → ℕ → ℕ
distance (ℤ.pos days) allowed = (allowed - days) + (days - allowed)
distance (ℤ.negsuc n) allowed = allowed + suc n

-- `min` by the distance, which keeps the first of those that are least.
unfoldable pub nearest : ℤ → ℕ → List ℕ → ℕ
unfolding distance
nearest days best [] = best
nearest days best (a ∷ allowed) =
    let further = nearest days best allowed in
    let nearer = nearest days a allowed in
    if ltb (distance days a) (distance days best) then nearer else further

unfoldable pub is_value : ℤ → List ℕ → Bool
is_value days [] = false
is_value (ℤ.pos days) (a ∷ allowed) = days == a || is_value (ℤ.pos days) allowed
is_value (ℤ.negsuc n) (a ∷ allowed) = is_value (ℤ.negsuc n) allowed

abbrev pub natural : ℤ → ℕ
natural (ℤ.pos n) = n
natural (ℤ.negsuc n) = 0

unfoldable pub retention_of : Option ℤ → ℕ
unfolding nearest is_value
retention_of none = 0
retention_of (some days) =
    if is_value days retention_day_values
    then natural days
    else nearest days 0 (7 ∷ 14 ∷ 30 ∷ 90 ∷ 180 ∷ 365 ∷ [])

-- `get_ssllabs_history_retention_days` on the stored value; `int` is `none` where it raises.
unfoldable pub history_retention_days : (Text → Option ℤ) → Text → ℕ
unfolding retention_of strip
history_retention_days int raw = retention_of (int (strip raw))
