-- ===== src/SslLabs/Host.antt =====
-- `validate_ssllabs_host`.
pub mod Laws
use caddybuddy.Text.{is_space, member, text, Text, text_eq}
use caddybuddy.Text.Split.{split_at}
use caddybuddy.Text.Search.{has_char, strip}
use caddybuddy.Text.Strip.{rstrip_by}
use caddybuddy.Domains.Shape.{is_label}
use caddybuddy.Prelude.{
  ℕ, Bool, not, ◌||◌, List, [], ◌∷◌, ltb, ◌==◌, if◌then◌else◌, length, is_nil, all, any,
}

abbrev pub blocked_suffixes : List Text
blocked_suffixes =
    text ".local"
    ∷ text ".localhost"
    ∷ text ".internal"
    ∷ text ".lan"
    ∷ text ".home"
    ∷ text ".home.arpa"
    ∷ text ".test"
    ∷ text ".invalid"
    ∷ text ".example"
    ∷ []

abbrev pub blocked_hosts : List Text
blocked_hosts = text "localhost" ∷ []

-- The characters of `\ / @ :`; `://` has two of them.
unfoldable pub is_url_char : ℕ → Bool
is_url_char c = c == b'/' || c == 92 || c == b'@' || c == b':'

abbrev pub is_dot : ℕ → Bool
is_dot c = c == b'.'

-- `str.endswith`
unfoldable pub ends_with : Text → Text → Bool
unfolding text_eq
ends_with suffix [] = is_nil suffix
ends_with suffix (c ∷ s) = text_eq suffix (c ∷ s) || ends_with suffix s

pub data ScanHost : Type 0 where
  scan_host : Text → ScanHost
  not_concrete has_whitespace is_url not_public not_valid : ScanHost

-- The tests of the labels.
unfoldable pub judge_labels : Text → List Text → ScanHost
unfolding any all is_label
judge_labels normalized labels =
    if ltb (length labels) 2 || any is_nil labels
    then not_public
    else if not (all is_label labels)
    then not_valid
    else scan_host normalized

-- `casefold` and whether `ip_address` accepts a text are parameters.
unfoldable pub validate_ssllabs_host : (Text → Text) → (Text → Bool) → Text → ScanHost
unfolding strip rstrip_by has_char is_url_char member ends_with split_at judge_labels any
validate_ssllabs_host casefold is_ip host =
    let normalized = casefold (rstrip_by is_dot (strip host)) in
    if is_nil normalized || has_char b'*' normalized
    then not_concrete
    else if any is_space normalized
    then has_whitespace
    else if any is_url_char normalized
    then is_url
    else if member normalized blocked_hosts
        || any (λ suffix. ends_with suffix normalized) blocked_suffixes
    then not_public
    else if is_ip normalized
    then not_public
    else judge_labels normalized (split_at b'.' normalized)
