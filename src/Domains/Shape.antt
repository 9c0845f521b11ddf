-- ===== src/Domains/Shape.antt =====
-- The pattern `_DOMAIN_RE`, and `normalize_domain_name`.
use caddybuddy.Prelude.{
  ℕ, Bool, false, not, ◌&&◌, ◌||◌, List, [], ◌∷◌, leb, ltb, ◌==◌, if◌then◌else◌, length, is_nil,
  all,
}
use caddybuddy.Text.{Text, is_space, is_digit, is_lower}
use caddybuddy.Text.Strip.{strip_by, rstrip_by}
use caddybuddy.Text.Split.{split_at}

-- The `ValueError`s, by the message argument that each carries.
pub data DomainError : Type 0 where
  required_message length_message invalid_message ip_message : DomainError

pub data Result {ℓ} (A : Type ℓ) : Type ℓ where
  ok : A → Result A
  err : DomainError → Result A

infixl 5 ◌>>=◌
abbrev pub ◌>>=◌ {ℓ κ} : {A : Type ℓ} {B : Type κ} → Result A → (A → Result B) → Result B
ok a >>= f = f a
err e >>= f = err e

-- What the runtime supplies: `str.lower`, and whether `ip_address` accepts a text. `lower` leaves
-- alone what has no upper-case letter and no character beyond ASCII.
pub record Runtime : Type 0 where
  pub lower : Text → Text
  pub is_ip : Text → Bool

-- `[a-z0-9]`
unfoldable pub is_alnum : ℕ → Bool
unfolding is_lower is_digit
is_alnum c = is_lower c || is_digit c

-- `[a-z0-9-]`
unfoldable pub is_inner : ℕ → Bool
unfolding is_alnum
is_inner c = is_alnum c || c == b'-'

-- `[a-z0-9-]{0,n}[a-z0-9]`, after the first character of a label
unfoldable pub is_tail : Text → Bool
unfolding is_inner is_alnum
is_tail [] = false
is_tail (c ∷ []) = is_alnum c
is_tail (c ∷ d ∷ s) = is_inner c && is_tail (d ∷ s)

-- `[a-z0-9](?:[a-z0-9-]{0,61}[a-z0-9])?`
unfoldable pub is_label : Text → Bool
unfolding is_alnum is_tail
is_label [] = false
is_label (c ∷ []) = is_alnum c
is_label (c ∷ d ∷ s) = is_alnum c && is_tail (d ∷ s) && leb (length s) 61

-- `[a-z]{2,63}`
unfoldable pub is_top : Text → Bool
unfolding is_lower
is_top s = all is_lower s && leb 2 (length s) && leb (length s) 63

-- One label or more, each with its dot, and then the top-level name.
unfoldable pub are_labels : List Text → Bool
unfolding is_label is_top
are_labels [] = false
are_labels (l ∷ []) = false
are_labels (l ∷ t ∷ []) = is_label l && is_top t
are_labels (l ∷ m ∷ t ∷ r) = is_label l && are_labels (m ∷ t ∷ r)

-- `_DOMAIN_RE.fullmatch`: a match is decided on the parts between the dots.
unfoldable pub matches_domain : Text → Bool
unfolding are_labels
matches_domain s = are_labels (split_at b'.' s)

abbrev is_dot : ℕ → Bool
is_dot c = c == b'.'

module _ (rt : Runtime) (reject_ip : Bool) where
  -- `reject_ip` is `ip_message is not None`.
  unfoldable pub normalize_domain_name : Text → Result Text
  normalize_domain_name value =
      let normalized = rstrip_by is_dot (rt.lower (strip_by is_space value)) in
      if is_nil normalized
      then err required_message
      else if ltb 253 (length normalized)
      then err length_message
      else if not (matches_domain normalized)
      then err invalid_message
      else if not reject_ip
      then ok normalized
      else if rt.is_ip normalized
      then err ip_message
      else ok normalized
