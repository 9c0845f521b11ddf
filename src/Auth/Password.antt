-- ===== src/Auth/Password.antt =====
-- app/services/auth.py: `_validate_password_input` and `_validate_password_strength`.
use caddybuddy.Prelude.{ℕ, Bool, not, Option, none, some, ltb, if◌then◌else◌, length, any}
use caddybuddy.Text.{Text}

-- `str.islower`, `isupper`, `isdigit` and `isalnum` of one character.
pub record Classes : Type 0 where
  pub islower : ℕ → Bool
  pub isupper : ℕ → Bool
  pub isdigit : ℕ → Bool
  pub isalnum : ℕ → Bool

-- The errors, in the order in which they are raised.
pub data PasswordError : Type 0 where
  too_long too_short no_lowercase no_uppercase no_digit no_special : PasswordError

unfoldable pub validate_password_input : Text → Option PasswordError
validate_password_input password = if ltb 4096 (length password) then some too_long else none

unfoldable pub validate_password_strength : Classes → Text → Option PasswordError
validate_password_strength cl password =
    if ltb (length password) 8
    then some too_short
    else if not (any cl.islower password)
    then some no_lowercase
    else if not (any cl.isupper password)
    then some no_uppercase
    else if not (any cl.isdigit password)
    then some no_digit
    else if not (any (λ c. not (cl.isalnum c)) password)
    then some no_special
    else none

-- The two validations with which `hash_password` begins; the hashing that follows is not modelled.
unfoldable pub password_error : Classes → Text → Option PasswordError
unfolding validate_password_input validate_password_strength
password_error cl password = elim (validate_password_input password) [
  | some e ↦ some e
  | none ↦ validate_password_strength cl password
]
