-- ===== src/Auth/Service.antt =====
-- app/services/auth.py: enrolling, verifying and disabling the second factor.
use caddybuddy.Auth.Users.{
  confirm_enrollment, consume_otp_counter, replace_codes, start_otp_enrollment, Session, OtpRow,
}
use caddybuddy.Text.{Text}
use caddybuddy.Prelude.{ℕ, Option, none, some, List, [], ◌∷◌, if◌then◌else◌}
use caddybuddy.Auth.Otp.{Library, verify_totp, consume_recovery_code}

pub data Factor : Type 0 where
  totp recovery : Factor

-- The Fernet token of a secret, and its decryption, `none` where that raises.
pub record Cipher : Type 0 where
  pub encrypt : Text → Text
  pub decrypt : Text → Option Text

module _ (lib : Library) (cipher : Cipher) where
  unfoldable pub decrypt_otp_secret : Option Text → Option Text
  decrypt_otp_secret none = none
  decrypt_otp_secret (some []) = none
  decrypt_otp_secret (some (c ∷ s)) = cipher.decrypt (c ∷ s)

  -- `secret` is the generated one.
  unfoldable pub begin_otp_enrollment : Text → Session → Session × Option Text
  unfolding start_otp_enrollment
  begin_otp_enrollment secret session =
      let r = start_otp_enrollment (cipher.encrypt secret) session in
      if session.user.otp_enabled then (session, none) else (r.0, if r.1 then some secret else none)

  unfoldable pub pending_otp_secret : OtpRow → Option Text
  unfolding decrypt_otp_secret
  pending_otp_secret user = if user.otp_enabled then none else decrypt_otp_secret user.otp_secret

  -- The counter that a code stands for, by the secret of the object.
  unfoldable pub counter_of : OtpRow → Text → ℕ → Option ℕ
  unfolding decrypt_otp_secret
  counter_of user code now = elim (decrypt_otp_secret user.otp_secret) [
    | none ↦ none
    | some secret ↦ verify_totp lib secret code now
  ]

  -- `user.otp_secret or ""`
  abbrev pub or_empty : Option Text → Text
  or_empty none = []
  or_empty (some s) = s

  unfoldable pub confirm_with : Text → List Text → Session → Option ℕ → Session × Option (List Text)
  unfolding confirm_enrollment
  confirm_with serialized recovery_codes session none = (session, none)
  confirm_with serialized recovery_codes session (some counter) =
      let r = confirm_enrollment (or_empty session.user.otp_secret) serialized counter session in
      (r.0, if r.1 then some recovery_codes else none)

  -- `recovery_codes` are the generated ones, and `serialized` their stored form.
  unfoldable pub confirm_otp_enrollment :
      Text → List Text → Text → ℕ → Session → Session × Option (List Text)
  unfolding confirm_with counter_of
  confirm_otp_enrollment serialized recovery_codes code now session =
      if session.user.otp_enabled
      then (session, none)
      else confirm_with serialized recovery_codes session (counter_of session.user code now)

  unfoldable pub verify_recovery : Text → Session → Session × Option Factor
  unfolding replace_codes
  verify_recovery code session =
      let answer = consume_recovery_code lib code session.user.otp_recovery_codes in
      let r = replace_codes session.user.otp_recovery_codes answer.1 session in
      if answer.0 then (r.0, if r.1 then some recovery else none) else (session, none)

  unfoldable pub verify_with : Text → Session → Option ℕ → Session × Option Factor
  unfolding consume_otp_counter verify_recovery
  verify_with code session none = verify_recovery code session
  verify_with code session (some counter) =
      let r = consume_otp_counter counter session in (r.0, if r.1 then some totp else none)

  unfoldable pub verify_otp_factor : Text → ℕ → Session → Session × Option Factor
  unfolding verify_with counter_of
  verify_otp_factor code now session =
      if session.user.otp_enabled
      then verify_with code session (counter_of session.user code now)
      else (session, none)
