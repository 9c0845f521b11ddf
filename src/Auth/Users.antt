-- ===== src/Auth/Users.antt =====
-- app/repositories/users.py: the updates of a user's one-time-password columns.
use caddybuddy.Prelude.{ℕ, Bool, true, false, not, ◌&&◌, Option, none, some, ltb, if◌then◌else◌}
use caddybuddy.Text.{Text, text_eq}

pub record OtpRow : Type 0 where
  pub otp_enabled : Bool
  pub otp_secret : Option Text
  pub otp_recovery_codes : Option Text
  pub otp_last_verified_counter : Option ℕ

-- The row in the database, `none` if it is gone, and the object that the caller holds. Another
-- session may have changed the row since the object was loaded.
pub record Session : Type 0 where
  pub row : Option OtpRow
  pub user : OtpRow

-- `column == value` in SQL, where NULL equals nothing.
abbrev pub column_equals : Option Text → Text → Bool
column_equals none value = false
column_equals (some s) value = text_eq s value

-- `update(User).where(...).values(...)` by the primary key, and the same assignments to the object if
-- a row was changed.
unfoldable pub update_where : (OtpRow → Bool) → (OtpRow → OtpRow) → Session → Session × Bool
update_where condition change session = elim session.row [
  | none ↦ (session, false)
  | some row ↦
      if condition row
      then (record { row = some (change row); user = change session.user }, true)
      else (session, false)
]

abbrev pub set_enrollment : Text → OtpRow → OtpRow
set_enrollment secret row = record {
  otp_enabled = row.otp_enabled;
  otp_secret = some secret;
  otp_recovery_codes = none;
  otp_last_verified_counter = none;
}

unfoldable pub start_otp_enrollment : Text → Session → Session × Bool
unfolding update_where
start_otp_enrollment secret = update_where (λ row. not row.otp_enabled) (set_enrollment secret)

abbrev pub set_confirmed : Text → ℕ → OtpRow → OtpRow
set_confirmed codes counter row = record {
  otp_enabled = true;
  otp_secret = row.otp_secret;
  otp_recovery_codes = some codes;
  otp_last_verified_counter = some counter;
}

-- `confirm_otp_enrollment`
unfoldable pub confirm_enrollment : Text → Text → ℕ → Session → Session × Bool
unfolding update_where
confirm_enrollment secret codes counter =
    update_where (λ row. not row.otp_enabled && column_equals row.otp_secret secret)
      (set_confirmed codes counter)

abbrev pub is_older : Option ℕ → ℕ → Bool
is_older none counter = true
is_older (some last) counter = ltb last counter

abbrev pub set_counter : ℕ → OtpRow → OtpRow
set_counter counter row = record {
  otp_enabled = row.otp_enabled;
  otp_secret = row.otp_secret;
  otp_recovery_codes = row.otp_recovery_codes;
  otp_last_verified_counter = some counter;
}

unfoldable pub consume_otp_counter : ℕ → Session → Session × Bool
unfolding update_where
consume_otp_counter counter =
    update_where (λ row. row.otp_enabled && is_older row.otp_last_verified_counter counter)
      (set_counter counter)

abbrev pub codes_match : Option Text → Option Text → Bool
codes_match stored none = elim stored [ none ↦ true | some s ↦ false ]
codes_match stored (some previous) = column_equals stored previous

abbrev pub set_codes : Text → OtpRow → OtpRow
set_codes codes row = record {
  otp_enabled = row.otp_enabled;
  otp_secret = row.otp_secret;
  otp_recovery_codes = some codes;
  otp_last_verified_counter = row.otp_last_verified_counter;
}

-- `consume_recovery_code`
unfoldable pub replace_codes : Option Text → Text → Session → Session × Bool
unfolding update_where
replace_codes previous remaining =
    update_where (λ row. row.otp_enabled && codes_match row.otp_recovery_codes previous)
      (set_codes remaining)

abbrev pub no_otp : OtpRow
no_otp = record {
  otp_enabled = false;
  otp_secret = none;
  otp_recovery_codes = none;
  otp_last_verified_counter = none;
}

unfoldable pub disable_otp : Session → Session × Bool
unfolding update_where
disable_otp = update_where (λ row. true) (λ row. no_otp)
