-- ===== src/Auth/Lifecycle.antt =====
-- The second factor from enrollment to removal, by sessions that hold their own copies of the user.
use caddybuddy.Auth.Users.{
  set_codes, set_confirmed, codes_match, column_equals, set_counter, is_older, confirm_enrollment,
  consume_otp_counter, replace_codes, no_otp, set_enrollment, start_otp_enrollment, disable_otp,
  update_where, Session, OtpRow,
}
use caddybuddy.Auth.Otp.{consume_recovery_code, Library}
use caddybuddy.Auth.Service.{
  or_empty, confirm_with, counter_of, verify_recovery, verify_with, verify_otp_factor,
  confirm_otp_enrollment, begin_otp_enrollment, Cipher,
}
use caddybuddy.Text.{Text}
use caddybuddy.Prelude.{
  ℕ, ◌≡◌, refl, inl, inr, Bool, true, false, not, ◌&&◌, ◌||◌, Option, none, some, List, [], ◌∷◌,
  arith, Bool-cases,
}

abbrev is_present {ℓ} : {A : Type ℓ} → Option A → Bool
is_present none = false
is_present (some a) = true

-- An enabled row has its secret, its recovery codes and its last counter.
abbrev pub is_complete : Option OtpRow → Bool
is_complete none = true
is_complete (some row) =
    not row.otp_enabled
    || is_present row.otp_secret
      && is_present row.otp_recovery_codes
      && is_present row.otp_last_verified_counter

update_where-is_complete :
    (condition : OtpRow → Bool) (change : OtpRow → OtpRow) (row : Option OtpRow) (user : OtpRow)
    → ((r : OtpRow)
        → condition r ≡ true
        → is_complete (some r) ≡ true
        → is_complete (some (change r)) ≡ true)
    → is_complete row ≡ true
    → is_complete (update_where condition change (record { row = row; user = user })).0.row ≡ true
unfolding update_where
update_where-is_complete condition change none user f h = refl
update_where-is_complete condition change (some row) user f h = elim (Bool-cases (condition row)) [
  | inl holds ↦ ground (arith, f row holds h)
  | inr fails ↦ ground arith
]

-- What a request asks of the service.
pub data Request : Type 0 where
  begin : Text → Request
  confirm : Text → List Text → Text → ℕ → Request
  verify : Text → ℕ → Request
  disable : Request

module _ (lib : Library) (cipher : Cipher) where
  -- The session after a request, whose object is `user`.
  abbrev pub handle : Option OtpRow → OtpRow → Request → Session
  handle row user (begin secret) =
      (begin_otp_enrollment lib cipher secret (record { row = row; user = user })).0
  handle row user (confirm serialized codes code now) =
      (confirm_otp_enrollment lib cipher serialized codes code now
        (record { row = row; user = user })).0
  handle row user (verify code now) =
      (verify_otp_factor lib cipher code now (record { row = row; user = user })).0
  handle row user disable = (disable_otp (record { row = row; user = user })).0

  abbrev pub handle_all : Option OtpRow → List (OtpRow × Request) → Option OtpRow
  handle_all row [] = row
  handle_all row (r ∷ rest) = handle_all (handle row r.0 r.1).row rest

  confirm_with-is_complete :
      (serialized : Text) (codes : List Text) (row : Option OtpRow) (user : OtpRow) (o : Option ℕ)
      → is_complete row ≡ true
      → is_complete
          (confirm_with lib cipher serialized codes (record { row = row; user = user }) o).0.row
        ≡ true
  unfolding confirm_with confirm_enrollment
  confirm_with-is_complete serialized codes row user none h = h
  confirm_with-is_complete serialized codes row user (some counter) h =
      let secret = or_empty lib cipher user.otp_secret in
      update_where-is_complete (λ r. not r.otp_enabled && column_equals r.otp_secret secret)
        (set_confirmed serialized counter) row user (λ r c p. ground arith) h

  verify_recovery-is_complete :
      (code : Text) (row : Option OtpRow) (user : OtpRow)
      → is_complete row ≡ true
      → is_complete (verify_recovery lib cipher code (record { row = row; user = user })).0.row
        ≡ true
  unfolding verify_recovery replace_codes
  verify_recovery-is_complete code row user h =
      let previous = user.otp_recovery_codes in
      let answer = consume_recovery_code lib code previous in
      ground (
        arith,
        update_where-is_complete (λ r. r.otp_enabled && codes_match r.otp_recovery_codes previous)
            (set_codes answer.1) row user (λ r c p. ground arith) h,
      )

  verify_with-is_complete :
      (code : Text) (row : Option OtpRow) (user : OtpRow) (o : Option ℕ)
      → is_complete row ≡ true
      → is_complete (verify_with lib cipher code (record { row = row; user = user }) o).0.row ≡ true
  unfolding verify_with consume_otp_counter
  verify_with-is_complete code row user none h = verify_recovery-is_complete code row user h
  verify_with-is_complete code row user (some counter) h =
      update_where-is_complete (λ r. r.otp_enabled && is_older r.otp_last_verified_counter counter)
        (set_counter counter) row user (λ r c p. ground arith) h

  handle-is_complete :
      (row : Option OtpRow) (user : OtpRow) (r : Request)
      → is_complete row ≡ true
      → is_complete (handle row user r).row ≡ true
  unfolding begin_otp_enrollment confirm_otp_enrollment verify_otp_factor disable_otp
      start_otp_enrollment
  handle-is_complete row user (begin secret) h =
      let session : Session = record { row = row; user = user } in
      ground (
        arith,
        update_where-is_complete (λ r. not r.otp_enabled) (set_enrollment (cipher.encrypt secret))
            row user (λ r c p. ground arith) h,
      )
  handle-is_complete row user (confirm serialized codes code now) h = ground (
    arith,
    confirm_with-is_complete serialized codes row user (counter_of lib cipher user code now) h,
  )
  handle-is_complete row user (verify code now) h =
      ground (arith, verify_with-is_complete code row user (counter_of lib cipher user code now) h)
  handle-is_complete row user disable h =
      update_where-is_complete (λ r. true) (λ r. no_otp) row user (λ r c p. refl) h

  -- From a row that is disabled, or has its secret, recovery codes and last counter, any sequence of
  -- requests to begin or confirm an enrollment, verify a code or disable the second factor, each by a
  -- session with its own and possibly outdated copy of the user, leads to such a row.
  pub handle_all-is_complete :
      (row : Option OtpRow) (requests : List (OtpRow × Request))
      → is_complete row ≡ true
      → is_complete (handle_all row requests) ≡ true
  handle_all-is_complete row [] h = h
  handle_all-is_complete row (r ∷ rest) h =
      handle_all-is_complete (handle row r.0 r.1).row rest (handle-is_complete row r.0 r.1 h)

  confirm_with-enabled :
      (serialized : Text) (codes : List Text) (row user : OtpRow) (o : Option ℕ)
      → row.otp_enabled ≡ true
      → let r =
          confirm_with lib cipher serialized codes (record { row = some row; user = user }) o in
        (r.0.row ≡ some row) × (r.1 ≡ none)
  unfolding confirm_with confirm_enrollment update_where
  confirm_with-enabled serialized codes row user none h = (refl, refl)
  confirm_with-enabled serialized codes row user (some counter) h = ground arith

  -- Neither beginning nor confirming an enrollment changes the row of an enabled second factor, and
  -- both give nothing back, also for a session whose copy of the user still says it is disabled.
  pub enrollment-KeepsEnabled :
      (row user : OtpRow) (secret serialized code : Text) (codes : List Text) (now : ℕ)
      → row.otp_enabled ≡ true
      → let session : Session = record { row = some row; user = user } in
        let b = begin_otp_enrollment lib cipher secret session in
        let c = confirm_otp_enrollment lib cipher serialized codes code now session in
        ((b.0.row ≡ some row) × (b.1 ≡ none)) × ((c.0.row ≡ some row) × (c.1 ≡ none))
  unfolding begin_otp_enrollment start_otp_enrollment update_where confirm_otp_enrollment
  enrollment-KeepsEnabled row user secret serialized code codes now h =
      let confirmed =
        confirm_with-enabled serialized codes row user (counter_of lib cipher user code now) h in
      ground (arith, confirmed)
