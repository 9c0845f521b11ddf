-- ===== src/Auth/Replay.antt =====
-- A one-time code is accepted once: what `verify_otp_factor` does to the stored counter.
use caddybuddy.Auth.Otp.{consume_recovery_code, Library}
use caddybuddy.Auth.Users.{
  update_where, consume_otp_counter, is_older, replace_codes, Session, OtpRow,
}
use caddybuddy.Auth.Service.{
  Factor, counter_of, totp, verify_otp_factor, verify_recovery, verify_with, Cipher,
}
use caddybuddy.Text.{Text}
use caddybuddy.Prelude.{
  ℕ, ◌≤◌, ◌≡◌, refl, sym, ap, ◌∙◌, inl, inr, Bool, true, false, not, Option, none, some, List, [],
  ◌∷◌, arith, Bool-cases,
}

-- A counter that the row refuses: it is not newer than the last one, or the row is gone.
abbrev pub is_used : Option OtpRow → ℕ → Bool
is_used none d = true
is_used (some row) d = not (is_older row.otp_last_verified_counter d)

consume_otp_counter-keeps :
    (c d : ℕ) (row : Option OtpRow) (user : OtpRow)
    → is_used row d ≡ true
    → is_used (consume_otp_counter c (record { row = row; user = user })).0.row d ≡ true
unfolding consume_otp_counter update_where
consume_otp_counter-keeps c d none user h = refl
consume_otp_counter-keeps c d (some row) user h = ground arith

consume_otp_counter-uses :
    (c d : ℕ) (row : Option OtpRow) (user : OtpRow)
    → d ≤ c
    → (consume_otp_counter c (record { row = row; user = user })).1 ≡ true
    → is_used (consume_otp_counter c (record { row = row; user = user })).0.row d ≡ true
unfolding consume_otp_counter update_where
consume_otp_counter-uses c d none user le h = refl
consume_otp_counter-uses c d (some row) user le h = ground arith

consume_otp_counter-refuses :
    (d : ℕ) (row : Option OtpRow) (user : OtpRow)
    → is_used row d ≡ true
    → (consume_otp_counter d (record { row = row; user = user })).1 ≡ false
unfolding consume_otp_counter update_where
consume_otp_counter-refuses d none user h = refl
consume_otp_counter-refuses d (some row) user h = ground arith

replace_codes-keeps :
    (p : Option Text) (t : Text) (d : ℕ) (row : Option OtpRow) (user : OtpRow)
    → is_used row d ≡ true
    → is_used (replace_codes p t (record { row = row; user = user })).0.row d ≡ true
unfolding replace_codes update_where
replace_codes-keeps p t d none user h = refl
replace_codes-keeps p t d (some row) user h = ground arith

-- One call of `verify_otp_factor`: the object that the request loaded, the code and the time.
pub record Attempt : Type 0 where
  pub user : OtpRow
  pub code : Text
  pub now : ℕ

module _ (lib : Library) (cipher : Cipher) where
  abbrev pub attempt : Option OtpRow → Attempt → Session × Option Factor
  attempt row a = verify_otp_factor lib cipher a.code a.now (record { row = row; user = a.user })

  -- The row after the attempts, each made with its own copy of the user, however old.
  unfoldable pub after : Option OtpRow → List Attempt → Option OtpRow
  after row [] = row
  after row (a ∷ rest) = after (attempt row a).0.row rest

  abbrev pub counter_in : Attempt → Option ℕ
  counter_in a = counter_of lib cipher a.user a.code a.now

  verify_recovery-keeps :
      (code : Text) (d : ℕ) (row : Option OtpRow) (user : OtpRow)
      → is_used row d ≡ true
      → is_used (verify_recovery lib cipher code (record { row = row; user = user })).0.row d ≡ true
  unfolding verify_recovery
  verify_recovery-keeps code d row user h =
      let answer = consume_recovery_code lib code user.otp_recovery_codes in
      ground (arith, replace_codes-keeps user.otp_recovery_codes answer.1 d row user h)

  verify_with-keeps :
      (code : Text) (o : Option ℕ) (d : ℕ) (row : Option OtpRow) (user : OtpRow)
      → is_used row d ≡ true
      → is_used (verify_with lib cipher code (record { row = row; user = user }) o).0.row d ≡ true
  unfolding verify_with
  verify_with-keeps code none d row user h = verify_recovery-keeps code d row user h
  verify_with-keeps code (some c) d row user h = consume_otp_counter-keeps c d row user h

  attempt-keeps :
      (row : Option OtpRow) (a : Attempt) (d : ℕ)
      → is_used row d ≡ true
      → is_used (attempt row a).0.row d ≡ true
  unfolding verify_otp_factor
  attempt-keeps row a d h = ground (arith, verify_with-keeps a.code (counter_in a) d row a.user h)

  after-keeps :
      (row : Option OtpRow) (tries : List Attempt) (d : ℕ)
      → is_used row d ≡ true
      → is_used (after row tries) d ≡ true
  unfolding after
  after-keeps row [] d h = h
  after-keeps row (a ∷ rest) d h =
      after-keeps (attempt row a).0.row rest d (attempt-keeps row a d h)

  verify_with-uses :
      (code : Text) (row : Option OtpRow) (user : OtpRow) (c d : ℕ)
      → d ≤ c
      → (verify_with lib cipher code (record { row = row; user = user }) (some c)).1 ≡ some totp
      → is_used (verify_with lib cipher code (record { row = row; user = user }) (some c)).0.row d
        ≡ true
  unfolding verify_with
  verify_with-uses code row user c d le h = consume_otp_counter-uses c d row user le (ground arith)

  attempt-on :
      (row : Option OtpRow) (a : Attempt) (c : ℕ)
      → counter_in a ≡ some c
      → a.user.otp_enabled ≡ true
      → attempt row a ≡ verify_with lib cipher a.code (record { row = row; user = a.user }) (some c)
  unfolding verify_otp_factor
  attempt-on row a c e on = ground arith

  attempt-uses :
      (row : Option OtpRow) (a : Attempt) (c d : ℕ)
      → counter_in a ≡ some c
      → d ≤ c
      → (attempt row a).1 ≡ some totp
      → is_used (attempt row a).0.row d ≡ true
  unfolding verify_otp_factor
  attempt-uses row a c d e le h = elim (Bool-cases a.user.otp_enabled) [
    | inl on ↦
        let same = attempt-on row a c e on in
        ap (λ r. is_used r.0.row d) same
        ∙ verify_with-uses a.code row a.user c d le (sym (ap (λ r. r.1) same) ∙ h)
    | inr off ↦ ground arith
  ]

  verify_with-refuses :
      (code : Text) (row : Option OtpRow) (user : OtpRow) (d : ℕ)
      → is_used row d ≡ true
      → (verify_with lib cipher code (record { row = row; user = user }) (some d)).1 ≡ none
  unfolding verify_with
  verify_with-refuses code row user d h = ground (arith, consume_otp_counter-refuses d row user h)

  attempt-refuses :
      (row : Option OtpRow) (a : Attempt) (d : ℕ)
      → counter_in a ≡ some d
      → is_used row d ≡ true
      → (attempt row a).1 ≡ none
  unfolding verify_otp_factor
  attempt-refuses row a d e h = elim (Bool-cases a.user.otp_enabled) [
    | inl on ↦ ap (λ r. r.1) (attempt-on row a d e on) ∙ verify_with-refuses a.code row a.user d h
    | inr off ↦ ground arith
  ]

  -- If `verify_otp_factor` accepted a code of time step `c`, then after any further attempts, each
  -- with its own and possibly outdated copy of the user, an attempt with a code of that time step or an
  -- earlier one is refused, as a code of either kind.
  pub verify_otp_factor-NoReplay :
      (row : Option OtpRow) (first : Attempt) (between : List Attempt) (again : Attempt) (c d : ℕ)
      → (attempt row first).1 ≡ some totp
      → counter_in first ≡ some c
      → counter_in again ≡ some d
      → d ≤ c
      → (attempt (after (attempt row first).0.row between) again).1 ≡ none
  verify_otp_factor-NoReplay row first between again c d accepted ec ed le =
      attempt-refuses (after (attempt row first).0.row between) again d ed (
        after-keeps (attempt row first).0.row between d (attempt-uses row first c d ec le accepted))
