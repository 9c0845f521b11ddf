-- ===== src/Web/Session.antt =====
-- `get_session_user` and the two functions that start a session.
pub mod Live
pub mod Lasting
use caddybuddy.Text.{Text, text, text_eq}
use caddybuddy.Prelude.{
  ℕ, zero, suc, ◌+◌, ◌-◌, ◌*◌, ◌/◌, ◌%◌, ◌^◌, ◌≤◌, ◌<◌, String, ◌≡◌, refl, sym, ap, ◌∙◌, subst, ◌≢◌,
  ◌↔◌, ◌⊎◌, inl, inr, Bool, true, false, not, ◌&&◌, ◌||◌, false≢true, Option, none, some, List, [],
  ◌∷◌, ◌++◌, map, reverse, arith, ltb, leb, ◌==◌, if◌then◌else◌, ltb→lt, lt→ltb, leb→le, ==_iff,
  Bool-cases, Option-cases, and-eq-true, length, is_nil, All, length-append, all, any, all-append,
  All-append, All-all,
}

pub data ℤ : Type 0 where
  pos negsuc : ℕ → ℤ

-- A float: a finite one that is not negative, in microseconds, infinity or NaN. One below zero, which
-- every test here treats like zero, counts as zero.
pub data Number : Type 0 where
  finite : ℕ → Number
  infinite nan : Number

-- A value of the session: an integer (a bool is one), a float, a string, `None`, or a list or a
-- dictionary by its truth value. `json` reads NaN and infinity as floats.
pub data Value : Type 0 where
  integer : ℤ → Value
  seconds : ℕ → Value
  infinity not_a_number : Value
  string : Text → Value
  null : Value
  other : Bool → Value

-- The session as a dictionary.
abbrev pub SessionData : Type 0
SessionData = Text → Option Value

-- The columns of a user that the session depends on.
pub record User : Type 0 where
  pub id : ℕ
  pub password_hash : Text
  pub otp_secret : Option Text
  pub otp_enabled : Bool
  pub is_active : Bool

-- What is called and configured: `float` and `int` on a string, `none` where they raise; the HMAC
-- under the application secret in hexadecimal digits; the two timeouts in seconds.
pub record Web : Type 0 where
  pub float : Text → Option Number
  pub int : Text → Option ℤ
  pub mac : Text → Text
  pub session_absolute_timeout_seconds : ℕ
  pub session_inactivity_timeout_seconds : ℕ

-- `user_repository.get_by_id`
abbrev pub Store : Type 0
Store = ℤ → Option User

abbrev pub set_item : Text → Value → SessionData → SessionData
set_item key value s = λ k. if text_eq k key then some value else s k

abbrev pub cleared : SessionData
cleared = λ k. none

abbrev pub second : ℕ
second = 1000000

-- `_SESSION_CLOCK_SKEW_SECONDS`
abbrev pub clock_skew : ℕ
clock_skew = 60 * second

abbrev pub positive : ℕ → Option Number
positive zero = none
positive (suc n) = some (finite (suc n))

-- `parsed <= 0` is false for NaN.
abbrev pub positive_of : Option Number → Option Number
positive_of none = none
positive_of (some (finite n)) = positive n
positive_of (some infinite) = some infinite
positive_of (some nan) = some nan

-- `_session_timestamp`
unfoldable pub session_timestamp : Web → Option Value → Option Number
session_timestamp w none = none
session_timestamp w (some (integer (pos n))) = positive (n * second)
session_timestamp w (some (integer (negsuc n))) = none
session_timestamp w (some (seconds t)) = positive t
session_timestamp w (some infinity) = some infinite
session_timestamp w (some not_a_number) = some nan
session_timestamp w (some (string s)) = positive_of (w.float s)
session_timestamp w (some null) = none
session_timestamp w (some (other b)) = none

unfoldable pub take {ℓ} : {A : Type ℓ} → ℕ → List A → List A
take n [] = []
take zero (x ∷ xs) = []
take (suc n) (x ∷ xs) = x ∷ take n xs

abbrev pub secret_or_empty : Option Text → Text
secret_or_empty none = []
secret_or_empty (some s) = s

abbrev pub str_bool : Bool → Text
str_bool true = text "True"
str_bool false = text "False"

unfoldable pub user_session_fingerprint : Web → User → Text
unfolding take
user_session_fingerprint w u =
    take 16
      (w.mac (u.password_hash ++ 0 ∷ (secret_or_empty u.otp_secret ++ 0 ∷ str_bool u.otp_enabled)))

abbrev pub is_true : Option Value → Bool
is_true none = false
is_true (some (integer (pos n))) = not (n == 0)
is_true (some (integer (negsuc n))) = true
is_true (some (seconds t)) = not (t == 0)
is_true (some infinity) = true
is_true (some not_a_number) = true
is_true (some (string s)) = not (is_nil s)
is_true (some null) = false
is_true (some (other b)) = b

-- `int`, `none` where it raises
abbrev pub int_of : Web → Option Value → Option ℤ
int_of w none = none
int_of w (some (integer i)) = some i
int_of w (some (seconds t)) = some (pos (t / second))
int_of w (some infinity) = none
int_of w (some not_a_number) = none
int_of w (some (string s)) = w.int s
int_of w (some null) = none
int_of w (some (other b)) = none

abbrev pub is_infinite : Option Value → Bool
is_infinite (some infinity) = true
is_infinite _ = false

abbrev pub is_string : Text → Option Value → Bool
is_string t (some (string s)) = text_eq s t
is_string t _ = false

abbrev pub Answer : Type 0
Answer = Option User × SessionData

abbrev pub rejected : Answer
rejected = (none, cleared)

-- From the fingerprint on.
unfoldable pub judge_user : Web → ℕ → SessionData → Option User → Answer
unfolding user_session_fingerprint text_eq
judge_user w now s none = rejected
judge_user w now s (some u) =
    if not u.is_active
    then rejected
    else if is_string (user_session_fingerprint w u) (s (text "user_fingerprint"))
    then (some u, set_item (text "session_last_activity") (seconds now) s)
    else rejected

-- `int` on infinity raises an `OverflowError`, which is not caught: there is no user, and the session
-- stays as it is.
unfoldable pub judge_id : Web → Store → ℕ → SessionData → Option ℤ → Answer
unfolding judge_user
judge_id w store now s none = if is_infinite (s (text "user_id")) then (none, s) else rejected
judge_id w store now s (some id) = judge_user w now s (store id)

-- `created_at > limit`, which is false for NaN
unfoldable pub is_after : ℕ → Number → Bool
is_after limit (finite n) = ltb limit n
is_after limit infinite = true
is_after limit nan = false

-- `(now - created_at) > timeout`, which is false for NaN
unfoldable pub is_over : ℕ → ℕ → Number → Bool
is_over now timeout (finite n) = ltb (n + timeout) now
is_over now timeout infinite = false
is_over now timeout nan = false

-- The tests of the two times, and what follows them.
unfoldable pub judge_times : Web → Store → ℕ → SessionData → Number → Number → Answer
unfolding judge_id is_after is_over
judge_times w store now s created last =
    if is_after (now + clock_skew) created || is_after (now + clock_skew) last
    then rejected
    else if is_over now (w.session_absolute_timeout_seconds * second) created
    then rejected
    else if is_over now (w.session_inactivity_timeout_seconds * second) last
    then rejected
    else judge_id w store now s (int_of w (s (text "user_id")))

unfoldable pub judge : Web → Store → ℕ → SessionData → Option Number → Option Number → Answer
unfolding judge_times
judge w store now s none last = rejected
judge w store now s (some c) none = rejected
judge w store now s (some c) (some l) = judge_times w store now s c l

unfoldable pub get_session_user : Web → Store → ℕ → SessionData → Answer
unfolding judge session_timestamp
get_session_user w store now s =
    if is_true (s (text "user_id"))
    then judge w store now s (session_timestamp w (s (text "session_created_at")))
        (session_timestamp w (s (text "session_last_activity")))
    else (none, s)

unfoldable pub initialize_user_session : Web → ℕ → User → SessionData
unfolding user_session_fingerprint text_eq
initialize_user_session w now u =
    set_item (text "user_fingerprint") (string (user_session_fingerprint w u)) (
      set_item (text "session_last_activity") (seconds now) (
        set_item (text "session_created_at") (seconds now)
          (set_item (text "user_id") (integer (pos u.id)) cleared)))

unfoldable pub initialize_pending_otp_session : Web → ℕ → User → Text → SessionData
unfolding user_session_fingerprint text_eq
initialize_pending_otp_session w now u next_path =
    set_item (text "otp_pending_fingerprint") (string (user_session_fingerprint w u)) (
      set_item (text "otp_pending_next") (string next_path) (
        set_item (text "otp_pending_created_at") (seconds now)
          (set_item (text "otp_pending_user_id") (integer (pos u.id)) cleared)))
