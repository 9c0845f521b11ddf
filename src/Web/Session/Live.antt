-- ===== src/Web/Session/Live.antt =====
-- What a user that `get_session_user` returns has passed.
use caddybuddy.Web.Session.{
  nan, infinite, finite, Number, is_after, is_infinite, is_over, seconds, is_true, set_item, Answer,
  get_session_user, judge, judge_id, judge_times, second, clock_skew, session_timestamp, text,
  int_of, user_session_fingerprint, is_string, judge_user, rejected, ℤ, Web, Store, User,
  SessionData,
}
use caddybuddy.Prelude.{
  ℕ, ◌+◌, ◌*◌, ◌≤◌, ◌≡◌, refl, subst, ◌≢◌, Bool, true, false, not, ◌||◌, Option, none, some, arith,
  if◌then◌else◌,
}

-- A time is at most the limit; NaN is compared with nothing.
abbrev pub IsAtMost : ℕ → Number → Type 0
IsAtMost limit (finite n) = n ≤ limit
IsAtMost limit infinite = 1 ≤ 0
IsAtMost limit nan = Unit

-- A timeout that began at a time still runs; one that began at NaN runs for ever.
abbrev pub IsRunning : ℕ → ℕ → Number → Type 0
IsRunning now timeout (finite n) = now ≤ n + timeout
IsRunning now timeout infinite = Unit
IsRunning now timeout nan = Unit

-- A session of an active user whose times are within the limits, unless they are NaN, and whose
-- fingerprint is that of the user's present password and second factor.
pub record IsLive (w : Web) (store : Store) (now : ℕ) (s : SessionData) (u : User) : Type 0 where
  pub id : ℤ
  pub names_user : int_of w (s (text "user_id")) ≡ some id
  pub stored : store id ≡ some u
  pub active : u.is_active ≡ true
  pub created : Number
  pub created_at : session_timestamp w (s (text "session_created_at")) ≡ some created
  pub last : Number
  pub last_activity : session_timestamp w (s (text "session_last_activity")) ≡ some last
  pub no_future : IsAtMost (now + clock_skew) created × IsAtMost (now + clock_skew) last
  pub absolute : IsRunning now (w.session_absolute_timeout_seconds * second) created
  pub inactivity : IsRunning now (w.session_inactivity_timeout_seconds * second) last
  pub fingerprint : is_string (user_session_fingerprint w u) (s (text "user_fingerprint")) ≡ true

is_after-IsAtMost : (limit : ℕ) (n : Number) → is_after limit n ≡ false → IsAtMost limit n
unfolding is_after
is_after-IsAtMost limit (finite n) h = ground (arith, h)
is_after-IsAtMost limit infinite h = absurd (ground (arith, h))
is_after-IsAtMost limit nan h = tt

is_over-IsRunning :
    (now timeout : ℕ) (n : Number) → is_over now timeout n ≡ false → IsRunning now timeout n
unfolding is_over
is_over-IsRunning now timeout (finite n) h = ground (arith, h)
is_over-IsRunning now timeout infinite h = tt
is_over-IsRunning now timeout nan h = tt

rejected-none : (u : User) → rejected.0 ≢ some u
rejected-none u h = ground (arith, h)

-- A guard that rejects has not held where there is a user.
refused :
    (b : Bool) (x : Answer) (u : User)
    → (if b then rejected else x).0 ≡ some u
    → (b ≡ false) × (x.0 ≡ some u)
refused true x u h = absurd (rejected-none u h)
refused false x u h = (refl, h)

granted :
    (b : Bool) (x : Answer) (u : User)
    → (if b then x else rejected).0 ≡ some u
    → (b ≡ true) × (x.0 ≡ some u)
granted true x u h = (refl, h)
granted false x u h = absurd (rejected-none u h)

record IsUser (w : Web) (s : SessionData) (o : Option User) (u : User) : Type 0 where
  found : o ≡ some u
  active : u.is_active ≡ true
  fingerprint : is_string (user_session_fingerprint w u) (s (text "user_fingerprint")) ≡ true

judge_user-IsUser :
    (w : Web) (now : ℕ) (s : SessionData) (o : Option User) (u : User)
    → (judge_user w now s o).0 ≡ some u
    → IsUser w s o u
unfolding judge_user
judge_user-IsUser w now s none u h = absurd (rejected-none u h)
judge_user-IsUser w now s (some v) u h =
    let print = is_string (user_session_fingerprint w v) (s (text "user_fingerprint")) in
    let found : Answer = (some v, set_item (text "session_last_activity") (seconds now) s) in
    let (act, kept) = refused (not v.is_active) (if print then found else rejected) u h in
    let (same, here) = granted print found u kept in
    let eq : v ≡ u = ground (arith, here) in
    record {
      found = here;
      active = subst (λ x. x.is_active ≡ true) eq (ground (arith, act));
      fingerprint =
          subst (λ x. is_string (user_session_fingerprint w x) (s (text "user_fingerprint")) ≡ true)
            eq same;
    }

no_user : (b : Bool) (s : SessionData) (u : User) → (if b then (none, s) else rejected).0 ≢ some u
no_user true s u h = ground (arith, h)
no_user false s u h = ground (arith, h)

judge_id-IsUser :
    (w : Web) (store : Store) (now : ℕ) (s : SessionData) (o : Option ℤ) (u : User)
    → (judge_id w store now s o).0 ≡ some u
    → (i : ℤ) × (o ≡ some i) × IsUser w s (store i) u
unfolding judge_id
judge_id-IsUser w store now s none u h = absurd (no_user (is_infinite (s (text "user_id"))) s u h)
judge_id-IsUser w store now s (some i) u h = (i, refl, judge_user-IsUser w now s (store i) u h)

both-false : (a b : Bool) → (a || b) ≡ false → (a ≡ false) × (b ≡ false)
both-false a b h = (ground (arith, h), ground (arith, h))

judge_times-IsLive :
    (w : Web) (store : Store) (now : ℕ) (s : SessionData) (c l : Number) (u : User)
    → session_timestamp w (s (text "session_created_at")) ≡ some c
    → session_timestamp w (s (text "session_last_activity")) ≡ some l
    → (judge_times w store now s c l).0 ≡ some u
    → IsLive w store now s u
unfolding judge_times
judge_times-IsLive w store now s c l u hc hl h =
    let identified = judge_id w store now s (int_of w (s (text "user_id"))) in
    let old = is_over now (w.session_absolute_timeout_seconds * second) c in
    let idle = is_over now (w.session_inactivity_timeout_seconds * second) l in
    let (no_future, h1) =
      refused (is_after (now + clock_skew) c || is_after (now + clock_skew) l)
        (if old then rejected else if idle then rejected else identified) u h in
    let (past_c, past_l) =
      both-false (is_after (now + clock_skew) c) (is_after (now + clock_skew) l) no_future in
    let (young, h2) = refused old (if idle then rejected else identified) u h1 in
    let (busy, h3) = refused idle identified u h2 in
    let (i, names_user, found) =
      judge_id-IsUser w store now s (int_of w (s (text "user_id"))) u h3 in
    record {
      id = i;
      names_user = names_user;
      stored = found.found;
      active = found.active;
      created = c;
      created_at = hc;
      last = l;
      last_activity = hl;
      no_future = (
        is_after-IsAtMost (now + clock_skew) c past_c,
        is_after-IsAtMost (now + clock_skew) l past_l,
      );
      absolute = is_over-IsRunning now (w.session_absolute_timeout_seconds * second) c young;
      inactivity = is_over-IsRunning now (w.session_inactivity_timeout_seconds * second) l busy;
      fingerprint = found.fingerprint;
    }

judge-IsLive :
    (w : Web) (store : Store) (now : ℕ) (s : SessionData) (c l : Option Number) (u : User)
    → session_timestamp w (s (text "session_created_at")) ≡ c
    → session_timestamp w (s (text "session_last_activity")) ≡ l
    → (judge w store now s c l).0 ≡ some u
    → IsLive w store now s u
unfolding judge
judge-IsLive w store now s none l u hc hl h = absurd (rejected-none u h)
judge-IsLive w store now s (some c) none u hc hl h = absurd (rejected-none u h)
judge-IsLive w store now s (some c) (some l) u hc hl h =
    judge_times-IsLive w store now s c l u hc hl h

only_if :
    (b : Bool) (x : Answer) (s : SessionData) (u : User)
    → (if b then x else (none, s)).0 ≡ some u
    → x.0 ≡ some u
only_if true x s u h = h
only_if false x s u h = ground (arith, h)

-- A user that `get_session_user` returns is stored and active under the number in the session, the
-- session carries the fingerprint of the user's present password and second factor, neither of its
-- times is more than the clock skew ahead, and both timeouts still run. A time that is NaN is the
-- exception: it passes every one of these tests, as it does in the program, and its timeout never ends.
pub get_session_user-IsLive :
    (w : Web) (store : Store) (now : ℕ) (s : SessionData) (u : User)
    → (get_session_user w store now s).0 ≡ some u
    → IsLive w store now s u
unfolding get_session_user
get_session_user-IsLive w store now s u h =
    let c = session_timestamp w (s (text "session_created_at")) in
    let l = session_timestamp w (s (text "session_last_activity")) in
    judge-IsLive w store now s c l u refl refl
      (only_if (is_true (s (text "user_id"))) (judge w store now s c l) s u h)
