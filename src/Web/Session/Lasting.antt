-- ===== src/Web/Session/Lasting.antt =====
-- How long a session lasts from the login on.
use caddybuddy.Web.Session.{
  is_over, Number, finite, is_after, is_infinite, is_string, user_session_fingerprint, integer, pos,
  second, string, int_of, clock_skew, is_true, judge_times, rejected, ℤ, judge, judge_id,
  judge_user, seconds, set_item, cleared, get_session_user, initialize_user_session,
  session_timestamp, text, text_eq, Web, Store, User, SessionData, Answer,
}
use caddybuddy.Web.Session.Live.{IsRunning, get_session_user-IsLive}
use caddybuddy.Text.{text_eq_iff, text_eq}
use caddybuddy.Prelude.{
  ℕ, zero, suc, ◌+◌, ◌*◌, ◌≤◌, ◌≡◌, refl, sym, ap, ◌∙◌, subst, ◌⊎◌, inl, inr, Bool, true, false,
  not, ◌||◌, Option, none, some, List, [], ◌∷◌, arith, if◌then◌else◌, All,
}

-- Requests, each with the users stored at its time.
abbrev pub after_requests : Web → List (Store × ℕ) → SessionData → SessionData
after_requests w [] s = s
after_requests w ((store, now) ∷ rs) s = after_requests w rs (get_session_user w store now s).1

module _ (P : SessionData → Type 0) where
  either : (b : Bool) (x y : Answer) → P x.1 → P y.1 → P (if b then x else y).1
  either true x y hx hy = hx
  either false x y hx hy = hy

  module _ (gone : P cleared) where
    judge_user-Keeps :
        (w : Web) (now : ℕ) (s : SessionData) (o : Option User)
        → P (set_item (text "session_last_activity") (seconds now) s)
        → P (judge_user w now s o).1
    unfolding judge_user
    judge_user-Keeps w now s none h = gone
    judge_user-Keeps w now s (some u) h =
        either (not u.is_active) rejected _ gone (either _ _ rejected h gone)

    judge_id-Keeps :
        (w : Web) (store : Store) (now : ℕ) (s : SessionData) (o : Option ℤ)
        → P s
        → P (set_item (text "session_last_activity") (seconds now) s)
        → P (judge_id w store now s o).1
    unfolding judge_id
    judge_id-Keeps w store now s none same h =
        either (is_infinite (s (text "user_id"))) (none, s) rejected same gone
    judge_id-Keeps w store now s (some i) same h = judge_user-Keeps w now s (store i) h

    judge-Keeps :
        (w : Web) (store : Store) (now : ℕ) (s : SessionData) (c l : Option Number)
        → P s
        → P (set_item (text "session_last_activity") (seconds now) s)
        → P (judge w store now s c l).1
    unfolding judge judge_times
    judge-Keeps w store now s none l same h = gone
    judge-Keeps w store now s (some c) none same h = gone
    judge-Keeps w store now s (some c) (some l) same h =
        let old = is_over now (w.session_absolute_timeout_seconds * second) c in
        let idle = is_over now (w.session_inactivity_timeout_seconds * second) l in
        let identified = judge_id w store now s (int_of w (s (text "user_id"))) in
        let in_time = if idle then rejected else identified in
        let young = if old then rejected else in_time in
        either (is_after (now + clock_skew) c || is_after (now + clock_skew) l) rejected young gone
          (either old rejected in_time gone (
            either idle rejected identified gone
              (judge_id-Keeps w store now s (int_of w (s (text "user_id"))) same h)))

    get_session_user-Keeps :
        (w : Web) (store : Store) (now : ℕ) (s : SessionData)
        → P s
        → P (set_item (text "session_last_activity") (seconds now) s)
        → P (get_session_user w store now s).1
    unfolding get_session_user
    get_session_user-Keeps w store now s same h =
        either (is_true (s (text "user_id"))) _ (none, s) (judge-Keeps w store now s _ _ same h)
          same

-- The time of the login is still in the session, or no time of a login.
abbrev Began : ℕ → SessionData → Type 0
Began start s =
    (s (text "session_created_at") ≡ none) ⊎ (s (text "session_created_at") ≡ some (seconds start))

after_requests-Began :
    (w : Web) (start : ℕ) (rs : List (Store × ℕ)) (s : SessionData)
    → Began start s
    → Began start (after_requests w rs s)
unfolding text_eq
after_requests-Began w start [] s h = h
after_requests-Began w start ((store, now) ∷ rs) s h =
    after_requests-Began w start rs (get_session_user w store now s).1
      (get_session_user-Keeps (Began start) (inl refl) w store now s h h)

session_timestamp-seconds :
    (w : Web) (start : ℕ) (c : Number)
    → session_timestamp w (some (seconds start)) ≡ some c
    → finite start ≡ c
unfolding session_timestamp
session_timestamp-seconds w zero c h = ground (arith, h)
session_timestamp-seconds w (suc n) c h = ground (arith, h)

Began-created :
    (w : Web) (start : ℕ) (c : Number) (s : SessionData)
    → Began start s
    → session_timestamp w (s (text "session_created_at")) ≡ some c
    → finite start ≡ c
unfolding session_timestamp
Began-created w start c s (inl gone) h =
    let bad : none ≡ some c = ap (session_timestamp w) (sym gone) ∙ h in ground (arith, bad)
Began-created w start c s (inr began) h =
    session_timestamp-seconds w start c (ap (session_timestamp w) (sym began) ∙ h)

-- After a login and any requests, at any times and with any changes to the stored users in between,
-- a request that is still answered with a user comes at most the absolute timeout after the login.
pub get_session_user-IsBounded :
    (w : Web) (start : ℕ) (user : User) (rs : List (Store × ℕ)) (store : Store) (now : ℕ) (u : User)
    → (get_session_user w store now (after_requests w rs (initialize_user_session w start user))).0
      ≡ some u
    → now ≤ start + w.session_absolute_timeout_seconds * second
unfolding initialize_user_session text_eq
get_session_user-IsBounded w start user rs store now u h =
    let s = after_requests w rs (initialize_user_session w start user) in
    let live = get_session_user-IsLive w store now s u h in
    let began = after_requests-Began w start rs (initialize_user_session w start user) (inr refl) in
    let same = Began-created w start live.created s began live.created_at in
    subst (IsRunning now (w.session_absolute_timeout_seconds * second)) (sym same) live.absolute

-- The session of a user, begun at one time and last used at another.
record IsFresh (w : Web) (u : User) (start last : ℕ) (s : SessionData) : Type 0 where
  user_id : s (text "user_id") ≡ some (integer (pos u.id))
  created : s (text "session_created_at") ≡ some (seconds start)
  last_used : s (text "session_last_activity") ≡ some (seconds last)
  fingerprint : s (text "user_fingerprint") ≡ some (string (user_session_fingerprint w u))

-- A user with a number from one on who can log in.
pub record IsStored (u : User) (store : Store) : Type 0 where
  pub found : store (pos u.id) ≡ some u
  pub active : u.is_active ≡ true

is_fingerprint :
    (w : Web) (u : User) (s : SessionData)
    → s (text "user_fingerprint") ≡ some (string (user_session_fingerprint w u))
    → is_string (user_session_fingerprint w u) (s (text "user_fingerprint")) ≡ true
is_fingerprint w u s h =
    ap (is_string (user_session_fingerprint w u)) h
    ∙ (text_eq_iff (user_session_fingerprint w u) (user_session_fingerprint w u)).1 refl

judge_user-fresh :
    (w : Web) (u : User) (now : ℕ) (s : SessionData)
    → u.is_active ≡ true
    → s (text "user_fingerprint") ≡ some (string (user_session_fingerprint w u))
    → judge_user w now s (some u)
      ≡ (some u, set_item (text "session_last_activity") (seconds now) s)
unfolding judge_user
judge_user-fresh w u now s active same = rw (judge_user, active, is_fingerprint w u s same) refl

judge_times-fresh :
    (w : Web) (u : User) (store : Store) (start last now : ℕ) (s : SessionData)
    → IsFresh w u start last s
    → IsStored u store
    → start ≤ last
    → last ≤ now
    → now ≤ last + w.session_inactivity_timeout_seconds * second
    → now ≤ start + w.session_absolute_timeout_seconds * second
    → judge_times w store now s (finite start) (finite last)
      ≡ (some u, set_item (text "session_last_activity") (seconds now) s)
unfolding judge_times is_after is_over
judge_times-fresh w u store start last now s h stored h1 h2 h3 h4 =
    let skew = now + clock_skew in
    let no_future : (is_after skew (finite start) || is_after skew (finite last)) ≡ false =
      ground (arith, h1, h2) in
    let absolute = w.session_absolute_timeout_seconds * second in
    let young : is_over now absolute (finite start) ≡ false = ground (arith, h4) in
    let pause = w.session_inactivity_timeout_seconds * second in
    let busy : is_over now pause (finite last) ≡ false = ground (arith, h3) in
    rw (judge_times, no_future, young, busy)
      (ap (judge_id w store now s) (ap (int_of w) h.user_id)
        ∙ ap (judge_user w now s) stored.found
        ∙ judge_user-fresh w u now s stored.active h.fingerprint)

is_user_id : (n : ℕ) → 1 ≤ n → is_true (some (integer (pos n))) ≡ true
is_user_id zero h = ground (arith, h)
is_user_id (suc n) h = ground arith

timestamp-seconds :
    (w : Web) (t : ℕ) → 1 ≤ t → session_timestamp w (some (seconds t)) ≡ some (finite t)
unfolding session_timestamp
timestamp-seconds w zero h = ground (arith, h)
timestamp-seconds w (suc t) h = refl

get_session_user-fresh :
    (w : Web) (u : User) (store : Store) (start last now : ℕ) (s : SessionData)
    → 1 ≤ u.id
    → 1 ≤ start
    → IsFresh w u start last s
    → IsStored u store
    → start ≤ last
    → last ≤ now
    → now ≤ last + w.session_inactivity_timeout_seconds * second
    → now ≤ start + w.session_absolute_timeout_seconds * second
    → get_session_user w store now s
      ≡ (some u, set_item (text "session_last_activity") (seconds now) s)
unfolding get_session_user judge
get_session_user-fresh w u store start last now s hu hs h stored h1 h2 h3 h4 =
    let id : is_true (s (text "user_id")) ≡ true = ap is_true h.user_id ∙ is_user_id u.id hu in
    let c = ap (session_timestamp w) h.created ∙ timestamp-seconds w start hs in
    let l =
      ap (session_timestamp w) h.last_used ∙ timestamp-seconds w last (ground (arith, hs, h1)) in
    rw (get_session_user, id, c, l)
      (judge_times-fresh w u store start last now s h stored h1 h2 h3 h4)

set_item-IsFresh :
    (w : Web) (u : User) (start last now : ℕ) (s : SessionData)
    → IsFresh w u start last s
    → IsFresh w u start now (set_item (text "session_last_activity") (seconds now) s)
unfolding text_eq
set_item-IsFresh w u start last now s h = record {
  user_id = h.user_id;
  created = h.created;
  last_used = refl;
  fingerprint = h.fingerprint;
}

login-IsFresh :
    (w : Web) (u : User) (start : ℕ) → IsFresh w u start start (initialize_user_session w start u)
unfolding initialize_user_session text_eq
login-IsFresh w u start = record {
  user_id = refl;
  created = refl;
  last_used = refl;
  fingerprint = refl;
}

-- The users that requests one after the other are answered with.
abbrev pub answers : Web → List (Store × ℕ) → SessionData → List (Option User)
answers w [] s = []
answers w ((store, now) ∷ rs) s =
    (get_session_user w store now s).0 ∷ answers w rs (get_session_user w store now s).1

-- The user is stored at each request, which comes within both timeouts.
pub data InTime (w : Web) (u : User) (start : ℕ) : ℕ → List (Store × ℕ) → Type 0 where
  done : {last : ℕ} → InTime w u start last []
  next :
      {last now : ℕ} {store : Store} {rs : List (Store × ℕ)}
      → IsStored u store
      → last ≤ now
      → now ≤ last + w.session_inactivity_timeout_seconds * second
      → now ≤ start + w.session_absolute_timeout_seconds * second
      → InTime w u start now rs
      → InTime w u start last ((store, now) ∷ rs)

answers-fresh :
    (w : Web) (u : User) (start last : ℕ) (rs : List (Store × ℕ)) (s : SessionData)
    → 1 ≤ u.id
    → 1 ≤ start
    → start ≤ last
    → IsFresh w u start last s
    → InTime w u start last rs
    → All (λ o. o ≡ some u) (answers w rs s)
answers-fresh w u start last [] s hu hs hl h t = tt
answers-fresh w u start last ((store, now) ∷ rs) s hu hs hl h (next stored h1 h2 h3 later) =
    let found = get_session_user-fresh w u store start last now s hu hs h stored hl h1 h2 h3 in
    let fresh = set_item-IsFresh w u start last now s h in
    (
      ap (λ a. a.0) found,
      subst (λ t. All (λ o. o ≡ some u) (answers w rs t)) (sym (ap (λ a. a.1) found))
          (answers-fresh w u start now rs (set_item (text "session_last_activity") (seconds now) s)
            hu hs (omega arith) fresh later),
    )

-- After a login every request is answered with the user, as long as the user is stored unchanged and
-- active, no pause is longer than the inactivity timeout, and the absolute timeout has not passed
-- since the login; the clock does not go back.
pub login-Lasts :
    (w : Web) (u : User) (start : ℕ) (rs : List (Store × ℕ))
    → 1 ≤ u.id
    → 1 ≤ start
    → InTime w u start start rs
    → All (λ o. o ≡ some u) (answers w rs (initialize_user_session w start u))
login-Lasts w u start rs hu hs t =
    answers-fresh w u start start rs (initialize_user_session w start u) hu hs (omega arith)
      (login-IsFresh w u start) t
