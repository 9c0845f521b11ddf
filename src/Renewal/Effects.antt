-- ===== src/Renewal/Effects.antt =====
-- Coroutines that call services and may raise, over the history of the calls made.
pub mod Keeps
pub mod Yields
use caddybuddy.Supervisor.Defs.{RestartResult, StatusResult}
use caddybuddy.Certificates.Defs.{ParsedCertificate, CertificateInfo}
use caddybuddy.Renewal.Defs.{Raised, ScopeType}
use caddybuddy.Text.{Text}
use caddybuddy.Prelude.{
  ℕ, zero, suc, ◌+◌, ◌-◌, ◌*◌, ◌/◌, ◌%◌, ◌^◌, ◌≤◌, ◌<◌, String, ◌≡◌, refl, sym, ap, ◌∙◌, subst, ◌≢◌,
  ◌↔◌, ◌⊎◌, inl, inr, Bool, true, false, not, ◌&&◌, ◌||◌, false≢true, Option, none, some, List, [],
  ◌∷◌, ◌++◌, map, reverse, arith, ltb, leb, ◌==◌, if◌then◌else◌, ltb→lt, lt→ltb, leb→le, ==_iff,
  Bool-cases, Option-cases, and-eq-true, length, is_nil, All, length-append, all, any, all-append,
  All-append, All-all,
}

pub data Progress : Type 0 where
  restarting_caddy waiting_for_certificate : Progress

-- The calls that leave the service, the latest one first in a history.
pub data Action : Type 0 where
  fetch_infos fetch_remote : List Text → Action
  acquire release invalidate : Text → Action
  publish : Progress → Action
  get_supervisor supervisor_status supervisor_restart supervisor_reload : Action
  purge : Text → ScopeType → Action
  get_caddy_config admin_open admin_health admin_get_config admin_load : Action
  read_clock scan_storage : Action
  sleep : ℕ → Action

abbrev pub History : Type 0
History = List Action

pub data Answer {ℓ} (A : Type ℓ) : Type ℓ where
  ok : A → Answer A
  raised : Raised → Answer A

-- What the outside answers to a call that follows a history.
pub record Services : Type 0 where
  pub infos : History → Answer (List (Text × CertificateInfo))
  pub remote : History → Answer (List (Text × CertificateInfo))
  -- `false`: the lock file is locked by another run
  pub lock : History → Answer Bool
  pub has_progress : Bool
  pub progress : History → Answer (Unit {0})
  pub supervisor : History → Answer (Unit {0})
  pub status : History → Answer StatusResult
  pub restart : History → Answer RestartResult
  pub reload : History → Answer RestartResult
  pub purged : History → Answer ℕ
  -- whether an `admin_url` is configured
  pub admin_url : History → Answer Bool
  pub client : History → Answer (Unit {0})
  pub health : History → Answer Bool
  pub current_config : History → Answer (Unit {0})
  pub load : History → Answer (Unit {0})
  pub invalidated : History → Answer (Unit {0})
  pub clock : History → ℕ
  -- whether the coroutine is cancelled while it sleeps or waits for a thread
  pub cancels : History → Bool
  pub scan : History → List ParsedCertificate × Bool
  -- `datetime.now` when a domain is looked up in a scan
  pub now : History → Text → ℕ
  -- `str.isalnum` of one character
  pub isalnum : ℕ → Bool

abbrev pub Eff {ℓ} : Type ℓ → Type ℓ
Eff A = History → Answer A × History

module _ {ℓ} {A : Type ℓ} where
  unfoldable pub pure : A → Eff A
  pure a h = (ok a, h)

  unfoldable pub raise : Raised → Eff A
  raise e h = (raised e, h)

  unfoldable pub call : Action → (History → Answer A) → Eff A
  call action answer h = (answer h, action ∷ h)

  abbrev pub handle : (Raised → Bool) → (Raised → Eff A) → Answer A → Eff A
  handle catches handler (ok a) h = (ok a, h)
  handle catches handler (raised e) h = if catches e then handler e h else (raised e, h)

  -- `try: body` with one `except` clause.
  unfoldable pub try_except : Eff A → (Raised → Bool) → (Raised → Eff A) → Eff A
  try_except body catches handler h = let (r, h') = body h in handle catches handler r h'

  -- `try: body finally: call`, where what the call raises is suppressed.
  unfoldable pub try_finally : Eff A → Action → Eff A
  try_finally body action h = let (r, h') = body h in (r, action ∷ h')

module _ {ℓ κ} {A : Type ℓ} {B : Type κ} where
  abbrev pub continue : Answer A → (A → Eff B) → Eff B
  continue (ok a) f h = f a h
  continue (raised e) f h = (raised e, h)

  infixl 5 ◌>>=◌
  -- opening this opens the other combinators too
  unfoldable pub ◌>>=◌ : Eff A → (A → Eff B) → Eff B
  unfolding pure raise call try_except try_finally
  ◌>>=◌ m f h = let (r, h') = m h in continue r f h'

infixl 5 ◌>>◌
abbrev pub ◌>>◌ {κ} : {B : Type κ} → Eff (Unit {0}) → Eff B → Eff B
m >> n = m >>= λ _. n
