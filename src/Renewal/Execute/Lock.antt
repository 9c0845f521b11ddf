-- ===== src/Renewal/Execute/Lock.antt =====
-- The lock file is held during everything that changes Caddy, and let go on every way out.
use caddybuddy.Renewal.Effects.{
  Answer, admin_load, release, Eff, raised, supervisor_reload, ok, supervisor_restart, ◌>>=◌,
  acquire, purge, History, Services,
}
use caddybuddy.Renewal.Defs.{
  api_reload, acquisition_sync, restart_repair, artifact_purge, Outcome, Capability, Mode, Site,
  Settings,
}
use caddybuddy.Renewal.Execute.Actions.{
  api_reload-Keeps, acquisition-Keeps, restart_repair-Keeps, artifact_purge-Keeps, AllowsWatching,
}
use caddybuddy.Renewal.Execute.Run.{
  unconfirmed, safe_scope, execute, run_mode, confirm_and_run, execute_trusted, run_in, with_lock,
}
use caddybuddy.Renewal.Effects.Keeps.{Keeps-if, Answer-cases, Keeps-try_except, Keeps-pure, Keeps}
use caddybuddy.Renewal.Execute.Parts.{execute-Keeps}
use caddybuddy.Domains.Shape.{Runtime}
use caddybuddy.Text.{Text}
use caddybuddy.Prelude.{
  ◌≡◌, refl, inl, inr, Bool, true, false, not, ◌&&◌, Option, none, some, List, [], ◌∷◌, Bool-cases,
}

abbrev pub taken_by : Answer Bool → Text → Option Text → Option Text
taken_by (ok true) scope before = some scope
taken_by (ok false) scope before = before
taken_by (raised e) scope before = before

-- The lock that is held after a history.
abbrev pub holder : Services → History → Option Text
holder sv [] = none
holder sv (acquire s ∷ h) = taken_by (sv.lock h) s (holder sv h)
holder sv (release s ∷ h) = none
holder sv (_ ∷ h) = holder sv h

abbrev IsHeld : Option Text → Type 0
IsHeld none = ⊥
IsHeld (some s) = Unit

-- Restarts, reloads and purges were called with the lock held.
abbrev pub Disciplined : Services → History → Type 0
Disciplined sv [] = Unit
Disciplined sv (supervisor_restart ∷ h) = IsHeld (holder sv h) × Disciplined sv h
Disciplined sv (supervisor_reload ∷ h) = IsHeld (holder sv h) × Disciplined sv h
Disciplined sv (admin_load ∷ h) = IsHeld (holder sv h) × Disciplined sv h
Disciplined sv (purge _ _ ∷ h) = IsHeld (holder sv h) × Disciplined sv h
Disciplined sv (_ ∷ h) = Disciplined sv h

abbrev pub Free : Services → History → Type 0
Free sv h = Disciplined sv h × (holder sv h ≡ none)

abbrev Held : Services → History → Type 0
Held sv h = Disciplined sv h × IsHeld (holder sv h)

module _ (rt : Runtime) (sv : Services) (settings : Settings) where
  watching : AllowsWatching (Held sv)
  watching = record {
    publishing = λ a h p. p;
    configuring = λ h p. p;
    opening = λ h p. p;
    asking = λ h p. p;
    reading = λ h p. p;
    scanning = λ h p. p;
    sleeping = λ a h p. p;
    invalidating = λ a h p. p;
    fetching = λ a h p. p;
  }

  run_in-Held :
      (m : Mode) (plan : Capability) (domains : List Text) (primary : Text)
      → Keeps (Held sv) (run_in rt sv settings m plan domains primary)
  unfolding run_in
  run_in-Held artifact_purge plan domains primary =
      artifact_purge-Keeps (Held sv) watching rt sv settings domains _ plan.scope_type (λ h p. p)
        (λ h p. p) (λ h p. ((p.1, p.0), p.1)) (λ h p. ((p.1, p.0), p.1)) (λ h p. ((p.1, p.0), p.1))
  run_in-Held restart_repair plan domains primary =
      restart_repair-Keeps (Held sv) watching rt sv settings domains (λ h p. p)
        (λ h p. ((p.1, p.0), p.1))
  run_in-Held acquisition_sync plan domains primary =
      acquisition-Keeps (Held sv) watching rt sv settings domains
  run_in-Held api_reload plan domains primary =
      api_reload-Keeps (Held sv) watching rt sv settings domains (λ h p. p)
        (λ h p. ((p.1, p.0), p.1))
  run_in-Held _ plan domains primary = Keeps-pure _

  with_lock-Free :
      (scope : Text) (body : Eff Outcome)
      → Keeps (Held sv) body
      → Keeps (Free sv) (with_lock rt sv settings scope body)
  unfolding with_lock ◌>>=◌
  with_lock-Free scope body k = record {
    at = λ h p. elim (Answer-cases (sv.lock h)) [
      | inl (locked, e) ↦ elim (Bool-cases locked) [
        | inl taken ↦
            let inside : Held sv (acquire (safe_scope rt sv settings scope) ∷ h) =
              (p.0, rw (e, taken) tt) in
            rw (e, taken) ((k.at _ inside).0, refl)
        | inr busy ↦ rw (e, busy) (p.0, rw (e, busy) p.1)
      ]
      | inr (x, e) ↦ rw e (p.0, rw e p.1)
    ];
  }

  trusted-Free :
      (trusted : Capability) (confirmed : Bool) (targets : List Text)
      → Keeps (Free sv) (execute_trusted rt sv settings trusted confirmed targets)
  unfolding execute_trusted confirm_and_run run_mode
  trusted-Free trusted confirmed [] = Keeps-pure _
  trusted-Free trusted confirmed (d ∷ ds) =
      Keeps-try_except _ _ _
        (with_lock-Free _ _ (
          Keeps-if (trusted.requires_confirmation && not confirmed) _ _ (Keeps-pure unconfirmed)
            (run_in-Held trusted.mode trusted (d ∷ ds) d)))
        (λ e. Keeps-pure _)

  -- Whatever plan is handed in and whatever the services answer: if the lock is free and so far every
  -- supervisor restart and reload, Admin API load and purge was called with the lock held, then so it
  -- is after `execute`, whether it returns or raises.
  pub execute-Free :
      (site : Site) (plan : Capability) (confirmed : Bool) (h : History)
      → Free sv h
      → Free sv (execute rt sv settings site plan confirmed h).1
  execute-Free site plan confirmed =
      (execute-Keeps {P = Free sv} rt sv settings site plan confirmed (λ ds h p. p)
        (λ trusted a _ targets. trusted-Free trusted confirmed targets)).at
