-- ===== src/Renewal/Execute/PurgeGuard.antt =====
-- Artifacts are deleted only directly after the supervisor has reported that Caddy runs.
use caddybuddy.Renewal.Defs.{
  api_reload, acquisition_sync, restart_repair, artifact_purge, Capability, Mode, Site, ScopeType,
  stuck, cancelled, timeout_error, is_exception, Raised, Settings,
}
use caddybuddy.Renewal.Execute.Actions.{
  api_reload-Keeps, acquisition-Keeps, restart_repair-Keeps, check_supervisor-Keeps,
  reload_and_monitor-Keeps, AllowsWatching,
}
use caddybuddy.Renewal.Execute.Parts.{trusted-Keeps, execute-Keeps}
use caddybuddy.Renewal.Execute.Run.{execute, run_in}
use caddybuddy.Renewal.Effects.Keeps.{Keeps-continue, Keeps-pure, Keeps, Answer-cases}
use caddybuddy.Renewal.Execute.Paths.{
  execute_artifact_purge, purge_artifacts, go_on, returned, Step, after_purge, is_running,
  check_supervisor,
}
use caddybuddy.Text.{Text}
use caddybuddy.Renewal.Effects.{
  raised, handle, pure, get_supervisor, supervisor_status, try_except, ◌>>=◌, ok, purge, History,
  Services,
}
use caddybuddy.Renewal.Execute.Wait.{with_control_timeout}
use caddybuddy.Supervisor.Defs.{StatusResult}
use caddybuddy.Domains.Shape.{Runtime}
use caddybuddy.Prelude.{◌≡◌, ap, ◌∙◌, inl, inr, Bool, true, false, List, [], ◌∷◌, arith, Bool-cases}

-- The last call asked for the status, and the answer was that Caddy is running.
abbrev pub AfterRunning : Services → History → Type 0
AfterRunning sv (supervisor_status ∷ h) =
    (s : StatusResult) × (sv.status h ≡ ok s) × (is_running s ≡ true)
AfterRunning sv _ = ⊥

-- So it was at each purge.
abbrev pub PurgeGuarded : Services → History → Type 0
PurgeGuarded sv [] = Unit
PurgeGuarded sv (purge _ _ ∷ h) = AfterRunning sv h × PurgeGuarded sv h
PurgeGuarded sv (_ ∷ h) = PurgeGuarded sv h

module _ (rt : Runtime) (sv : Services) (settings : Settings) where
  watching : AllowsWatching (PurgeGuarded sv)
  watching = record {
    publishing = λ a h p. p;
    configuring = λ h p. p;
    opening = λ h p. p;
    asking = λ h p. p;
    reading = λ h p. p;
    scanning = λ h p. p;
    sleeping = λ a h p. p;
    invalidating = λ a h p. p;
    fetching = λ a h p. p;
  }

  supervisor_raised :
      (x : Raised) (h : History)
      → (handle is_exception (λ _. pure false) (raised x) h).0 ≡ ok true
      → ⊥
  unfolding pure
  supervisor_raised x h e = ground arith

  status_raised :
      (h : History) (x : Raised) {u : Unit {0}}
      → sv.status (get_supervisor ∷ h) ≡ raised x
      → sv.supervisor h ≡ ok u
      → (check_supervisor rt sv settings h).0 ≡ ok true
      → ⊥
  unfolding check_supervisor with_control_timeout ◌>>=◌
  status_raised h timeout_error answered found e =
      let seen : ok false ≡ ok true = rw (found, answered) at e in cc
  status_raised h cancelled answered found e =
      let seen : raised cancelled ≡ ok true = rw (found, answered) at e in cc
  status_raised h stuck answered found e =
      let seen : raised stuck ≡ ok true = rw (found, answered) at e in cc
  status_raised h _ answered found e =
      let seen : ok false ≡ ok true = rw (found, answered) at e in cc

  -- What `check_supervisor` returns `true` after.
  check_running :
      (h : History)
      → (check_supervisor rt sv settings h).0 ≡ ok true
      → AfterRunning sv (check_supervisor rt sv settings h).1
  unfolding check_supervisor with_control_timeout ◌>>=◌ try_except
  check_running h e = elim (Answer-cases (sv.supervisor h)) [
    | inl (u, found) ↦ elim (Answer-cases (sv.status (get_supervisor ∷ h))) [
      | inl (s, answered) ↦
          let seen : ok (is_running s) ≡ ok true = rw (found, answered) at e in
          rw (found, answered) (s, answered, cc)
      | inr (x, answered) ↦ absurd (status_raised h x answered found e)
    ]
    | inr (x, missing) ↦ absurd (supervisor_raised x _ (rw missing at e))
  ]

  after_purge-Keeps :
      (domains : List Text) (step : Step)
      → Keeps (PurgeGuarded sv) (after_purge rt sv settings domains step)
  unfolding after_purge
  after_purge-Keeps domains go_on =
      reload_and_monitor-Keeps (PurgeGuarded sv) watching rt sv settings domains (λ h p. p)
        (λ h p. p)
  after_purge-Keeps domains (returned o) = Keeps-pure o

  purge_raised :
      (scope : Text) (scope_type : ScopeType) (h : History) (x : Raised)
      → sv.purged h ≡ raised x
      → (purge_artifacts rt sv settings scope scope_type h).1 ≡ purge scope scope_type ∷ h
  unfolding purge_artifacts with_control_timeout ◌>>=◌
  purge_raised scope scope_type h timeout_error e = rw e
  purge_raised scope scope_type h _ e = rw e

  -- The second `try` block makes one call.
  purge_artifacts-history :
      (scope : Text) (scope_type : ScopeType) (h : History)
      → (purge_artifacts rt sv settings scope scope_type h).1 ≡ purge scope scope_type ∷ h
  unfolding purge_artifacts with_control_timeout ◌>>=◌
  purge_artifacts-history scope scope_type h = elim (Answer-cases (sv.purged h)) [
    | inl (n, e) ↦ rw e
    | inr (x, e) ↦ purge_raised scope scope_type h x e
  ]

  purge_after_check :
      (domains : List Text) (scope : Text) (scope_type : ScopeType) (h : History)
      → PurgeGuarded sv h
      → AfterRunning sv h
      → PurgeGuarded sv
          ((purge_artifacts rt sv settings scope scope_type >>= after_purge rt sv settings domains)
            h).1
  unfolding ◌>>=◌
  purge_after_check domains scope scope_type h p running =
      (Keeps-continue (purge_artifacts rt sv settings scope scope_type h).0 _
          (λ step _. after_purge-Keeps domains step)).at
        _ (rw purge_artifacts-history (running, p))

  purge-Keeps :
      (domains : List Text) (scope : Text) (scope_type : ScopeType)
      → Keeps (PurgeGuarded sv) (execute_artifact_purge rt sv settings domains scope scope_type)
  unfolding execute_artifact_purge ◌>>=◌
  purge-Keeps domains scope scope_type = record {
    at = λ h p.
        let checked =
          (check_supervisor-Keeps (PurgeGuarded sv) watching rt sv settings (λ k q. q)
              (λ k q. q)).at
            h p in
        elim (Answer-cases (check_supervisor rt sv settings h).0) [
          | inr (x, e) ↦ rw e checked
          | inl (ready, e) ↦ elim (Bool-cases ready) [
            | inl yes' ↦
                rw (e, yes')
                  (purge_after_check domains scope scope_type _ checked
                    (check_running h (e ∙ ap ok yes')))
            | inr no' ↦ rw (e, no') checked
          ]
        ];
  }

  run_in-Keeps :
      (m : Mode) (plan : Capability) (domains : List Text) (primary : Text)
      → Keeps (PurgeGuarded sv) (run_in rt sv settings m plan domains primary)
  unfolding run_in
  run_in-Keeps artifact_purge plan domains primary = purge-Keeps domains _ plan.scope_type
  run_in-Keeps restart_repair plan domains primary =
      restart_repair-Keeps (PurgeGuarded sv) watching rt sv settings domains (λ h p. p) (λ h p. p)
  run_in-Keeps acquisition_sync plan domains primary =
      acquisition-Keeps (PurgeGuarded sv) watching rt sv settings domains
  run_in-Keeps api_reload plan domains primary =
      api_reload-Keeps (PurgeGuarded sv) watching rt sv settings domains (λ h p. p) (λ h p. p)
  run_in-Keeps _ plan domains primary = Keeps-pure _

  -- Whatever plan is handed in and whatever the services answer: if every purge so far came directly
  -- after a status call that was answered with success and "running", the same holds after `execute`,
  -- whether it returns or raises.
  pub execute-PurgeGuarded :
      (site : Site) (plan : Capability) (confirmed : Bool) (h : History)
      → PurgeGuarded sv h
      → PurgeGuarded sv (execute rt sv settings site plan confirmed h).1
  execute-PurgeGuarded site plan confirmed =
      (execute-Keeps rt sv settings site plan confirmed (λ ds h p. p)
        (λ trusted a _ targets.
          trusted-Keeps rt sv settings trusted confirmed targets (λ s h p. p) (λ s h p. p)
            (λ _ domains primary. run_in-Keeps trusted.mode trusted domains primary))).at
