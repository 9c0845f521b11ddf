-- ===== src/Renewal/Execute/Backed.antt =====
-- What a reported success rests on.
use caddybuddy.Renewal.Defs.{
  wildcard_scope_required, artifact_purge, acquisition_sync, restart_repair, runtime_error,
  Capability, ScopeType, api_reload, service_error, Mode, Raised, failed, stuck, Outcome, Settings,
}
use caddybuddy.Renewal.Effects.Yields.{
  Yields-try_finally, Yields-try_except, Yields-Keeps, Yields-pre, Yields-pure, Yields-if,
  Yields-bind, Yields-raise, Yields-then, Yields,
}
use caddybuddy.Renewal.Execute.Run.{
  run_mode, confirm_and_run, with_lock, execute_trusted, report, run_in,
}
use caddybuddy.Renewal.Execute.Paths.{
  go_on, reported, returned, Step, after_purge, execute_artifact_purge, failure_of, purge_artifacts,
  purge_step, monitor_after_reload, restart_after_failed_reload, execute_acquisition_sync,
  execute_restart_repair, finish_restart, reload_and_monitor,
}
use caddybuddy.Renewal.Effects.{
  ◌>>=◌, call, pure, admin_load, supervisor_reload, supervisor_restart, scan_storage, purge, Eff,
  History, Services,
}
use caddybuddy.Renewal.Effects.Keeps.{Keeps-call, Keeps-bind, Keeps-pure, Keeps-try_except, Keeps}
use caddybuddy.Renewal.Execute.Verify.{
  invalidate_one, fetch_remote_info, invalidate_all, verify_renewal_success,
}
use caddybuddy.Renewal.Execute.Wait.{
  unless_cancelled, all_complete, artifacts_round, poll_artifacts, wait_for_local_artifacts,
}
use caddybuddy.Text.{Text}
use caddybuddy.Domains.Shape.{Runtime}
use caddybuddy.Prelude.{
  ℕ, zero, suc, ◌-◌, String, ◌≡◌, refl, sym, ◌∙◌, Bool, true, false, not, ◌&&◌, false≢true, none,
  some, List, [], ◌∷◌, arith, leb, if◌then◌else◌,
}

module _ (rt : Runtime) (sv : Services) (settings : Settings) (domains : List Text) where
  -- Of the scans of the storage, restarts, reloads and purges the last one is a scan, and it found
  -- complete artifacts for every domain.
  abbrev pub Confirmed : History → Type 0
  Confirmed [] = ⊥
  Confirmed (scan_storage ∷ h) = all_complete rt sv settings domains h ≡ true
  Confirmed (purge _ _ ∷ h) = ⊥
  Confirmed (supervisor_restart ∷ h) = ⊥
  Confirmed (supervisor_reload ∷ h) = ⊥
  Confirmed (admin_load ∷ h) = ⊥
  Confirmed (_ ∷ h) = Confirmed h

  abbrev Found : Bool → History → Type 0
  Found b h = b ≡ true → Confirmed h

  abbrev pub Backed : Outcome → History → Type 0
  Backed o h = o.success ≡ true → Confirmed h

  abbrev Anything : History → Type 0
  Anything h = Unit

  scan-Found :
      Yields Anything
        (call scan_storage
          (λ h. unless_cancelled rt sv settings (all_complete rt sv settings domains h) h))
        Found
  unfolding call
  scan-Found = record { at = λ h a p e s. ground arith }

  failed-Backed : (m : String) → Yields Anything (pure (failed m)) Backed
  unfolding pure
  failed-Backed m = record { at = λ h a p e s. ground arith }

  artifacts_round-Found :
      (start timeout : ℕ) (again : Eff Bool)
      → Yields Anything again Found
      → Yields Anything (artifacts_round rt sv settings domains start timeout again) Found
  unfolding artifacts_round
  artifacts_round-Found start timeout again k = Yields-then _ _ (λ time.
      Yields-if (leb timeout (time - start)) (pure false) _
        (λ _. Yields-pure false (λ h p e. absurd (false≢true e)))
        (λ _. Yields-bind Found _ _ scan-Found (λ complete.
          Yields-if complete (pure true) _ (λ c. Yields-pure true (λ h f e. f c))
            (λ _. Yields-then {A = Unit {0}} _ _ (λ _. Yields-pre _ (λ h p. tt) k)))))

  poll_artifacts-Found :
      (fuel start timeout : ℕ)
      → Yields Anything (poll_artifacts rt sv settings fuel domains start timeout) Found
  unfolding poll_artifacts
  poll_artifacts-Found zero start timeout = Yields-raise stuck
  poll_artifacts-Found (suc fuel) start timeout =
      artifacts_round-Found start timeout _ (poll_artifacts-Found fuel start timeout)

  wait-Found :
      (timeout : ℕ)
      → Yields Anything (wait_for_local_artifacts rt sv settings domains timeout) Found
  unfolding wait_for_local_artifacts
  wait-Found timeout = Yields-then _ _ (λ start. poll_artifacts-Found _ start timeout)

  invalidate_all-Confirmed : (ds : List Text) → Keeps Confirmed (invalidate_all rt sv settings ds)
  unfolding invalidate_all invalidate_one
  invalidate_all-Confirmed [] = Keeps-pure tt
  invalidate_all-Confirmed (d ∷ ds) =
      Keeps-bind _ _ (Keeps-try_except _ _ _ (Keeps-call _ _ (λ h p. p)) (λ e. Keeps-pure tt))
        (λ _. invalidate_all-Confirmed ds)

  fetch_remote_info-Confirmed : Keeps Confirmed (fetch_remote_info rt sv settings domains)
  unfolding fetch_remote_info
  fetch_remote_info-Confirmed =
      Keeps-try_except _ _ _
        (Keeps-bind _ _ (Keeps-call _ _ (λ h p. p)) (λ infos. Keeps-pure (some infos)))
        (λ e. Keeps-pure none)

  pub verify-Backed : Yields Anything (verify_renewal_success rt sv settings domains) Backed
  unfolding verify_renewal_success
  verify-Backed = Yields-bind Found _ _ (wait-Found settings.cert_renewal_monitor_timeout) (λ b.
      Yields-if (not b) _ _ (λ _. Yields-pre {Pre = Anything} _ (λ h f. tt) (failed-Backed _))
        (λ found.
          Yields-pre {Pre = Confirmed} _ (λ h f. f (ground arith))
            (Yields-bind (λ _. Confirmed) _ _
              (Yields-Keeps _ (invalidate_all-Confirmed domains) (λ h a p. p))
              (λ _.
                Yields-bind (λ _. Confirmed) _ _
                  (Yields-Keeps _ fetch_remote_info-Confirmed (λ h a p. p))
                  (λ infos. Yields-pure _ (λ h p e. p))))))

  -- `if not b: return False, m`
  unless-Backed :
      (b : Bool) (m : String) (rest : Eff Outcome)
      → Yields Anything rest Backed
      → Yields Anything (if not b then pure (failed m) else rest) Backed
  unless-Backed b m rest k = Yields-if (not b) _ _ (λ _. failed-Backed m) (λ _. k)

  then-Backed {ℓ} :
      {A : Type ℓ} (m : Eff A) (f : A → Eff Outcome)
      → ((a : A) → Yields Anything (f a) Backed)
      → Yields Anything (m >>= f) Backed
  then-Backed m f k = Yields-then m f k

  finish_restart-Backed : Yields Anything (finish_restart rt sv settings domains) Backed
  unfolding finish_restart
  finish_restart-Backed =
      then-Backed _ _ (λ b. unless-Backed b _ _ (then-Backed _ _ (λ _. verify-Backed)))

  restart_repair-Backed : Yields Anything (execute_restart_repair rt sv settings domains) Backed
  unfolding execute_restart_repair
  restart_repair-Backed = then-Backed _ _ (λ _.
      then-Backed _ _
        (λ _. then-Backed _ _ (λ result. unless-Backed result.success _ _ finish_restart-Backed)))

  acquisition-Backed : Yields Anything (execute_acquisition_sync rt sv settings domains) Backed
  unfolding execute_acquisition_sync
  acquisition-Backed = then-Backed _ _ (λ _. verify-Backed)

  failed_reload-Backed : Yields Anything (restart_after_failed_reload rt sv settings domains) Backed
  unfolding restart_after_failed_reload
  failed_reload-Backed =
      then-Backed _ _
        (λ _. then-Backed _ _ (λ r. unless-Backed r.success _ _ finish_restart-Backed))

  monitor-Backed : Yields Anything (monitor_after_reload rt sv settings domains) Backed
  unfolding monitor_after_reload
  monitor-Backed = then-Backed _ _ (λ _. then-Backed _ _ (λ artifacts_ok.
      Yields-if artifacts_ok _ _ (λ _. verify-Backed)
        (λ _.
          then-Backed _ _
            (λ _. then-Backed _ _ (λ r. unless-Backed r.success _ _ finish_restart-Backed)))))

  reload_and_monitor-Backed : Yields Anything (reload_and_monitor rt sv settings domains) Backed
  unfolding reload_and_monitor
  reload_and_monitor-Backed = then-Backed _ _ (λ result.
      Yields-if (not result.success) _ _ (λ _. failed_reload-Backed) (λ _. monitor-Backed))

  -- A step that returned did so with a failure.
  abbrev StepFails : Step → Type 0
  StepFails go_on = Unit
  StepFails (returned o) = o.success ≡ false

  purge_step-StepFails : (n : ℕ) → StepFails (purge_step n)
  unfolding purge_step
  purge_step-StepFails zero = refl
  purge_step-StepFails (suc n) = tt

  handler-StepFails :
      (e : Raised)
      → StepFails
          (returned (failure_of reported (failed "Error deleting certificate artifacts.") e))
  unfolding failure_of
  handler-StepFails (service_error m) = refl
  handler-StepFails _ = refl

  purge_artifacts-StepFails :
      (scope : Text) (scope_type : ScopeType)
      → Yields Anything (purge_artifacts rt sv settings scope scope_type) (λ step _. StepFails step)
  unfolding purge_artifacts
  purge_artifacts-StepFails scope scope_type =
      Yields-try_except _ _ _ (Yields-then _ _ (λ n. Yields-pure _ (λ h p. purge_step-StepFails n)))
        (λ e. Yields-pure _ (λ h p. handler-StepFails e))

  after_purge-Backed :
      (step : Step) → Yields (λ _. StepFails step) (after_purge rt sv settings domains step) Backed
  unfolding after_purge
  after_purge-Backed go_on = Yields-pre _ (λ h p. tt) reload_and_monitor-Backed
  after_purge-Backed (returned o) = Yields-pure o (λ h p e. absurd (false≢true (sym p ∙ e)))

  artifact_purge-Backed :
      (scope : Text) (scope_type : ScopeType)
      → Yields Anything (execute_artifact_purge rt sv settings domains scope scope_type) Backed
  unfolding execute_artifact_purge
  artifact_purge-Backed scope scope_type = then-Backed _ _ (λ ready. unless-Backed ready _ _ (
      Yields-bind (λ step _. StepFails step) _ _ (purge_artifacts-StepFails scope scope_type)
        after_purge-Backed))

  abbrev pub IsControlled : Mode → Type 0
  IsControlled api_reload = ⊥
  IsControlled _ = Unit

  pub run_in-Backed :
      (m : Mode) (plan : Capability) (primary : Text)
      → IsControlled m
      → Yields Anything (run_in rt sv settings m plan domains primary) Backed
  unfolding run_in pure
  run_in-Backed restart_repair plan primary i = restart_repair-Backed
  run_in-Backed acquisition_sync plan primary i = acquisition-Backed
  run_in-Backed artifact_purge plan primary i = artifact_purge-Backed _ _
  run_in-Backed api_reload plan primary i = absurd i
  run_in-Backed wildcard_scope_required plan primary i = failed-Backed _
  run_in-Backed Mode.storage_unavailable plan primary i = failed-Backed _
  run_in-Backed Mode.unavailable plan primary i = record { at = λ h a p e s. ground arith }

  report-fails : (e : Raised) → (report e).success ≡ false
  unfolding report
  report-fails (service_error m) = refl
  report-fails (runtime_error m) = refl
  report-fails _ = refl

  reporting-Backed : (e : Raised) → Yields Anything (pure (report e)) Backed
  unfolding pure
  reporting-Backed e = record { at = λ h a p eq s. ground (arith, report-fails e) }

pub trusted-Backed :
    (rt : Runtime) (sv : Services) (settings : Settings) (d : Text) (ds : List Text)
    (trusted : Capability) (confirmed : Bool)
    → IsControlled rt sv settings (d ∷ ds) trusted.mode
    → Yields
        (λ _. Unit {0})
        (execute_trusted rt sv settings trusted confirmed (d ∷ ds))
        (Backed rt sv settings (d ∷ ds))
unfolding execute_trusted with_lock confirm_and_run run_mode
trusted-Backed rt sv settings d ds trusted confirmed i =
    Yields-try_except _ _ _
      (Yields-then _ _ (λ acquired.
        Yields-if acquired _ _
          (λ _.
            Yields-try_finally _ _
              (Yields-if (trusted.requires_confirmation && not confirmed) _ _
                (λ _. failed-Backed rt sv settings (d ∷ ds) _)
                (λ _. run_in-Backed rt sv settings (d ∷ ds) trusted.mode trusted d i))
              (λ o h b. b))
          (λ _. Yields-raise _)))
      (λ e. reporting-Backed rt sv settings (d ∷ ds) e)
