-- ===== src/Renewal/Execute/Paths.antt =====
-- `_execute_restart_repair`, `_execute_acquisition_sync`, `_execute_artifact_purge` and
-- `_execute_api_reload_renewal`.
use caddybuddy.Supervisor.Defs.{SupervisorStatus, StatusResult}
use caddybuddy.Renewal.Defs.{
  admin_reload_failed, is_exception, succeeded, ScopeType, Settings, service_error, Message,
  Outcome, Raised, failed,
}
use caddybuddy.Renewal.Effects.{
  admin_load, admin_get_config, ◌>>=◌, admin_health, supervisor_restart, supervisor_status,
  admin_open, get_caddy_config, get_supervisor, purge, restarting_caddy, supervisor_reload,
  waiting_for_certificate, call, try_except, ◌>>◌, Eff, pure, Services,
}
use caddybuddy.Domains.Shape.{Runtime}
use caddybuddy.Renewal.Execute.Verify.{invalidate_all, verify_renewal_success}
use caddybuddy.Renewal.Execute.Wait.{
  wait_for_local_artifacts, publish_progress, wait_for_caddy_health, with_control_timeout,
}
use caddybuddy.Text.{Text}
use caddybuddy.Prelude.{
  ℕ, zero, suc, Bool, true, false, not, ◌&&◌, Option, none, some, List, if◌then◌else◌,
}

abbrev pub needs_control_mode : Outcome
needs_control_mode =
    failed
      "Forced renewal needs a working Caddy control mode (systemd, Docker, or script). Configure and start it in Settings."

abbrev pub not_healthy : Outcome
not_healthy = failed "Caddy restarted but admin API did not become healthy."

abbrev pub is_running : StatusResult → Bool
is_running s = s.success && elim s.status [ SupervisorStatus.running ↦ true | _ ↦ false ]

abbrev service_message : Raised → Option Message
service_message (service_error m) = some m
service_message _ = none

-- `except CaddyServiceError` and `except Exception`, each of which returns a failure.
unfoldable pub failure_of : (Message → Outcome) → Outcome → Raised → Outcome
failure_of with_message other e = elim (service_message e) [
  | some m ↦ with_message m
  | none ↦ other
]

abbrev pub reported : Message → Outcome
reported m = record { success = false; message = m }

-- Went past a `try` block, or returned from it.
pub data Step : Type 0 where
  go_on : Step
  returned : Outcome → Step

unfoldable pub purge_step : ℕ → Step
purge_step zero = returned (
    failed
      "Forced renewal could not proceed: no matching local certificate artifacts were removed.")
purge_step (suc deleted) = go_on

module _ (rt : Runtime) (sv : Services) (settings : Settings) where
  -- After a restart: the health of the Admin API, and then the verification.
  unfoldable pub finish_restart : List Text → Eff Outcome
  finish_restart domains = do
    health_ok ← wait_for_caddy_health rt sv settings 30000
    if not health_ok then pure not_healthy else do
      publish_progress rt sv settings waiting_for_certificate
      verify_renewal_success rt sv settings domains

  unfoldable pub execute_restart_repair : List Text → Eff Outcome
  execute_restart_repair domains = do
    publish_progress rt sv settings restarting_caddy
    call get_supervisor sv.supervisor
    result ← with_control_timeout (call supervisor_restart sv.restart) "Caddy restart"
    if not result.success
        then pure (failed "Caddy restart failed during certificate repair.")
        else finish_restart domains

  unfoldable pub execute_acquisition_sync : List Text → Eff Outcome
  execute_acquisition_sync domains = do
    publish_progress rt sv settings waiting_for_certificate
    verify_renewal_success rt sv settings domains

  -- The first `try` block: is the supervisor there, and Caddy running?
  unfoldable pub check_supervisor : Eff Bool
  check_supervisor =
      try_except
        (do
          call get_supervisor sv.supervisor
          status ← with_control_timeout (call supervisor_status sv.status) "Caddy supervisor status"
          pure (is_running status))
        is_exception (λ _. pure false)

  -- The second `try` block.
  unfoldable pub purge_artifacts : Text → ScopeType → Eff Step
  purge_artifacts scope scope_type =
      try_except
        (do
          deleted ←
              with_control_timeout (call (purge scope scope_type) sv.purged)
                "Certificate artifact purge"
          pure (purge_step deleted))
        is_exception
        (λ e.
          pure (returned (failure_of reported (failed "Error deleting certificate artifacts.") e)))

  -- The reload was refused: restart.
  unfoldable pub restart_after_failed_reload : List Text → Eff Outcome
  restart_after_failed_reload domains = do
    publish_progress rt sv settings restarting_caddy
    result ← with_control_timeout (call supervisor_restart sv.restart) "Caddy restart"
    if not result.success
        then pure (failed "Artifacts were purged, but Caddy reload and restart both failed.")
        else finish_restart domains

  -- The reload was accepted: wait, and restart if the artifacts do not come. This restart has no
  -- timeout of its own.
  unfoldable pub monitor_after_reload : List Text → Eff Outcome
  monitor_after_reload domains = do
    publish_progress rt sv settings waiting_for_certificate
    artifacts_ok ←
        wait_for_local_artifacts rt sv settings domains settings.cert_renewal_monitor_timeout
    if artifacts_ok then verify_renewal_success rt sv settings domains else do
      publish_progress rt sv settings restarting_caddy
      result ← call supervisor_restart sv.restart
      if not result.success
          then pure (failed "Artifacts were purged, but Caddy restart fallback failed.")
          else finish_restart domains

  unfoldable pub reload_and_monitor : List Text → Eff Outcome
  reload_and_monitor domains = do
    result ← with_control_timeout (call supervisor_reload sv.reload) "Caddy reload"
    if not result.success then restart_after_failed_reload domains else monitor_after_reload domains

  unfoldable pub after_purge : List Text → Step → Eff Outcome
  after_purge domains (returned o) = pure o
  after_purge domains go_on = reload_and_monitor domains

  unfoldable pub execute_artifact_purge : List Text → Text → ScopeType → Eff Outcome
  execute_artifact_purge domains scope scope_type = do
    ready ← check_supervisor
    if not ready
        then pure needs_control_mode
        else do step ← purge_artifacts scope scope_type; after_purge domains step

  -- The `try` block of the Admin API reload.
  unfoldable pub request_reload : Eff Step
  request_reload =
      try_except
        (do
          call admin_open sv.client
          healthy ← call admin_health sv.health
          if not healthy
              then pure (
                  returned
                    (failed "Caddy Admin API is not reachable. Cannot request a renewal reload."))
              else do call admin_get_config sv.current_config; call admin_load sv.load; pure go_on)
        is_exception
        (λ e. pure (
          returned (
            failure_of (λ m. reported (admin_reload_failed m))
              (failed "Caddy Admin API reload failed.") e)))

  unfoldable pub after_request : List Text → Step → Eff Outcome
  after_request domains (returned o) = pure o
  after_request domains go_on = do
    publish_progress rt sv settings waiting_for_certificate
    invalidate_all rt sv settings domains
    pure (
        succeeded
          "Requested a Caddy reload via the Admin API. Caddy renews the certificate only if it is missing or within its renewal window; a still-valid certificate is not force-renewed without a configured control mode.")

  unfoldable pub execute_api_reload_renewal : List Text → Eff Outcome
  execute_api_reload_renewal domains = do
    configured ← call get_caddy_config sv.admin_url
    if not configured
        then pure (
            failed "Renewal requires a configured Caddy Admin API URL when no control mode is set.")
        else do step ← request_reload; after_request domains step
