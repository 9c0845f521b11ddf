-- ===== src/Renewal/Execute/Actions.antt =====
-- Which calls each part of an execution makes.
use caddybuddy.Renewal.Effects.{
  History, supervisor_reload, admin_load, purge, supervisor_restart, supervisor_status, Eff,
  admin_get_config, get_supervisor, fetch_remote, invalidate, sleep, scan_storage, read_clock,
  admin_health, admin_open, get_caddy_config, Services, publish, Progress, Action,
}
use caddybuddy.Renewal.Defs.{stuck, ScopeType, Settings}
use caddybuddy.Renewal.Effects.Keeps.{Keeps-bind, Keeps-pure, Keeps-raise, call_rules, Keeps}
use caddybuddy.Renewal.Execute.Verify.{
  invalidate_one, fetch_remote_info, invalidate_all, verify_renewal_success,
}
use caddybuddy.Renewal.Execute.Wait.{
  artifacts_round, health_round, attempt_health, poll_artifacts, poll_health, read,
  wait_for_caddy_health, wait_for_local_artifacts, with_control_timeout, publish_progress,
}
use caddybuddy.Renewal.Execute.Paths.{
  go_on, monitor_after_reload, returned, Step, restart_after_failed_reload, after_purge,
  after_request, check_supervisor, execute_acquisition_sync, execute_api_reload_renewal,
  execute_artifact_purge, execute_restart_repair, finish_restart, purge_artifacts,
  reload_and_monitor, request_reload,
}
use caddybuddy.Text.{Text}
use caddybuddy.Domains.Shape.{Runtime}
use caddybuddy.Prelude.{ℕ, zero, suc, String, Bool, List, [], ◌∷◌}

-- The call keeps `P`, whatever the answer.
abbrev pub Allows : (History → Type 0) → Action → Type 0
Allows P action = (h : History) → P h → P (action ∷ h)

-- The calls that watch and report, and change nothing in Caddy or its storage.
pub record AllowsWatching (P : History → Type 0) : Type 0 where
  pub publishing : (p : Progress) → Allows P (publish p)
  pub configuring : Allows P get_caddy_config
  pub opening : Allows P admin_open
  pub asking : Allows P admin_health
  pub reading : Allows P read_clock
  pub scanning : Allows P scan_storage
  pub sleeping : (n : ℕ) → Allows P (sleep n)
  pub invalidating : (d : Text) → Allows P (invalidate d)
  pub fetching : (ds : List Text) → Allows P (fetch_remote ds)

module _ (P : History → Type 0) (w : AllowsWatching P) (rt : Runtime) (sv : Services)
    (settings : Settings) where
  open w use {
    publishing, configuring, opening, asking, reading, scanning, sleeping, invalidating, fetching,
  }

  pub publish-Keeps : (p : Progress) → Keeps P (publish_progress rt sv settings p)
  unfolding publish_progress
  publish-Keeps p = search (call_rules, publishing)

  pub read-Keeps : Keeps P (read rt sv settings)
  unfolding read
  read-Keeps = search (call_rules, reading)

  pub timeout-Keeps {ℓ} :
      {A : Type ℓ} (m : Eff A) (op : String) → Keeps P m → Keeps P (with_control_timeout m op)
  unfolding with_control_timeout
  timeout-Keeps m op k = search call_rules

  attempt_health-Keeps : Keeps P (attempt_health rt sv settings)
  unfolding attempt_health
  attempt_health-Keeps = search (call_rules, opening, asking)

  health_round-Keeps :
      (start timeout : ℕ) (again : Eff Bool)
      → Keeps P again
      → Keeps P (health_round rt sv settings start timeout again)
  unfolding health_round
  health_round-Keeps start timeout again k =
      search (call_rules, read-Keeps, attempt_health-Keeps, sleeping) depth 9

  poll_health-Keeps :
      (fuel start timeout : ℕ) → Keeps P (poll_health rt sv settings fuel start timeout)
  unfolding poll_health
  poll_health-Keeps zero start timeout = Keeps-raise stuck
  poll_health-Keeps (suc fuel) start timeout =
      health_round-Keeps start timeout _ (poll_health-Keeps fuel start timeout)

  wait_for_caddy_health-Keeps :
      (timeout : ℕ) → Keeps P (wait_for_caddy_health rt sv settings timeout)
  unfolding wait_for_caddy_health
  wait_for_caddy_health-Keeps timeout =
      search (call_rules, read-Keeps, configuring, poll_health-Keeps)

  artifacts_round-Keeps :
      (domains : List Text) (start timeout : ℕ) (again : Eff Bool)
      → Keeps P again
      → Keeps P (artifacts_round rt sv settings domains start timeout again)
  unfolding artifacts_round
  artifacts_round-Keeps domains start timeout again k =
      search (call_rules, read-Keeps, scanning, sleeping) depth 9

  poll_artifacts-Keeps :
      (fuel : ℕ) (domains : List Text) (start timeout : ℕ)
      → Keeps P (poll_artifacts rt sv settings fuel domains start timeout)
  unfolding poll_artifacts
  poll_artifacts-Keeps zero domains start timeout = Keeps-raise stuck
  poll_artifacts-Keeps (suc fuel) domains start timeout =
      artifacts_round-Keeps domains start timeout _
        (poll_artifacts-Keeps fuel domains start timeout)

  pub wait_for_local_artifacts-Keeps :
      (domains : List Text) (timeout : ℕ)
      → Keeps P (wait_for_local_artifacts rt sv settings domains timeout)
  unfolding wait_for_local_artifacts
  wait_for_local_artifacts-Keeps domains timeout =
      search (call_rules, read-Keeps, poll_artifacts-Keeps)

  invalidate_one-Keeps : (d : Text) → Keeps P (invalidate_one rt sv settings d)
  unfolding invalidate_one
  invalidate_one-Keeps d = search (call_rules, invalidating)

  pub invalidate_all-Keeps : (domains : List Text) → Keeps P (invalidate_all rt sv settings domains)
  unfolding invalidate_all
  invalidate_all-Keeps [] = Keeps-pure tt
  invalidate_all-Keeps (d ∷ ds) =
      Keeps-bind _ _ (invalidate_one-Keeps d) (λ _. invalidate_all-Keeps ds)

  fetch_remote_info-Keeps :
      (domains : List Text) → Keeps P (fetch_remote_info rt sv settings domains)
  unfolding fetch_remote_info
  fetch_remote_info-Keeps domains = search (call_rules, fetching)

  pub verify-Keeps : (domains : List Text) → Keeps P (verify_renewal_success rt sv settings domains)
  unfolding verify_renewal_success
  verify-Keeps domains =
      search
        (call_rules, wait_for_local_artifacts-Keeps, invalidate_all-Keeps, fetch_remote_info-Keeps)

  pub finish_restart-Keeps : (domains : List Text) → Keeps P (finish_restart rt sv settings domains)
  unfolding finish_restart
  finish_restart-Keeps domains =
      search (call_rules, wait_for_caddy_health-Keeps, publish-Keeps, verify-Keeps)

  pub acquisition-Keeps :
      (domains : List Text) → Keeps P (execute_acquisition_sync rt sv settings domains)
  unfolding execute_acquisition_sync
  acquisition-Keeps domains = search (call_rules, publish-Keeps, verify-Keeps)

  pub restart_repair-Keeps :
      (domains : List Text)
      → Allows P get_supervisor
      → Allows P supervisor_restart
      → Keeps P (execute_restart_repair rt sv settings domains)
  unfolding execute_restart_repair
  restart_repair-Keeps domains s r =
      search (call_rules, publish-Keeps, timeout-Keeps, finish_restart-Keeps, s, r)

  pub check_supervisor-Keeps :
      Allows P get_supervisor
      → Allows P supervisor_status
      → Keeps P (check_supervisor rt sv settings)
  unfolding check_supervisor
  check_supervisor-Keeps s t = search (call_rules, timeout-Keeps, s, t)

  purge_artifacts-Keeps :
      (scope : Text) (scope_type : ScopeType)
      → Allows P (purge scope scope_type)
      → Keeps P (purge_artifacts rt sv settings scope scope_type)
  unfolding purge_artifacts
  purge_artifacts-Keeps scope scope_type p = search (call_rules, timeout-Keeps, p)

  failed_reload-Keeps :
      (domains : List Text)
      → Allows P supervisor_restart
      → Keeps P (restart_after_failed_reload rt sv settings domains)
  unfolding restart_after_failed_reload
  failed_reload-Keeps domains r =
      search (call_rules, publish-Keeps, timeout-Keeps, finish_restart-Keeps, r) depth 9

  monitor-Keeps :
      (domains : List Text)
      → Allows P supervisor_restart
      → Keeps P (monitor_after_reload rt sv settings domains)
  unfolding monitor_after_reload
  monitor-Keeps domains r =
      search
        (
          call_rules, publish-Keeps, finish_restart-Keeps, wait_for_local_artifacts-Keeps,
          verify-Keeps, r,
        )
        depth 9

  pub reload_and_monitor-Keeps :
      (domains : List Text)
      → Allows P supervisor_restart
      → Allows P supervisor_reload
      → Keeps P (reload_and_monitor rt sv settings domains)
  unfolding reload_and_monitor
  reload_and_monitor-Keeps domains r l =
      search (call_rules, timeout-Keeps, failed_reload-Keeps, monitor-Keeps, r, l)

  after_purge-Keeps :
      (domains : List Text) (step : Step)
      → Allows P supervisor_restart
      → Allows P supervisor_reload
      → Keeps P (after_purge rt sv settings domains step)
  unfolding after_purge
  after_purge-Keeps domains go_on r l = reload_and_monitor-Keeps domains r l
  after_purge-Keeps domains (returned o) r l = search call_rules

  pub artifact_purge-Keeps :
      (domains : List Text) (scope : Text) (scope_type : ScopeType)
      → Allows P get_supervisor
      → Allows P supervisor_status
      → Allows P (purge scope scope_type)
      → Allows P supervisor_restart
      → Allows P supervisor_reload
      → Keeps P (execute_artifact_purge rt sv settings domains scope scope_type)
  unfolding execute_artifact_purge
  artifact_purge-Keeps domains scope scope_type s t p r l =
      search (
        call_rules, check_supervisor-Keeps, purge_artifacts-Keeps, after_purge-Keeps, s, t, p, r, l,
      )

  request_reload-Keeps :
      Allows P admin_get_config → Allows P admin_load → Keeps P (request_reload rt sv settings)
  unfolding request_reload
  request_reload-Keeps g l = search (call_rules, opening, asking, g, l) depth 9

  after_request-Keeps :
      (domains : List Text) (step : Step) → Keeps P (after_request rt sv settings domains step)
  unfolding after_request
  after_request-Keeps domains go_on = search (call_rules, publish-Keeps, invalidate_all-Keeps)
  after_request-Keeps domains (returned o) = search call_rules

  pub api_reload-Keeps :
      (domains : List Text)
      → Allows P admin_get_config
      → Allows P admin_load
      → Keeps P (execute_api_reload_renewal rt sv settings domains)
  unfolding execute_api_reload_renewal
  api_reload-Keeps domains g l =
      search (call_rules, configuring, request_reload-Keeps, after_request-Keeps, g, l)
