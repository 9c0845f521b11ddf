-- ===== src/Supervisor/Control.antt =====
-- `restart`, `reload` and `status` of the four supervisors, on what the child process did.
pub mod Laws
use caddybuddy.Supervisor.Defs.{
  with_output, stopped, running, disabled, literal, unknown, with_action, ControlError,
  RestartResult, StatusResult, SupervisorStatus,
}
use caddybuddy.Text.{is_space, member, text, text_eq, Text}
use caddybuddy.Text.Strip.{strip_by}
use caddybuddy.Domains.Shape.{Runtime}
use caddybuddy.Prelude.{
  ℕ, zero, suc, ◌+◌, ◌-◌, ◌*◌, ◌/◌, ◌%◌, ◌^◌, ◌≤◌, ◌<◌, String, ◌≡◌, refl, sym, ap, ◌∙◌, subst, ◌≢◌,
  ◌↔◌, ◌⊎◌, inl, inr, Bool, true, false, not, ◌&&◌, ◌||◌, false≢true, Option, none, some, List, [],
  ◌∷◌, ◌++◌, map, reverse, arith, ltb, leb, ◌==◌, if◌then◌else◌, ltb→lt, lt→ltb, leb→le, ==_iff,
  Bool-cases, Option-cases, and-eq-true, length, is_nil, All, length-append, all, any, all-append,
  All-append, All-all,
}

-- A child process: it could not be started or awaited, it was killed after the timeout, or it ended.
-- A stream is `none` if its bytes are no UTF-8 (`decode` raises). Of the exit status the program
-- reads only whether it is zero.
pub data Process : Type 0 where
  failed_to_run killed : Process
  ended : Bool → Option Text → Option Text → Process

abbrev pub refused : Option ControlError → RestartResult
refused error = record { success = false; output = []; error = error }

-- The shared shape: the error after a timeout, and the one after a failure. The standard error is
-- decoded for the log only, but where that raises, the handler's result is returned.
unfoldable pub run_result : ControlError → ControlError → Process → RestartResult
run_result on_timeout on_failure failed_to_run = refused (some on_failure)
run_result on_timeout on_failure killed = refused (some on_timeout)
run_result on_timeout on_failure (ended exit_zero none stderr) = refused (some on_failure)
run_result on_timeout on_failure (ended true (some stdout) stderr) = record {
  success = true;
  output = strip_by is_space stdout;
  error = none;
}
run_result on_timeout on_failure (ended false (some stdout) none) = refused (some on_failure)
run_result on_timeout on_failure (ended false (some stdout) (some stderr)) = record {
  success = false;
  output = strip_by is_space stdout;
  error = some on_failure;
}

-- `_run_systemctl`, for the two actions that `restart` and `reload` pass.
unfoldable pub run_systemctl : String → Process → RestartResult
unfolding run_result
run_systemctl action =
    run_result (with_action "Timeout executing systemctl " action)
      (with_action "Failed to execute systemctl " action)

unfoldable pub run_docker : String → Process → RestartResult
unfolding run_result
run_docker action =
    run_result (with_action "Timeout executing docker " action)
      (with_action "Failed to execute docker " action)

unfoldable pub docker_reload : Process → RestartResult
unfolding run_result
docker_reload =
    run_result (literal "Timeout executing caddy reload inside docker")
      (literal "Failed to reload Caddy inside docker.")

unfoldable pub run_script : String → Process → RestartResult
unfolding run_result
run_script action =
    run_result (with_action "Timeout executing script " action)
      (with_action "Failed to execute control script " action)

abbrev pub found : SupervisorStatus → StatusResult
found s = record { success = true; status = s; error = none }

abbrev pub not_found : ControlError → StatusResult
not_found e = record { success = false; status = unknown; error = some e }

-- `stdout.decode().strip().lower()`
unfoldable pub answer_of : Runtime → Text → Text
answer_of rt stdout = rt.lower (strip_by is_space stdout)

abbrev pub systemd_stopped_outputs : List Text
systemd_stopped_outputs =
    text "inactive" ∷ text "failed" ∷ text "unknown" ∷ text "deactivating" ∷ text "activating" ∷ []

abbrev pub docker_stopped_outputs : List Text
docker_stopped_outputs = text "exited" ∷ text "created" ∷ text "paused" ∷ text "dead" ∷ []

abbrev pub script_running_outputs : List Text
script_running_outputs = text "running" ∷ text "active" ∷ text "ok" ∷ []

abbrev pub script_stopped_outputs : List Text
script_stopped_outputs = text "stopped" ∷ text "inactive" ∷ text "failed" ∷ []

module _ (rt : Runtime) where
  -- The exit status is read only for an answer that is neither.
  unfoldable pub systemd_answer : Bool → Option Text → Text → StatusResult
  systemd_answer exit_zero stderr output =
      if text_eq output (text "active")
      then found running
      else if member output systemd_stopped_outputs
      then found stopped
      else if not exit_zero
      then not_found (literal "Failed to check Caddy service status.")
      else not_found (with_output "Unexpected status output: " output)

  unfoldable pub systemd_status : Process → StatusResult
  unfolding systemd_answer answer_of
  systemd_status failed_to_run = not_found (literal "Failed to check Caddy service status.")
  systemd_status killed = not_found (literal "Timeout checking systemctl is-active")
  systemd_status (ended exit_zero none stderr) =
      not_found (literal "Failed to check Caddy service status.")
  systemd_status (ended exit_zero (some stdout) stderr) =
      systemd_answer exit_zero stderr (answer_of rt stdout)

  unfoldable pub docker_answer : Text → StatusResult
  docker_answer output =
      if text_eq output (text "running")
      then found running
      else if member output docker_stopped_outputs
      then found stopped
      else record {
        success = true;
        status = unknown;
        error = some (with_output "Container status is " output);
      }

  unfoldable pub docker_status : Process → StatusResult
  unfolding docker_answer answer_of
  docker_status failed_to_run = not_found (literal "Failed to check Docker container status.")
  docker_status killed = not_found (literal "Timeout executing docker inspect")
  docker_status (ended false stdout stderr) =
      not_found (literal "Failed to check Docker container status.")
  docker_status (ended true none stderr) =
      not_found (literal "Failed to check Docker container status.")
  docker_status (ended true (some stdout) stderr) = docker_answer (answer_of rt stdout)

  unfoldable pub script_answer : Text → StatusResult
  script_answer output =
      if member output script_running_outputs
      then found running
      else if member output script_stopped_outputs
      then found stopped
      else not_found (literal "Control script status returned unexpected output.")

  unfoldable pub script_status : Process → StatusResult
  unfolding script_answer answer_of
  script_status failed_to_run = not_found (literal "Failed to check control script status.")
  script_status killed = not_found (literal "Timeout executing script status")
  script_status (ended exit_zero none stderr) =
      not_found (literal "Failed to check control script status.")
  script_status (ended true (some stdout) stderr) = script_answer (answer_of rt stdout)
  script_status (ended false (some stdout) none) =
      not_found (literal "Failed to check control script status.")
  script_status (ended false (some stdout) (some stderr)) =
      not_found (literal "Control script status failed.")

-- `DisabledSupervisor`
abbrev pub disabled_restart : RestartResult
disabled_restart = refused (
    some (
      literal
        "Caddy restart capability is not configured. Forced renewal for this state is unavailable from CaddyBuddy."))

abbrev pub disabled_reload : RestartResult
disabled_reload = refused (some (literal "Caddy reload capability is not configured."))

abbrev pub disabled_status : StatusResult
disabled_status = found disabled

-- The supervisor that `get_caddy_supervisor` builds, by the control mode.
pub data Kind : Type 0 where
  systemd docker script off : Kind

unfoldable pub restart : Kind → Process → RestartResult
unfolding run_systemctl run_docker run_script
restart Kind.systemd p = run_systemctl "restart" p
restart Kind.docker p = run_docker "restart" p
restart Kind.script p = run_script "restart" p
restart off p = disabled_restart

unfoldable pub reload : Kind → Process → RestartResult
unfolding run_systemctl docker_reload run_script
reload Kind.systemd p = run_systemctl "reload" p
reload Kind.docker p = docker_reload p
reload Kind.script p = run_script "reload" p
reload off p = disabled_reload

unfoldable pub status : Runtime → Kind → Process → StatusResult
unfolding systemd_status docker_status script_status
status rt Kind.systemd p = systemd_status rt p
status rt Kind.docker p = docker_status rt p
status rt Kind.script p = script_status rt p
status rt off p = disabled_status
