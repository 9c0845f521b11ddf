-- ===== src/Supervisor/Examples.antt =====
-- The theorems on the supervisors applied to one process and one script.
use caddybuddy.Text.{Text, is_digit, is_upper, is_lower, text_eq, text}
use caddybuddy.Certificates.Coverage.{ends_with}
use caddybuddy.Certificates.Cover.{remove_suffix}
use caddybuddy.Supervisor.Names.{
  new_systemd, are_some_to_end, are_to_end, is_unit_char, is_container_char, new_systemd-IsUnit,
  IsUnitText,
}
use caddybuddy.Supervisor.ScriptPath.{
  accepted, parent, path_eq, is_relative_to, allowed_script_root_for, is_group_or_other_writable,
  stat_error, secure_path_error, parent_dirs_error, script_file_error, validate_below,
  validate_resolved, FilePath, FileSystem, validate_script_path,
}
use caddybuddy.Supervisor.Control.Laws.{
  restart-Reports, status-running, SaysRunning, Reports, is_running,
}
use caddybuddy.Supervisor.Control.{reload, restart, Kind, ended, status, Process}
use caddybuddy.Supervisor.ScriptPath.Laws.{validate_script_path-IsSecure, IsConfined}
use caddybuddy.Domains.Examples.{ascii}
use caddybuddy.Prelude.{◌≡◌, refl, ◌↔◌, ◌⊎◌, true, some, [], ◌∷◌, ◌++◌}

abbrev active : Process
active = ended true (some (text "active\n")) (some [])

restart-Reports_example :
    Reports Kind.systemd active (restart Kind.systemd active)
    × Reports Kind.systemd active (reload Kind.systemd active)
restart-Reports_example = restart-Reports Kind.systemd active

status-running_example :
    (is_running (status ascii Kind.systemd active).status ≡ true)
    ↔ SaysRunning ascii Kind.systemd active
status-running_example = status-running ascii Kind.systemd active

-- /app/control, and a system on which root owns all, with mode 0755.
abbrev control : FilePath
control = text "control" ∷ text "app" ∷ []

abbrev root_owned : FileSystem
root_owned = record {
  is_absolute = λ p. true;
  exists = λ p. true;
  is_file = λ p. true;
  resolve = λ p. some control;
  stat = λ p. some (record { uid = 0; mode = 493 });
}

control_passes : validate_script_path root_owned (text "/app/control") ≡ accepted control
unfolding validate_script_path validate_resolved validate_below script_file_error parent_dirs_error
    secure_path_error stat_error is_group_or_other_writable allowed_script_root_for is_relative_to
    path_eq parent text_eq
control_passes = refl

validate_script_path-IsSecure_example :
    (root_owned.resolve (text "/app/control") ≡ some control) × IsConfined root_owned control
validate_script_path-IsSecure_example =
    validate_script_path-IsSecure root_owned (text "/app/control") control control_passes

unit_passes : new_systemd (text "caddy") ≡ some (text "caddy.service")
unfolding new_systemd are_some_to_end are_to_end is_unit_char is_container_char is_lower is_upper
    is_digit ends_with remove_suffix text_eq
unit_passes = refl

new_systemd-IsUnit_example :
    IsUnitText (text "caddy")
    × (((text "caddy.service" ≡ text "caddy")
          × ((p : Text) × (text "caddy" ≡ p ++ text ".service")))
        ⊎ (text "caddy.service" ≡ text "caddy" ++ text ".service"))
new_systemd-IsUnit_example = new_systemd-IsUnit (text "caddy") (text "caddy.service") unit_passes

-- A line feed at the end passes the test of the name, and stays in it.
line_feed_passes :
    new_systemd (text "caddy" ++ 10 ∷ []) ≡ some (text "caddy" ++ 10 ∷ text ".service")
unfolding new_systemd are_some_to_end are_to_end is_unit_char is_container_char is_lower is_upper
    is_digit ends_with remove_suffix text_eq
line_feed_passes = refl
