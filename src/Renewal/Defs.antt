-- ===== src/Renewal/Defs.antt =====
-- The data of a renewal: `CertificateRenewalCapability` of app/services/certificates.py, the
-- settings and the site fields that are read, the replies, and the exceptions.
use caddybuddy.Prelude.{ℕ, String, Bool, true, false, Option, List}
use caddybuddy.Text.{Text}
use caddybuddy.Certificates.Defs.{CertificateStatus}

pub data Mode : Type 0 where
  artifact_purge api_reload restart_repair wildcard_scope_required : Mode
  acquisition_sync storage_unavailable unavailable : Mode

pub data ScopeType : Type 0 where
  domain_scope wildcard_scope : ScopeType

-- The texts of `reason`; for a wildcard it is the covering name.
pub data Reason : Type 0 where
  no_domains certificate_check_pending check_failed storage_unreadable : Reason
  local_artifact_missing local_artifact_incomplete standard_renewal control_mode_disabled : Reason
  covering : Text → Reason

pub record Capability : Type 0 where
  pub mode : Mode
  pub reason : Reason
  pub requires_confirmation : Bool
  pub scope_name : Option Text
  pub scope_type : ScopeType
  pub wait_domains : List Text

pub data ControlMode : Type 0 where
  disabled systemd docker script : ControlMode

abbrev pub is_disabled : ControlMode → Bool
is_disabled ControlMode.disabled = true
is_disabled _ = false

-- Times are milliseconds.
pub record Settings : Type 0 where
  pub caddy_control_mode : ControlMode
  pub caddy_restart_confirmation_required : Bool
  pub cert_renewal_monitor_timeout : ℕ
  pub cert_renewal_poll_interval : ℕ

pub record Site : Type 0 where
  pub domain : Text
  pub enabled : Bool

-- `info.error_message or info.status`
pub data Detail : Type 0 where
  error_message : String → Detail
  certificate_status : CertificateStatus → Detail

-- A message: a literal, or a format string with its arguments.
pub data Message : Type 0 where
  literal : String → Message
  timed_out : String → Message
  already_running : Text → Message
  mode_is_unavailable : Mode → Message
  admin_reload_failed : Message → Message
  live_verification_failed : List (Text × Detail) → Message

pub record Outcome : Type 0 where
  pub success : Bool
  pub message : Message

abbrev pub failed : String → Outcome
failed m = record { success = false; message = literal m }

abbrev pub succeeded : String → Outcome
succeeded m = record { success = true; message = literal m }

-- Exceptions by class. `cancelled` stands for those that are no `Exception`. `stuck` is no
-- exception: it marks a loop that has used up its fuel.
pub data Raised : Type 0 where
  service_error runtime_error : Message → Raised
  value_error timeout_error other_error cancelled stuck : Raised

-- What `except Exception` catches.
abbrev pub is_exception : Raised → Bool
is_exception cancelled = false
is_exception stuck = false
is_exception _ = true
