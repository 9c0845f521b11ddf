-- ===== src/Supervisor/Defs.antt =====
-- The results of app/services/supervisor.py.
use caddybuddy.Prelude.{String, Bool, Option}
use caddybuddy.Text.{Text}

-- An error text: a literal, or a format string and its argument.
pub data ControlError : Type 0 where
  literal : String → ControlError
  with_action : String → String → ControlError
  with_output : String → Text → ControlError

pub record RestartResult : Type 0 where
  pub success : Bool
  pub output : Text
  pub error : Option ControlError

pub data SupervisorStatus : Type 0 where
  running stopped disabled unknown : SupervisorStatus

pub record StatusResult : Type 0 where
  pub success : Bool
  pub status : SupervisorStatus
  pub error : Option ControlError
