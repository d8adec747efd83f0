-- ===== src/Services/Types.antt =====
-- internal/modules/services/types.go, the errors of the operations, and the D-Bus connection: a
-- parameter, where `S` is the state of systemd behind it.
use s3_agent.Prelude.{Bool, Option, List, Text, Result}

pub data ServiceState : Type 0 where
  state_active state_inactive state_failed state_unknown : ServiceState

-- The fields that the code sets; the others keep their zero.
pub record ServiceInfo : Type 0 where
  pub name : Text
  pub description : Text
  pub state : ServiceState
  pub sub_state : Text

pub data ServiceAction : Type 0 where
  action_start action_stop action_restart action_enable action_disable : ServiceAction
  action_reload : ServiceAction

-- The texts of `ActionResult.Message`: `e` stands for the text of an error of the bus.
pub data ActionMessage : Type 0 where
  action_succeeded : (service : Text) (done : Text) → ActionMessage
  bus_unavailable not_supported : ActionMessage
  call_failed : (verb e : Text) → ActionMessage
  job_result : Text → ActionMessage

pub record ActionResult : Type 0 where
  pub service : Text
  pub action : ServiceAction
  pub success : Bool
  pub message : ActionMessage

-- The errors of `List` and `Get`.
pub data ServiceError : Type 0 where
  no_bus unsupported : ServiceError
  listing_units : Text → ServiceError
  querying_unit : (name e : Text) → ServiceError
  unit_not_found : Text → ServiceError

-- `dbus.UnitStatus`
pub record UnitStatus : Type 0 where
  pub name : Text
  pub description : Text
  pub active_state : Text
  pub sub_state : Text

-- The jobs of systemd, on a unit and in a mode. The answer is the result that arrives on the
-- channel, or the error of the call.
abbrev pub Job : Type 0 → Type 0
Job S = Text → Text → S → Result Text Text × S

-- The connection to systemd; an operation may change what systemd holds.
pub record Bus (S : Type 0) : Type 0 where
  pub list_units : S → Result Text (List UnitStatus) × S
  pub list_units_by_names : List Text → S → Result Text (List UnitStatus) × S
  pub start_unit : Job S
  pub stop_unit : Job S
  pub restart_unit : Job S
  pub reload_unit : Job S
  -- The flags are `runtime` and `force`.
  pub enable_unit_files : List Text → Bool → Bool → S → Option Text × S
  pub disable_unit_files : List Text → Bool → S → Option Text × S
  pub daemon_reload : S → Option Text × S
