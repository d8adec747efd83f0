-- ===== src/Protocol.antt =====
-- internal/protocol/envelope.go
pub mod Uuid
use s3_agent.Prelude.{ℕ, Bool, Option, none, some, List, [], ◌∷◌, Text, codes}
use s3_agent.Prelude.Int.{ℤ, pos}
use s3_agent.Protocol.Uuid.{new_uuid}

-- An envelope; the payload is JSON text in a message, and a value before it is encoded.
pub record Envelope (P : Type 0) : Type 0 where
  pub v : ℤ
  pub id : Text
  pub message_type : Text
  pub agent_type : Text
  pub agent_uuid : Text
  pub timestamp : ℤ
  pub reply_to : Text
  pub payload : P

pub record CommandPayload : Type 0 where
  pub operation : Text
  pub params : Text
  pub timeout_s : ℤ

pub record ResultPayload (O E : Type 0) : Type 0 where
  pub command_id : Text
  pub status : Text
  pub message : Option E
  pub output : Option O

pub record OperationParam : Type 0 where
  pub name : Text
  pub param_type : Text
  pub required : Bool
  pub description : Text
  pub min_value : Option ℤ

pub record OperationSchema : Type 0 where
  pub operation : Text
  pub description : Text
  pub params : List OperationParam

pub record CapabilitiesPayload : Type 0 where
  pub operations : List OperationSchema
  pub exec_commands : List Text

pub record HeartbeatPayload : Type 0 where
  pub version : Text
  pub uptime_s : ℤ
  pub tasks_queued : ℤ

abbrev pub type_heartbeat : Text
type_heartbeat = codes "heartbeat"

abbrev pub type_telemetry : Text
type_telemetry = codes "telemetry"

abbrev pub type_s3_telemetry : Text
type_s3_telemetry = codes "s3_telemetry"

abbrev pub type_s3_health : Text
type_s3_health = codes "s3_health"

abbrev pub type_s3_audit : Text
type_s3_audit = codes "s3_audit"

abbrev pub type_result : Text
type_result = codes "result"

abbrev pub type_capabilities : Text
type_capabilities = codes "capabilities"

abbrev pub status_completed : Text
status_completed = codes "completed"

abbrev pub status_failed : Text
status_failed = codes "failed"

abbrev pub status_rejected : Text
status_rejected = codes "rejected"

-- What `New` takes from outside: 16 random bytes and the time.
pub record Fresh : Type 0 where
  pub random : List ℕ
  pub now : ℤ

module _ {P : Type 0} where
  -- `New`, for a payload that encoding/json can write; `none` where it cannot.
  unfoldable pub new_envelope : Fresh → Text → Text → Text → Option P → Option (Envelope P)
  unfolding new_uuid
  new_envelope f agent_uuid agent_type message_type none = none
  new_envelope f agent_uuid agent_type message_type (some payload) = some (record {
    v = pos 1;
    id = new_uuid f.random;
    message_type = message_type;
    agent_type = agent_type;
    agent_uuid = agent_uuid;
    timestamp = f.now;
    reply_to = [];
    payload = payload;
  })
