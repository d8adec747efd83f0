-- ===== src/Publisher/Send.antt =====
-- What internal/publisher/publisher.go sends: the heartbeat, the telemetry, the audit batches, the
-- health events and the capabilities.
use s3_agent.Prelude.{ℕ, Option, none, some, List, [], Text, codes, ok, err}
use s3_agent.Prelude.Int.{pos}
use s3_agent.Config.{AgentConfig, S3Config}
use s3_agent.Protocol.{
  CapabilitiesPayload, HeartbeatPayload, Fresh, new_envelope, type_capabilities, type_heartbeat,
  type_telemetry, type_s3_telemetry, type_s3_health, type_s3_audit,
}
use s3_agent.Nats.{Client, Wire, Message, publish}
use s3_agent.Iso.Metadata.{IsoMetadata}
use s3_agent.S3.Types.{AuditEvent, BucketStat, ClusterComponents, TrafficStat}
use s3_agent.S3.Observer.Change.{Float, Reason}
use s3_agent.S3.Observer.Poll.{Net, poll_cluster}
use s3_agent.S3.Observer.Stats.{bucket_stats}
use s3_agent.S3.Observer.Tail.{LogFile}
use s3_agent.S3.Observer.Traffic.{flush}
use s3_agent.System.{Float64, SystemMetrics, Host, Baseline}
use s3_agent.System.Metrics.{system_info, system_metrics}
use s3_agent.Publisher.Capabilities.{capabilities_payload}

-- `config.AgentVersion`
abbrev pub agent_version : Text
agent_version = codes "1.0.0"

pub record S3TelemetryPayload (F : Type 0) : Type 0 where
  pub components : ClusterComponents F
  pub buckets : List BucketStat
  pub traffic : List TrafficStat

-- `F` and `G` are float64, of the observer and of the system module.
pub data Payload (F G : Type 0) : Type 0 where
  heartbeat : HeartbeatPayload → Payload F G
  telemetry : SystemMetrics G → Payload F G
  s3_telemetry : S3TelemetryPayload F → Payload F G
  s3_health : ClusterComponents F → Reason F → Payload F G
  s3_audit : List AuditEvent → Payload F G
  capabilities : CapabilitiesPayload → Payload F G

-- The publisher: its client, its identity, and what it needs of encoding/json and of the clock.
pub record Post (F G : Type 0) : Type 0 where
  pub wire : Wire
  pub client : Client
  pub agent_uuid : Text
  pub agent_type : Text
  pub fresh : ℕ → Fresh
  pub encode_payload : Payload F G → Option Text

module _ {F G : Type 0} (post : Post F G) where
  -- `protocol.New` and `Publish`: nothing is sent where one of them fails.
  unfoldable pub publish_payload : ℕ → (message_type : Text) → Payload F G → List Message
  unfolding new_envelope publish
  publish_payload now message_type payload =
      elim (new_envelope (post.fresh now) post.agent_uuid post.agent_type message_type
        (post.encode_payload payload)) [ none ↦ [] | some e ↦ publish post.wire now post.client e ]

  -- `sendHeartbeat`
  unfoldable pub send_heartbeat : Option IsoMetadata → Host G → ℕ → List Message
  unfolding publish_payload system_info
  send_heartbeat iso host now = elim (system_info iso host now) [
    | err e ↦ []
    | ok i ↦
        publish_payload now type_heartbeat (
          heartbeat (record { version = agent_version; uptime_s = i.uptime; tasks_queued = pos 0 }))
  ]

  -- The batch that `auditLoop` sends.
  unfoldable pub send_audit : ℕ → List AuditEvent → List Message
  unfolding publish_payload
  send_audit now batch = publish_payload now type_s3_audit (s3_audit batch)

  -- The callback that `Start` hands to `Watch`.
  unfoldable pub send_health : ℕ → ClusterComponents F → Reason F → List Message
  unfolding publish_payload
  send_health now components reason =
      publish_payload now type_s3_health (s3_health components reason)

  -- `sendCapabilities`: the payload is returned whether or not it could be sent.
  unfoldable pub send_capabilities_event :
      List Text → AgentConfig → ℕ → List Message × CapabilitiesPayload
  unfolding publish_payload capabilities_payload
  send_capabilities_event keys cfg now =
      let payload = capabilities_payload keys cfg in
      (publish_payload now type_capabilities (capabilities payload), payload)

-- `sendTelemetry`
unfoldable pub send_telemetry :
    {F : Type 0} (ns : Float64) → Post F ns.F → Host ns.F → ℕ → Baseline → List Message × Baseline
unfolding publish_payload system_metrics
send_telemetry ns post host now b =
    let (r, b') = system_metrics ns host now b in
    (elim r [ err e ↦ [] | ok m ↦ publish_payload post now type_telemetry (telemetry m) ], b')

-- The payload of `sendS3Telemetry`, and the next offset: without bucket statistics the list is
-- empty, and the traffic log is read from the offset on.
unfoldable pub s3_telemetry_payload :
    (fl : Float) → S3Config fl.F → Net → Option LogFile → ℕ → ℕ → S3TelemetryPayload fl.F × ℕ
unfolding poll_cluster bucket_stats flush
s3_telemetry_payload fl cfg net log now offset =
    let (traffic, next) = flush log offset in
    (
      record {
        components = poll_cluster fl cfg net now;
        buckets = elim (bucket_stats cfg net) [ none ↦ [] | some bs ↦ bs ];
        traffic = traffic;
      },
      next,
    )

-- `sendS3Telemetry`: the next offset is kept whether or not the message could be sent.
unfoldable pub send_s3_telemetry :
    {G : Type 0} (fl : Float)
    → Post fl.F G
    → S3Config fl.F
    → Net
    → Option LogFile
    → ℕ
    → ℕ
    → List Message × ℕ
unfolding publish_payload s3_telemetry_payload
send_s3_telemetry fl post cfg net log now offset =
    let (payload, next) = s3_telemetry_payload fl cfg net log now offset in
    (publish_payload post now type_s3_telemetry (s3_telemetry payload), next)
