-- ===== src/Publisher/Loops.antt =====
-- The loops of internal/publisher/publisher.go: what wakes them, what they send, and the state that
-- they keep. A loop that is cancelled is a list of wakes that ends.
pub mod Laws
use s3_agent.Prelude.{ℕ, Option, none, some, List, [], ◌∷◌, ◌++◌, if◌then◌else◌, Text}
use s3_agent.Prelude.Int.{ℤ, pos, leb_ℤ}
use s3_agent.Config.{AgentConfig, S3Config}
use s3_agent.Nats.{Message}
use s3_agent.Iso.Metadata.{IsoMetadata}
use s3_agent.S3.Types.{AuditEvent}
use s3_agent.S3.Observer.Audit.{drain, poll}
use s3_agent.S3.Observer.Tail.{LogFile}
use s3_agent.S3.Observer.Change.{Float}
use s3_agent.S3.Observer.Poll.{Net}
use s3_agent.System.{Float64, Host, Baseline}
use s3_agent.Publisher.Interval.{set_telemetry_interval}
use s3_agent.Publisher.Send.{Post, send_heartbeat, send_telemetry, send_s3_telemetry, send_audit}

-- The interval of a ticker: 30 seconds where none is configured.
unfoldable pub loop_interval : ℤ → ℤ
loop_interval d = if leb_ℤ d (pos 0) then pos 30000000000 else d

module _ {F G : Type 0} (post : Post F G) (iso : Option IsoMetadata) (host : Host G) where
  -- `heartbeatLoop`: one heartbeat at the start, and one at each tick.
  unfoldable pub heartbeat_loop : (start : ℕ) → (ticks : List ℕ) → List Message
  unfolding send_heartbeat
  heartbeat_loop start [] = send_heartbeat post iso host start
  heartbeat_loop start (t ∷ ts) = send_heartbeat post iso host start ++ heartbeat_loop t ts

-- What a wake of the S3 telemetry loop finds: the time, the answers of the store, the traffic log.
pub record S3Wake : Type 0 where
  pub now : ℕ
  pub net : Net
  pub log : Option LogFile

module _ {G : Type 0} (fl : Float) (post : Post fl.F G) (cfg : S3Config fl.F) where
  -- `s3TelemetryLoop`, from an offset of the traffic log: what is sent, and the offset behind it.
  unfoldable pub s3_telemetry_loop : S3Wake → List S3Wake → ℕ → List Message × ℕ
  unfolding send_s3_telemetry
  s3_telemetry_loop w [] offset = send_s3_telemetry fl post cfg w.net w.log w.now offset
  s3_telemetry_loop w (v ∷ ws) offset =
      let (messages, next) = send_s3_telemetry fl post cfg w.net w.log w.now offset in
      let (more, end) = s3_telemetry_loop v ws next in (messages ++ more, end)

-- The telemetry loop with the channel that `SetTelemetryInterval` fills: the interval of its ticker,
-- the baseline of the disk counters, and what it sent.
pub record TelemetryState : Type 0 where
  pub channel : Option ℤ
  pub ticker : ℤ
  pub baseline : Baseline
  pub outbox : List Message

-- A call of `SetTelemetryInterval`, and the two cases that wake the loop, at a time.
pub data TelemetryAct : Type 0 where
  set : ℤ → TelemetryAct
  receive tick : ℕ → TelemetryAct

module _ {F : Type 0} (ns : Float64) (post : Post F ns.F) (host : Host ns.F) where
  abbrev pub after_send : ℕ → TelemetryState → TelemetryState
  after_send now s =
      let (messages, b) = send_telemetry ns post host now s.baseline in
      record s { baseline = b; outbox = s.outbox ++ messages }

  -- `telemetryLoop` up to its `for`: the first telemetry is sent.
  unfoldable pub telemetry_start : AgentConfig → ℕ → Baseline → TelemetryState
  unfolding loop_interval send_telemetry
  telemetry_start cfg now b = after_send now (record {
    channel = none;
    ticker = loop_interval cfg.telemetry_interval;
    baseline = b;
    outbox = [];
  })

  -- The case of the channel is not ready while the channel is empty.
  unfoldable pub telemetry_step : TelemetryAct → TelemetryState → TelemetryState
  unfolding set_telemetry_interval send_telemetry
  telemetry_step (set d) s = record s { channel = (set_telemetry_interval d s.channel).1 }
  telemetry_step (receive now) s = elim s.channel [
    | none ↦ s
    | some d ↦ after_send now (record s { channel = none; ticker = d })
  ]
  telemetry_step (tick now) s = after_send now s

  unfoldable pub telemetry_run : List TelemetryAct → TelemetryState → TelemetryState
  unfolding telemetry_step
  telemetry_run [] s = s
  telemetry_run (a ∷ acts) s = telemetry_run acts (telemetry_step a s)

-- The tailer of observer.go and the audit loop: the channel of events, how far the log was read, and
-- what was sent.
pub record AuditState : Type 0 where
  pub queue : List AuditEvent
  pub offset : ℕ
  pub outbox : List Message

module _ {F G : Type 0} (post : Post F G) where
  -- The case that wakes the loop: it is not ready while the channel is empty; the event that is
  -- received and all that are queued behind it make the batch.
  unfoldable pub audit_wake : ℕ → AuditState → AuditState
  unfolding send_audit drain
  audit_wake now s = elim s.queue [
    | [] ↦ s
    | e ∷ rest ↦
        let (batch, left) = drain rest in
        record s { queue = left; outbox = s.outbox ++ send_audit post now (e ∷ batch) }
  ]

-- A tick of the tailer's `run`, with the log as it is then, and a wake of the loop, at a time.
pub data AuditAct : Type 0 where
  polled : Option LogFile → AuditAct
  woken : ℕ → AuditAct

module _ {F G : Type 0} (post : Post F G) (at : Text → ℤ) (retain : Text → Text → Option ℕ) where
  -- The requests behind `retain` are `poll_queries`; the agent that runs records them.
  unfoldable pub audit_act : AuditAct → AuditState → AuditState
  unfolding audit_wake poll
  audit_act (polled log) s =
      let (queue, next) = poll at retain log s.queue s.offset in
      record s { queue = queue; offset = next }
  audit_act (woken now) s = audit_wake post now s

  unfoldable pub audit_run : List AuditAct → AuditState → AuditState
  unfolding audit_act
  audit_run [] s = s
  audit_run (a ∷ acts) s = audit_run acts (audit_act a s)
