-- ===== src/Daemon.antt =====
-- The whole agent of cmd/agent/main.go while it runs: the commands that arrive and the loops of
-- internal/publisher and of the observer, in any order. A loop's first round is like its later ones.
pub mod Commands
pub mod Desired
pub mod Launch
pub mod Sent
pub mod Shade
pub mod Ticking
pub mod Traffic
use s3_agent.Prelude.{map, codes, ℕ, Option, none, some, List, [], ◌∷◌, ◌++◌, Text, length, drop}
use s3_agent.Prelude.Int.{ℤ}
use s3_agent.Config.{AgentConfig, S3Config}
use s3_agent.Protocol.{CapabilitiesPayload, type_capabilities}
use s3_agent.Nats.{Message}
use s3_agent.Iso.Metadata.{IsoMetadata}
use s3_agent.S3.Types.{AuditEvent, ClusterComponents}
use s3_agent.S3.Manager.Base.{Env}
use s3_agent.S3.Observer.Change.{Float, detect_change}
use s3_agent.S3.Observer.Poll.{Net, poll_cluster, poll_requests}
use s3_agent.S3.Observer.Stats.{stats_requests}
use s3_agent.S3.Observer.Audit.{poll_queries}
use s3_agent.Touch.{Touch}
use s3_agent.System.{Float64, Host}
use s3_agent.Dispatcher.Types.{State, Peers}
use s3_agent.Publisher.Send.{
  Post, capabilities, publish_payload, send_heartbeat, send_s3_telemetry, send_health,
}
use s3_agent.Publisher.Loops.{
  S3Wake, TelemetryState, TelemetryAct, receive, tick, telemetry_step, AuditState, AuditAct, polled,
  woken, audit_act,
}
use s3_agent.Agent.{Agent, on_message}

-- What `run` puts together, and what the loops need of the machine. `event_time` reads the time of
-- an audit line, `retain` asks the store for the WORM date of an object.
pub record Setup (O : Type 0) (fl : Float) (ns : Float64) : Type 0 where
  pub cfg : S3Config fl.F
  pub agent : AgentConfig
  pub env : Env
  pub peers : Peers O fl
  pub post : Post fl.F ns.F
  pub iso : Option IsoMetadata
  pub host : Host ns.F
  pub event_time : Text → ℤ
  pub retain : Text → Text → Option ℕ

-- The agent, the interval of the telemetry ticker, the audit tailer, the last poll of `Watch`, and
-- what the publisher has sent. The disk counters, the channel of the interval and the offset of the
-- traffic log are those that the commands use.
pub record Daemon (F : Type 0) : Type 0 where
  pub agent : Agent
  pub ticker : ℤ
  pub queue : List AuditEvent
  pub audit_offset : ℕ
  pub watched : Option (ClusterComponents F)
  pub events : List Message

-- What happens next: a message arrives, or a loop wakes at a time, with what it finds.
pub data Act : Type 0 where
  message : Text → Act
  beat telemetry_received telemetry_ticked : ℕ → Act
  s3_ticked : S3Wake → Act
  audit : AuditAct → Act
  watch_polled : ℕ → Net → Act

module _ {O : Type 0} {fl : Float} {ns : Float64} (u : Setup O fl ns) where
  unfoldable pub capabilities_events : ℕ → List CapabilitiesPayload → List Message
  unfolding publish_payload
  capabilities_events now [] = []
  capabilities_events now (p ∷ ps) =
      publish_payload u.post now type_capabilities (capabilities p) ++ capabilities_events now ps

  -- The capabilities that a command has published.
  unfoldable pub advertised : State → State → List Message
  unfolding capabilities_events
  advertised s t = capabilities_events s.world.clock (drop (length s.published) t.published)

  unfoldable pub on_command : Text → Daemon fl.F → Daemon fl.F
  unfolding on_message advertised
  on_command m d =
      let a = on_message u.cfg u.agent u.env u.peers u.post.wire u.post.client m d.agent in
      record d { agent = a; events = d.events ++ advertised d.agent.state a.state }

  -- The part of the daemon that the telemetry loop uses, and the daemon behind a step of the loop.
  abbrev pub telemetry_view : Daemon fl.F → TelemetryState
  telemetry_view d = record {
    channel = d.agent.state.telemetry_interval;
    ticker = d.ticker;
    baseline = d.agent.state.baseline;
    outbox = d.events;
  }

  abbrev pub with_telemetry : Daemon fl.F → TelemetryState → Daemon fl.F
  with_telemetry d t = record d {
    agent = record d.agent {
      state = record d.agent.state { telemetry_interval = t.channel; baseline = t.baseline };
    };
    ticker = t.ticker;
    events = t.outbox;
  }

  unfoldable pub on_telemetry : TelemetryAct → Daemon fl.F → Daemon fl.F
  unfolding telemetry_step
  on_telemetry a d = with_telemetry d (telemetry_step ns u.post u.host a (telemetry_view d))

  -- A tick of the S3 telemetry loop, from the offset that the last flush has left.
  unfoldable pub on_s3_tick : S3Wake → Daemon fl.F → Daemon fl.F
  unfolding send_s3_telemetry
  on_s3_tick w d =
      let (messages, next) =
        send_s3_telemetry fl u.post u.cfg w.net w.log w.now d.agent.state.traffic_offset in
      record d {
        agent = record d.agent {
          state = record d.agent.state {
            traffic_offset = next;
            touched = d.agent.state.touched ++ (poll_requests u.cfg ++ stats_requests u.cfg w.net);
          };
        };
        events = d.events ++ messages;
      }

  abbrev pub audit_view : Daemon fl.F → AuditState
  audit_view d = record { queue = d.queue; offset = d.audit_offset; outbox = d.events }

  -- The signed requests of a poll of the audit log.
  unfoldable pub audit_requests : AuditAct → ℕ → List Touch
  unfolding poll_queries
  audit_requests (polled log) offset =
      map (λ q. Touch.signed_head (u.cfg.s3_url ++ (codes "/" ++ (q.0 ++ (codes "/" ++ q.1)))))
        (poll_queries u.event_time log offset)
  audit_requests (woken now) offset = []

  unfoldable pub on_audit : AuditAct → Daemon fl.F → Daemon fl.F
  unfolding audit_act
  on_audit a d =
      let t = audit_act u.post u.event_time u.retain a (audit_view d) in
      record d {
        agent = record d.agent {
          state = record d.agent.state {
            touched = d.agent.state.touched ++ audit_requests a d.audit_offset;
          };
        };
        queue = t.queue;
        audit_offset = t.offset;
        events = t.outbox;
      }

  -- `poll` of `Watch`, with the callback that `Start` gives it.
  unfoldable pub on_watch : ℕ → Net → Daemon fl.F → Daemon fl.F
  unfolding detect_change poll_cluster send_health
  on_watch now net d =
      let cur = poll_cluster fl u.cfg net now in
      record d {
        agent = record d.agent {
          state = record d.agent.state { touched = d.agent.state.touched ++ poll_requests u.cfg };
        };
        watched = some cur;
        events =
            d.events
            ++ elim (detect_change fl u.cfg.capacity_warn_pct u.cfg.capacity_critical_pct d.watched
                cur) [ none ↦ [] | some reason ↦ send_health u.post now cur reason ];
      }

  unfoldable pub act : Act → Daemon fl.F → Daemon fl.F
  unfolding on_command on_telemetry on_s3_tick on_audit on_watch send_heartbeat
  act (message m) d = on_command m d
  act (beat now) d = record d { events = d.events ++ send_heartbeat u.post u.iso u.host now }
  act (telemetry_received now) d = on_telemetry (receive now) d
  act (telemetry_ticked now) d = on_telemetry (tick now) d
  act (s3_ticked w) d = on_s3_tick w d
  act (audit a) d = on_audit a d
  act (watch_polled now net) d = on_watch now net d

  unfoldable pub acts : List Act → Daemon fl.F → Daemon fl.F
  unfolding act
  acts [] d = d
  acts (a ∷ more) d = acts more (act a d)

-- The messages that arrive, in order.
unfoldable pub messages_of : List Act → List Text
messages_of [] = []
messages_of (message m ∷ more) = m ∷ messages_of more
messages_of (beat now ∷ more) = messages_of more
messages_of (telemetry_received now ∷ more) = messages_of more
messages_of (telemetry_ticked now ∷ more) = messages_of more
messages_of (s3_ticked w ∷ more) = messages_of more
messages_of (audit a ∷ more) = messages_of more
messages_of (watch_polled now net ∷ more) = messages_of more
