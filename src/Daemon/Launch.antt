-- ===== src/Daemon/Launch.antt =====
-- `run` and `buildLogger` of cmd/agent/main.go: how the agent is put together, up to the wait for a
-- signal, and what is left where a step fails.
pub mod Laws
use s3_agent.Prelude.{
  ℕ, Option, none, some, List, [], ◌∷◌, Text, codes, Result, ok, err, is_nil, if◌then◌else◌, ◌≟◌,
}
use s3_agent.Prelude.Int.{ℤ, pos}
use s3_agent.Touch.{Touch}
use s3_agent.Config
use s3_agent.Config.{Config, S3Config, LogConfig, LoadError}
use s3_agent.Nats.{Client, Wire, ConnectRequest, connect, cmd_subject}
use s3_agent.Iso.Metadata.{IsoMetadata}
use s3_agent.Iso.Reader
use s3_agent.Iso.Reader.{FileRead, Decoders, resolve_identity}
use s3_agent.S3.Manager.Base.{Env, World}
use s3_agent.S3.Manager.Iam.{ensure_admin}
use s3_agent.S3.Observer.Change.{Float}
use s3_agent.System.{Float64, Host}
use s3_agent.Dispatcher.Types.{Peers}
use s3_agent.Publisher.Send.{Payload, send_capabilities_event}
use s3_agent.Publisher.Loops.{loop_interval}
use s3_agent.Agent
use s3_agent.Agent.{Agent, agent_type_of}
use s3_agent.Daemon.{Setup, Daemon}

-- One output of the logger.
pub data Encoding : Type 0 where
  console json : Encoding

pub data Sink : Type 0 where
  stdout : Sink
  log_file : Text → Sink

pub record Core : Type 0 where
  pub encoding : Encoding
  pub sink : Sink
  pub level : ℤ

pub data LoggerError : Type 0 where
  creating_log_directory : Text → LoggerError
  opening_log_file : Text → Text → LoggerError

-- What `buildLogger` needs of zap, of path/filepath and of the file system.
pub record LogHost : Type 0 where
  pub parse_level : Text → Option ℤ
  pub dir : Text → Text
  pub mkdir_error : Text → Option Text
  pub open_error : Text → Option Text

abbrev level_or_info : Option ℤ → ℤ
level_or_info none = pos 0
level_or_info (some l) = l

-- `buildLogger`: the cores of the logger, and what is asked of the file system, whether or not it
-- does it. The file always gets JSON.
unfoldable pub build_logger : LogHost → LogConfig → Result LoggerError (List Core) × List Touch
build_logger h c =
    let level = level_or_info (h.parse_level c.level) in
    let first : Core = record {
      encoding = if c.format ≟ codes "console" then console else json;
      sink = stdout;
      level = level;
    } in
    let made = Touch.made_directory (h.dir c.file) ∷ [] in
    let opened = Touch.made_directory (h.dir c.file) ∷ Touch.opened_for_append c.file ∷ [] in
    if is_nil c.file then (ok (first ∷ []), []) else elim (h.mkdir_error (h.dir c.file)) [
      | some e ↦ (err (creating_log_directory e), made)
      | none ↦ elim (h.open_error c.file) [
        | some e ↦ (err (opening_log_file c.file e), opened)
        | none ↦ (
          ok (first ∷ record { encoding = json; sink = log_file c.file; level = level } ∷ []),
          opened,
        )
      ]
    ]

-- The machine that the agent is started on. The files of the ISO are under its mount path.
pub record Platform (O : Type 0) (fl : Float) (ns : Float64) : Type 0 where
  pub read_config : Option Config.ReadError
  pub unmarshal : Result Text (Config fl.F)
  pub log_host : LogHost
  pub decoders : Decoders
  pub metadata_yaml : Text → FileRead
  pub metadata_json : Text → FileRead
  pub env : Env
  pub peers : Peers O fl
  pub host : Host ns.F
  pub event_time : Text → ℤ
  pub retain : S3Config fl.F → Text → Text → Option ℕ
  pub wire : Wire
  pub encode_payload : Payload fl.F ns.F → Option Text
  pub dial : ConnectRequest → Option Text
  -- The error of a subscription to a subject.
  pub subscribe : Text → Option Text

pub data LaunchError : Type 0 where
  loading_config : LoadError → LaunchError
  building_logger : LoggerError → LaunchError
  connecting subscribing : Text → LaunchError

module _ {O : Type 0} {fl : Float} {ns : Float64} (p : Platform O fl ns) where
  -- The metadata of the ISO, if it can be read; and the id and the key of the agent.
  abbrev pub iso_of : Config fl.F → Option IsoMetadata
  iso_of c =
      elim (Reader.read p.decoders (p.metadata_yaml c.iso.mount_path)
        (p.metadata_json c.iso.mount_path)) [ err e ↦ none | ok m ↦ some m ]

  abbrev pub agent_identity : Config fl.F → Text × Text
  agent_identity c =
      resolve_identity p.decoders c.nats (p.metadata_yaml c.iso.mount_path)
        (p.metadata_json c.iso.mount_path)

  -- The publisher and the modules.
  unfoldable pub setup_of : Config fl.F → Client → Setup O fl ns
  setup_of c client = record {
    cfg = c.s3;
    agent = c.agent;
    env = p.env;
    peers = p.peers;
    post = record {
      wire = p.wire;
      client = client;
      agent_uuid = (agent_identity c).0;
      agent_type = agent_type_of c.agent;
      fresh = p.peers.fresh;
      encode_payload = p.encode_payload;
    };
    iso = iso_of c;
    host = p.host;
    event_time = p.event_time;
    retain = p.retain c.s3;
  }

  -- The agent behind `Start`: the capabilities are sent before the loops run.
  unfoldable pub started : Setup O fl ns → World → Daemon fl.F
  unfolding Agent.start send_capabilities_event loop_interval
  started u w =
      let a = Agent.start u.cfg u.agent u.env u.peers u.post.wire u.post.client w in
      let now = a.state.world.clock in
      let (messages, payload) =
        send_capabilities_event u.post (u.peers.catalog_keys now) u.agent now in
      record {
        agent = record a { state = record a.state { published = payload ∷ [] } };
        ticker = loop_interval u.agent.telemetry_interval;
        queue = [];
        audit_offset = 0;
        watched = none;
        events = messages;
      }

  -- The steps from the administrator's identity on.
  unfoldable pub launch_with :
      Config fl.F → World → Result LaunchError (Setup O fl ns × Daemon fl.F) × World
  launch_with c w =
      let w' = (ensure_admin c.s3 p.env w).1 in
      let (agent_uuid, api_key) = agent_identity c in
      elim (connect p.dial c.nats agent_uuid api_key (agent_type_of c.agent)) [
        | err e ↦ (err (connecting e), w')
        | ok client ↦ elim (p.subscribe (cmd_subject client)) [
          | some e ↦ (err (subscribing e), w')
          | none ↦ let u = setup_of c client in (ok (u, started u w), w')
        ]
      ]

  -- `run`, up to the wait for a signal, with what the logger asked of the file system.
  unfoldable pub launch :
      World → Result LaunchError (Setup O fl ns × Daemon fl.F) × World × List Touch
  launch w = elim (Config.load p.read_config p.unmarshal) [
    | err e ↦ (err (loading_config e), w, [])
    | ok c ↦
        let (logger, asked) = build_logger p.log_host c.log in
        elim logger [
          | err e ↦ (err (building_logger e), w, asked)
          | ok cores ↦ let (r, w') = launch_with c w in (r, w', asked)
        ]
  ]
