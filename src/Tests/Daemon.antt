-- ===== src/Tests/Daemon.antt =====
-- The theorems about the running agent at the fixtures.
use s3_agent.Prelude.{Text, ℕ, ◌≡◌, refl, ◌⊎◌, none, some, List, [], ◌∷◌, ◌++◌, codes, ok, err, All}
use s3_agent.Prelude.Int.{pos}
use s3_agent.Config.{LoadError, Config, defaults}
use s3_agent.Nats.{Client}
use s3_agent.Iso.Reader.{missing}
use s3_agent.S3.Manager.Iam.{ensure_admin}
use s3_agent.Publisher.Message.{event_message}
use s3_agent.Publisher.Send.{s3_telemetry}
use s3_agent.Publisher.Loops.{S3Wake, polled, woken}
use s3_agent.Publisher.Loops.Laws.{IsTicking}
use s3_agent.Dispatcher.Permitted.{Permits}
use s3_agent.Agent.{serve}
use s3_agent.Daemon.{
  act, Setup, Daemon, Act, message, beat, telemetry_received, telemetry_ticked, s3_ticked, audit,
  watch_polled, acts, messages_of, telemetry_view,
}
use s3_agent.Dispatcher.Types.{Peers}
use s3_agent.S3.Observer.Tail.Laws.{intact}
use s3_agent.S3.Observer.Traffic.{flush}
use s3_agent.S3.Observer.Traffic.Laws.{bytes_in, reported}
use s3_agent.S3.Observer.Traffic.Pieces.{joined}
use s3_agent.Daemon.Traffic.Counted.{
  report_by, telemetry_of, logs_of, reports_by, grown, sum_of, acts_counted,
}
use s3_agent.Daemon.Shade.{AreAlike}
use s3_agent.Daemon.Commands.{acts-serve}
use s3_agent.Daemon.Desired.{last_sync, acts-last_desired}
use s3_agent.Daemon.Sent.{IsEvent, answers, acts_sent}
use s3_agent.Daemon.Launch.{
  build_logger, building_logger, LoggerError, loading_config, Platform, LaunchError, connecting,
  setup_of, started, launch,
}
use s3_agent.Daemon.Launch.Laws.{
  launch_permitted, launch-IsTicking, log_touches, IsLate, launch_failed,
}
use s3_agent.Tests.Fixtures.{cfg, agent, quiet, peers, world, whole, no_net}
use s3_agent.Tests.Machine.{wire, floats, host}

abbrev config : Config ℕ
config = record (defaults 80 95) { s3 = cfg; agent = agent }

abbrev platform : Platform (Unit {0}) whole floats
platform = record {
  read_config = none;
  unmarshal = ok config;
  log_host = record {
    parse_level = λ t. none;
    dir = λ t. t;
    mkdir_error = λ t. none;
    open_error = λ t. none;
  };
  decoders = record { yaml = λ t. err []; json = λ t. err [] };
  metadata_yaml = λ m. missing;
  metadata_json = λ m. missing;
  env = quiet;
  peers = peers;
  host = host;
  event_time = λ t. pos 0;
  retain = λ c b k. none;
  wire = wire;
  encode_payload = λ p. some [];
  dial = λ r. none;
  subscribe = λ s. none;
}

abbrev connected : Client
connected = record { agent_uuid = []; agent_type = codes "s3" }

abbrev setup : Setup (Unit {0}) whole floats
setup = setup_of platform config connected

abbrev first : Daemon ℕ
first = started platform setup world

abbrev schedule : List Act
schedule =
    message (codes "reconcile")
    ∷ beat 1
    ∷ s3_ticked (record { now = 2; net = no_net; log = none })
    ∷ telemetry_ticked 3
    ∷ message (codes "full_sync")
    ∷ telemetry_received 4
    ∷ audit (polled none)
    ∷ watch_polled 5 no_net
    ∷ message (codes "exec")
    ∷ audit (woken 6)
    ∷ []

launched : launch platform world ≡ (ok (setup, first), (ensure_admin cfg quiet world).1, [])
unfolding launch s3_agent.Daemon.Launch.launch_with s3_agent.Daemon.Launch.build_logger
    s3_agent.Config.load s3_agent.Nats.connect s3_agent.Daemon.Launch.setup_of
    s3_agent.Agent.agent_type_of s3_agent.Iso.Reader.resolve_identity defaults
    s3_agent.Iso.Reader.read s3_agent.Iso.Metadata.vm_id
launched = refl

launch_permitted_example :
    All
      (Permits cfg.weed_s3_service agent.allowed_commands)
      (acts setup schedule first).agent.state.world.trace
unfolding setup_of
launch_permitted_example =
    launch_permitted platform world setup first (ensure_admin cfg quiet world).1 [] schedule
      launched refl

launch-IsTicking_example : IsTicking (telemetry_view setup (acts setup schedule first))
launch-IsTicking_example =
    launch-IsTicking platform world setup first (ensure_admin cfg quiet world).1 [] schedule
      launched

abbrev unreachable : Platform (Unit {0}) whole floats
unreachable = record platform { dial = λ r. some (codes "no route") }

unconnected : (launch unreachable world).0 ≡ err (connecting (codes "no route"))
unfolding launch s3_agent.Daemon.Launch.launch_with s3_agent.Daemon.Launch.build_logger
    s3_agent.Config.load s3_agent.Nats.connect s3_agent.Agent.agent_type_of
    s3_agent.Iso.Reader.resolve_identity defaults
unconnected = refl

launch_failed_example :
    let e = connecting (codes "no route") in
    let (r, w', asked) = launch unreachable world in
    ((x : LoadError) × (e ≡ loading_config x)
      × (s3_agent.Config.load unreachable.read_config unreachable.unmarshal ≡ err x)
      × (w' ≡ world)
      × (asked ≡ []))
    ⊎ ((c : Config ℕ) × (s3_agent.Config.load unreachable.read_config unreachable.unmarshal ≡ ok c)
        × (asked ≡ log_touches unreachable world c)
        × (((x : LoggerError) × (e ≡ building_logger x)
              × ((build_logger unreachable.log_host c.log).0 ≡ err x)
              × (w' ≡ world))
            ⊎ (IsLate unreachable world c e × (w' ≡ (ensure_admin c.s3 quiet world).1))))
launch_failed_example = launch_failed unreachable world (connecting (codes "no route")) unconnected

acts-serve_example :
    AreAlike
      (acts setup schedule first).agent.state
      (serve {fl = whole} setup.cfg setup.agent setup.env setup.peers setup.post.wire
        setup.post.client
        (messages_of schedule)
        first.agent).state
acts-serve_example = acts-serve setup schedule first

acts-last_desired_example :
    (acts setup schedule first).agent.state.last_desired
    ≡ last_sync {fl = whole} setup.cfg setup.agent setup.env setup.peers setup.post.wire
        setup.post.client
        (messages_of schedule)
        first.agent.state.last_desired
acts-last_desired_example = acts-last_desired setup schedule first

no_events : All (IsEvent setup.post.client) (record first { events = [] }).events
no_events = tt

acts_sent_example :
    let d = record first { events = [] } in
    ((acts setup schedule d).agent.outbox ≡ d.agent.outbox ++ answers setup schedule d)
    × All (IsEvent setup.post.client) (acts setup schedule d).events
unfolding setup_of
acts_sent_example =
    acts_sent setup (λ e. refl) (λ t. refl) schedule (record first { events = [] }) no_events

-- A log of two lines, of which the telemetry sees the first, and the answer to a command the second.
abbrev put_line : Text
put_line = codes "1.0 PUT /b/k 200 5 70"

abbrev get_line : Text
get_line = codes "1.1 GET /b/k 200 9 3"

abbrev first_line : Text
first_line = put_line ++ 10 ∷ []

abbrev stats_peers : Peers (Unit {0}) whole
stats_peers = record peers {
  net = λ t. record no_net {
    get = λ url. ok (record { status = 200; body = [] });
    filer_entries = λ b. some [];
  };
  traffic_log = λ t. some (intact (first_line ++ (get_line ++ 10 ∷ [])));
}

abbrev stats_setup : Setup (Unit {0}) whole floats
stats_setup = record setup {
  peers = stats_peers;
  agent = record agent { allowed_operations = codes "s3.bucket.stats" ∷ [] };
}

abbrev stats_schedule : List Act
stats_schedule =
    s3_ticked (record { now = 2; net = no_net; log = some (intact first_line) })
    ∷ beat 3
    ∷ message (codes "s3.bucket.stats")
    ∷ []

stats_logs : logs_of stats_setup stats_schedule first ≡ grown [] (put_line ∷ get_line ∷ [])
unfolding logs_of grown setup_of s3_agent.Prelude.member s3_agent.Prelude.text_dec
    s3_agent.Dispatcher.Dispatch.params_of s3_agent.Dispatcher.Types.op_in
stats_logs = refl

acts_counted_example :
    (sum_of bytes_in (codes "b") (reports_by stats_setup stats_schedule first)
      ≡ reported bytes_in
          (codes "b")
          (flush (some (intact (joined (put_line ∷ get_line ∷ [])))) 0).0)
    × ((w : S3Wake) (e : Daemon ℕ)
        → (report_by stats_setup (s3_ticked w) e ≡ some (telemetry_of stats_setup w e).traffic)
          × ((act stats_setup (s3_ticked w) e).events
              ≡ e.events
                ++ event_message stats_setup.post w.now
                    (codes "s3_telemetry")
                    (s3_telemetry (telemetry_of stats_setup w e))))
unfolding started
acts_counted_example =
    acts_counted bytes_in (codes "b") stats_setup stats_schedule first (put_line ∷ get_line ∷ [])
      refl stats_logs
