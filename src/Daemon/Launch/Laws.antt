-- ===== src/Daemon/Launch/Laws.antt =====
-- What holds of an agent from its start on.
use s3_agent.Prelude.{
  ◌∷◌, is_nil, if◌then◌else◌, ◌≡◌, refl, inl, inr, none, some, List, [], Text, ok, err, ◌⊎◌, arith,
  Result-cases, Option-cases, All,
}
use s3_agent.Touch.{Touch}
use s3_agent.Config
use s3_agent.Config.{Config}
use s3_agent.Nats.{Client, connect, cmd_subject}
use s3_agent.S3.Manager.Base.{World}
use s3_agent.S3.Manager.Iam.{ensure_admin}
use s3_agent.S3.Observer.Change.{Float}
use s3_agent.System.{Float64}
use s3_agent.Dispatcher.Permitted.{Permits}
use s3_agent.Publisher.Loops.{loop_interval}
use s3_agent.Publisher.Loops.Laws.{IsTicking}
use s3_agent.Agent
use s3_agent.Agent.{agent_type_of, serve}
use s3_agent.Agent.Laws.{serve_permitted}
use s3_agent.Daemon.{Setup, Daemon, Act, acts, messages_of, telemetry_view}
use s3_agent.Daemon.Commands.{acts-AreAlike}
use s3_agent.Daemon.Shade.{AreAlike}
use s3_agent.Daemon.Ticking.{acts-IsTicking}
use s3_agent.Daemon.Launch.{
  Platform, LaunchError, LoggerError, loading_config, building_logger, connecting, subscribing,
  build_logger, agent_identity, setup_of, started, launch_with, launch,
}

module _ {O : Type 0} {fl : Float} {ns : Float64} (p : Platform O fl ns) (w : World) where
  -- The agent that a start has made, and the machine behind it.
  pub record IsLaunched (u : Setup O fl ns) (d : Daemon fl.F) (w' : World) : Type 0 where
    pub config : Config fl.F
    pub client : Client
    pub loaded : Config.load p.read_config p.unmarshal ≡ ok config
    pub connected :
        connect p.dial config.nats
          (agent_identity p config).0
          (agent_identity p config).1
          (agent_type_of config.agent)
        ≡ ok client
    pub subscribed : p.subscribe (cmd_subject client) ≡ none
    pub setup : u ≡ setup_of p config client
    pub daemon : d ≡ started p u w
    pub world : w' ≡ (ensure_admin config.s3 p.env w).1

  launch_with-IsLaunched :
      (c : Config fl.F) {u : Setup O fl ns} {d : Daemon fl.F} {w' : World}
      → Config.load p.read_config p.unmarshal ≡ ok c
      → launch_with p c w ≡ (ok (u, d), w')
      → IsLaunched u d w'
  unfolding launch_with
  launch_with-IsLaunched c l h =
      elim (Result-cases (
        connect p.dial c.nats (agent_identity p c).0 (agent_identity p c).1
          (agent_type_of c.agent))) [
            | inr (e, q) ↦ ground (arith, h, q)
            | inl (client, q) ↦ elim (Option-cases (p.subscribe (cmd_subject client))) [
              | inr (e, r) ↦ ground (arith, h, q, r)
              | inl r ↦ record {
                config = c;
                client = client;
                loaded = l;
                connected = q;
                subscribed = r;
                setup = ground (arith, h, q, r);
                daemon = ground (arith, h, q, r);
                world = ground (arith, h, q, r);
              }
            ]
          ]

  launch-IsLaunched :
      {u : Setup O fl ns} {d : Daemon fl.F} {w' : World} {asked : List Touch}
      → launch p w ≡ (ok (u, d), w', asked)
      → IsLaunched u d w'
  unfolding launch
  launch-IsLaunched h = elim (Result-cases (Config.load p.read_config p.unmarshal)) [
    | inr (e, q) ↦ ground (arith, h, q)
    | inl (c, q) ↦ elim (Result-cases (build_logger p.log_host c.log).0) [
      | inr (e, r) ↦ ground (arith, h, q, r)
      | inl (cores, r) ↦ launch_with-IsLaunched c q (ground (arith, h, q, r))
    ]
  ]

module _ {O : Type 0} {fl : Float} {ns : Float64} (p : Platform O fl ns) (w : World)
    (u : Setup O fl ns) (d : Daemon fl.F) (w' : World) (asked : List Touch) where
  started_state :
      IsLaunched p w u d w'
      → AreAlike d.agent.state
          (Agent.start u.cfg u.agent u.env u.peers u.post.wire u.post.client w).state
  unfolding started
  started_state h = rw h.daemon (record { worlds = refl; desired = refl })

  -- An agent that could be started, whatever the machine, the store and the network answer, whatever
  -- messages arrive and whenever the loops wake: every command that it runs, the start included, is
  -- the restart of the S3 service, the reload of Nginx, a reboot or a shutdown, a step of the system
  -- update, or one of the commands that are configured as allowed.
  pub launch_permitted :
      (more : List Act)
      → launch p w ≡ (ok (u, d), w', asked)
      → w.trace ≡ []
      → All
          (Permits u.cfg.weed_s3_service u.agent.allowed_commands)
          (acts u more d).agent.state.world.trace
  launch_permitted more h e =
      let alike =
        acts-AreAlike u more d (Agent.start u.cfg u.agent u.env u.peers u.post.wire u.post.client w)
          (started_state (launch-IsLaunched p w h)) in
      rw alike.worlds (
        serve_permitted u.cfg u.agent u.env u.peers u.post.wire u.post.client (messages_of more) w
          e)

  started-IsTicking : IsLaunched p w u d w' → IsTicking (telemetry_view u d)
  unfolding started loop_interval Agent.start
  started-IsTicking h = rw h.daemon (record { ticks = ground arith; waits = λ i q. cc })

  -- In an agent that could be started, over any sequence of messages and wakes of the loops: the
  -- ticker of the telemetry has an interval above zero, without which it would panic, and an interval
  -- that a command has left for the loop is at least a second, whatever was configured or asked for.
  pub launch-IsTicking :
      (more : List Act)
      → launch p w ≡ (ok (u, d), w', asked)
      → IsTicking (telemetry_view u (acts u more d))
  launch-IsTicking more h = acts-IsTicking u more d (started-IsTicking (launch-IsLaunched p w h))

module _ {O : Type 0} {fl : Float} {ns : Float64} (p : Platform O fl ns) (w : World) where
  -- What the logger of a configuration asks of the file system: nothing without a log file; the
  -- directory, and where that does not fail the file.
  abbrev pub log_touches : Config fl.F → List Touch
  log_touches c =
      let file = c.log.file in
      let dir = p.log_host.dir file in
      if is_nil file then [] else elim (p.log_host.mkdir_error dir) [
        | some e ↦ Touch.made_directory dir ∷ []
        | none ↦ Touch.made_directory dir ∷ Touch.opened_for_append file ∷ []
      ]

  build_logger-log_touches : (c : Config fl.F) → (build_logger p.log_host c.log).1 ≡ log_touches c
  unfolding build_logger
  build_logger-log_touches c = ground arith

  -- A start that fails at the connection or at the subscription, under a configuration.
  abbrev pub IsLate : Config fl.F → LaunchError → Type 0
  IsLate c e =
      let dialled =
        connect p.dial c.nats (agent_identity p c).0 (agent_identity p c).1
          (agent_type_of c.agent) in
      ((x : Text) × (e ≡ connecting x) × (dialled ≡ err x))
      ⊎ ((client : Client) × (dialled ≡ ok client)
          × (x : Text) × (e ≡ subscribing x)
          × (p.subscribe (cmd_subject client) ≡ some x))

  launch_with_failed :
      (c : Config fl.F) (e : LaunchError)
      → (launch_with p c w).0 ≡ err e
      → IsLate c e × ((launch_with p c w).1 ≡ (ensure_admin c.s3 p.env w).1)
  unfolding launch_with
  launch_with_failed c e h =
      elim (Result-cases (
        connect p.dial c.nats (agent_identity p c).0 (agent_identity p c).1
          (agent_type_of c.agent))) [
            | inr (x, q) ↦ (inl (x, ground (arith, h, q), q), ground (arith, q))
            | inl (client, q) ↦ elim (Option-cases (p.subscribe (cmd_subject client))) [
              | inl r ↦ ground (arith, h, q, r)
              | inr (x, r) ↦ (inr (client, q, x, ground (arith, h, q, r), r), ground (arith, q, r))
            ]
          ]

  -- What a start that fails has changed: nothing, if the configuration could not be loaded. Else the
  -- logger has asked for the directory of the log and, where that did not fail, has opened the log
  -- file, if one is configured; a start that fails at the logger has changed no more than that, and
  -- one that fails at the connection or the subscription has also done `EnsureAdmin`: the identities
  -- file may have a new identity and the S3 service may have been restarted.
  pub launch_failed :
      (e : LaunchError)
      → (launch p w).0 ≡ err e
      → ((x : Config.LoadError) × (e ≡ loading_config x)
          × (Config.load p.read_config p.unmarshal ≡ err x)
          × ((launch p w).1 ≡ w)
          × ((launch p w).2 ≡ []))
        ⊎ ((c : Config fl.F) × (Config.load p.read_config p.unmarshal ≡ ok c)
            × ((launch p w).2 ≡ log_touches c)
            × (((x : LoggerError) × (e ≡ building_logger x)
                  × ((build_logger p.log_host c.log).0 ≡ err x)
                  × ((launch p w).1 ≡ w))
                ⊎ (IsLate c e × ((launch p w).1 ≡ (ensure_admin c.s3 p.env w).1))))
  unfolding launch
  launch_failed e h = elim (Result-cases (Config.load p.read_config p.unmarshal)) [
    | inr (x, q) ↦ inl (x, ground (arith, h, q), q, ground (arith, q), ground (arith, q))
    | inl (c, q) ↦ elim (Result-cases (build_logger p.log_host c.log).0) [
      | inr (x, r) ↦ inr (
        c,
        q,
        ground (arith, q, r, build_logger-log_touches c),
        inl (x, ground (arith, h, q, r), r, ground (arith, q, r)),
      )
      | inl (cores, r) ↦
          let (late, admin) = launch_with_failed c e (ground (arith, h, q, r)) in
          inr (
            c,
            q,
            ground (arith, q, r, build_logger-log_touches c),
            inr (late, ground (arith, q, r, admin)),
          )
    ]
  ]
