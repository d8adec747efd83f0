-- ===== src/Daemon/Ticking.antt =====
-- The interval of the telemetry in a running agent, which commands change while the loop runs.
use s3_agent.Prelude.{
  ◌≡◌, inl, inr, some, Option, List, [], ◌∷◌, Text, codes, ◌≟◌, member, arith, Result-cases,
  Option-cases, Bool-cases,
}
use s3_agent.Prelude.Int.{ℤ, ◌≤ℤ◌}
use s3_agent.Config.{AgentConfig, S3Config}
use s3_agent.Protocol.{Envelope, CommandPayload}
use s3_agent.Nats.{accept}
use s3_agent.S3.Manager.Base.{Env}
use s3_agent.S3.Observer.Change.{Float}
use s3_agent.System.{Float64}
use s3_agent.Publisher.Interval.{min_telemetry_interval, clamp, set_telemetry_interval}
use s3_agent.Publisher.Loops.{receive, tick}
use s3_agent.Publisher.Loops.Laws.{IsTicking, telemetry_step-IsTicking}
use s3_agent.Dispatcher.Types.{
  Op, Params, State, Peers, op_table, op_in, system_update, set_interval,
}
use s3_agent.Dispatcher.Commands.{
  run_exec, run_captured, run_command, update_system, update_packages,
}
use s3_agent.Dispatcher.Run.{
  run, run_op, run_full_sync, run_reconcile, send_capabilities, set_interval_s, run_bucket_stats,
  run_last_desired,
}
use s3_agent.Dispatcher.Dispatch.{dispatch, respond, perform, params_of}
use s3_agent.Agent.{handle, on_message, typed}
use s3_agent.Daemon.{
  Setup, Daemon, Act, message, telemetry_received, telemetry_ticked, act, acts, on_command,
  on_telemetry, on_s3_tick, on_audit, on_watch, telemetry_view,
}

-- What waits in the channel is at least a second.
abbrev Waits : Option ℤ → Type 0
Waits c = (d : ℤ) → c ≡ some d → min_telemetry_interval ≤ℤ d

module _ {O : Type 0} {fl : Float} (cfg : S3Config fl.F) (agent : AgentConfig) (env : Env)
    (peers : Peers O fl) where
  set_interval-Waits :
      (i : ℤ) (s : State)
      → Waits s.telemetry_interval
      → Waits (set_interval_s cfg agent env peers i s).1.telemetry_interval
  unfolding set_interval_s set_telemetry_interval clamp
  set_interval-Waits i s h d e = ground (arith, h d)

  update_packages_interval :
      (d : Text) (s : State)
      → (update_packages cfg agent env peers d s).1.telemetry_interval ≡ s.telemetry_interval
  unfolding update_packages run_command
  update_packages_interval d s = ground arith

  update_system_interval :
      (s : State)
      → (update_system cfg agent env peers s).1.telemetry_interval ≡ s.telemetry_interval
  unfolding update_system
  update_system_interval s = grind (arith, update_packages_interval)

  run_op-Waits :
      (op : Op) (p : Params) (s : State)
      → Waits s.telemetry_interval
      → Waits (run_op cfg agent env peers op p s).1.telemetry_interval
  unfolding run_op send_capabilities run_bucket_stats run_last_desired run_reconcile run_captured
      run_command run_exec
  run_op-Waits set_interval p s h d e = set_interval-Waits p.interval_s s h d e
  run_op-Waits system_update p s h d e = h d (ground (arith, e, update_system_interval s))
  run_op-Waits op p s h d e = ground (arith, h d)

  run-Waits :
      (name : Text) (p : Params) (s : State)
      → Waits s.telemetry_interval
      → Waits (run cfg agent env peers name p s).1.telemetry_interval
  unfolding run
  run-Waits name p s h = elim (Option-cases (op_in name op_table)) [
    | inl e ↦ λ d q. ground (arith, e, q, h d)
    | inr (op, e) ↦ λ d q. ground (arith, e, q, run_op-Waits op p s h d)
  ]

module _ {O : Type 0} {fl : Float} (cfg : S3Config fl.F) (agent : AgentConfig) (env : Env)
    (peers : Peers O fl) (agent_uuid : Text) where
  perform-Waits :
      (id : Text) (cmd : CommandPayload) (s : State)
      → Waits s.telemetry_interval
      → Waits (perform cfg agent env peers agent_uuid id cmd s).1.telemetry_interval
  unfolding perform run_full_sync run_reconcile
  perform-Waits id cmd s h = elim (Bool-cases (cmd.operation ≟ codes "full_sync")) [
    | inl q ↦ λ d e. ground (arith, q, e, h d)
    | inr q ↦ elim (Result-cases (params_of cfg agent env peers agent_uuid cmd.params)) [
      | inl (p, e) ↦
          λ d r. ground (arith, q, e, r, run-Waits cfg agent env peers cmd.operation p s h d)
      | inr (x, e) ↦ λ d r. ground (arith, q, e, r, h d)
    ]
  ]

  respond-Waits :
      (e : Envelope Text) (s : State)
      → Waits s.telemetry_interval
      → Waits (respond cfg agent env peers agent_uuid e s).1.telemetry_interval
  unfolding respond
  respond-Waits e s h = elim (Result-cases (peers.decode_command e.payload)) [
    | inr (x, d) ↦ λ i q. ground (arith, d, q, h i)
    | inl (cmd, d) ↦ elim (Bool-cases (member cmd.operation agent.allowed_operations)) [
      | inl m ↦ λ i q. ground (arith, d, m, q, perform-Waits e.id cmd s h i)
      | inr m ↦ λ i q. ground (arith, d, m, q, h i)
    ]
  ]

module _ {O : Type 0} {fl : Float} {ns : Float64} (u : Setup O fl ns) where
  on_command-IsTicking :
      (m : Text) (d : Daemon fl.F)
      → IsTicking (telemetry_view u d)
      → IsTicking (telemetry_view u (on_command u m d))
  unfolding on_command on_message handle dispatch
  on_command-IsTicking m d h = elim (Option-cases (accept u.post.wire m)) [
    | inl q ↦ record { ticks = h.ticks; waits = λ i p. ground (arith, q, p, h.waits i) }
    | inr (e, q) ↦ record {
      ticks = h.ticks;
      waits = λ i p. ground (
        arith,
        q,
        p,
        respond-Waits u.cfg (typed u.cfg u.agent u.env u.peers u.post.wire u.post.client) u.env
            u.peers u.post.client.agent_uuid e d.agent.state h.waits i,
      );
    }
  ]

  -- Over any sequence of messages and wakes of the loops, from a state where it is so: the ticker of
  -- the telemetry has an interval above zero, without which it would panic, and an interval that a
  -- command has left for the loop is at least a second, whatever interval was asked for.
  pub acts-IsTicking :
      (more : List Act) (d : Daemon fl.F)
      → IsTicking (telemetry_view u d)
      → IsTicking (telemetry_view u (acts u more d))
  unfolding acts act on_telemetry on_s3_tick on_audit on_watch
  acts-IsTicking [] d h = h
  acts-IsTicking (message m ∷ more) d h =
      acts-IsTicking more (act u (message m) d) (on_command-IsTicking m d h)
  acts-IsTicking (telemetry_received now ∷ more) d h =
      acts-IsTicking more (act u (telemetry_received now) d)
        (telemetry_step-IsTicking ns u.post u.host (receive now) (telemetry_view u d) h)
  acts-IsTicking (telemetry_ticked now ∷ more) d h =
      acts-IsTicking more (act u (telemetry_ticked now) d)
        (telemetry_step-IsTicking ns u.post u.host (tick now) (telemetry_view u d) h)
  acts-IsTicking (a ∷ more) d h =
      acts-IsTicking more (act u a d) (record { ticks = h.ticks; waits = h.waits })
