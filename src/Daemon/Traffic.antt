-- ===== src/Daemon/Traffic.antt =====
-- The access log in a running agent: the telemetry loop and the operation `s3.bucket.stats` flush it
-- from one offset.
pub mod Counted
use s3_agent.Prelude.{
  ℕ, ◌≡◌, inl, inr, none, some, Option, List, Text, codes, Result, ok, err, ◌≟◌, member,
  if◌then◌else◌, arith, Result-cases, Option-cases, Bool-cases,
}
use s3_agent.Config.{AgentConfig, S3Config}
use s3_agent.Protocol.{Envelope, CommandPayload, ResultPayload}
use s3_agent.S3.Types.{TrafficStat}
use s3_agent.S3.Manager.Base.{Env}
use s3_agent.S3.Observer.Change.{Float}
use s3_agent.S3.Observer.Stats
use s3_agent.S3.Observer.Tail.{LogFile}
use s3_agent.S3.Observer.Traffic.{flush}
use s3_agent.Dispatcher.Types.{
  Op, Params, Output, Failure, State, Peers, op_table, op_in, system_update, allowed_operations,
  bucket_stats, stats,
}
use s3_agent.Dispatcher.Distro.{detect_debian_distro}
use s3_agent.Dispatcher.Commands.{
  run_exec, run_captured, run_command, update_system, update_packages, tick,
}
use s3_agent.Dispatcher.Run.{
  run, run_op, run_full_sync, run_reconcile, send_capabilities, set_interval_s, run_bucket_stats,
  run_last_desired,
}
use s3_agent.Dispatcher.Dispatch.{respond, perform, params_of}

-- The traffic in the result of an operation.
abbrev pub traffic_in : {O F : Type 0} → Result Failure (Output O F) → Option (List TrafficStat)
traffic_in (ok (stats bs traffic)) = some traffic
traffic_in _ = none

-- What a flush of a log, if there is one, leaves of the offset, and what it reports.
abbrev pub end_of : Option (Option LogFile) → ℕ → ℕ
end_of none offset = offset
end_of (some f) offset = (flush f offset).1

abbrev pub report_of : Option (Option LogFile) → ℕ → Option (List TrafficStat)
report_of none offset = none
report_of (some f) offset = some (flush f offset).0

-- The result of an operation and the state behind it flush a log or do not.
record Flushes {O F : Type 0} (log : Option (Option LogFile)) (s : State)
    (r : Result Failure (Output O F) × State) : Type 0 where
  report : traffic_in r.0 ≡ report_of log s.traffic_offset
  end : r.1.traffic_offset ≡ end_of log s.traffic_offset

module _ {O : Type 0} {fl : Float} (cfg : S3Config fl.F) (agent : AgentConfig) (env : Env)
    (peers : Peers O fl) where
  -- The log that an operation flushes.
  unfoldable pub op_log : Op → State → Option (Option LogFile)
  op_log bucket_stats s = elim (Stats.bucket_stats cfg (peers.net s.world.clock)) [
    | none ↦ none
    | some bs ↦ some (peers.traffic_log s.world.clock)
  ]
  op_log _ s = none

  update_packages-Flushes :
      (d : Text) (s : State) → Flushes none s (update_packages cfg agent env peers d s)
  unfolding update_packages run_command
  update_packages-Flushes d s = ground arith

  update_system-Flushes : (s : State) → Flushes none s (update_system cfg agent env peers s)
  unfolding update_system
  update_system-Flushes s =
      elim (Result-cases (detect_debian_distro peers.to_lower (peers.os_release s.world.clock))) [
        | inr (e, d) ↦ ground (arith, d)
        | inl (distro, d) ↦ ground (arith, d, update_packages-Flushes distro (tick s))
      ]

  run_op-Flushes :
      (op : Op) (p : Params) (s : State)
      → Flushes (op_log op s) s (run_op cfg agent env peers op p s)
  unfolding run_op op_log send_capabilities set_interval_s run_bucket_stats run_last_desired
      run_reconcile run_captured run_command run_exec
  run_op-Flushes system_update p s = update_system-Flushes s
  run_op-Flushes op p s = ground arith

  -- The log that a command flushes: the operation is `s3.bucket.stats` and its parameters can be
  -- decoded.
  unfoldable pub command_log :
      (agent_uuid : Text) → CommandPayload → State → Option (Option LogFile)
  unfolding op_log
  command_log agent_uuid cmd s =
      if cmd.operation ≟ codes "full_sync"
      then none
      else elim (params_of cfg agent env peers agent_uuid cmd.params) [
        | err e ↦ none
        | ok p ↦ elim (op_in cmd.operation op_table) [ none ↦ none | some op ↦ op_log op s ]
      ]

  run-Flushes :
      (name : Text) (p : Params) (s : State)
      → Flushes
          (elim (op_in name op_table) [ none ↦ none | some op ↦ op_log op s ])
          s
          (run cfg agent env peers name p s)
  unfolding run
  run-Flushes name p s = elim (Option-cases (op_in name op_table)) [
    | inl e ↦ ground (arith, e)
    | inr (op, e) ↦ ground (arith, e, run_op-Flushes op p s)
  ]

-- The traffic in the answer to a command.
abbrev pub answered_traffic :
    {O F : Type 0} → ResultPayload (Output O F) Failure → Option (List TrafficStat)
answered_traffic r = elim r.output [ none ↦ none | some o ↦ traffic_in (ok o) ]

module _ {O : Type 0} {fl : Float} (cfg : S3Config fl.F) (agent : AgentConfig) (env : Env)
    (peers : Peers O fl) (agent_uuid : Text) where
  perform-report :
      (id : Text) (cmd : CommandPayload) (s : State)
      → let (r, s') = perform cfg agent env peers agent_uuid id cmd s in
        let log = command_log cfg agent env peers agent_uuid cmd s in
        (answered_traffic r ≡ report_of log s.traffic_offset)
        × (s'.traffic_offset ≡ end_of log s.traffic_offset)
  unfolding perform command_log run_full_sync run_reconcile
  perform-report id cmd s = elim (Bool-cases (cmd.operation ≟ codes "full_sync")) [
    | inl q ↦ ground (arith, q)
    | inr q ↦ elim (Result-cases (params_of cfg agent env peers agent_uuid cmd.params)) [
      | inl (p, e) ↦ ground (arith, q, e, run-Flushes cfg agent env peers cmd.operation p s)
      | inr (x, e) ↦ ground (arith, q, e)
    ]
  ]

  -- The log that an envelope flushes: its command is allowed.
  unfoldable pub envelope_log : Envelope Text → State → Option (Option LogFile)
  unfolding command_log
  envelope_log e s = elim (peers.decode_command e.payload) [
    | err x ↦ none
    | ok cmd ↦
        if member cmd.operation agent.allowed_operations
        then command_log cfg agent env peers agent_uuid cmd s
        else none
  ]

  pub respond-report :
      (e : Envelope Text) (s : State)
      → let (r, s') = respond cfg agent env peers agent_uuid e s in
        let log = envelope_log e s in
        (answered_traffic r ≡ report_of log s.traffic_offset)
        × (s'.traffic_offset ≡ end_of log s.traffic_offset)
  unfolding respond envelope_log
  respond-report e s = elim (Result-cases (peers.decode_command e.payload)) [
    | inr (x, d) ↦ ground (arith, d)
    | inl (cmd, d) ↦ elim (Bool-cases (member cmd.operation agent.allowed_operations)) [
      | inl m ↦ ground (arith, d, m, perform-report e.id cmd s)
      | inr m ↦ ground (arith, d, m)
    ]
  ]
