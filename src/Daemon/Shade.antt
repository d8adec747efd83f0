-- ===== src/Daemon/Shade.antt =====
-- The operations of the dispatcher do to the machine what they do, whatever the loops of the
-- publisher have done to the fields that they share with it.
use s3_agent.Prelude.{
  ◌≡◌, inl, inr, Text, codes, ◌≟◌, member, arith, Result-cases, Option-cases, Bool-cases,
}
use s3_agent.Config.{AgentConfig, S3Config}
use s3_agent.Protocol.{Envelope, CommandPayload}
use s3_agent.S3.Manager.Base.{Env}
use s3_agent.S3.Observer.Change.{Float}
use s3_agent.Dispatcher.Types.{Op, Params, State, Peers, op_table, op_in, system_update}
use s3_agent.Dispatcher.Distro.{detect_debian_distro}
use s3_agent.Dispatcher.Commands.{
  run_exec, run_captured, run_command, update_system, update_packages, tick,
}
use s3_agent.Dispatcher.Run.{
  run, run_op, run_full_sync, run_reconcile, send_capabilities, set_interval_s, run_bucket_stats,
  run_last_desired,
}
use s3_agent.Dispatcher.Dispatch.{respond, perform, params_of}

-- Two states of the agent with the same files, the same requests of the manager, the same commands
-- run, and the same desired state. What the observer has asked may differ.
pub record AreAlike (s t : State) : Type 0 where
  pub worlds : s.world ≡ t.world
  pub desired : s.last_desired ≡ t.last_desired

module _ {O : Type 0} {fl : Float} (cfg : S3Config fl.F) (agent : AgentConfig) (env : Env)
    (peers : Peers O fl) where
  update_packages-AreAlike :
      (s t : State) (d : Text)
      → AreAlike s t
      → AreAlike
          (update_packages cfg agent env peers d s).1
          (update_packages cfg agent env peers d t).1
  unfolding update_packages run_command
  update_packages-AreAlike s t d h = ground (arith, h.worlds, h.desired)

  update_system-AreAlike :
      (s t : State)
      → AreAlike s t
      → AreAlike (update_system cfg agent env peers s).1 (update_system cfg agent env peers t).1
  unfolding update_system
  update_system-AreAlike s t h =
      let ticked : AreAlike (tick s) (tick t) = ground (arith, h.worlds, h.desired) in
      elim (Result-cases (detect_debian_distro peers.to_lower (peers.os_release t.world.clock))) [
        | inr (e, d) ↦ ground (arith, h.worlds, d, ticked)
        | inl (distro, d) ↦
            ground
              (arith, h.worlds, d, ticked, update_packages-AreAlike (tick s) (tick t) distro ticked)
      ]

  run_op-AreAlike :
      (op : Op) (p : Params) (s t : State)
      → AreAlike s t
      → AreAlike (run_op cfg agent env peers op p s).1 (run_op cfg agent env peers op p t).1
  unfolding run_op send_capabilities set_interval_s run_bucket_stats run_last_desired run_reconcile
      run_captured run_command run_exec
  run_op-AreAlike system_update p s t h = update_system-AreAlike s t h
  run_op-AreAlike op p s t h = ground (arith, h.worlds, h.desired)

  run_full_sync-AreAlike :
      (raw : Text) (s t : State)
      → AreAlike s t
      → AreAlike
          (run_full_sync cfg agent env peers raw s).1
          (run_full_sync cfg agent env peers raw t).1
  unfolding run_full_sync run_reconcile
  run_full_sync-AreAlike raw s t h = ground (arith, h.worlds, h.desired)

  run-AreAlike :
      (name : Text) (p : Params) (s t : State)
      → AreAlike s t
      → AreAlike (run cfg agent env peers name p s).1 (run cfg agent env peers name p t).1
  unfolding run
  run-AreAlike name p s t h = elim (Option-cases (op_in name op_table)) [
    | inl e ↦ ground (arith, e, h)
    | inr (op, e) ↦ ground (arith, e, run_op-AreAlike op p s t h)
  ]

module _ {O : Type 0} {fl : Float} (cfg : S3Config fl.F) (agent : AgentConfig) (env : Env)
    (peers : Peers O fl) (agent_uuid : Text) where
  perform-AreAlike :
      (id : Text) (cmd : CommandPayload) (s t : State)
      → AreAlike s t
      → AreAlike
          (perform cfg agent env peers agent_uuid id cmd s).1
          (perform cfg agent env peers agent_uuid id cmd t).1
  unfolding perform
  perform-AreAlike id cmd s t h = elim (Bool-cases (cmd.operation ≟ codes "full_sync")) [
    | inl q ↦ rw q (run_full_sync-AreAlike cfg agent env peers cmd.params s t h)
    | inr q ↦ elim (Result-cases (params_of cfg agent env peers agent_uuid cmd.params)) [
      | inl (p, e) ↦ rw (q, e) (run-AreAlike cfg agent env peers cmd.operation p s t h)
      | inr (x, e) ↦ rw (q, e) h
    ]
  ]

  pub respond-AreAlike :
      (e : Envelope Text) (s t : State)
      → AreAlike s t
      → AreAlike
          (respond cfg agent env peers agent_uuid e s).1
          (respond cfg agent env peers agent_uuid e t).1
  unfolding respond
  respond-AreAlike e s t h = elim (Result-cases (peers.decode_command e.payload)) [
    | inr (x, d) ↦ ground (arith, d, h)
    | inl (cmd, d) ↦ elim (Bool-cases (member cmd.operation agent.allowed_operations)) [
      | inl m ↦ ground (arith, d, m, perform-AreAlike e.id cmd s t h)
      | inr m ↦ ground (arith, d, m, h)
    ]
  ]
