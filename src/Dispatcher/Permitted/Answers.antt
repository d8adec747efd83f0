-- ===== src/Dispatcher/Permitted/Answers.antt =====
-- The commands that are run for a command of NATS, whatever it is.
use s3_agent.Prelude.{
  refl, inl, inr, [], ◌∷◌, Text, codes, member, All, arith, Result-cases, Option-cases, Bool-cases,
  ◌≟◌,
}
use s3_agent.Prelude.Int.{pos}
use s3_agent.Config.{AgentConfig, S3Config}
use s3_agent.Protocol.{Envelope, CommandPayload}
use s3_agent.S3.Manager.Base.{Env}
use s3_agent.S3.Manager.Trace
use s3_agent.S3.Manager.Trace.{Admits}
use s3_agent.S3.Manager.Trace.Files
use s3_agent.S3.Observer.Change.{Float}
use s3_agent.Dispatcher.Types.{
  Op, Params, State, Peers, op_in, op_table, system, services, vm_reboot, vm_shutdown,
  system_update, allowed_operations, set_interval, exec, cluster_status, bucket_stats,
  bucket_create, bucket_update, bucket_delete, worm_bucket_create, worm_bucket_update,
  worm_bucket_delete, iam_create, iam_delete, iam_list, reconcile, customer_block, customer_unblock,
  blocked_list,
}
use s3_agent.Dispatcher.Stored.{bucket_spec, worm_spec, user_of_params}
use s3_agent.Dispatcher.Run.{run, run_op, send_capabilities}
use s3_agent.Dispatcher.Dispatch.{respond, perform, params_of}
use s3_agent.Dispatcher.Permitted.{
  power, windows_power, P, admits, run_captured-All, update_system-All, set_interval-All,
  run_exec-All, bucket_stats-All, last_desired-All, full_sync-All,
}

module _ {O : Type 0} {fl : Float} (cfg : S3Config fl.F) (agent : AgentConfig) (env : Env)
    (peers : Peers O fl) where
  run_op-All :
      (op : Op) (p : Params) (s : State)
      → All (P cfg agent env peers) s.world.trace
      → All (P cfg agent env peers) (run_op cfg agent env peers op p s).1.world.trace
  unfolding run_op send_capabilities
  run_op-All (system op) p s h = h
  run_op-All (services op) p s h = h
  run_op-All cluster_status p s h = h
  run_op-All allowed_operations p s h = h
  run_op-All vm_reboot p s h = elim (Bool-cases peers.windows) [
    | inl b ↦ rw b (
        run_captured-All cfg agent env peers (codes "shutdown")
          (codes "/r" ∷ codes "/t" ∷ codes "0" ∷ []) s (windows_power refl (inl refl)) h)
    | inr b ↦ rw b (
        run_captured-All cfg agent env peers (codes "systemctl") (codes "reboot" ∷ []) s
          (power refl (inl refl)) h)
  ]
  run_op-All vm_shutdown p s h = elim (Bool-cases peers.windows) [
    | inl b ↦ rw b (
        run_captured-All cfg agent env peers (codes "shutdown")
          (codes "/s" ∷ codes "/t" ∷ codes "0" ∷ []) s (windows_power refl (inr refl)) h)
    | inr b ↦ rw b (
        run_captured-All cfg agent env peers (codes "systemctl") (codes "poweroff" ∷ []) s
          (power refl (inr refl)) h)
  ]
  run_op-All system_update p s h = update_system-All cfg agent env peers s h
  run_op-All set_interval p s h = set_interval-All cfg agent env peers p.interval_s s h
  run_op-All exec p s h = run_exec-All cfg agent env peers p.command p.args s h
  run_op-All bucket_stats p s h = bucket_stats-All cfg agent env peers s h
  run_op-All reconcile p s h = last_desired-All cfg agent env peers p.scope s h
  run_op-All bucket_create p s h =
      Trace.create_bucket-All cfg env (P cfg agent env peers) (admits cfg agent env peers)
        (bucket_spec p p.owner_tenant_id p.replication_factor) s.world h
  run_op-All bucket_update p s h =
      Trace.update_bucket-All cfg env (P cfg agent env peers) (admits cfg agent env peers)
        (bucket_spec p [] (pos 0)) s.world h
  run_op-All bucket_delete p s h =
      Trace.delete_bucket-All cfg env (P cfg agent env peers) (admits cfg agent env peers) p.name
        p.force_empty s.world h
  run_op-All worm_bucket_create p s h =
      Trace.create_worm-All cfg env (P cfg agent env peers) (admits cfg agent env peers)
        (worm_spec p p.owner_tenant_id) s.world h
  run_op-All worm_bucket_update p s h =
      Trace.update_worm-All cfg env (P cfg agent env peers) (admits cfg agent env peers)
        (worm_spec p []) s.world h
  run_op-All worm_bucket_delete p s h =
      Trace.delete_worm-All cfg env (P cfg agent env peers) (admits cfg agent env peers) p.name
        s.world h
  run_op-All iam_create p s h =
      Files.create_user-All cfg env (P cfg agent env peers) (admits cfg agent env peers)
        (user_of_params p) p.secret_key s.world h
  run_op-All iam_delete p s h =
      Files.delete_user-All cfg env (P cfg agent env peers) (admits cfg agent env peers) p.name
        s.world h
  run_op-All customer_block p s h =
      Files.block-All cfg env (P cfg agent env peers) (admits cfg agent env peers) p.access_key
        p.reason s.world h
  run_op-All customer_unblock p s h =
      Files.unblock-All cfg env (P cfg agent env peers) (admits cfg agent env peers) p.access_key
        s.world h
  run_op-All iam_list p s h = ground (
    arith,
    Files.list_iam-All cfg env (P cfg agent env peers) (admits cfg agent env peers) s.world h,
  )
  run_op-All blocked_list p s h = ground (
    arith,
    Files.list_blocked-All cfg env (P cfg agent env peers) (admits cfg agent env peers) s.world h,
  )

  run-All :
      (name : Text) (p : Params) (s : State)
      → All (P cfg agent env peers) s.world.trace
      → All (P cfg agent env peers) (run cfg agent env peers name p s).1.world.trace
  unfolding run
  run-All name p s h = elim (Option-cases (op_in name op_table)) [
    | inl e ↦ ground (arith, e)
    | inr (op, e) ↦ ground (arith, e, run_op-All op p s h)
  ]

module _ {O : Type 0} {fl : Float} (cfg : S3Config fl.F) (agent : AgentConfig) (env : Env)
    (peers : Peers O fl) (agent_uuid : Text) where
  perform-All :
      (id : Text) (cmd : CommandPayload) (s : State)
      → All (P cfg agent env peers) s.world.trace
      → All (P cfg agent env peers) (perform cfg agent env peers agent_uuid id cmd s).1.world.trace
  unfolding perform
  perform-All id cmd s h = elim (Bool-cases (cmd.operation ≟ codes "full_sync")) [
    | inl q ↦ rw q (full_sync-All cfg agent env peers cmd.params s h)
    | inr q ↦ elim (Result-cases (params_of cfg agent env peers agent_uuid cmd.params)) [
      | inl (p, e) ↦ rw (q, e) (run-All cfg agent env peers cmd.operation p s h)
      | inr (x, e) ↦ rw (q, e) h
    ]
  ]

  pub respond-All :
      (e : Envelope Text) (s : State)
      → All (P cfg agent env peers) s.world.trace
      → All (P cfg agent env peers) (respond cfg agent env peers agent_uuid e s).1.world.trace
  unfolding respond
  respond-All e s h = elim (Result-cases (peers.decode_command e.payload)) [
    | inr (x, d) ↦ ground (arith, d)
    | inl (cmd, d) ↦ elim (Bool-cases (member cmd.operation agent.allowed_operations)) [
      | inl m ↦ ground (arith, d, m, perform-All e.id cmd s h)
      | inr m ↦ ground (arith, d, m)
    ]
  ]
