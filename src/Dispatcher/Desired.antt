-- ===== src/Dispatcher/Desired.antt =====
-- Which operations change the stored desired state.
use s3_agent.Prelude.{◌≡◌, refl, inl, inr, some, List, Text, ok, Option-cases, arith}
use s3_agent.Prelude.Int.{ℤ}
use s3_agent.Config.{AgentConfig, S3Config}
use s3_agent.S3.Types.{FullSyncPayload}
use s3_agent.S3.Manager.Base.{Env}
use s3_agent.S3.Observer.Change.{Float}
use s3_agent.Dispatcher.Types.{
  Op, Params, State, Peers, exec, op_table, op_in, system, services, vm_reboot, vm_shutdown,
  system_update, allowed_operations, set_interval, cluster_status, bucket_stats, bucket_create,
  bucket_update, bucket_delete, worm_bucket_create, worm_bucket_update, worm_bucket_delete,
  iam_create, iam_delete, iam_list, reconcile, customer_block, customer_unblock, blocked_list,
}
use s3_agent.Dispatcher.Commands.{
  run_exec, run_captured, run_command, update_system, update_packages,
}
use s3_agent.Dispatcher.Run.{
  run, run_op, run_full_sync, run_reconcile, send_capabilities, set_interval_s, run_bucket_stats,
  run_last_desired,
}

module _ {O : Type 0} {fl : Float} (cfg : S3Config fl.F) (agent : AgentConfig) (env : Env)
    (peers : Peers O fl) where
  run_command_desired :
      (c : Text) (a : List Text) (s : State)
      → (run_command cfg agent env peers c a s).1.last_desired ≡ s.last_desired
  unfolding run_command
  run_command_desired c a s = refl

  update_packages_desired :
      (d : Text) (s : State)
      → (update_packages cfg agent env peers d s).1.last_desired ≡ s.last_desired
  unfolding update_packages run_command
  update_packages_desired d s = ground arith

  update_system_desired :
      (s : State) → (update_system cfg agent env peers s).1.last_desired ≡ s.last_desired
  unfolding update_system
  update_system_desired s = grind (arith, update_packages_desired)

  run_captured_desired :
      (c : Text) (a : List Text) (s : State)
      → (run_captured cfg agent env peers c a s).1.last_desired ≡ s.last_desired
  unfolding run_captured
  run_captured_desired c a s = ground (arith, run_command_desired c a s)

  run_exec_desired :
      (c : Text) (a : List Text) (s : State)
      → (run_exec cfg agent env peers c a s).1.last_desired ≡ s.last_desired
  unfolding run_exec
  run_exec_desired c a s = ground (arith, run_captured_desired c a s)

  run_last_desired_desired :
      (t : Text) (s : State)
      → (run_last_desired cfg agent env peers t s).1.last_desired ≡ s.last_desired
  unfolding run_last_desired run_reconcile
  run_last_desired_desired t s = ground arith

  run_stats_desired :
      (s : State) → (run_bucket_stats cfg agent env peers s).1.last_desired ≡ s.last_desired
  unfolding run_bucket_stats
  run_stats_desired s = ground arith

  set_interval_desired :
      (i : ℤ) (s : State) → (set_interval_s cfg agent env peers i s).1.last_desired ≡ s.last_desired
  unfolding set_interval_s
  set_interval_desired i s = ground arith

  run_op_desired :
      (op : Op) (p : Params) (s : State)
      → (run_op cfg agent env peers op p s).1.last_desired ≡ s.last_desired
  unfolding run_op send_capabilities
  run_op_desired (system op) p s = refl
  run_op_desired (services op) p s = refl
  run_op_desired cluster_status p s = refl
  run_op_desired bucket_create p s = refl
  run_op_desired bucket_update p s = refl
  run_op_desired bucket_delete p s = refl
  run_op_desired worm_bucket_create p s = refl
  run_op_desired worm_bucket_update p s = refl
  run_op_desired worm_bucket_delete p s = refl
  run_op_desired iam_create p s = refl
  run_op_desired iam_delete p s = refl
  run_op_desired customer_block p s = refl
  run_op_desired customer_unblock p s = refl
  run_op_desired allowed_operations p s = refl
  run_op_desired iam_list p s = ground arith
  run_op_desired blocked_list p s = ground arith
  run_op_desired vm_reboot p s = grind (arith, run_captured_desired)
  run_op_desired vm_shutdown p s = grind (arith, run_captured_desired)
  run_op_desired system_update p s = update_system_desired s
  run_op_desired set_interval p s = set_interval_desired p.interval_s s
  run_op_desired exec p s = run_exec_desired p.command p.args s
  run_op_desired bucket_stats p s = run_stats_desired s
  run_op_desired reconcile p s = run_last_desired_desired p.scope s

  -- No operation of `run` changes the desired state that `full_sync` stored.
  pub run_keeps_desired :
      (name : Text) (p : Params) (s : State)
      → (run cfg agent env peers name p s).1.last_desired ≡ s.last_desired
  unfolding run
  run_keeps_desired name p s = elim (Option-cases (op_in name op_table)) [
    | inl e ↦ ground (arith, e)
    | inr (op, e) ↦ ground (arith, e, run_op_desired op p s)
  ]

  pub full_sync_desired :
      (raw : Text) (s : State) (payload : FullSyncPayload)
      → peers.decode_full_sync raw ≡ ok payload
      → (run_full_sync cfg agent env peers raw s).1.last_desired ≡ some payload
  unfolding run_full_sync run_reconcile
  full_sync_desired raw s payload e = ground (arith, e)
