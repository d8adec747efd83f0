-- ===== src/Dispatcher/Run.antt =====
-- `run` and `runFullSync` of internal/dispatcher/dispatcher.go.
use s3_agent.Prelude.{none, some, [], ◌∷◌, ◌++◌, if◌then◌else◌, Text, codes, Result, ok, err, ◌≟◌}
use s3_agent.Prelude.Int.{ℤ, pos, mul64, leb_ℤ}
use s3_agent.Config.{AgentConfig, S3Config}
use s3_agent.S3.Types.{FullSyncPayload, ReconcileResult}
use s3_agent.S3.Manager.Base.{Env, Error}
use s3_agent.S3.Manager.Reconcile
use s3_agent.S3.Observer.Poll.{poll_cluster, poll_requests}
use s3_agent.S3.Observer.Stats
use s3_agent.S3.Observer.Traffic.{flush}
use s3_agent.Publisher.Interval.{set_telemetry_interval}
use s3_agent.Publisher.Capabilities.{capabilities_payload}
use s3_agent.S3.Observer.Change.{Float}
use s3_agent.Dispatcher.Types.{
  Op, op_table, op_in, Params, Output, Failure, Peers, system, services, vm_reboot, vm_shutdown,
  system_update, allowed_operations, set_interval, exec, cluster_status, bucket_stats,
  bucket_create, bucket_update, bucket_delete, worm_bucket_create, worm_bucket_update,
  worm_bucket_delete, iam_create, iam_delete, iam_list, reconcile, customer_block, customer_unblock,
  blocked_list, module_output, capabilities, interval, cluster, stats, reconciled, s3_error,
  foreign, interval_not_positive, no_desired_state, no_bucket_stats, unknown_operation,
  bad_full_sync,
}
use s3_agent.Dispatcher.Commands.{Run, tick, run_captured, update_system, run_exec}
use s3_agent.Dispatcher.Stored.{
  run_create_bucket, run_update_bucket, run_delete_bucket, run_create_worm, run_update_worm,
  run_delete_worm, run_create_iam, run_delete_iam, run_list_iam, run_block_customer,
  run_unblock_customer, run_list_blocked,
}

-- `desired.IAMUsers = nil` for the scope "buckets", `desired.Buckets = nil` for "iam".
unfoldable pub scoped : Text → FullSyncPayload → FullSyncPayload
scoped scope desired =
    if scope ≟ codes "buckets"
    then record desired { iam_users = [] }
    else if scope ≟ codes "iam"
    then record desired { buckets = [] }
    else desired

module _ {O : Type 0} {fl : Float} (cfg : S3Config fl.F) (agent : AgentConfig) (env : Env)
    (peers : Peers O fl) where
  -- `case "agent.allowed_operations"`
  unfoldable pub send_capabilities : Run (Output O fl.F)
  unfolding capabilities_payload
  send_capabilities s =
      let payload = capabilities_payload (peers.catalog_keys s.world.clock) agent in
      (ok (capabilities payload), record (tick s) { published = s.published ++ payload ∷ [] })

  -- `case "telemetry.set_interval"`; the product is a 64-bit one.
  unfoldable pub set_interval_s : ℤ → Run (Output O fl.F)
  unfolding set_telemetry_interval
  set_interval_s seconds s =
      if leb_ℤ seconds (pos 0)
      then (err interval_not_positive, s)
      else let (applied, channel) =
          set_telemetry_interval (mul64 seconds (pos 1000000000)) s.telemetry_interval in
        (
          ok (interval seconds (peers.whole_seconds applied)),
          record s { telemetry_interval = channel },
        )

  -- `case "s3.bucket.stats"`: the traffic is flushed only behind the statistics.
  unfoldable pub run_bucket_stats : Run (Output O fl.F)
  unfolding flush
  run_bucket_stats s =
      let asked = s.touched ++ Stats.stats_requests cfg (peers.net s.world.clock) in
      elim (Stats.bucket_stats cfg (peers.net s.world.clock)) [
        | none ↦ (err no_bucket_stats, record (tick s) { touched = asked })
        | some bs ↦
            let (traffic, offset) = flush (peers.traffic_log s.world.clock) s.traffic_offset in
            (ok (stats bs traffic), record (tick s) { traffic_offset = offset; touched = asked })
      ]

  abbrev reconcile_out :
      (ReconcileResult Error × Result Error (Unit {0})) → Result Failure (Output O fl.F)
  reconcile_out (t, ok _) = ok (reconciled t)
  reconcile_out (t, err e) = err (s3_error e)

  -- `d.s3mgr.Reconcile`
  unfoldable pub run_reconcile : FullSyncPayload → Run (Output O fl.F)
  run_reconcile desired s =
      let (out, w) = Reconcile.reconcile cfg env desired s.world in
      (reconcile_out out, record s { world = w })

  -- `runFullSync`
  unfoldable pub run_full_sync : Text → Run (Output O fl.F)
  unfolding run_reconcile
  run_full_sync raw s = elim (peers.decode_full_sync raw) [
    | err e ↦ (err (bad_full_sync e), s)
    | ok payload ↦ run_reconcile payload (record s { last_desired = some payload })
  ]

  -- `case "reconcile"`
  unfoldable pub run_last_desired : Text → Run (Output O fl.F)
  unfolding run_reconcile scoped
  run_last_desired scope s = elim s.last_desired [
    | none ↦ (err no_desired_state, s)
    | some desired ↦ run_reconcile (scoped scope desired) s
  ]

  abbrev module_out : Result Text O → Result Failure (Output O fl.F)
  module_out (ok o) = ok (module_output o)
  module_out (err e) = err (foreign e)

  -- `run`, behind the switch.
  unfoldable pub run_op : Op → Params → Run (Output O fl.F)
  unfolding update_system send_capabilities set_interval_s run_exec run_bucket_stats
      run_last_desired run_captured run_create_bucket run_update_bucket run_delete_bucket
      run_create_worm run_update_worm run_delete_worm run_create_iam run_delete_iam run_list_iam
      run_block_customer run_unblock_customer run_list_blocked
  run_op (system op) p s =
      let (r, b) = peers.system_call s.world.clock op s.baseline in
      (module_out r, record (tick s) { baseline = b })
  run_op (services op) p s = (module_out (peers.service_call s.world.clock op p.name), tick s)
  run_op vm_reboot p s =
      if peers.windows
      then run_captured cfg agent env peers (codes "shutdown")
          (codes "/r" ∷ codes "/t" ∷ codes "0" ∷ []) s
      else run_captured cfg agent env peers (codes "systemctl") (codes "reboot" ∷ []) s
  run_op vm_shutdown p s =
      if peers.windows
      then run_captured cfg agent env peers (codes "shutdown")
          (codes "/s" ∷ codes "/t" ∷ codes "0" ∷ []) s
      else run_captured cfg agent env peers (codes "systemctl") (codes "poweroff" ∷ []) s
  run_op system_update p s = update_system cfg agent env peers s
  run_op allowed_operations p s = send_capabilities s
  run_op set_interval p s = set_interval_s p.interval_s s
  run_op exec p s = run_exec cfg agent env peers p.command p.args s
  run_op cluster_status p s = (
    ok (cluster (poll_cluster fl cfg (peers.net s.world.clock) s.world.clock)),
    record (tick s) { touched = s.touched ++ poll_requests cfg },
  )
  run_op bucket_stats p s = run_bucket_stats s
  run_op bucket_create p s = run_create_bucket cfg env p s
  run_op bucket_update p s = run_update_bucket cfg env p s
  run_op bucket_delete p s = run_delete_bucket cfg env p s
  run_op worm_bucket_create p s = run_create_worm cfg env p s
  run_op worm_bucket_update p s = run_update_worm cfg env p s
  run_op worm_bucket_delete p s = run_delete_worm cfg env p s
  run_op iam_create p s = run_create_iam cfg env p s
  run_op iam_delete p s = run_delete_iam cfg env p s
  run_op iam_list p s = run_list_iam cfg env s
  run_op reconcile p s = run_last_desired p.scope s
  run_op customer_block p s = run_block_customer cfg env p s
  run_op customer_unblock p s = run_unblock_customer cfg env p s
  run_op blocked_list p s = run_list_blocked cfg env s

  -- `run`: the switch on the name of the operation.
  unfoldable pub run : Text → Params → Run (Output O fl.F)
  unfolding run_op op_in
  run name p s = elim (op_in name op_table) [
    | some op ↦ run_op op p s
    | none ↦ (err (unknown_operation name), s)
  ]
