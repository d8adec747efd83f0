-- ===== src/S3/Manager/Trace.antt =====
-- What the operations of the manager add to the trace, for any predicate on events that holds of
-- every request and of the two commands that the manager runs.
pub mod Files
use s3_agent.Prelude.{
  ℕ, ◌≡◌, refl, ◌⊎◌, inl, inr, Bool, true, false, Option, none, some, List, [], ◌∷◌, ◌++◌, Text,
  codes, Result, ok, err, is_nil, member, All, All-append, arith, Result-cases, Option-cases,
  Bool-cases,
}
use s3_agent.Prelude.Int.{ℤ}
use s3_agent.Config.{S3Config}
use s3_agent.Executor.{RunOutcome, AuditEntry, execute}
use s3_agent.S3.Types.{BucketSpec, WormBucketSpec, LifecycleRule, IamUser, FullSyncPayload}
use s3_agent.S3.Signer.{Request}
use s3_agent.S3.Manager.Base
use s3_agent.S3.Manager.Base.{
  Env, World, Event, sent, ran, IamFile, send, do_s3, new_request, execute_command, reload_weed_s3,
  reload_nginx, read_iam, write_iam, write_blocked,
}
use s3_agent.S3.Manager.Buckets
use s3_agent.S3.Manager.Iam
use s3_agent.S3.Manager.Blocked
use s3_agent.S3.Manager.Reconcile

-- The predicates on events that the manager respects.
pub record Admits {F : Type 0} (cfg : S3Config F) (P : Event → Type 0) : Type 0 where
  pub requests : (r : Request) → P (sent r)
  pub restarts :
      (o : RunOutcome)
      → P (ran (execute (codes "systemctl") (codes "restart" ∷ cfg.weed_s3_service ∷ []) o).1)
  pub reloads :
      (o : RunOutcome) → P (ran (execute (codes "nginx") (codes "-s" ∷ codes "reload" ∷ []) o).1)

module _ {F : Type 0} (cfg : S3Config F) (env : Env) (P : Event → Type 0)
    (admits : Admits cfg P) where
  pub send-All : (r : Request) (w : World) → All P w.trace → All P (send cfg env r w).1.trace
  unfolding send
  send-All r w h = All-append P w.trace (sent r ∷ []) h (admits.requests r, tt)

  pub do_s3-All :
      (verb url body : Text) (w : World)
      → All P w.trace
      → All P (do_s3 cfg env verb url body w).1.trace
  unfolding do_s3
  do_s3-All verb url body w h = elim (Result-cases (new_request cfg env verb url [] body w.clock)) [
    | inl (r, e) ↦ rw e (send-All r w h)
    | inr (x, e) ↦ rw e h
  ]

  pub reload_weed-All : (w : World) → All P w.trace → All P (reload_weed_s3 cfg env w).1.trace
  unfolding reload_weed_s3 execute_command
  reload_weed-All w h =
      let args = codes "restart" ∷ cfg.weed_s3_service ∷ [] in
      All-append P w.trace
        (ran (execute (codes "systemctl") args (env.run w.clock (codes "systemctl") args)).1 ∷ []) h
        (admits.restarts (env.run w.clock (codes "systemctl") args), tt)

  pub reload_nginx-All : (w : World) → All P w.trace → All P (reload_nginx cfg env w).1.trace
  unfolding reload_nginx execute_command
  reload_nginx-All w h =
      let args = codes "-s" ∷ codes "reload" ∷ [] in
      All-append P w.trace
        (ran (execute (codes "nginx") args (env.run w.clock (codes "nginx") args)).1 ∷ []) h
        (admits.reloads (env.run w.clock (codes "nginx") args), tt)

  pub read_iam-All : (w : World) → All P w.trace → All P (read_iam cfg env w).1.trace
  unfolding read_iam
  read_iam-All w h = h

  pub write_iam-All :
      (f : IamFile) (w : World) → All P w.trace → All P (write_iam cfg env f w).1.trace
  unfolding write_iam
  write_iam-All f w h = h

  pub write_blocked-All :
      (t : Text) (w : World) → All P w.trace → All P (write_blocked cfg env t w).1.trace
  unfolding write_blocked
  write_blocked-All t w h = h

  pub create_bucket-All :
      (s : BucketSpec) (w : World)
      → All P w.trace
      → All P (Buckets.create_bucket cfg env s w).1.trace
  unfolding Buckets.create_bucket
  create_bucket-All s w h = grind (arith, do_s3-All)

  pub list_buckets-All :
      (w : World) → All P w.trace → All P (Buckets.list_buckets cfg env w).1.trace
  unfolding Buckets.list_buckets
  list_buckets-All w h = grind (arith, do_s3-All)

  pub put_lifecycle-All :
      (b : Text) (rules : List LifecycleRule) (w : World)
      → All P w.trace
      → All P (Buckets.put_lifecycle cfg env b rules w).1.trace
  unfolding Buckets.put_lifecycle
  put_lifecycle-All b rules w h = grind (arith, do_s3-All)

  pub update_bucket-All :
      (s : BucketSpec) (w : World)
      → All P w.trace
      → All P (Buckets.update_bucket cfg env s w).1.trace
  unfolding Buckets.update_bucket
  update_bucket-All s w h = ground (arith, put_lifecycle-All s.name s.lifecycle_rules w h)

  pub put_object_lock-All :
      (b m : Text) (d : ℤ) (w : World)
      → All P w.trace
      → All P (Buckets.put_object_lock cfg env b m d w).1.trace
  unfolding Buckets.put_object_lock
  put_object_lock-All b m d w h = grind (arith, do_s3-All)

  check_worm_keeps : (s : WormBucketSpec) (w : World) → (Buckets.check_worm cfg env s w).1 ≡ w
  unfolding Buckets.check_worm
  check_worm_keeps s w = ground arith

  pub put_worm-All :
      (n : Text) (w : World) → All P w.trace → All P (Buckets.put_worm_bucket cfg env n w).1.trace
  unfolding Buckets.put_worm_bucket
  put_worm-All n w h = grind (arith, send-All)

  pub create_worm-All :
      (s : WormBucketSpec) (w : World)
      → All P w.trace
      → All P (Buckets.create_worm_bucket cfg env s w).1.trace
  unfolding Buckets.create_worm_bucket
  create_worm-All s w h =
      let w1 = (Buckets.put_worm_bucket cfg env s.name w).1 in
      ground (
        arith,
        check_worm_keeps s w,
        put_worm-All s.name w h,
        put_object_lock-All s.name s.mode s.retention_days w1 (put_worm-All s.name w h),
      )

  pub update_worm-All :
      (s : WormBucketSpec) (w : World)
      → All P w.trace
      → All P (Buckets.update_worm_bucket cfg env s w).1.trace
  unfolding Buckets.update_worm_bucket
  update_worm-All s w h =
      ground (arith, check_worm_keeps s w, put_object_lock-All s.name s.mode s.retention_days w h)

  pub delete_worm-All :
      (n : Text) (w : World)
      → All P w.trace
      → All P (Buckets.delete_worm_bucket cfg env n w).1.trace
  unfolding Buckets.delete_worm_bucket
  delete_worm-All n w h = grind (arith, do_s3-All)

  pub delete_objects-All :
      (n : Text) (keys : List Text) (w : World)
      → All P w.trace
      → All P (Buckets.delete_objects cfg env n keys w).1.trace
  unfolding Buckets.delete_objects
  delete_objects-All n [] w h = h
  delete_objects-All n (k ∷ keys) w h = grind (arith, do_s3-All, delete_objects-All n keys)

  pub empty_bucket-All :
      (n : Text) (w : World) → All P w.trace → All P (Buckets.empty_bucket cfg env n w).1.trace
  unfolding Buckets.empty_bucket
  empty_bucket-All n w h = grind (arith, do_s3-All, delete_objects-All)

  pub delete_bucket-All :
      (n : Text) (f : Bool) (w : World)
      → All P w.trace
      → All P (Buckets.delete_bucket cfg env n f w).1.trace
  unfolding Buckets.delete_bucket
  delete_bucket-All n true w h = grind (arith, do_s3-All, empty_bucket-All)
  delete_bucket-All n false w h = grind (arith, do_s3-All)
