-- ===== src/S3/Manager/Trace/Files.antt =====
-- What the operations on the two files, and `Reconcile`, add to the trace.
use s3_agent.Prelude.{List, [], ◌∷◌, Text, All, arith}
use s3_agent.Config.{S3Config}
use s3_agent.S3.Types.{BucketSpec, IamUser, FullSyncPayload}
use s3_agent.S3.Manager.Base
use s3_agent.S3.Manager.Base.{
  Env, World, Event, sent, ran, IamFile, send, do_s3, new_request, execute_command, reload_weed_s3,
  reload_nginx, read_iam, write_iam, write_blocked,
}
use s3_agent.S3.Manager.Iam
use s3_agent.S3.Manager.Blocked
use s3_agent.S3.Manager.Reconcile
use s3_agent.S3.Manager.Trace.{
  Admits, reload_weed-All, reload_nginx-All, read_iam-All, write_iam-All, write_blocked-All,
  create_bucket-All, list_buckets-All, delete_bucket-All,
}

module _ {F : Type 0} (cfg : S3Config F) (env : Env) (P : Event → Type 0)
    (admits : Admits cfg P) where
  pub save-All :
      (is : List Base.IamIdentity) (w : World)
      → All P w.trace
      → All P (Iam.save cfg env is w).1.trace
  save-All is w h = grind (arith, write_iam-All cfg env P admits, reload_weed-All cfg env P admits)

  pub ensure_admin-All : (w : World) → All P w.trace → All P (Iam.ensure_admin cfg env w).1.trace
  unfolding Iam.ensure_admin
  ensure_admin-All w h = grind (arith, read_iam-All cfg env P admits, save-All)

  pub list_iam-All : (w : World) → All P w.trace → All P (Iam.list_iam cfg env w).1.trace
  unfolding Iam.list_iam
  list_iam-All w h = grind (arith, read_iam-All cfg env P admits)

  pub create_user-All :
      (u : IamUser) (secret : Text) (w : World)
      → All P w.trace
      → All P (Iam.create_iam_user cfg env u secret w).1.trace
  unfolding Iam.create_iam_user
  create_user-All u secret w h = grind (arith, read_iam-All cfg env P admits, save-All)

  pub delete_user-All :
      (n : Text) (w : World) → All P w.trace → All P (Iam.delete_iam_user cfg env n w).1.trace
  unfolding Iam.delete_iam_user
  delete_user-All n w h = grind (arith, read_iam-All cfg env P admits, save-All)

  pub list_blocked-All :
      (w : World) → All P w.trace → All P (Blocked.list_blocked cfg env w).1.trace
  unfolding Blocked.list_blocked Blocked.read_blocked
  list_blocked-All w h = ground arith

  pub block-All :
      (k reason : Text) (w : World)
      → All P w.trace
      → All P (Blocked.block_access_key cfg env k reason w).1.trace
  unfolding Blocked.block_access_key Blocked.read_blocked Blocked.add_block
  block-All k reason w h =
      grind (arith, write_blocked-All cfg env P admits, reload_nginx-All cfg env P admits)

  pub unblock-All :
      (k : Text) (w : World)
      → All P w.trace
      → All P (Blocked.unblock_access_key cfg env k w).1.trace
  unfolding Blocked.unblock_access_key Blocked.read_blocked
  unblock-All k w h =
      grind (arith, write_blocked-All cfg env P admits, reload_nginx-All cfg env P admits)

  pub create_buckets-All :
      (actual : List Text) (specs : List BucketSpec) (t : Reconcile.Tally) (w : World)
      → All P w.trace
      → All P (Reconcile.create_buckets cfg env actual specs t w).1.trace
  unfolding Reconcile.create_buckets
  create_buckets-All actual [] t w h = h
  create_buckets-All actual (s ∷ specs) t w h =
      grind (arith, create_buckets-All actual specs, create_bucket-All cfg env P admits)

  pub delete_buckets-All :
      (desired names : List Text) (t : Reconcile.Tally) (w : World)
      → All P w.trace
      → All P (Reconcile.delete_buckets cfg env desired names t w).1.trace
  unfolding Reconcile.delete_buckets
  delete_buckets-All desired [] t w h = h
  delete_buckets-All desired (n ∷ names) t w h =
      grind (arith, delete_buckets-All desired names, delete_bucket-All cfg env P admits)

  pub create_users-All :
      (actual : List Text) (users : List IamUser) (t : Reconcile.Tally) (w : World)
      → All P w.trace
      → All P (Reconcile.create_users cfg env actual users t w).1.trace
  unfolding Reconcile.create_users
  create_users-All actual [] t w h = h
  create_users-All actual (u ∷ users) t w h =
      grind (arith, create_users-All actual users, create_user-All)

  pub delete_users-All :
      (desired : List Text) (users : List IamUser) (t : Reconcile.Tally) (w : World)
      → All P w.trace
      → All P (Reconcile.delete_users cfg env desired users t w).1.trace
  unfolding Reconcile.delete_users
  delete_users-All desired [] t w h = h
  delete_users-All desired (u ∷ users) t w h =
      grind (arith, delete_users-All desired users, delete_user-All)

  pub reconcile-All :
      (desired : FullSyncPayload) (w : World)
      → All P w.trace
      → All P (Reconcile.reconcile cfg env desired w).1.trace
  unfolding Reconcile.reconcile Reconcile.reconcile_buckets Reconcile.reconcile_users
  reconcile-All desired w h = grind (
    arith,
    list_buckets-All cfg env P admits,
    create_buckets-All,
    delete_buckets-All,
    list_iam-All,
    create_users-All,
    delete_users-All,
  )
