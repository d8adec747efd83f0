-- ===== src/Dispatcher/Stored.antt =====
-- `run` of internal/dispatcher/dispatcher.go: the operations on the store, its identities and the
-- blocked keys, each a call of the manager with what it answers.
use s3_agent.Prelude.{List, [], ◌∷◌, Text, codes, Result, ok, err}
use s3_agent.Prelude.Int.{ℤ, pos}
use s3_agent.Config.{S3Config}
use s3_agent.S3.Types.{BucketSpec, WormBucketSpec, IamUser}
use s3_agent.S3.Manager.Base.{Env}
use s3_agent.S3.Manager.Buckets
use s3_agent.S3.Manager.Iam
use s3_agent.S3.Manager.Blocked
use s3_agent.Dispatcher.Types.{Params, Output, Failure, State, iam_users, blocked_keys}
use s3_agent.Dispatcher.Commands.{Run, on_world, answered}

abbrev named_status : Params → Text → List (Text × Text)
named_status p status = (codes "bucket", p.name) ∷ (codes "status", status) ∷ []

abbrev worm_status : Params → Text → List (Text × Text)
worm_status p status =
    (codes "bucket", p.name) ∷ (codes "status", status) ∷ (codes "mode", p.object_lock_mode) ∷ []

abbrev pub worm_spec : Params → Text → WormBucketSpec
worm_spec p owner = record {
  bucket_id = p.bucket_id;
  name = p.name;
  owner_tenant_id = owner;
  mode = p.object_lock_mode;
  retention_days = p.object_lock_retention_days;
}

abbrev pub bucket_spec : Params → Text → ℤ → BucketSpec
bucket_spec p owner factor = record {
  bucket_id = p.bucket_id;
  name = p.name;
  owner_tenant_id = owner;
  replication_factor = factor;
  lifecycle_rules = p.lifecycle_rules;
}

abbrev pub user_of_params : Params → IamUser
user_of_params p = record {
  user_id = [];
  name = p.name;
  owner_tenant_id = [];
  access_key = p.access_key;
  secret_key = [];
  bucket_acls = p.bucket_acls;
}

abbrev value_out :
    {O F A : Type 0}
    → (A → Output O F)
    → Result Failure A × State
    → Result Failure (Output O F) × State
value_out f (ok a, s) = (ok (f a), s)
value_out f (err e, s) = (err e, s)

module _ {O F : Type 0} (cfg : S3Config F) (env : Env) where
  -- `case "bucket_create"`
  unfoldable pub run_create_bucket : Params → Run (Output O F)
  run_create_bucket p s =
      answered
        (Buckets.create_bucket cfg env (bucket_spec p p.owner_tenant_id p.replication_factor))
        (named_status p (codes "created")) s

  -- `case "bucket_update"`
  unfoldable pub run_update_bucket : Params → Run (Output O F)
  run_update_bucket p s =
      answered (Buckets.update_bucket cfg env (bucket_spec p [] (pos 0)))
        (named_status p (codes "updated")) s

  -- `case "bucket_delete"`
  unfoldable pub run_delete_bucket : Params → Run (Output O F)
  run_delete_bucket p s =
      answered (Buckets.delete_bucket cfg env p.name p.force_empty)
        (named_status p (codes "deleted")) s

  -- `case "worm_bucket_create"`
  unfoldable pub run_create_worm : Params → Run (Output O F)
  run_create_worm p s =
      answered (Buckets.create_worm_bucket cfg env (worm_spec p p.owner_tenant_id))
        (worm_status p (codes "created")) s

  -- `case "worm_bucket_update"`
  unfoldable pub run_update_worm : Params → Run (Output O F)
  run_update_worm p s =
      answered (Buckets.update_worm_bucket cfg env (worm_spec p []))
        (worm_status p (codes "updated")) s

  -- `case "worm_bucket_delete"`
  unfoldable pub run_delete_worm : Params → Run (Output O F)
  run_delete_worm p s =
      answered (Buckets.delete_worm_bucket cfg env p.name) (named_status p (codes "deleted")) s

  -- `case "iam_create"`
  unfoldable pub run_create_iam : Params → Run (Output O F)
  run_create_iam p s =
      answered (Iam.create_iam_user cfg env (user_of_params p) p.secret_key)
        ((codes "name", p.name) ∷ (codes "status", codes "created") ∷ []) s

  -- `case "iam_delete"`
  unfoldable pub run_delete_iam : Params → Run (Output O F)
  run_delete_iam p s =
      answered (Iam.delete_iam_user cfg env p.name)
        ((codes "name", p.name) ∷ (codes "status", codes "deleted") ∷ []) s

  -- `case "s3.iam.list"`
  unfoldable pub run_list_iam : Run (Output O F)
  run_list_iam s = value_out iam_users (on_world (Iam.list_iam cfg env) s)

  -- `case "s3.customer.block"`
  unfoldable pub run_block_customer : Params → Run (Output O F)
  run_block_customer p s =
      answered (Blocked.block_access_key cfg env p.access_key p.reason)
        ((codes "access_key", p.access_key) ∷ (codes "status", codes "blocked") ∷ []) s

  -- `case "s3.customer.unblock"`
  unfoldable pub run_unblock_customer : Params → Run (Output O F)
  run_unblock_customer p s =
      answered (Blocked.unblock_access_key cfg env p.access_key)
        ((codes "access_key", p.access_key) ∷ (codes "status", codes "unblocked") ∷ []) s

  -- `case "s3.blocked.list"`
  unfoldable pub run_list_blocked : Run (Output O F)
  run_list_blocked s = value_out blocked_keys (on_world (Blocked.list_blocked cfg env) s)
