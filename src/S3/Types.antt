-- ===== src/S3/Types.antt =====
-- internal/modules/s3/types.go
-- An instant is a number of nanoseconds. `F` is float64.
use s3_agent.Prelude.{ℕ, Bool, Option, List, Text}
use s3_agent.Prelude.Int.{ℤ}

pub record ServiceHealth : Type 0 where
  pub name : Text
  pub active : Bool
  pub sub_state : Text

pub record MasterComponent : Type 0 where
  pub reachable : Bool
  pub is_leader : Bool
  pub peers : ℕ
  pub checked_at : ℕ
  pub service : ServiceHealth

pub record VolumeComponent (F : Type 0) : Type 0 where
  pub reachable : Bool
  pub total_volumes : ℕ
  pub writable_volumes : ℕ
  pub degraded_volumes : ℕ
  pub read_only_volumes : ℕ
  pub capacity_bytes_total : ℕ
  pub capacity_bytes_used : ℕ
  pub capacity_pct : F
  pub checked_at : ℕ
  pub service : ServiceHealth

pub record FilerComponent : Type 0 where
  pub reachable : Bool
  pub checked_at : ℕ
  pub service : ServiceHealth

pub record S3GatewayComponent : Type 0 where
  pub reachable : Bool
  pub bucket_count : ℕ
  pub checked_at : ℕ
  pub service : ServiceHealth

pub record NginxComponent : Type 0 where
  pub service : ServiceHealth
  pub checked_at : ℕ

pub record ClusterComponents (F : Type 0) : Type 0 where
  pub master : MasterComponent
  pub volume : VolumeComponent F
  pub filer : FilerComponent
  pub s3 : S3GatewayComponent
  pub nginx : NginxComponent

pub record BucketStat : Type 0 where
  pub name : Text
  pub object_count : ℤ
  pub size_bytes : ℤ
  pub replica_health : Text

pub record TrafficStat : Type 0 where
  pub bucket_name : Text
  pub bytes_in : ℤ
  pub bytes_out : ℤ
  pub requests : ℤ

pub record AuditEvent : Type 0 where
  pub bucket : Text
  pub object_key : Text
  pub action : Text
  pub size_bytes : ℤ
  pub retain_until : Option ℕ
  pub access_key : Text
  pub client_ip : Text
  pub performed_at : ℤ

pub record LifecycleRule : Type 0 where
  pub prefix : Text
  pub expire_days : ℤ

pub record BucketSpec : Type 0 where
  pub bucket_id : Text
  pub name : Text
  pub owner_tenant_id : Text
  pub replication_factor : ℤ
  pub lifecycle_rules : List LifecycleRule

pub record WormBucketSpec : Type 0 where
  pub bucket_id : Text
  pub name : Text
  pub owner_tenant_id : Text
  pub mode : Text
  pub retention_days : ℤ

pub record BucketAcl : Type 0 where
  pub bucket_id : Text
  pub permission : Text

pub record IamUser : Type 0 where
  pub user_id : Text
  pub name : Text
  pub owner_tenant_id : Text
  pub access_key : Text
  pub secret_key : Text
  pub bucket_acls : List BucketAcl

pub record FullSyncPayload : Type 0 where
  pub buckets : List BucketSpec
  pub iam_users : List IamUser

pub record ReconcileResult (E : Type 0) : Type 0 where
  pub buckets_created : ℕ
  pub buckets_deleted : ℕ
  pub iam_created : ℕ
  pub iam_deleted : ℕ
  pub errors : List E
