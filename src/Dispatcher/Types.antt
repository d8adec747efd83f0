-- ===== src/Dispatcher/Types.antt =====
-- The data of internal/dispatcher/dispatcher.go: the operations, their parameters and outputs, what
-- the dispatcher keeps and the peers it calls.
use s3_agent.Prelude.{
  ℕ, Bool, false, Option, none, some, List, [], ◌∷◌, if◌then◌else◌, Text, codes, Result, ◌≟◌,
}
use s3_agent.Prelude.Int.{ℤ, pos}
use s3_agent.Executor.{ExecError}
use s3_agent.Touch.{Touch}
use s3_agent.Protocol.{CommandPayload, CapabilitiesPayload, ResultPayload, Fresh}
use s3_agent.S3.Types.{
  LifecycleRule, BucketAcl, FullSyncPayload, ReconcileResult, ClusterComponents, BucketStat,
  TrafficStat, IamUser,
}
use s3_agent.S3.Manager.Base.{World, Error}
use s3_agent.S3.Observer.Poll.{Net}
use s3_agent.S3.Observer.Change.{Float}
use s3_agent.S3.Observer.Tail.{LogFile}
use s3_agent.System.{Baseline}

pub data SystemOp : Type 0 where
  get_info get_metrics get_cpu get_memory get_disk get_network : SystemOp

pub data ServiceOp : Type 0 where
  list get start stop restart reload enable disable : ServiceOp

-- The cases of the switch of `run`; `full_sync` is handled before it.
pub data Op : Type 0 where
  system : SystemOp → Op
  services : ServiceOp → Op
  vm_reboot vm_shutdown system_update allowed_operations set_interval exec : Op
  cluster_status bucket_stats : Op
  bucket_create bucket_update bucket_delete : Op
  worm_bucket_create worm_bucket_update worm_bucket_delete : Op
  iam_create iam_delete iam_list reconcile : Op
  customer_block customer_unblock blocked_list : Op

abbrev pub op_table : List (Text × Op)
op_table =
    (codes "system.info", system get_info)
    ∷ (codes "system.metrics", system get_metrics)
    ∷ (codes "system.cpu", system get_cpu)
    ∷ (codes "system.memory", system get_memory)
    ∷ (codes "system.disk", system get_disk)
    ∷ (codes "system.network", system get_network)
    ∷ (codes "services.list", services list)
    ∷ (codes "services.get", services get)
    ∷ (codes "services.start", services start)
    ∷ (codes "services.stop", services stop)
    ∷ (codes "services.restart", services restart)
    ∷ (codes "services.reload", services reload)
    ∷ (codes "services.enable", services enable)
    ∷ (codes "services.disable", services disable)
    ∷ (codes "vm.reboot", vm_reboot)
    ∷ (codes "vm.shutdown", vm_shutdown)
    ∷ (codes "system.update", system_update)
    ∷ (codes "agent.allowed_operations", allowed_operations)
    ∷ (codes "telemetry.set_interval", set_interval)
    ∷ (codes "exec", exec)
    ∷ (codes "s3.cluster.status", cluster_status)
    ∷ (codes "s3.bucket.stats", bucket_stats)
    ∷ (codes "bucket_create", bucket_create)
    ∷ (codes "bucket_update", bucket_update)
    ∷ (codes "bucket_delete", bucket_delete)
    ∷ (codes "worm_bucket_create", worm_bucket_create)
    ∷ (codes "worm_bucket_update", worm_bucket_update)
    ∷ (codes "worm_bucket_delete", worm_bucket_delete)
    ∷ (codes "iam_create", iam_create)
    ∷ (codes "iam_delete", iam_delete)
    ∷ (codes "s3.iam.list", iam_list)
    ∷ (codes "reconcile", reconcile)
    ∷ (codes "s3.customer.block", customer_block)
    ∷ (codes "s3.customer.unblock", customer_unblock)
    ∷ (codes "s3.blocked.list", blocked_list)
    ∷ []

unfoldable pub op_in : Text → List (Text × Op) → Option Op
op_in name [] = none
op_in name ((n, op) ∷ table) = if name ≟ n then some op else op_in name table

-- `params`
pub record Params : Type 0 where
  pub name : Text
  pub command : Text
  pub args : List Text
  pub interval_s : ℤ
  pub bucket_id : Text
  pub owner_tenant_id : Text
  pub replication_factor : ℤ
  pub lifecycle_rules : List LifecycleRule
  pub force_empty : Bool
  pub object_lock_mode : Text
  pub object_lock_retention_days : ℤ
  pub access_key : Text
  pub secret_key : Text
  pub bucket_acls : List BucketAcl
  pub reason : Text
  pub scope : Text

-- The zero value.
abbrev pub no_params : Params
no_params = record {
  name = [];
  command = [];
  args = [];
  interval_s = pos 0;
  bucket_id = [];
  owner_tenant_id = [];
  replication_factor = pos 0;
  lifecycle_rules = [];
  force_empty = false;
  object_lock_mode = [];
  object_lock_retention_days = pos 0;
  access_key = [];
  secret_key = [];
  bucket_acls = [];
  reason = [];
  scope = [];
}

-- What `run` returns; `O` is what the modules system and services return.
pub data Output (O F : Type 0) : Type 0 where
  module_output : O → Output O F
  -- A map of strings.
  fields : List (Text × Text) → Output O F
  capabilities : CapabilitiesPayload → Output O F
  interval : (requested applied : ℤ) → Output O F
  cluster : ClusterComponents F → Output O F
  stats : List BucketStat → List TrafficStat → Output O F
  iam_users : List IamUser → Output O F
  reconciled : ReconcileResult Error → Output O F
  blocked_keys : List Text → Output O F

-- The errors and the messages of a result.
pub data Failure : Type 0 where
  s3_error : Error → Failure
  exec_error : ExecError → Failure
  foreign : Text → Failure
  os_unknown : Text → Failure
  not_debian interval_not_positive no_desired_state no_bucket_stats : Failure
  step_failed : Text → ExecError → Failure
  command_not_allowed unknown_operation : Text → Failure
  bad_command bad_params bad_full_sync operation_not_permitted : Text → Failure

-- What the agent holds: the dispatcher's `lastDesired`, the telemetry channel, the capabilities
-- handed to NATS, the offset of the traffic log, the disk counters that the system module read last,
-- and the world of the S3 manager.
pub record State : Type 0 where
  pub world : World
  pub last_desired : Option FullSyncPayload
  pub telemetry_interval : Option ℤ
  pub published : List CapabilitiesPayload
  pub traffic_offset : ℕ
  pub baseline : Baseline
  -- The requests of the observer.
  pub touched : List Touch

-- What the dispatcher calls. The module services is given by what it returns at a tick of the clock,
-- the module system also by the counters that it keeps; the rest is encoding/json, the operating system and the order of a map.
pub record Peers (O : Type 0) (fl : Float) : Type 0 where
  pub system_call : ℕ → SystemOp → Baseline → Result Text O × Baseline
  pub service_call : ℕ → ServiceOp → Text → Result Text O
  pub net : ℕ → Net
  pub traffic_log : ℕ → Option LogFile
  pub windows : Bool
  -- `os.ReadFile("/etc/os-release")` and `strings.ToLower`
  pub os_release : ℕ → Result Text Text
  pub to_lower : Text → Text
  -- The order in which the range over the catalog visits its keys.
  pub catalog_keys : ℕ → List Text
  -- `int(d.Seconds())`, of float64.
  pub whole_seconds : ℤ → ℤ
  pub decode_command : Text → Result Text CommandPayload
  pub decode_params : Text → Result Text Params
  pub decode_full_sync : Text → Result Text FullSyncPayload
  -- `json.Marshal` of a result; `none` where it fails.
  pub encode_result : ResultPayload (Output O fl.F) Failure → Option Text
  -- The id and the time of an envelope that is made at a tick.
  pub fresh : ℕ → Fresh
