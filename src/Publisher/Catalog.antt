-- ===== src/Publisher/Catalog.antt =====
-- `operationCatalog` of internal/publisher/publisher.go. The key of each
-- entry is its `Operation`, so the map is the list of its values.
use s3_agent.Prelude.{
  Bool, true, false, Option, none, some, List, [], ◌∷◌, ◌++◌, if◌then◌else◌, Text, codes, ◌≟◌,
}
use s3_agent.Prelude.Int.{ℤ, pos}
use s3_agent.Protocol.{OperationParam, OperationSchema}

param : Text → (param_type : Text) → Bool → (description : Text) → Option ℤ → OperationParam
param name param_type required description min_value = record {
  name = name;
  param_type = param_type;
  required = required;
  description = description;
  min_value = min_value;
}

plain : Text → (description : Text) → OperationSchema
plain op description = record { operation = op; description = description; params = [] }

with_params : Text → (description : Text) → List OperationParam → OperationSchema
with_params op description ps = record { operation = op; description = description; params = ps }

services_catalog : List OperationSchema
unfolding plain with_params param
services_catalog =
    plain (codes "agent.allowed_operations")
      (codes "Return and re-publish the current capabilities list.")
    ∷ plain (codes "services.list") (codes "List all loaded systemd services on the machine.")
    ∷ with_params (codes "services.get") (codes "Get detailed status of a single systemd service.")
        (param (codes "name") (codes "string") true (codes "Service name (e.g. weed-master).") none
          ∷ [])
    ∷ with_params (codes "services.start") (codes "Start a stopped systemd service.")
        (param (codes "name") (codes "string") true (codes "Service name to start.") none ∷ [])
    ∷ with_params (codes "services.stop") (codes "Stop a running systemd service.")
        (param (codes "name") (codes "string") true (codes "Service name to stop.") none ∷ [])
    ∷ with_params (codes "services.restart") (codes "Restart a systemd service.")
        (param (codes "name") (codes "string") true (codes "Service name to restart.") none ∷ [])
    ∷ with_params (codes "services.reload") (codes "Send a reload signal to a running service.")
        (param (codes "name") (codes "string") true (codes "Service name to reload.") none ∷ [])
    ∷ with_params (codes "services.enable")
        (codes "Enable a service to start automatically on boot.")
        (param (codes "name") (codes "string") true (codes "Service name to enable.") none ∷ [])
    ∷ with_params (codes "services.disable")
        (codes "Disable a service from starting automatically on boot.")
        (param (codes "name") (codes "string") true (codes "Service name to disable.") none ∷ [])
    ∷ []

system_catalog : List OperationSchema
unfolding plain with_params param
system_catalog =
    plain (codes "system.info")
      (codes "Return static system information (hostname, OS, kernel, uptime).")
    ∷ plain (codes "system.metrics")
        (codes "Return a full resource snapshot (CPU, memory, disk, network).")
    ∷ plain (codes "system.cpu")
        (codes "Return CPU usage, core count, load averages, and per-core usage.")
    ∷ plain (codes "system.memory") (codes "Return RAM utilisation.")
    ∷ plain (codes "system.disk")
        (codes "Return disk usage and I/O stats for all real block-device partitions.")
    ∷ plain (codes "system.network")
        (codes "Return network I/O counters for all physical interfaces.")
    ∷ plain (codes "system.update")
        (codes "Run apt-get update && apt-get upgrade -y. Ubuntu/Debian only.")
    ∷ with_params (codes "telemetry.set_interval")
        (codes "Change the telemetry push interval at runtime. Minimum 5 seconds.")
        (param (codes "interval_s") (codes "integer") true
            (codes "New telemetry interval in seconds.") (some (pos 1))
          ∷ [])
    ∷ plain (codes "vm.reboot") (codes "Reboot the machine immediately.")
    ∷ plain (codes "vm.shutdown") (codes "Shut down the machine immediately.")
    ∷ with_params (codes "exec") (codes "Execute an allowed binary on the machine.") (
        param (codes "command") (codes "string") true (codes "Absolute path of the binary to run.")
          none
        ∷ param (codes "args") (codes "array") false (codes "Arguments to pass to the binary.") none
        ∷ [])
    ∷ []

s3_catalog : List OperationSchema
unfolding plain with_params param
s3_catalog =
    plain (codes "full_sync")
      (codes "Apply the complete desired state (buckets + IAM users) from orchestration.")
    ∷ with_params (codes "bucket_create") (codes "Create a new S3 bucket on the SeaweedFS gateway.")
        (param (codes "name") (codes "string") true (codes "Bucket name.") none
          ∷ param (codes "bucket_id") (codes "string") false (codes "Orchestration bucket ID.") none
          ∷ param (codes "owner_tenant_id") (codes "string") false (codes "Owning tenant ID.") none
          ∷ param (codes "replication_factor") (codes "integer") false (codes "Replication factor.")
              none
          ∷ [])
    ∷ with_params (codes "bucket_delete") (codes "Delete an S3 bucket from the SeaweedFS gateway.")
        (param (codes "name") (codes "string") true (codes "Bucket name to delete.") none
          ∷ param (codes "force_empty") (codes "string") false
              (codes "Set true to delete all objects first.") none
          ∷ [])
    ∷ with_params (codes "iam_create")
        (codes "Create an IAM identity in s3.json and reload the S3 gateway.")
        (param (codes "name") (codes "string") true (codes "Identity name.") none
          ∷ param (codes "access_key") (codes "string") true (codes "AWS-style access key.") none
          ∷ param (codes "secret_key") (codes "string") true
              (codes "Secret key (never logged or returned).") none
          ∷ [])
    ∷ with_params (codes "iam_delete")
        (codes "Remove an IAM identity from s3.json and reload the S3 gateway.")
        (param (codes "name") (codes "string") true (codes "Identity name to remove.") none ∷ [])
    ∷ with_params (codes "reconcile")
        (codes "Re-run reconcile against the last received full_sync desired state.")
        (param (codes "scope") (codes "string") false
            (codes "\"buckets\", \"iam\", or \"all\" (default).") none
          ∷ [])
    ∷ plain (codes "s3.cluster.status")
        (codes "Return the full SeaweedFS cluster and service health status.")
    ∷ plain (codes "s3.bucket.stats")
        (codes "Return per-bucket object count and size from the filer API.")
    ∷ plain (codes "s3.iam.list") (codes "List IAM identities from s3.json (secret keys redacted).")
    ∷ with_params (codes "s3.customer.block")
        (codes "Block a customer access key at the Nginx level and reload Nginx.")
        (param (codes "access_key") (codes "string") true (codes "Access key to block.") none
          ∷ param (codes "reason") (codes "string") false
              (codes "Reason for blocking (written into config comment).") none
          ∷ [])
    ∷ with_params (codes "s3.customer.unblock")
        (codes "Remove a customer access key block and reload Nginx.")
        (param (codes "access_key") (codes "string") true (codes "Access key to unblock.") none
          ∷ [])
    ∷ plain (codes "s3.blocked.list")
        (codes "List all currently blocked access keys from s3_blocked_keys.conf.")
    ∷ []

-- `operationCatalog`
unfoldable pub operation_catalog : List OperationSchema
unfolding services_catalog system_catalog s3_catalog
operation_catalog = services_catalog ++ system_catalog ++ s3_catalog

-- `schema, ok := operationCatalog[op]`
unfoldable pub schema_for : Text → List OperationSchema → Option OperationSchema
schema_for op [] = none
schema_for op (s ∷ ss) = if op ≟ s.operation then some s else schema_for op ss
