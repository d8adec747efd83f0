-- ===== src/Config.antt =====
-- internal/config/config.go: the sections of the configuration. `F` is float64, a duration is in
-- nanoseconds.
use s3_agent.Prelude.{
  ℕ, ◌*◌, Bool, true, Option, none, some, Result, ok, err, List, [], ◌∷◌, if◌then◌else◌, Text,
  codes, ◌≟◌,
}
use s3_agent.Prelude.Int.{ℤ, pos, negsuc}

pub record NatsConfig : Type 0 where
  pub connection_type : Text
  pub url : Text
  pub websocket_url : Text
  pub agent_uuid : Text
  pub api_key : Text
  pub subject_type : Text
  pub max_reconnects : ℤ
  pub reconnect_wait : ℤ

abbrev pub connection_type_nats : Text
connection_type_nats = codes "nats"

abbrev pub connection_type_websocket : Text
connection_type_websocket = codes "websocket"

-- `ActiveURL`
unfoldable pub active_url : NatsConfig → Text
active_url c = if c.connection_type ≟ connection_type_websocket then c.websocket_url else c.url

pub record AgentConfig : Type 0 where
  pub agent_type : Text
  pub heartbeat_interval : ℤ
  pub telemetry_interval : ℤ
  pub allowed_operations : List Text
  pub allowed_commands : List Text

pub record S3Config (F : Type 0) : Type 0 where
  pub master_url : Text
  pub volume_url : Text
  pub filer_url : Text
  pub s3_url : Text
  pub iam_file : Text
  pub weed_s3_service : Text
  pub nginx_blocked_keys_file : Text
  pub nginx_access_log : Text
  pub nginx_audit_log : Text
  pub capacity_warn_pct : F
  pub capacity_critical_pct : F
  pub admin_access_key : Text
  pub admin_secret_key : Text
  pub s3_region : Text

-- The default of `agent.allowed_operations`.
abbrev pub default_allowed_operations : List Text
default_allowed_operations =
    codes "agent.allowed_operations"
    ∷ codes "services.list"
    ∷ codes "services.get"
    ∷ codes "services.start"
    ∷ codes "services.stop"
    ∷ codes "services.restart"
    ∷ codes "services.reload"
    ∷ codes "services.enable"
    ∷ codes "services.disable"
    ∷ codes "system.info"
    ∷ codes "system.metrics"
    ∷ codes "system.cpu"
    ∷ codes "system.memory"
    ∷ codes "system.disk"
    ∷ codes "system.network"
    ∷ codes "system.update"
    ∷ codes "telemetry.set_interval"
    ∷ codes "vm.reboot"
    ∷ codes "vm.shutdown"
    ∷ codes "full_sync"
    ∷ codes "bucket_create"
    ∷ codes "bucket_update"
    ∷ codes "bucket_delete"
    ∷ codes "iam_create"
    ∷ codes "iam_delete"
    ∷ codes "reconcile"
    ∷ codes "worm_bucket_create"
    ∷ codes "worm_bucket_update"
    ∷ codes "worm_bucket_delete"
    ∷ codes "s3.cluster.status"
    ∷ codes "s3.bucket.stats"
    ∷ codes "s3.iam.list"
    ∷ codes "s3.customer.block"
    ∷ codes "s3.customer.unblock"
    ∷ codes "s3.blocked.list"
    ∷ []

pub record IsoConfig : Type 0 where
  pub mount_path : Text
  pub fallback_env : Bool

pub record LogConfig : Type 0 where
  pub level : Text
  pub format : Text
  pub file : Text

pub record AutohealConfig : Type 0 where
  pub enabled : Bool
  pub restart_delay : ℤ

pub record Config (F : Type 0) : Type 0 where
  pub nats : NatsConfig
  pub agent : AgentConfig
  pub s3 : S3Config F
  pub iso : IsoConfig
  pub log : LogConfig
  pub autoheal : AutohealConfig

abbrev second : ℕ
second = 1000000000

-- `setDefaults`; the two percentages are 80.0 and 90.0.
unfoldable pub defaults : {F : Type 0} → (warn_pct critical_pct : F) → Config F
defaults warn_pct critical_pct = record {
  nats = record {
    connection_type = connection_type_nats;
    url = codes "nats://localhost:4222";
    websocket_url = codes "ws://localhost:8080";
    agent_uuid = [];
    api_key = [];
    subject_type = [];
    max_reconnects = negsuc 0;
    reconnect_wait = pos (5 * second);
  };
  agent = record {
    agent_type = codes "storage";
    heartbeat_interval = pos (30 * second);
    telemetry_interval = pos (30 * second);
    allowed_operations = default_allowed_operations;
    allowed_commands = [];
  };
  s3 = record {
    master_url = codes "http://localhost:9333";
    volume_url = codes "http://localhost:8080";
    filer_url = codes "http://localhost:8888";
    s3_url = codes "http://localhost:8333";
    iam_file = codes "/etc/seaweedfs/s3.json";
    weed_s3_service = codes "weed-s3";
    nginx_blocked_keys_file = codes "/etc/nginx/conf.d/s3_blocked_keys.conf";
    nginx_access_log = codes "/var/log/nginx/s3_access.log";
    nginx_audit_log = codes "/var/log/nginx/s3_audit.log";
    capacity_warn_pct = warn_pct;
    capacity_critical_pct = critical_pct;
    admin_access_key = [];
    admin_secret_key = [];
    s3_region = codes "us-east-1";
  };
  iso = record { mount_path = codes "/media/plusclouds-config"; fallback_env = true };
  log = record { level = codes "info"; format = codes "json"; file = [] };
  autoheal = record { enabled = true; restart_delay = pos (10 * second) };
}

-- The errors of `Load`.
pub data LoadError : Type 0 where
  reading_config unmarshalling_config : Text → LoadError

-- The errors of `ReadInConfig`: the file is missing, or any other.
pub data ReadError : Type 0 where
  config_not_found : ReadError
  unreadable_config : Text → ReadError

-- `Load`: `read` is what viper says of the file, `unmarshal` the values that it gives, from the
-- environment, the file and the defaults, in this order.
unfoldable pub load :
    {F : Type 0} → Option ReadError → Result Text (Config F) → Result LoadError (Config F)
load (some (unreadable_config e)) unmarshal = err (reading_config e)
load (some config_not_found) (err e) = err (unmarshalling_config e)
load (some config_not_found) (ok c) = ok c
load none (err e) = err (unmarshalling_config e)
load none (ok c) = ok c
