-- ===== src/Tests/Fixtures.antt =====
-- A configuration, a machine on which nothing fails, and a state of the agent.
use s3_agent.Prelude.{
  ℕ, ◌*◌, ◌/◌, refl, Bool, true, false, none, some, List, [], ◌∷◌, ◌++◌, Text, codes, ok, err, ltb,
  leb,
}
use s3_agent.Prelude.Int.{pos}
use s3_agent.Config.{S3Config, AgentConfig}
use s3_agent.Protocol.{Envelope}
use s3_agent.S3.Types.{
  BucketSpec, IamUser, FullSyncPayload, WormBucketSpec, ServiceHealth, ClusterComponents,
}
use s3_agent.S3.Manager.AtomicWrite.{WriteFaults}
use s3_agent.S3.Manager.Base.{Env, World, IamIdentity, json}
use s3_agent.S3.Manager.Iam.Contents.{IsQuiet}
use s3_agent.S3.Observer.Change.{Float}
use s3_agent.S3.Observer.Poll.{Net}
use s3_agent.System.{no_baseline}
use s3_agent.Dispatcher.Types.{State, Peers, no_params}

-- Whole numbers in place of float64.
abbrev pub whole : Float
whole = record {
  F = ℕ;
  zero = 0;
  percent = λ used total. used * 100 / total;
  ge = λ x y. leb y x;
  lt = λ x y. ltb x y;
}

abbrev pub cfg : S3Config ℕ
cfg = record {
  master_url = codes "http://m";
  volume_url = codes "http://v";
  filer_url = codes "http://f";
  s3_url = codes "http://s";
  iam_file = codes "/etc/s3.json";
  weed_s3_service = codes "weed-s3";
  nginx_blocked_keys_file = codes "/etc/blocked";
  nginx_access_log = codes "/log/access";
  nginx_audit_log = codes "/log/audit";
  capacity_warn_pct = 80;
  capacity_critical_pct = 95;
  admin_access_key = codes "ROOT";
  admin_secret_key = codes "rs";
  s3_region = codes "r";
}

abbrev pub no_faults : WriteFaults
no_faults = record {
  create_temp = false;
  chmod = false;
  stat = false;
  lchown = false;
  write = false;
  close = false;
  rename = false;
  remove = false;
}

abbrev pub quiet : Env
quiet = record {
  crypto = record { hmac = λ k d. k ++ d; sha256_hex = λ x. x; hex = λ x. x };
  parse_url = λ u. ok (record { host = codes "s"; escaped_path = u; query = [] });
  stamp = λ t. record { date = codes "d"; datetime = codes "dt" };
  date = λ t. codes "2026-01-01";
  respond = λ t r. ok (record { status = 200; body = [] });
  run = λ t c a. record { stdout = []; stderr = []; run_err = none; deadline_exceeded = false };
  read_error = λ t. none;
  write_faults = λ t. no_faults;
  uid = 0;
  gid = 0;
  xml_bucket_names = λ b. ok (codes "old" ∷ []);
  xml_object_keys = λ b. ok [];
}

pub quiet-IsQuiet : IsQuiet quiet
quiet-IsQuiet = record {
  reads = λ t. refl;
  creates = λ t. refl;
  chmods = λ t. refl;
  writes = λ t. refl;
  closes = λ t. refl;
  renames = λ t. refl;
  runs = λ t c a. refl;
}

abbrev pub identity : Text → Text → IamIdentity
identity name key = record {
  name = name;
  credentials = record { access_key = key; secret_key = codes "k" } ∷ [];
  actions = [];
}

abbrev pub two_identities : List IamIdentity
two_identities = identity (codes "root") (codes "ROOT") ∷ identity (codes "ann") (codes "A1") ∷ []

abbrev pub world : World
world = record {
  clock = 0;
  trace = [];
  iam = record {
    target = some (record {
      content = json (record { identities = two_identities });
      uid = 3;
      gid = 4;
      mode = 0o640;
    });
    temp = none;
  };
  blocked = record { target = none; temp = none };
}

abbrev pub bob : IamUser
bob = record {
  user_id = [];
  name = codes "bob";
  owner_tenant_id = [];
  access_key = codes "B1";
  secret_key = codes "s";
  bucket_acls = [];
}

abbrev pub bucket : BucketSpec
bucket = record {
  bucket_id = [];
  name = codes "new";
  owner_tenant_id = [];
  replication_factor = pos 1;
  lifecycle_rules = [];
}

abbrev pub worm : WormBucketSpec
worm = record {
  bucket_id = [];
  name = codes "w";
  owner_tenant_id = [];
  mode = codes "GOVERNANCE";
  retention_days = pos 7;
}

abbrev pub desired : FullSyncPayload
desired = record { buckets = bucket ∷ []; iam_users = bob ∷ [] }

abbrev pub no_net : Net
no_net = record {
  get = λ u. err [];
  head = λ u. err [];
  master_status = λ t. none;
  volume_status = λ t. none;
  filer_entries = λ t. none;
  topology = λ t. none;
  unit = λ t. none;
}

abbrev health : ServiceHealth
health = record { name = []; active = true; sub_state = [] }

abbrev pub components : Bool → ClusterComponents ℕ
components up = record {
  master = record { reachable = up; is_leader = true; peers = 0; checked_at = 0; service = health };
  volume = record {
    reachable = true;
    total_volumes = 1;
    writable_volumes = 1;
    degraded_volumes = 0;
    read_only_volumes = 0;
    capacity_bytes_total = 10;
    capacity_bytes_used = 1;
    capacity_pct = 10;
    checked_at = 0;
    service = health;
  };
  filer = record { reachable = true; checked_at = 0; service = health };
  s3 = record { reachable = true; bucket_count = 0; checked_at = 0; service = health };
  nginx = record { service = health; checked_at = 0 };
}

abbrev pub agent : AgentConfig
agent = record {
  agent_type = codes "s3";
  heartbeat_interval = pos 1;
  telemetry_interval = pos 1;
  allowed_operations = codes "exec" ∷ codes "full_sync" ∷ codes "reconcile" ∷ [];
  allowed_commands = codes "ls" ∷ [];
}

abbrev pub state : State
state = record {
  world = world;
  last_desired = some desired;
  telemetry_interval = none;
  published = [];
  traffic_offset = 0;
  baseline = no_baseline;
  touched = [];
}

-- A command is encoded as the name of its operation.
abbrev pub peers_of : {O : Type 0} → O → Peers O whole
peers_of o = record {
  system_call = λ t op b. (ok o, b);
  service_call = λ t op n. ok o;
  net = λ t. no_net;
  traffic_log = λ t. none;
  windows = false;
  os_release = λ t. ok (codes "ID=debian");
  to_lower = λ x. x;
  catalog_keys = λ t. [];
  whole_seconds = λ d. d;
  decode_command = λ x. ok (record { operation = x; params = []; timeout_s = pos 0 });
  decode_params = λ x. ok no_params;
  decode_full_sync = λ x. ok desired;
  encode_result = λ r. some r.command_id;
  fresh = λ t. record { random = t ∷ []; now = pos t };
}

abbrev pub peers : Peers (Unit {0}) whole
peers = peers_of tt

abbrev pub envelope : Text → Envelope Text
envelope op = record {
  v = pos 1;
  id = codes "c1";
  message_type = codes "command";
  agent_type = [];
  agent_uuid = [];
  timestamp = pos 0;
  reply_to = [];
  payload = op;
}
