-- ===== src/Tests/Machine.antt =====
-- A machine, and the agent's connection.
use s3_agent.Prelude.{ℕ, ◌-◌, ◌*◌, ◌/◌, none, some, [], ◌∷◌, codes, ok, err, ltb}
use s3_agent.Prelude.Int.{pos}
use s3_agent.Nats.{Client, Wire}
use s3_agent.System.{Float64, Partition, InterfaceCounters, Host}
use s3_agent.Publisher.Send.{Post}
use s3_agent.Tests.Fixtures.{envelope}

abbrev pub client : Client
client = record { agent_uuid = codes "u1"; agent_type = codes "s3" }

-- A message is the payload of a command that asks for an answer.
abbrev pub wire : Wire
wire = record {
  decode = λ raw. ok (record (envelope raw) { reply_to = codes "inbox" });
  encode = λ e. ok e.payload;
  publish_error = λ t. none;
}

-- A machine of which nothing can be read but its partitions.
abbrev pub floats : Float64
floats = record {
  F = ℕ;
  zero = 0;
  hundred = 100;
  thousand = 1000;
  of_uint64 = λ n. n;
  mul = λ x y. x * y;
  div = λ x y. x / y;
  gt = λ x y. ltb y x;
  seconds_since = λ now prev. now - prev;
}

abbrev pub root_partition : Partition
root_partition = record {
  device = codes "/dev/xvda2";
  mountpoint = codes "/";
  fstype = codes "ext4";
}

abbrev pub eth0 : InterfaceCounters
eth0 = record { name = codes "eth0"; bytes_sent = 5; bytes_recv = 6 }

abbrev pub host : Host ℕ
host = record {
  info = λ t. err [];
  cpu_overall = λ t. ok (7 ∷ []);
  cpu_counts = λ t. ok (pos 1);
  cpu_per_core = λ t. err [];
  load = λ t. err [];
  memory = λ t. ok (record { total = 8; used = 4; used_percent = 50 });
  partitions = λ t. ok (root_partition ∷ []);
  io_counters = λ t. some (
      (
        codes "xvda2",
        record {
          read_bytes = t;
          write_bytes = 0;
          read_count = t;
          write_count = 0;
          io_time = 2000 * t;
        },
      )
      ∷ []);
  usage = λ t m. ok (record { total = 10; used = 1; used_percent = 10 });
  net_counters = λ t. ok (eth0 ∷ []);
  interfaces = λ t. ok [];
}

abbrev pub post : Post ℕ ℕ
post = record {
  wire = wire;
  client = client;
  agent_uuid = codes "u1";
  agent_type = codes "s3";
  fresh = λ t. record { random = t ∷ []; now = pos t };
  encode_payload = λ p. some [];
}
