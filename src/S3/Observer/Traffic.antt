-- ===== src/S3/Observer/Traffic.antt =====
-- `trafficCollector` of observer.go: the traffic of each bucket since the last call.
pub mod Laws
pub mod Order
pub mod Pieces
use s3_agent.Prelude.{
  ℕ, ◌+◌, ◌≡◌, refl, Bool, true, false, ◌||◌, Option, none, some, List, [], ◌∷◌, ◌++◌, Text, codes,
  if◌then◌else◌, is_nil, ◌≟◌,
}
use s3_agent.Prelude.Int.{ℤ, pos, ltb_ℤ, leb_ℤ, add64}
use s3_agent.Strings.Spaces.{fields}
use s3_agent.Strings.Numbers.{parse_int}
use s3_agent.S3.Types.{TrafficStat}
use s3_agent.S3.Observer.Uri.{extract_bucket}
use s3_agent.S3.Observer.Tail.{LogFile, read_new, lines_of}

pub record Traffic : Type 0 where
  pub bucket : Text
  pub bytes_in : ℤ
  pub bytes_out : ℤ

abbrev pub no_traffic : Traffic
no_traffic = record { bucket = []; bytes_in = pos 0; bytes_out = pos 0 }

-- `status < 200 || status >= 300`
abbrev pub not_success : ℤ → Bool
not_success status = ltb_ℤ status (pos 200) || leb_ℤ (pos 300) status

-- The counters by the method.
abbrev count_bytes : Text → Text → ℤ → ℤ → Traffic
count_bytes method bucket sent_bytes req_length =
    if method ≟ codes "PUT" || method ≟ codes "POST"
    then record { bucket = bucket; bytes_in = req_length; bytes_out = pos 0 }
    else if method ≟ codes "GET"
    then record { bucket = bucket; bytes_in = pos 0; bytes_out = sent_bytes }
    else record { bucket = bucket; bytes_in = pos 0; bytes_out = pos 0 }

abbrev traffic_of : List Text → Traffic
traffic_of (msec ∷ method ∷ uri ∷ status ∷ sent_bytes ∷ req_length ∷ more) =
    if not_success (parse_int status)
    then no_traffic
    else if is_nil (extract_bucket uri)
    then no_traffic
    else count_bytes method (extract_bucket uri) (parse_int sent_bytes) (parse_int req_length)
traffic_of _ = no_traffic

-- `parseTrafficLine`
unfoldable pub parse_traffic_line : Text → Traffic
parse_traffic_line line = traffic_of (fields line)

-- `acc[b]` with the sums added: the entry is made when the bucket is met first.
unfoldable pub add_traffic : Traffic → List TrafficStat → List TrafficStat
add_traffic t [] =
    record {
      bucket_name = t.bucket;
      bytes_in = add64 (pos 0) t.bytes_in;
      bytes_out = add64 (pos 0) t.bytes_out;
      requests = add64 (pos 0) (pos 1);
    }
    ∷ []
add_traffic t (s ∷ acc) =
    if s.bucket_name ≟ t.bucket
    then record s {
      bytes_in = add64 s.bytes_in t.bytes_in;
      bytes_out = add64 s.bytes_out t.bytes_out;
      requests = add64 s.requests (pos 1);
    }
      ∷ acc
    else s ∷ add_traffic t acc

-- The loop over the lines.
unfoldable pub collect : List Text → List TrafficStat → List TrafficStat
unfolding add_traffic parse_traffic_line
collect [] acc = acc
collect (l ∷ ls) acc =
    let t = parse_traffic_line l in collect ls (if is_nil t.bucket then acc else add_traffic t acc)

-- `flush`: the traffic since the last call, in the order of first use (Go's order is arbitrary),
-- and the next offset.
unfoldable pub flush : Option LogFile → ℕ → List TrafficStat × ℕ
unfolding collect read_new lines_of
flush f offset =
    let (new, next) = read_new f offset in
    (if is_nil new then [] else collect (lines_of new) [], next)
