-- ===== src/Ctl/Tables.antt =====
-- The tables of cmd/ctl/main.go, and `PrintTable` of pkg/cmdutil/output.go. text/tabwriter,
-- `strings.ToUpper` and the formatting of floats are parameters.
use s3_agent.Prelude.{
  ℕ, zero, suc, Bool, List, [], ◌∷◌, ◌++◌, map, Text, codes, length, take, drop, if◌then◌else◌,
}
use s3_agent.Prelude.Int.{bits64}
use s3_agent.Strings.{join}
use s3_agent.Strings.Numbers.{show_nat, show_int}
use s3_agent.S3.Types.{ClusterComponents, BucketStat}
use s3_agent.Ctl.{CheckResult}
use s3_agent.Ctl.Bytes.{Size, plain, scaled, format_bytes}

-- `green` and `red`, with the test of the terminal as an argument.
abbrev coloured : (colour : Text) → (terminal : Bool) → Text → Text
coloured colour terminal s = if terminal then (27 ∷ colour) ++ (s ++ 27 ∷ codes "[0m") else s

unfoldable pub green : (terminal : Bool) → Text → Text
green = coloured (codes "[32m")

unfoldable pub red : (terminal : Bool) → Text → Text
red = coloured (codes "[31m")

-- `boolStr`
unfoldable pub bool_str : (terminal : Bool) → Bool → Text
unfolding green red
bool_str terminal b = if b then green terminal (codes "yes") else red terminal (codes "no")

-- How `%v` writes a Boolean.
abbrev show_bool : Bool → Text
show_bool b = if b then codes "true" else codes "false"

-- `percent` is the format `%.1f%%` of a float64, `quotient` the one of `%.1f` for a size and its
-- divisor.
module _ {F : Type 0} (terminal : Bool) (percent : F → Text) (quotient : ℕ → ℕ → Text) where
  -- The letter of "KMGTPE" at an index.
  abbrev letter : ℕ → Text
  letter n = take 1 (drop n (codes "KMGTPE"))

  abbrev size_text : Size → Text
  size_text (plain b) = show_nat b ++ codes " B"
  size_text (scaled b div exp) = quotient b div ++ (codes " " ++ (letter exp ++ codes "B"))

  -- The rows of `printClusterStatus`.
  unfoldable pub cluster_rows : ClusterComponents F → List (List Text)
  unfolding bool_str show_nat
  cluster_rows c =
      (codes "weed-master"
        ∷ bool_str terminal c.master.service.active
        ∷ bool_str terminal c.master.reachable
        ∷ (codes "leader="
            ++ (show_bool c.master.is_leader ++ (codes " peers=" ++ show_nat c.master.peers)))
        ∷ [])
      ∷ (codes "weed-volume"
          ∷ bool_str terminal c.volume.service.active
          ∷ bool_str terminal c.volume.reachable
          ∷ (codes "total="
              ++ (show_nat c.volume.total_volumes
                  ++ (codes " writable="
                      ++ (show_nat c.volume.writable_volumes
                          ++ (codes " degraded="
                              ++ (show_nat c.volume.degraded_volumes
                                  ++ (codes " cap=" ++ percent c.volume.capacity_pct)))))))
          ∷ [])
      ∷ (codes "weed-filer"
          ∷ bool_str terminal c.filer.service.active
          ∷ bool_str terminal c.filer.reachable
          ∷ []
          ∷ [])
      ∷ (codes "weed-s3"
          ∷ bool_str terminal c.s3.service.active
          ∷ bool_str terminal c.s3.reachable
          ∷ (codes "buckets=" ++ show_nat c.s3.bucket_count)
          ∷ [])
      ∷ (codes "nginx"
          ∷ bool_str terminal c.nginx.service.active
          ∷ (226 ∷ 128 ∷ 148 ∷ [])
          ∷ c.nginx.service.sub_state
          ∷ [])
      ∷ []

  -- The rows of `cluster volumes`.
  unfoldable pub volume_rows : ClusterComponents F → List (List Text)
  unfolding bool_str show_nat format_bytes
  volume_rows c =
      let v = c.volume in
      (codes "Service active" ∷ bool_str terminal v.service.active ∷ [])
      ∷ (codes "API reachable" ∷ bool_str terminal v.reachable ∷ [])
      ∷ (codes "Total volumes" ∷ show_nat v.total_volumes ∷ [])
      ∷ (codes "Writable" ∷ show_nat v.writable_volumes ∷ [])
      ∷ (codes "Degraded" ∷ show_nat v.degraded_volumes ∷ [])
      ∷ (codes "Read-only" ∷ show_nat v.read_only_volumes ∷ [])
      ∷ (codes "Capacity total" ∷ size_text (format_bytes v.capacity_bytes_total) ∷ [])
      ∷ (codes "Capacity used" ∷ size_text (format_bytes v.capacity_bytes_used) ∷ [])
      ∷ (codes "Capacity %" ∷ percent v.capacity_pct ∷ [])
      ∷ []

  -- The rows of `buckets list`: the size is converted to a uint64.
  unfoldable pub bucket_rows : List BucketStat → List (List Text)
  unfolding show_int format_bytes bits64
  bucket_rows [] = []
  bucket_rows (b ∷ bs) =
      (b.name
        ∷ show_int b.object_count
        ∷ size_text (format_bytes (bits64 b.size_bytes))
        ∷ b.replica_health
        ∷ [])
      ∷ bucket_rows bs

-- The rows of `check`: "✓ PASS" and "✗ FAIL".
unfoldable pub check_rows : (terminal : Bool) → List CheckResult → List (List Text)
unfolding green red
check_rows terminal [] = []
check_rows terminal (r ∷ rs) =
    (r.name
      ∷ (if r.passed
          then green terminal (226 ∷ 156 ∷ 147 ∷ codes " PASS")
          else red terminal (226 ∷ 156 ∷ 151 ∷ codes " FAIL"))
      ∷ r.detail
      ∷ [])
    ∷ check_rows terminal rs

-- `strings.Repeat` of one byte.
abbrev repeat : ℕ → ℕ → Text
repeat c zero = []
repeat c (suc n) = c ∷ repeat c n

-- The lines that `PrintTable` hands to the tabwriter.
unfoldable pub table_lines : (to_upper : Text → Text) → List Text → List (List Text) → List Text
unfolding join
table_lines to_upper headers rows =
    let tab = 9 ∷ [] in
    let upper = map to_upper headers in
    join upper tab
    ∷ join (map (λ h. repeat b'-' (length h)) upper) tab
    ∷ map (λ row. join row tab) rows
