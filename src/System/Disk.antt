-- ===== src/System/Disk.antt =====
-- `GetDisk` of internal/modules/system/system.go: the usage of the real partitions, and the rates
-- since the call before.
pub mod Laws
use s3_agent.Prelude.{
  ℕ, ◌+◌, ◌-◌, ◌%◌, ◌^◌, ◌≡◌, refl, Bool, true, false, ◌&&◌, Option, none, some, List, [], ◌∷◌,
  Text, codes, Result, ok, err, if◌then◌else◌, ◌≟◌, member,
}
use s3_agent.Strings.{trim_prefix}
use s3_agent.System.{
  Float64, DiskIo, DiskEntry, Partition, Usage, IoCounters, IoMap, Host, Baseline, SystemError,
  disk_partitions,
}

-- `pseudoFS`
abbrev pub pseudo_fs : List Text
pseudo_fs =
    codes "tmpfs"
    ∷ codes "devtmpfs"
    ∷ codes "proc"
    ∷ codes "sysfs"
    ∷ codes "devpts"
    ∷ codes "cgroup"
    ∷ codes "cgroup2"
    ∷ codes "pstore"
    ∷ codes "hugetlbfs"
    ∷ codes "mqueue"
    ∷ codes "debugfs"
    ∷ codes "tracefs"
    ∷ codes "securityfs"
    ∷ codes "fusectl"
    ∷ codes "configfs"
    ∷ codes "bpf"
    ∷ codes "overlay"
    ∷ codes "squashfs"
    ∷ codes "efivarfs"
    ∷ []

-- The difference of two counters, in Go's uint64.
abbrev pub sub_uint64 : ℕ → ℕ → ℕ
sub_uint64 a b = (a + 2 ^ 64 - b) % 2 ^ 64

-- A look-up in the map of counters.
unfoldable pub counters_of : Text → List (Text × IoCounters) → Option IoCounters
counters_of name [] = none
counters_of name ((n, c) ∷ rest) = let r = counters_of name rest in if n ≟ name then some c else r

module _ (fl : Float64) where
  -- `utilPct`
  unfoldable pub util_pct : fl.F → IoCounters → IoCounters → fl.F
  util_pct elapsed cur old =
      let elapsed_ms = fl.mul elapsed fl.thousand in
      if fl.gt elapsed_ms fl.zero
      then (let pct =
            fl.mul (fl.div (fl.of_uint64 (sub_uint64 cur.io_time old.io_time)) elapsed_ms)
              fl.hundred in
          if fl.gt pct fl.hundred then fl.hundred else pct)
      else fl.zero

  unfoldable pub disk_io : fl.F → IoCounters → IoCounters → DiskIo fl.F
  unfolding util_pct
  disk_io elapsed cur old =
      let rate : ℕ → ℕ → fl.F = λ a b. fl.div (fl.of_uint64 (sub_uint64 a b)) elapsed in
      record {
        read_bytes_per_s = rate cur.read_bytes old.read_bytes;
        write_bytes_per_s = rate cur.write_bytes old.write_bytes;
        read_iops = rate cur.read_count old.read_count;
        write_iops = rate cur.write_count old.write_count;
        util_pct = util_pct elapsed cur old;
      }

  -- `elapsed`: zero where there was no call before.
  unfoldable pub elapsed_since : ℕ → Option ℕ → fl.F
  elapsed_since now none = fl.zero
  elapsed_since now (some prev) = fl.seconds_since now prev

  -- The rates of a device: only with counters in both maps, and with time elapsed.
  abbrev pub rates_between : fl.F → Option IoCounters → Option IoCounters → Option (DiskIo fl.F)
  rates_between elapsed none old = none
  rates_between elapsed (some cur) none = none
  rates_between elapsed (some cur) (some old) = some (disk_io elapsed cur old)

  unfoldable pub rates_of : fl.F → IoMap → IoMap → (device : Text) → Option (DiskIo fl.F)
  unfolding counters_of trim_prefix disk_io
  rates_of elapsed none now device = none
  rates_of elapsed (some prev) none device = none
  rates_of elapsed (some prev) (some now) device =
      let name = trim_prefix device (codes "/dev/") in
      if fl.gt elapsed fl.zero
      then rates_between elapsed (counters_of name now) (counters_of name prev)
      else none

  unfoldable pub entry_of : fl.F → IoMap → IoMap → Partition → Usage fl.F → DiskEntry fl.F
  unfolding rates_of
  entry_of elapsed prev now p u = record {
    device = p.device;
    mountpoint = p.mountpoint;
    total_bytes = u.total;
    used_bytes = u.used;
    usage_pct = u.used_percent;
    io = rates_of elapsed prev now p.device;
  }

  -- The loop over the partitions; `usage` is `disk.UsageWithContext`.
  unfoldable pub disk_entries :
      ((mountpoint : Text) → Result Text (Usage fl.F))
      → fl.F
      → IoMap
      → IoMap
      → List Partition
      → List (DiskEntry fl.F)
  unfolding entry_of
  disk_entries usage elapsed prev now [] = []
  disk_entries usage elapsed prev now (p ∷ ps) =
      let rest = disk_entries usage elapsed prev now ps in
      if member p.fstype pseudo_fs
      then rest
      else elim (usage p.mountpoint) [ err e ↦ rest | ok u ↦ entry_of elapsed prev now p u ∷ rest ]

  -- `GetDisk` at the time `now`.
  unfoldable pub get_disk :
      Host fl.F → (now : ℕ) → Baseline → Result SystemError (List (DiskEntry fl.F)) × Baseline
  unfolding disk_entries elapsed_since
  get_disk host now b = elim (host.partitions now) [
    | err e ↦ (err (disk_partitions e), b)
    | ok ps ↦
        let io = host.io_counters now in
        (
          ok (disk_entries (host.usage now) (elapsed_since now b.prev_at) b.prev_io io ps),
          record { prev_io = io; prev_at = some now },
        )
  ]
