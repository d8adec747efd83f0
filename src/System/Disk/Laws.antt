-- ===== src/System/Disk/Laws.antt =====
-- What `GetDisk` reports, over its calls.
use s3_agent.Prelude.{
  ℕ, ◌≡◌, refl, inl, inr, true, false, none, some, List, [], ◌∷◌, map, Text, Result, ok, err, is_ok,
  member, arith, All, Bool-cases, Result-cases,
}
use s3_agent.System.{
  Float64, DiskIo, DiskEntry, Partition, Usage, IoCounters, IoMap, Host, Baseline, no_baseline,
  SystemError,
}
use s3_agent.System.Disk.{
  pseudo_fs, util_pct, disk_io, rates_of, entry_of, disk_entries, elapsed_since, get_disk,
}

module _ (fl : Float64) where
  -- The utilisation of an entry is not above 100.
  abbrev pub IsBounded : DiskEntry fl.F → Type 0
  IsBounded e = (io : DiskIo fl.F) → e.io ≡ some io → fl.gt io.util_pct fl.hundred ≡ false

  module _ (hundred_max : fl.gt fl.hundred fl.hundred ≡ false)
      (zero_max : fl.gt fl.zero fl.hundred ≡ false) where
    util_pct_bounded :
        (elapsed : fl.F) (cur old : IoCounters)
        → fl.gt (util_pct fl elapsed cur old) fl.hundred ≡ false
    unfolding util_pct
    util_pct_bounded elapsed cur old = ground (arith, hundred_max, zero_max)

    rates_of_bounded :
        (elapsed : fl.F) (prev now : IoMap) (device : Text) (io : DiskIo fl.F)
        → rates_of fl elapsed prev now device ≡ some io
        → fl.gt io.util_pct fl.hundred ≡ false
    unfolding rates_of disk_io
    rates_of_bounded elapsed none now device io h = cc
    rates_of_bounded elapsed (some prev) none device io h = cc
    rates_of_bounded elapsed (some prev) (some now) device io h =
        ground (arith, h, util_pct_bounded elapsed)

    disk_entries-AreBounded :
        (usage : (mountpoint : Text) → Result Text (Usage fl.F)) (elapsed : fl.F) (prev now : IoMap)
        (ps : List Partition)
        → All IsBounded (disk_entries fl usage elapsed prev now ps)
    unfolding disk_entries entry_of
    disk_entries-AreBounded usage elapsed prev now [] = tt
    disk_entries-AreBounded usage elapsed prev now (p ∷ ps) =
        let rest = disk_entries-AreBounded usage elapsed prev now ps in
        elim (Bool-cases (member p.fstype pseudo_fs)) [
          | inl h ↦ rw h rest
          | inr h ↦ elim (Result-cases (usage p.mountpoint)) [
            | inl (u, k) ↦ rw (h, k) (rates_of_bounded elapsed prev now p.device, rest)
            | inr (x, k) ↦ rw (h, k) rest
          ]
        ]

    -- Where 100 is neither above itself nor below 0: no device is reported as busy for more than 100
    -- percent of the time.
    pub get_disk-IsBounded :
        (host : Host fl.F) (now : ℕ) (b : Baseline) {es : List (DiskEntry fl.F)}
        → (get_disk fl host now b).0 ≡ ok es
        → All IsBounded es
    unfolding get_disk
    get_disk-IsBounded host now b {es} k = elim (Result-cases (host.partitions now)) [
      | inl (ps, h) ↦
          let io = host.io_counters now in
          let elapsed = elapsed_since fl now b.prev_at in
          let same : es ≡ disk_entries fl (host.usage now) elapsed b.prev_io io ps =
            ground (arith, h, k) in
          rw same (disk_entries-AreBounded (host.usage now) elapsed b.prev_io io ps)
      | inr (x, h) ↦ ground (arith, h, k)
    ]

  -- An entry less its rates.
  abbrev pub without_io : DiskEntry fl.F → DiskEntry fl.F
  without_io e = record e { io = none }

  abbrev pub map_ok :
      (List (DiskEntry fl.F) → List (DiskEntry fl.F))
      → Result SystemError (List (DiskEntry fl.F))
      → Result SystemError (List (DiskEntry fl.F))
  map_ok f (ok es) = ok (f es)
  map_ok f (err e) = err e

  disk_entries_listing :
      (usage : (mountpoint : Text) → Result Text (Usage fl.F)) (elapsed zero : fl.F)
      (prev now : IoMap) (ps : List Partition)
      → map without_io (disk_entries fl usage elapsed prev now ps)
        ≡ disk_entries fl usage zero none now ps
  unfolding disk_entries entry_of rates_of
  disk_entries_listing usage elapsed zero prev now [] = refl
  disk_entries_listing usage elapsed zero prev now (p ∷ ps) =
      ground (arith, disk_entries_listing usage elapsed zero prev now ps)

  -- What is listed of the partitions does not depend on the calls before, but for the rates; and the
  -- first call reports no rates.
  pub get_disk_listing :
      (host : Host fl.F) (now : ℕ) (b : Baseline)
      → map_ok (map without_io) (get_disk fl host now b).0 ≡ (get_disk fl host now no_baseline).0
  unfolding get_disk
  get_disk_listing host now b = elim (Result-cases (host.partitions now)) [
    | inl (ps, h) ↦ ground (
      arith,
      h,
      disk_entries_listing (host.usage now) (elapsed_since fl now b.prev_at)
          (elapsed_since fl now none) b.prev_io (host.io_counters now) ps,
    )
    | inr (x, h) ↦ ground (arith, h)
  ]

  -- The rates are those since the last call that could list the partitions, whoever made it: what
  -- was known before that call makes no difference.
  pub get_disk_recent :
      (host : Host fl.F) (t t' : ℕ) (b b' : Baseline)
      → is_ok (get_disk fl host t b).0 ≡ true
      → get_disk fl host t' (get_disk fl host t b).1 ≡ get_disk fl host t' (get_disk fl host t b').1
  unfolding get_disk
  get_disk_recent host t t' b b' h = ground (arith, h)
