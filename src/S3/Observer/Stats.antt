-- ===== src/S3/Observer/Stats.antt =====
-- `BucketStats` and `volumeStatsByCollection` of observer.go.
pub mod Laws
use s3_agent.Prelude.{
  ℕ, ◌≡◌, Bool, true, false, ◌||◌, Option, none, some, List, [], ◌∷◌, ◌++◌, Text, codes,
  if◌then◌else◌, ltb, length, drop, ◌≟◌, Result,
}
use s3_agent.Prelude.Int.{ℤ, pos, add64, sub64}
use s3_agent.Touch.{Touch}
use s3_agent.Config.{S3Config}
use s3_agent.S3.Types.{BucketStat}
use s3_agent.S3.Observer.Poll.{Net, VolumeInfo, get_body, decode}

pub record CollectionStat : Type 0 where
  pub object_count : ℤ
  pub size_bytes : ℤ
  pub degraded : Bool

abbrev pub no_stat : CollectionStat
no_stat = record { object_count = pos 0; size_bytes = pos 0; degraded = false }

-- A map by its entries; a missing key has the zero value.
abbrev pub Stats : Type 0
Stats = List (Text × CollectionStat)

unfoldable pub stat_of : Text → Stats → CollectionStat
stat_of k [] = no_stat
stat_of k ((j, s) ∷ m) = if j ≟ k then s else stat_of k m

unfoldable pub set_stat : Text → CollectionStat → Stats → Stats
set_stat k s [] = (k, s) ∷ []
set_stat k s ((j, t) ∷ m) = if j ≟ k then (j, s) ∷ m else (j, t) ∷ set_stat k s m

-- One round of the innermost loop, on the entry of the volume's collection.
unfoldable pub add_volume : VolumeInfo → CollectionStat → CollectionStat
add_volume v cs = record {
  object_count = add64 cs.object_count (sub64 v.file_count v.delete_count);
  size_bytes = add64 cs.size_bytes v.size;
  degraded = if v.read_only then true else cs.degraded;
}

unfoldable pub add_volumes : List VolumeInfo → Stats → Stats
unfolding stat_of set_stat add_volume
add_volumes [] m = m
add_volumes (v ∷ vs) m =
    add_volumes vs (set_stat v.collection (add_volume v (stat_of v.collection m)) m)

unfoldable pub add_nodes : List (List VolumeInfo) → Stats → Stats
unfolding add_volumes
add_nodes [] m = m
add_nodes (n ∷ ns) m = add_nodes ns (add_volumes n m)

-- What cannot be decoded is passed over.
unfoldable pub add_racks : List (Option (List (List VolumeInfo))) → Stats → Stats
unfolding add_nodes
add_racks [] m = m
add_racks (none ∷ rs) m = add_racks rs m
add_racks (some ns ∷ rs) m = add_racks rs (add_nodes ns m)

unfoldable pub add_centers : List (Option (List (Option (List (List VolumeInfo))))) → Stats → Stats
unfolding add_racks
add_centers [] m = m
add_centers (none ∷ cs) m = add_centers cs m
add_centers (some rs ∷ cs) m = add_centers cs (add_racks rs m)

-- `name[len("/buckets/"):]` of a path that is longer than that.
abbrev pub bucket_name : Text → Text
bucket_name path = if ltb 9 (length path) then drop 9 path else path

unfoldable pub bucket_stat : Stats → Text → BucketStat
unfolding stat_of
bucket_stat m path =
    let name = bucket_name path in
    let cs = stat_of name m in
    record {
      name = name;
      object_count = cs.object_count;
      size_bytes = cs.size_bytes;
      replica_health = if cs.degraded then codes "degraded" else codes "ok";
    }

abbrev pub bucket_stats_of : Stats → List Text → List BucketStat
bucket_stats_of m [] = []
bucket_stats_of m (p ∷ ps) = bucket_stat m p ∷ bucket_stats_of m ps

module _ {F : Type 0} (cfg : S3Config F) (net : Net) where
  -- `volumeStatsByCollection`; after an error the map is empty.
  unfoldable pub volume_stats_by_collection : Stats
  unfolding add_centers get_body
  volume_stats_by_collection =
      elim (decode (get_body net (cfg.master_url ++ codes "/vol/status")) net.topology) [
        | none ↦ []
        | some centers ↦ add_centers centers []
      ]

  -- `BucketStats`: the listing is read whatever its status is; `none` is an error.
  unfoldable pub bucket_stats : Option (List BucketStat)
  unfolding volume_stats_by_collection bucket_stat
  bucket_stats = elim (net.get (cfg.filer_url ++ codes "/buckets/")) [
    | Result.err e ↦ none
    | Result.ok r ↦ elim (net.filer_entries r.body) [
      | none ↦ none
      | some paths ↦ some (bucket_stats_of volume_stats_by_collection paths)
    ]
  ]

  -- The requests of `BucketStats`: the master is asked where the listing can be read.
  unfoldable pub stats_requests : List Touch
  stats_requests =
      Touch.get (cfg.filer_url ++ codes "/buckets/")
      ∷ elim (net.get (cfg.filer_url ++ codes "/buckets/")) [
        | Result.err e ↦ []
        | Result.ok r ↦ elim (net.filer_entries r.body) [
          | none ↦ []
          | some paths ↦ Touch.get (cfg.master_url ++ codes "/vol/status") ∷ []
        ]
      ]
