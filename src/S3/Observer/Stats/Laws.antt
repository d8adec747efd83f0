-- ===== src/S3/Observer/Stats/Laws.antt =====
-- What is summed up for a collection.
use s3_agent.Prelude.{
  ◌≡◌, refl, Bool, false, ◌&&◌, ◌||◌, Option, none, some, List, [], ◌∷◌, ◌++◌, Text, if◌then◌else◌,
  ◌≟◌, arith,
}
use s3_agent.Prelude.Int.{ℤ, pos, add64, sub64}
use s3_agent.S3.Observer.Poll.{VolumeInfo}
use s3_agent.S3.Observer.Stats.{
  CollectionStat, Stats, stat_of, set_stat, add_volume, add_volumes, add_nodes, add_racks,
  add_centers, no_stat,
}

stat_of-set_stat :
    (j k : Text) (s : CollectionStat) (m : Stats)
    → stat_of j (set_stat k s m) ≡ (if k ≟ j then s else stat_of j m)
unfolding stat_of set_stat
stat_of-set_stat j k s [] = ground arith
stat_of-set_stat j k s ((i, t) ∷ m) = ground (arith, stat_of-set_stat j k s m)

-- The volumes of the topology that can be decoded, in order.
rack_volumes : List (List VolumeInfo) → List VolumeInfo
rack_volumes [] = []
rack_volumes (n ∷ ns) = n ++ rack_volumes ns

center_volumes : List (Option (List (List VolumeInfo))) → List VolumeInfo
center_volumes [] = []
center_volumes (none ∷ rs) = center_volumes rs
center_volumes (some ns ∷ rs) = rack_volumes ns ++ center_volumes rs

pub all_volumes : List (Option (List (Option (List (List VolumeInfo))))) → List VolumeInfo
all_volumes [] = []
all_volumes (none ∷ cs) = all_volumes cs
all_volumes (some rs ∷ cs) = center_volumes rs ++ all_volumes cs

-- The volumes of one collection added up from a first value.
fold : Text → List VolumeInfo → CollectionStat → CollectionStat
fold k [] s = s
fold k (v ∷ vs) s = fold k vs (if v.collection ≟ k then add_volume v s else s)

fold-append :
    (k : Text) (xs ys : List VolumeInfo) (s : CollectionStat)
    → fold k (xs ++ ys) s ≡ fold k ys (fold k xs s)
unfolding fold
fold-append k [] ys s = refl
fold-append k (v ∷ xs) ys s = fold-append k xs ys _

add_volumes-fold :
    (k : Text) (vs : List VolumeInfo) (m : Stats)
    → stat_of k (add_volumes vs m) ≡ fold k vs (stat_of k m)
unfolding add_volumes fold
add_volumes-fold k [] m = refl
add_volumes-fold k (v ∷ vs) m =
    let m' = set_stat v.collection (add_volume v (stat_of v.collection m)) m in
    ground (
      arith,
      add_volumes-fold k vs m',
      stat_of-set_stat k v.collection (add_volume v (stat_of v.collection m)) m,
    )

add_nodes-fold :
    (k : Text) (ns : List (List VolumeInfo)) (m : Stats)
    → stat_of k (add_nodes ns m) ≡ fold k (rack_volumes ns) (stat_of k m)
unfolding add_nodes rack_volumes fold
add_nodes-fold k [] m = refl
add_nodes-fold k (n ∷ ns) m = ground (
  arith,
  add_nodes-fold k ns (add_volumes n m),
  add_volumes-fold k n m,
  fold-append k n (rack_volumes ns) (stat_of k m),
)

add_racks-fold :
    (k : Text) (rs : List (Option (List (List VolumeInfo)))) (m : Stats)
    → stat_of k (add_racks rs m) ≡ fold k (center_volumes rs) (stat_of k m)
unfolding add_racks center_volumes fold
add_racks-fold k [] m = refl
add_racks-fold k (none ∷ rs) m = add_racks-fold k rs m
add_racks-fold k (some ns ∷ rs) m = ground (
  arith,
  add_racks-fold k rs (add_nodes ns m),
  add_nodes-fold k ns m,
  fold-append k (rack_volumes ns) (center_volumes rs) (stat_of k m),
)

add_centers-fold :
    (k : Text) (cs : List (Option (List (Option (List (List VolumeInfo)))))) (m : Stats)
    → stat_of k (add_centers cs m) ≡ fold k (all_volumes cs) (stat_of k m)
unfolding add_centers all_volumes fold
add_centers-fold k [] m = refl
add_centers-fold k (none ∷ cs) m = add_centers-fold k cs m
add_centers-fold k (some rs ∷ cs) m = ground (
  arith,
  add_centers-fold k cs (add_racks rs m),
  add_racks-fold k rs m,
  fold-append k (center_volumes rs) (all_volumes cs) (stat_of k m),
)

-- The sum of a number over the volumes of one collection, in int64, from a first value on.
pub sum_over : Text → (VolumeInfo → ℤ) → List VolumeInfo → ℤ → ℤ
sum_over k f [] n = n
sum_over k f (v ∷ vs) n = sum_over k f vs (if v.collection ≟ k then add64 n (f v) else n)

-- Is a volume of the collection read-only?
pub any_read_only : Text → List VolumeInfo → Bool
any_read_only k [] = false
any_read_only k (v ∷ vs) = v.collection ≟ k && v.read_only || any_read_only k vs

fold-sum_over :
    (k : Text) (vs : List VolumeInfo) (s : CollectionStat)
    → ((fold k vs s).object_count
        ≡ sum_over k (λ v. sub64 v.file_count v.delete_count) vs s.object_count)
      × ((fold k vs s).size_bytes ≡ sum_over k (λ v. v.size) vs s.size_bytes)
      × ((fold k vs s).degraded ≡ (s.degraded || any_read_only k vs))
unfolding fold sum_over any_read_only add_volume
fold-sum_over k [] s = ground arith
fold-sum_over k (v ∷ vs) s =
    ground (arith, fold-sum_over k vs s, fold-sum_over k vs (add_volume v s))

-- The statistics of a collection are those of its own volumes, over all data centers, racks and
-- nodes that can be decoded: the objects are the files less the deleted ones, the size is the sum of
-- the sizes, both in int64, and it is degraded if one of its volumes is read-only.
pub add_centers-sum_over :
    (k : Text) (cs : List (Option (List (Option (List (List VolumeInfo))))))
    → let s = stat_of k (add_centers cs []) in
      (s.object_count
        ≡ sum_over k (λ v. sub64 v.file_count v.delete_count) (all_volumes cs) (pos 0))
      × (s.size_bytes ≡ sum_over k (λ v. v.size) (all_volumes cs) (pos 0))
      × (s.degraded ≡ any_read_only k (all_volumes cs))
unfolding stat_of
add_centers-sum_over k cs = rw (add_centers-fold k cs []) (fold-sum_over k (all_volumes cs) no_stat)
