-- ===== src/S3/Observer/Poll/Laws.antt =====
-- The numbers of the volume server.
use s3_agent.Prelude.{
  ℕ, ◌+◌, ◌≡◌, refl, Bool, true, false, not, ◌&&◌, Option, none, some, List, [], ◌∷◌, ◌++◌, codes,
  length, arith, if◌then◌else◌,
}
use s3_agent.Prelude.Int.{pos, ltb_ℤ}
use s3_agent.Config.{S3Config}
use s3_agent.S3.Types.{ServiceHealth, VolumeComponent}
use s3_agent.S3.Observer.Change.{Float}
use s3_agent.S3.Observer.Poll.{
  VolumeEntry, VolumeStatus, Counts, Net, count_volumes, volume_component, poll_volume, decode,
  get_body,
}

count : {A : Type 0} → (A → Bool) → List A → ℕ
count p [] = 0
count p (x ∷ xs) = (if p x then 1 else 0) + count p xs

abbrev is_degraded : VolumeEntry → Bool
is_degraded v = not v.read_only && ltb_ℤ v.replica_count (pos 2)

abbrev is_writable : VolumeEntry → Bool
is_writable v = not v.read_only && not (ltb_ℤ v.replica_count (pos 2))

-- What is counted of an answer: without one, nothing is reachable and there is no volume.
pub IsCounted : {F : Type 0} → Option VolumeStatus → VolumeComponent F → Type 0
IsCounted none c =
    (c.reachable ≡ false)
    × (c.total_volumes ≡ 0)
    × (c.writable_volumes ≡ 0)
    × (c.degraded_volumes ≡ 0)
    × (c.read_only_volumes ≡ 0)
IsCounted (some v) c =
    (c.reachable ≡ true)
    × (c.total_volumes ≡ length v.volumes)
    × (c.read_only_volumes ≡ count (λ v. v.read_only) v.volumes)
    × (c.degraded_volumes ≡ count is_degraded v.volumes)
    × (c.writable_volumes ≡ count is_writable v.volumes)
    × (c.writable_volumes + c.degraded_volumes + c.read_only_volumes ≡ c.total_volumes)

count_volumes-count :
    (vs : List VolumeEntry) (n : Counts)
    → let c = count_volumes vs n in
      (c.readonly ≡ n.readonly + count (λ v. v.read_only) vs)
      × (c.degraded ≡ n.degraded + count is_degraded vs)
      × (c.writable ≡ n.writable + count is_writable vs)
unfolding count_volumes count
count_volumes-count [] n = ground arith
count_volumes-count (v ∷ vs) n = ground (
  arith,
  count_volumes-count vs (record n { readonly = n.readonly + 1 }),
  count_volumes-count vs (record n { degraded = n.degraded + 1 }),
  count_volumes-count vs (record n { writable = n.writable + 1 }),
)

count_sum :
    (vs : List VolumeEntry)
    → count is_writable vs + count is_degraded vs + count (λ v. v.read_only) vs ≡ length vs
unfolding count
count_sum [] = omega arith
count_sum (v ∷ vs) = ground (arith, count_sum vs)

volume_component-IsCounted :
    (fl : Float) (cfg : S3Config fl.F) (net : Net) (now : ℕ) (h : ServiceHealth)
    (v : Option VolumeStatus)
    → IsCounted v (volume_component fl cfg net now h v)
unfolding volume_component IsCounted
volume_component-IsCounted fl cfg net now h none = (refl, refl, refl, refl, refl)
volume_component-IsCounted fl cfg net now h (some v) =
    let (r, d, w) =
      count_volumes-count v.volumes (record { writable = 0; degraded = 0; readonly = 0 }) in
    (
      refl,
      refl,
      omega (arith, r),
      omega (arith, d),
      omega (arith, w),
      omega (arith, r, d, w, count_sum v.volumes),
    )

-- The numbers of the volume server are those of its answer: the read-only volumes, of the others
-- those with less than two replicas as degraded and the rest as writable, which makes up all volumes
-- of the answer. Without an answer that can be decoded the server is not reachable and has none.
pub poll_volume-IsCounted :
    (fl : Float) (cfg : S3Config fl.F) (net : Net) (now : ℕ)
    → IsCounted
        (decode (get_body net (cfg.volume_url ++ codes "/status")) net.volume_status)
        (poll_volume fl cfg net now)
unfolding poll_volume
poll_volume-IsCounted fl cfg net now = volume_component-IsCounted fl cfg net now _ _
