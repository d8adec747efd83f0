-- ===== src/S3/Manager/Buckets/Laws.antt =====
-- The WORM buckets: the guards, and the order of the requests.
use s3_agent.Prelude.{
  ◌≡◌, ◌⊎◌, false, not, ◌&&◌, codes, ok, err, is_ok, is_nil, leb, ◌==◌, if◌then◌else◌, arith,
}
use s3_agent.Prelude.Int.{pos, leb_ℤ}
use s3_agent.Config.{S3Config}
use s3_agent.S3.Types.{WormBucketSpec}
use s3_agent.S3.Manager.Base.{Env, World, Response, wrapped, creating_worm_bucket, http_status}
use s3_agent.S3.Manager.Buckets.{
  create_worm_bucket, update_worm_bucket, check_worm, put_worm_bucket, put_object_lock,
}

-- What the two WORM operations ask of a specification.
unfoldable pub IsWormSpec : WormBucketSpec → Type 0
IsWormSpec spec =
    (is_nil spec.name ≡ false)
    × ((spec.mode ≡ codes "COMPLIANCE") ⊎ (spec.mode ≡ codes "GOVERNANCE"))
    × (leb_ℤ spec.retention_days (pos 0) ≡ false)

module _ {F : Type 0} (cfg : S3Config F) (env : Env) where
  pub check_worm_valid :
      (spec : WormBucketSpec) (w : World) → IsWormSpec spec → check_worm cfg env spec w ≡ (ok tt, w)
  unfolding check_worm IsWormSpec
  check_worm_valid spec w h = ground (arith, h)

  check_worm_invalid :
      (spec : WormBucketSpec) (w : World)
      → ¬ IsWormSpec spec
      → (is_ok (check_worm cfg env spec w).0 ≡ false) × ((check_worm cfg env spec w).1 ≡ w)
  unfolding check_worm IsWormSpec
  check_worm_invalid spec w h = ground (arith, h)

  -- `CreateWORMBucket` and `UpdateWORMBucket` refuse an invalid specification with nothing sent and
  -- nothing changed.
  pub create_worm_bucket_invalid :
      (spec : WormBucketSpec) (w : World)
      → ¬ IsWormSpec spec
      → (is_ok (create_worm_bucket cfg env spec w).0 ≡ false)
        × ((create_worm_bucket cfg env spec w).1 ≡ w)
        × (is_ok (update_worm_bucket cfg env spec w).0 ≡ false)
        × ((update_worm_bucket cfg env spec w).1 ≡ w)
  unfolding create_worm_bucket update_worm_bucket
  create_worm_bucket_invalid spec w h = ground (arith, check_worm_invalid spec w h)

  -- For a valid specification whose bucket request is answered: at a status below 300 or a conflict
  -- the object lock is the next request and its outcome is the outcome; at any other status the
  -- call fails with that status and sends no lock.
  pub create_worm_bucket_valid :
      (spec : WormBucketSpec) (w : World) (r : Response)
      → IsWormSpec spec
      → (put_worm_bucket cfg env spec.name w).0 ≡ ok r
      → let w1 = (put_worm_bucket cfg env spec.name w).1 in
        create_worm_bucket cfg env spec w ≡ (
          if leb 300 r.status && not (r.status == 409)
          then (err (wrapped (creating_worm_bucket spec.name) (http_status r.status)), w1)
          else put_object_lock cfg env spec.name spec.mode spec.retention_days w1)
  unfolding create_worm_bucket
  create_worm_bucket_valid spec w r h p = ground (arith, check_worm_valid spec w h)
