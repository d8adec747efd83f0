-- ===== src/S3/Manager/Buckets.antt =====
-- The bucket operations of internal/modules/s3/manager.go, by requests to the S3 gateway.
pub mod Laws
pub mod Worm
use s3_agent.Prelude.{
  ℕ, ◌≡◌, refl, Bool, true, false, not, ◌&&◌, ◌||◌, List, [], ◌∷◌, ◌++◌, Text, codes, Result, ok,
  err, leb, ◌==◌, if◌then◌else◌, is_nil, ◌≟◌, ◌+◌,
}
use s3_agent.Prelude.Int.{ℤ, pos, leb_ℤ}
use s3_agent.Strings.Numbers.{show_int, show_nat}
use s3_agent.Config.{S3Config}
use s3_agent.S3.Types.{BucketSpec, WormBucketSpec, LifecycleRule}
use s3_agent.S3.Manager.Base.{
  Env, World, Context, Error, Response, M, pure, fail, ◌>>=◌, ◌>>◌, in_context, lift, do_s3, send,
  new_request, bucket_name_required, object_lock_mode, retention_days_required, http_status,
  http_status_body, foreign, wrapped, listing_buckets, parsing_bucket_list, creating_bucket,
  creating_worm_bucket, deleting_bucket, deleting_worm_bucket, setting_object_lock,
  setting_lifecycle, emptying_bucket, deleting_object, listing_objects,
}

abbrev pub get_verb : Text
get_verb = codes "GET"

abbrev pub put_verb : Text
put_verb = codes "PUT"

abbrev pub delete_verb : Text
delete_verb = codes "DELETE"

-- The check of the status that follows most requests.
abbrev pub refuse : Context → Response → M (Unit {0})
refuse c r = if leb 300 r.status then fail (wrapped c (http_status r.status)) else pure tt

abbrev pub refuse_body : Context → Response → M (Unit {0})
refuse_body c r =
    if leb 300 r.status then fail (wrapped c (http_status_body r.status r.body)) else pure tt

-- The errors of encoding/xml under a context.
abbrev pub decode_xml : {A : Type 0} → Context → Result Text A → Result Error A
decode_xml c (ok a) = ok a
decode_xml c (err e) = err (wrapped c (foreign e))

lifecycle_rules : ℕ → List LifecycleRule → Text
lifecycle_rules i [] = []
lifecycle_rules i (r ∷ rules) =
    codes "<Rule><ID>rule-"
    ++ (show_nat (i + 1)
        ++ (codes "</ID><Filter><Prefix>"
            ++ (r.prefix
                ++ (codes "</Prefix></Filter><Status>Enabled</Status><Expiration><Days>"
                    ++ (show_int r.expire_days
                        ++ (codes "</Days></Expiration></Rule>"
                            ++ lifecycle_rules (i + 1) rules))))))

unfoldable pub lifecycle_body : List LifecycleRule → Text
unfolding lifecycle_rules
lifecycle_body rules =
    codes "<LifecycleConfiguration>"
    ++ (lifecycle_rules 0 rules ++ codes "</LifecycleConfiguration>")

unfoldable pub object_lock_body : Text → ℤ → Text
object_lock_body mode days =
    codes "<?xml version=\"1.0\" encoding=\"UTF-8\"?>"
    ++ (codes "<ObjectLockConfiguration xmlns=\"http://s3.amazonaws.com/doc/2006-03-01/\">"
        ++ (codes "<ObjectLockEnabled>Enabled</ObjectLockEnabled>"
            ++ (codes "<Rule><DefaultRetention><Mode>"
                ++ (mode
                    ++ (codes "</Mode><Days>"
                        ++ (show_int days
                            ++ (codes "</Days></DefaultRetention></Rule>"
                                ++ codes "</ObjectLockConfiguration>")))))))

module _ {F : Type 0} (cfg : S3Config F) (env : Env) where
  abbrev pub bucket_url : Text → Text
  bucket_url name = cfg.s3_url ++ (codes "/" ++ name)

  -- `ListBuckets`
  unfoldable pub list_buckets : M (List Text)
  list_buckets = do
    r ← in_context listing_buckets (do_s3 cfg env get_verb (cfg.s3_url ++ codes "/") [])
    refuse listing_buckets r
    lift (decode_xml parsing_bucket_list (env.xml_bucket_names r.body))

  -- `CreateBucket`
  unfoldable pub create_bucket : BucketSpec → M (Unit {0})
  create_bucket spec = if is_nil spec.name then fail bucket_name_required else do
    r ← in_context (creating_bucket spec.name) (do_s3 cfg env put_verb (bucket_url spec.name) [])
    refuse (creating_bucket spec.name) r

  -- `putLifecycle`
  unfoldable pub put_lifecycle : Text → List LifecycleRule → M (Unit {0})
  put_lifecycle bucket rules = do
    r ←
        in_context (setting_lifecycle bucket)
          (do_s3 cfg env put_verb (bucket_url bucket ++ codes "?lifecycle") (lifecycle_body rules))
    refuse (setting_lifecycle bucket) r

  -- `UpdateBucket`
  unfoldable pub update_bucket : BucketSpec → M (Unit {0})
  unfolding put_lifecycle
  update_bucket spec =
      if is_nil spec.name
      then fail bucket_name_required
      else if is_nil spec.lifecycle_rules
      then pure tt
      else put_lifecycle spec.name spec.lifecycle_rules

  -- `putObjectLock`
  unfoldable pub put_object_lock : Text → Text → ℤ → M (Unit {0})
  put_object_lock bucket mode days = do
    r ← in_context (setting_object_lock bucket) (
        do_s3 cfg env put_verb (bucket_url bucket ++ codes "?object-lock")
          (object_lock_body mode days))
    refuse_body (setting_object_lock bucket) r

  abbrev known_mode : Text → Bool
  known_mode mode = mode ≟ codes "COMPLIANCE" || mode ≟ codes "GOVERNANCE"

  -- The guards that `CreateWORMBucket` and `UpdateWORMBucket` begin with.
  unfoldable pub check_worm : WormBucketSpec → M (Unit {0})
  check_worm spec =
      if is_nil spec.name
      then fail bucket_name_required
      else if not (known_mode spec.mode)
      then fail (object_lock_mode spec.mode)
      else if leb_ℤ spec.retention_days (pos 0)
      then fail retention_days_required
      else pure tt

  -- A conflict, 409, means that the bucket is there already.
  abbrev refuse_worm : Text → Response → M (Unit {0})
  refuse_worm name r =
      if leb 300 r.status && not (r.status == 409)
      then fail (wrapped (creating_worm_bucket name) (http_status r.status))
      else pure tt

  -- The request of `CreateWORMBucket` that makes the bucket.
  unfoldable pub put_worm_bucket : Text → M Response
  put_worm_bucket name w =
      (lift (
            new_request cfg env put_verb (bucket_url name)
              ((codes "x-amz-bucket-object-lock-enabled", codes "true") ∷ []) [] w.clock)
          >>= λ r. in_context (creating_worm_bucket name) (send cfg env r))
        w

  -- `CreateWORMBucket`
  unfoldable pub create_worm_bucket : WormBucketSpec → M (Unit {0})
  unfolding check_worm put_worm_bucket put_object_lock
  create_worm_bucket spec = do
    check_worm spec
    r ← put_worm_bucket spec.name
    refuse_worm spec.name r
    put_object_lock spec.name spec.mode spec.retention_days

  -- `UpdateWORMBucket`
  unfoldable pub update_worm_bucket : WormBucketSpec → M (Unit {0})
  unfolding check_worm put_object_lock
  update_worm_bucket spec = do
    check_worm spec
    put_object_lock spec.name spec.mode spec.retention_days

  -- `DeleteWORMBucket`
  unfoldable pub delete_worm_bucket : Text → M (Unit {0})
  delete_worm_bucket name = if is_nil name then fail bucket_name_required else do
    r ← in_context (deleting_worm_bucket name) (do_s3 cfg env delete_verb (bucket_url name) [])
    refuse_body (deleting_worm_bucket name) r

  -- The loop of `emptyBucket`: a status is not looked at.
  unfoldable pub delete_objects : Text → List Text → M (Unit {0})
  delete_objects name [] = pure tt
  delete_objects name (key ∷ keys) = do
    _ ←
        in_context (deleting_object key)
          (do_s3 cfg env delete_verb (bucket_url name ++ (codes "/" ++ key)) [])
    delete_objects name keys

  -- `emptyBucket`: one page of the listing, whatever its status is.
  unfoldable pub empty_bucket : Text → M (Unit {0})
  unfolding delete_objects
  empty_bucket name = do
    r ← do_s3 cfg env get_verb (bucket_url name ++ codes "?list-type=2") []
    keys ← lift (decode_xml listing_objects (env.xml_object_keys r.body))
    delete_objects name keys

  abbrev force : Bool → Text → M (Unit {0})
  force true name = in_context (emptying_bucket name) (empty_bucket name)
  force false name = pure tt

  -- `DeleteBucket`
  unfoldable pub delete_bucket : Text → Bool → M (Unit {0})
  unfolding empty_bucket
  delete_bucket name force_empty = if is_nil name then fail bucket_name_required else do
    force force_empty name
    r ← in_context (deleting_bucket name) (do_s3 cfg env delete_verb (bucket_url name) [])
    refuse (deleting_bucket name) r
