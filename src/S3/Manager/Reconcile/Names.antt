-- ===== src/S3/Manager/Reconcile/Names.antt =====
-- The names in s3.json after the IAM half of `Reconcile`, in a world without faults.
use mathlib.Core.Option
use s3_agent.Prelude.{
  ◌+◌, ◌≡◌, refl, ◌∙◌, inl, inr, false, not, ◌&&◌, ◌||◌, some, List, [], ◌∷◌, ◌++◌, Text, codes, ok,
  arith, member, Result-cases,
}
use s3_agent.Config.{S3Config}
use s3_agent.S3.Types.{BucketSpec, FullSyncPayload}
use s3_agent.S3.Manager.Base
use s3_agent.S3.Manager.Base.{Env, World, IamIdentity, do_s3, read_iam}
use s3_agent.S3.Manager.Buckets.{
  list_buckets, create_bucket, delete_bucket, bucket_url, get_verb, put_verb, delete_verb,
}
use s3_agent.S3.Manager.Iam.{managed, list_iam, found}
use s3_agent.S3.Manager.Iam.Contents.{IsQuiet, identities, read_quiet, read_keeps}
use s3_agent.S3.Manager.Reconcile.{
  Tally, tally, user_names, empty_result, bucket_names, create_buckets, delete_buckets,
  reconcile_buckets, reconcile,
}
use s3_agent.S3.Manager.Reconcile.Users.{reconcile_users_names, found-managed}

module _ {F : Type 0} (cfg : S3Config F) (env : Env) where
  do_s3_keeps : (verb url body : Text) (w : World) → (do_s3 cfg env verb url body w).1.iam ≡ w.iam
  unfolding do_s3
  do_s3_keeps verb url body w = ground arith

  create_bucket_keeps : (s : BucketSpec) (w : World) → (create_bucket cfg env s w).1.iam ≡ w.iam
  unfolding create_bucket
  create_bucket_keeps s w = ground (arith, do_s3_keeps put_verb (bucket_url cfg env s.name) [] w)

  delete_bucket_keeps : (n : Text) (w : World) → (delete_bucket cfg env n false w).1.iam ≡ w.iam
  unfolding delete_bucket
  delete_bucket_keeps n w = ground (arith, do_s3_keeps delete_verb (bucket_url cfg env n) [] w)

  list_buckets_keeps : (w : World) → (list_buckets cfg env w).1.iam ≡ w.iam
  unfolding list_buckets
  list_buckets_keeps w = ground (arith, do_s3_keeps get_verb (cfg.s3_url ++ codes "/") [] w)

  create_buckets_keeps :
      (actual : List Text) (specs : List BucketSpec) (t : Tally) (w : World)
      → (create_buckets cfg env actual specs t w).1.iam ≡ w.iam
  unfolding create_buckets
  create_buckets_keeps actual [] t w = refl
  create_buckets_keeps actual (s ∷ specs) t w =
      let (r, w') = create_bucket cfg env s w in
      let t' =
        tally (λ t. record t { buckets_created = t.buckets_created + 1 })
          (Base.create_bucket s.name) r t in
      ground (
        arith,
        create_buckets_keeps actual specs t w,
        create_buckets_keeps actual specs t' w',
        create_bucket_keeps s w,
      )

  delete_buckets_keeps :
      (desired : List Text) (names : List Text) (t : Tally) (w : World)
      → (delete_buckets cfg env desired names t w).1.iam ≡ w.iam
  unfolding delete_buckets
  delete_buckets_keeps desired [] t w = refl
  delete_buckets_keeps desired (n ∷ names) t w =
      let (r, w') = delete_bucket cfg env n false w in
      let t' =
        tally (λ t. record t { buckets_deleted = t.buckets_deleted + 1 }) (Base.delete_bucket n) r
          t in
      ground (
        arith,
        delete_buckets_keeps desired names t w,
        delete_buckets_keeps desired names t' w',
        delete_bucket_keeps n w,
      )

  reconcile_buckets_keeps :
      (desired : List BucketSpec) (actual : List Text) (t : Tally) (w : World)
      → (reconcile_buckets cfg env desired actual t w).1.iam ≡ w.iam
  unfolding reconcile_buckets
  reconcile_buckets_keeps desired actual t w =
      let made = create_buckets cfg env actual desired t w in
      ground (
        arith,
        create_buckets_keeps actual desired t w,
        delete_buckets_keeps (bucket_names desired) actual made.0 made.1,
      )

  list_iam_quiet :
      IsQuiet env
      → (w : World) {is : List IamIdentity} → identities w.iam.target ≡ some is
      → ((list_iam cfg env w).0 ≡ ok (managed cfg is)) × ((list_iam cfg env w).1.iam ≡ w.iam)
  unfolding list_iam
  list_iam_quiet q w h = ground (arith, read_quiet cfg env q w h, read_keeps cfg env w)

  -- In a world without faults, where s3.json can be read: after a `Reconcile` that returned no
  -- error an identity of the name `n` is in s3.json exactly if `n` is desired, or if it was there
  -- before and no listed user (none but the administrator is not listed) has that name.
  pub reconcile_names :
      IsQuiet env
      → (n : Text) (desired : FullSyncPayload) (w : World) {is : List IamIdentity}
      → identities w.iam.target ≡ some is
      → (reconcile cfg env desired w).0.1 ≡ ok tt
      → Option.map (found n) (identities (reconcile cfg env desired w).1.iam.target)
        ≡ some (
            member n (user_names desired.iam_users)
            || (found n is && not (member n (user_names (managed cfg is)))))
  unfolding reconcile
  reconcile_names q n desired w {is} h done = elim (Result-cases (list_buckets cfg env w).0) [
    | inl (actual, e) ↦
        let w1 = (list_buckets cfg env w).1 in
        let (t2, w2) = reconcile_buckets cfg env desired.buckets actual empty_result w1 in
        let same : w2.iam ≡ w.iam =
          reconcile_buckets_keeps desired.buckets actual empty_result w1 ∙ list_buckets_keeps w in
        let h2 : identities w2.iam.target ≡ some is = rw same h in
        let w3 = (list_iam cfg env w2).1 in
        let h3 : identities w3.iam.target ≡ some is = rw ((list_iam_quiet q w2 h2).1) h2 in
        ground (
          arith,
          e,
          list_iam_quiet q w2 h2,
          reconcile_users_names cfg env q n desired.iam_users (managed cfg is) t2 w3 h3,
          found-managed cfg n is,
        )
    | inr (x, e) ↦ absurd (ground (arith, e))
  ]
