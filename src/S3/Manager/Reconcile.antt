-- ===== src/S3/Manager/Reconcile.antt =====
-- `Reconcile` of internal/modules/s3/manager.go: the differences between the desired and the actual
-- state, and the calls that remove them. The error of one item does not stop the run.
pub mod Users
pub mod Names
pub mod Listed
pub mod Plan
use s3_agent.Prelude.{
  ℕ, ◌+◌, ◌≡◌, refl, Bool, true, false, List, [], ◌∷◌, ◌++◌, map, Text, if◌then◌else◌, member,
  Result, ok, err,
}
use s3_agent.Config.{S3Config}
use s3_agent.S3.Types.{BucketSpec, IamUser, FullSyncPayload, ReconcileResult}
use s3_agent.S3.Manager.Base.{
  Env, World, Context, Error, M, ◌>>=◌, wrapped, create_bucket, delete_bucket, create_iam_user,
  delete_iam_user, listing_actual_buckets, listing_actual_iam, in_context,
}
use s3_agent.S3.Manager.Buckets
use s3_agent.S3.Manager.Iam

abbrev pub empty_result : ReconcileResult Error
empty_result = record {
  buckets_created = 0;
  buckets_deleted = 0;
  iam_created = 0;
  iam_deleted = 0;
  errors = [];
}

abbrev pub Tally : Type 0
Tally = ReconcileResult Error

-- One item: the counter on success, the error in the list otherwise.
abbrev pub tally : (Tally → Tally) → Context → Result Error (Unit {0}) → Tally → Tally
tally count c (ok _) t = count t
tally count c (err e) t = record t { errors = t.errors ++ wrapped c e ∷ [] }

abbrev pub bucket_names : List BucketSpec → List Text
bucket_names = map (λ s. s.name)

abbrev pub user_names : List IamUser → List Text
user_names = map (λ u. u.name)

module _ {F : Type 0} (cfg : S3Config F) (env : Env) where
  -- Create missing buckets.
  unfoldable pub create_buckets : List Text → List BucketSpec → Tally → World → Tally × World
  create_buckets actual [] t w = (t, w)
  create_buckets actual (s ∷ specs) t w = elim (member s.name actual) [
    | true ↦ create_buckets actual specs t w
    | false ↦
        let (r, w') = Buckets.create_bucket cfg env s w in
        create_buckets actual specs
          (tally (λ t. record t { buckets_created = t.buckets_created + 1 }) (create_bucket s.name)
            r t)
          w'
  ]

  -- Delete extra buckets.
  unfoldable pub delete_buckets : List Text → List Text → Tally → World → Tally × World
  delete_buckets desired [] t w = (t, w)
  delete_buckets desired (n ∷ names) t w = elim (member n desired) [
    | true ↦ delete_buckets desired names t w
    | false ↦
        let (r, w') = Buckets.delete_bucket cfg env n false w in
        delete_buckets desired names
          (tally (λ t. record t { buckets_deleted = t.buckets_deleted + 1 }) (delete_bucket n) r t)
          w'
  ]

  -- Create missing IAM users.
  unfoldable pub create_users : List Text → List IamUser → Tally → World → Tally × World
  create_users actual [] t w = (t, w)
  create_users actual (u ∷ users) t w = elim (member u.name actual) [
    | true ↦ create_users actual users t w
    | false ↦
        let (r, w') = Iam.create_iam_user cfg env u u.secret_key w in
        create_users actual users
          (tally (λ t. record t { iam_created = t.iam_created + 1 }) (create_iam_user u.name) r t)
          w'
  ]

  -- Delete extra IAM users.
  unfoldable pub delete_users : List Text → List IamUser → Tally → World → Tally × World
  delete_users desired [] t w = (t, w)
  delete_users desired (u ∷ users) t w = elim (member u.name desired) [
    | true ↦ delete_users desired users t w
    | false ↦
        let (r, w') = Iam.delete_iam_user cfg env u.name w in
        delete_users desired users
          (tally (λ t. record t { iam_deleted = t.iam_deleted + 1 }) (delete_iam_user u.name) r t)
          w'
  ]

  unfoldable pub reconcile_buckets : List BucketSpec → List Text → Tally → World → Tally × World
  unfolding create_buckets delete_buckets
  reconcile_buckets desired actual t w =
      let (t', w') = create_buckets actual desired t w in
      delete_buckets (bucket_names desired) actual t' w'

  unfoldable pub reconcile_users : List IamUser → List IamUser → Tally → World → Tally × World
  unfolding create_users delete_users
  reconcile_users desired actual t w =
      let (t', w') = create_users (user_names actual) desired t w in
      delete_users (user_names desired) actual t' w'

  -- `Reconcile`: the result so far, and the error if a listing failed.
  unfoldable pub reconcile : FullSyncPayload → World → (Tally × Result Error (Unit {0})) × World
  unfolding reconcile_buckets reconcile_users
  reconcile desired w =
      let (rb, w1) = in_context listing_actual_buckets (Buckets.list_buckets cfg env) w in
      elim rb [
        | err e ↦ ((empty_result, err e), w1)
        | ok actual ↦
            let (t2, w2) = reconcile_buckets desired.buckets actual empty_result w1 in
            let (ru, w3) = in_context listing_actual_iam (Iam.list_iam cfg env) w2 in
            elim ru [
              | err e ↦ ((t2, err e), w3)
              | ok users ↦
                  let (t4, w4) = reconcile_users desired.iam_users users t2 w3 in ((t4, ok tt), w4)
            ]
      ]
