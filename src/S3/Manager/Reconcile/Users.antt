-- ===== src/S3/Manager/Reconcile/Users.antt =====
-- The loops of `Reconcile` over the users, in a world without faults.
use mathlib.Core.Option
use s3_agent.Prelude.{
  ◌+◌, ◌≡◌, refl, inl, inr, true, not, ◌&&◌, ◌||◌, some, List, [], ◌∷◌, ◌++◌, Text, if◌then◌else◌,
  ◌≟◌, ok, is_ok, arith, member, Bool-cases,
}
use s3_agent.Config.{S3Config}
use s3_agent.S3.Types.{IamUser}
use s3_agent.S3.Manager.Base
use s3_agent.S3.Manager.Base.{Env, World, IamIdentity, do_s3, read_iam}
use s3_agent.S3.Manager.Iam.{managed, found, without, identity_of, create_iam_user, delete_iam_user}
use s3_agent.S3.Manager.Iam.Contents.{IsQuiet, identities, read_quiet, read_keeps, save_quiet}
use s3_agent.S3.Manager.Reconcile.{
  Tally, tally, user_names, create_users, delete_users, reconcile_users,
}

found-append :
    (n : Text) (is js : List IamIdentity) → found n (is ++ js) ≡ (found n is || found n js)
unfolding found
found-append n [] js = refl
found-append n (i ∷ is) js = ground (arith, found-append n is js)

found-without :
    (n m : Text) (is : List IamIdentity) → found n (without m is) ≡ (not (n ≟ m) && found n is)
unfolding found without
found-without n m [] = ground arith
found-without n m (i ∷ is) = ground (arith, found-without n m is)

found-identity_of :
    (n secret : Text) (u : IamUser) → found n (identity_of u secret ∷ []) ≡ (u.name ≟ n)
unfolding found identity_of
found-identity_of n secret u = ground arith

module _ {F : Type 0} (cfg : S3Config F) (env : Env) (q : IsQuiet env) where
  pub create_quiet :
      (u : IamUser) (secret : Text) (w : World) {is : List IamIdentity}
      → identities w.iam.target ≡ some is
      → ((create_iam_user cfg env u secret w).0 ≡ ok tt)
        × (identities (create_iam_user cfg env u secret w).1.iam.target
            ≡ some (is ++ identity_of u secret ∷ []))
  unfolding create_iam_user
  create_quiet u secret w {is} h = ground (
    arith,
    read_quiet cfg env q w h,
    save_quiet cfg env q (is ++ identity_of u secret ∷ []) (read_iam cfg env w).1,
  )

  -- Deleting succeeds exactly where the name is found.
  pub delete_quiet :
      (n : Text) (w : World) {is : List IamIdentity}
      → identities w.iam.target ≡ some is
      → (is_ok (delete_iam_user cfg env n w).0 ≡ found n is)
        × (identities (delete_iam_user cfg env n w).1.iam.target
            ≡ some (if found n is then without n is else is))
  unfolding delete_iam_user
  delete_quiet n w {is} h = ground (
    arith,
    read_quiet cfg env q w h,
    read_keeps cfg env w,
    save_quiet cfg env q (without n is) (read_iam cfg env w).1,
  )

  -- The names after the loop that creates users.
  create_users_names :
      (n : Text) (actual : List Text) (users : List IamUser) (t : Tally) (w : World)
      {is : List IamIdentity}
      → identities w.iam.target ≡ some is
      → Option.map (found n) (identities (create_users cfg env actual users t w).1.iam.target)
        ≡ some (found n is || (member n (user_names users) && not (member n actual)))
  unfolding create_users member
  create_users_names n actual [] t w {is} h = ground arith
  create_users_names n actual (u ∷ users) t w {is} h = elim (Bool-cases (member u.name actual)) [
    | inl e ↦ ground (arith, create_users_names n actual users t w h)
    | inr e ↦
        let (r, w') = create_iam_user cfg env u u.secret_key w in
        let t' =
          tally (λ t. record t { iam_created = t.iam_created + 1 }) (Base.create_iam_user u.name) r
            t in
        ground (
          arith,
          create_users_names n actual users t' w' (create_quiet u u.secret_key w h).1,
          found-append n is (identity_of u u.secret_key ∷ []),
          found-identity_of n u.secret_key u,
        )
  ]

  -- The names after the loop that deletes users.
  delete_users_names :
      (n : Text) (desired : List Text) (users : List IamUser) (t : Tally) (w : World)
      {is : List IamIdentity}
      → identities w.iam.target ≡ some is
      → Option.map (found n) (identities (delete_users cfg env desired users t w).1.iam.target)
        ≡ some (found n is && not (member n (user_names users) && not (member n desired)))
  unfolding delete_users member
  delete_users_names n desired [] t w {is} h = ground arith
  delete_users_names n desired (u ∷ users) t w {is} h = elim (Bool-cases (member u.name desired)) [
    | inl e ↦ ground (arith, delete_users_names n desired users t w h)
    | inr e ↦
        let (r, w') = delete_iam_user cfg env u.name w in
        let t' =
          tally (λ t. record t { iam_deleted = t.iam_deleted + 1 }) (Base.delete_iam_user u.name) r
            t in
        ground (
          arith,
          delete_users_names n desired users t' w' (delete_quiet u.name w h).1,
          found-without n u.name is,
        )
  ]

  -- The names after both loops, over any list of users that was read.
  pub reconcile_users_names :
      (n : Text) (desired users : List IamUser) (t : Tally) (w : World) {is : List IamIdentity}
      → identities w.iam.target ≡ some is
      → Option.map (found n) (identities (reconcile_users cfg env desired users t w).1.iam.target)
        ≡ some (
            (found n is || (member n (user_names desired) && not (member n (user_names users))))
            && not (member n (user_names users) && not (member n (user_names desired))))
  unfolding reconcile_users
  reconcile_users_names n desired users t w {is} h =
      let made = create_users cfg env (user_names users) desired t w in
      let (js, hj, names) =
        (Option.map-eq-some_iff (found n) (identities made.1.iam.target)).0
          (create_users_names n (user_names users) desired t w h) in
      ground (arith, delete_users_names n (user_names desired) users made.0 made.1 hj, names)

pub found-managed :
    {F : Type 0} (cfg : S3Config F) (n : Text) (is : List IamIdentity)
    → member n (user_names (managed cfg is)) ≡ true
    → found n is ≡ true
unfolding managed member found
found-managed cfg n [] h = cc
found-managed cfg n (i ∷ is) h = ground (arith, found-managed cfg n is)
