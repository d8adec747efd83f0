-- ===== src/S3/Manager/Reconcile/Listed.antt =====
-- What `ListIAM` shows after the IAM half of `Reconcile`, in a world without faults, and what a
-- second run does.
use mathlib.Core.Option
use s3_agent.Prelude.{
  ◌+◌, ◌≡◌, refl, inl, inr, Bool, true, false, not, ◌&&◌, ◌||◌, some, List, [], ◌∷◌, ◌++◌, Text,
  if◌then◌else◌, ◌≟◌, arith, member, All, Bool-cases,
}
use s3_agent.Config.{S3Config}
use s3_agent.S3.Types.{IamUser}
use s3_agent.S3.Manager.Base
use s3_agent.S3.Manager.Base.{Env, World, IamIdentity}
use s3_agent.S3.Manager.Iam.{
  managed, is_system_admin, found, without, identity_of, create_iam_user, delete_iam_user,
}
use s3_agent.S3.Manager.Iam.Contents.{IsQuiet, identities}
use s3_agent.S3.Manager.Reconcile.{
  Tally, tally, user_names, create_users, delete_users, reconcile_users,
}
use s3_agent.S3.Manager.Reconcile.Users.{create_quiet, delete_quiet, found-managed}

-- Does `ListIAM` show a user of the name?
unfoldable pub listed : {F : Type 0} → S3Config F → Text → List IamIdentity → Bool
listed cfg n is = member n (user_names (managed cfg is))

-- A desired user does not have the key of the administrator, who is not listed.
abbrev pub IsCustomer : {F : Type 0} → S3Config F → IamUser → Type 0
IsCustomer cfg u = is_system_admin cfg u.access_key ≡ false

module _ {F : Type 0} (cfg : S3Config F) where
  listed-append :
      (n : Text) (is js : List IamIdentity)
      → listed cfg n (is ++ js) ≡ (listed cfg n is || listed cfg n js)
  unfolding listed managed member
  listed-append n [] js = refl
  listed-append n (i ∷ is) js = ground (arith, listed-append n is js)

  listed-without :
      (n m : Text) (is : List IamIdentity)
      → listed cfg n (without m is) ≡ (not (n ≟ m) && listed cfg n is)
  unfolding listed managed member without
  listed-without n m [] = ground arith
  listed-without n m (i ∷ is) = ground (arith, listed-without n m is)

  listed-identity_of :
      (n secret : Text) (u : IamUser)
      → IsCustomer cfg u
      → listed cfg n (identity_of u secret ∷ []) ≡ (n ≟ u.name)
  unfolding listed managed member identity_of
  listed-identity_of n secret u c = ground (arith, c)

  listed-found :
      (n m : Text) (is : List IamIdentity)
      → listed cfg n (if found m is then without m is else is) ≡ (not (n ≟ m) && listed cfg n is)
  unfolding listed
  listed-found n m is = ground (arith, listed-without n m is, found-managed cfg n is)

module _ {F : Type 0} (cfg : S3Config F) (env : Env) (q : IsQuiet env) where
  create_users-listed :
      (n : Text) (actual : List Text) (users : List IamUser) (t : Tally) (w : World)
      {is : List IamIdentity}
      → All (IsCustomer cfg) users
      → identities w.iam.target ≡ some is
      → Option.map (listed cfg n) (identities (create_users cfg env actual users t w).1.iam.target)
        ≡ some (listed cfg n is || (member n (user_names users) && not (member n actual)))
  unfolding create_users member
  create_users-listed n actual [] t w {is} c h = ground arith
  create_users-listed n actual (u ∷ users) t w {is} c h = elim (Bool-cases (member u.name actual)) [
    | inl e ↦ ground (arith, create_users-listed n actual users t w c.1 h)
    | inr e ↦
        let (r, w') = create_iam_user cfg env u u.secret_key w in
        let t' =
          tally (λ t. record t { iam_created = t.iam_created + 1 }) (Base.create_iam_user u.name) r
            t in
        ground (
          arith,
          create_users-listed n actual users t' w' c.1
              (create_quiet cfg env q u u.secret_key w h).1,
          listed-append cfg n is (identity_of u u.secret_key ∷ []),
          listed-identity_of cfg n u.secret_key u c.0,
        )
  ]

  delete_users-listed :
      (n : Text) (desired : List Text) (users : List IamUser) (t : Tally) (w : World)
      {is : List IamIdentity}
      → identities w.iam.target ≡ some is
      → Option.map (listed cfg n) (identities (delete_users cfg env desired users t w).1.iam.target)
        ≡ some (listed cfg n is && not (member n (user_names users) && not (member n desired)))
  unfolding delete_users member
  delete_users-listed n desired [] t w {is} h = ground arith
  delete_users-listed n desired (u ∷ users) t w {is} h = elim (Bool-cases (member u.name desired)) [
    | inl e ↦ ground (arith, delete_users-listed n desired users t w h)
    | inr e ↦
        let (r, w') = delete_iam_user cfg env u.name w in
        let t' =
          tally (λ t. record t { iam_deleted = t.iam_deleted + 1 }) (Base.delete_iam_user u.name) r
            t in
        ground (
          arith,
          delete_users-listed n desired users t' w' (delete_quiet cfg env q u.name w h).1,
          listed-found cfg n u.name is,
        )
  ]

  -- In a world without faults, where s3.json can be read and no desired user has the key of the
  -- administrator: after the IAM half of `Reconcile`, `ListIAM` shows a user of the name `n` exactly
  -- if one is desired.
  pub reconcile_users-listed :
      (n : Text) (desired : List IamUser) (t : Tally) (w : World) {is : List IamIdentity}
      → All (IsCustomer cfg) desired
      → identities w.iam.target ≡ some is
      → Option.map
          (listed cfg n)
          (identities (reconcile_users cfg env desired (managed cfg is) t w).1.iam.target)
        ≡ some (member n (user_names desired))
  unfolding reconcile_users listed
  reconcile_users-listed n desired t w {is} c h =
      let made = create_users cfg env (user_names (managed cfg is)) desired t w in
      let (js, hj, names) =
        (Option.map-eq-some_iff (listed cfg n) (identities made.1.iam.target)).0
          (create_users-listed n (user_names (managed cfg is)) desired t w c h) in
      ground
        (arith, delete_users-listed n (user_names desired) (managed cfg is) made.0 made.1 hj, names)

module _ {F : Type 0} (cfg : S3Config F) (env : Env) where
  member_head : (n : Text) (ns : List Text) → member n (n ∷ ns) ≡ true
  unfolding member
  member_head n ns = ground arith

  member_tail : (n m : Text) (ns : List Text) → member n ns ≡ true → member n (m ∷ ns) ≡ true
  unfolding member
  member_tail n m ns h = ground (arith, h)

  create_users_idle :
      (actual : List Text) (users : List IamUser) (t : Tally) (w : World)
      → ((n : Text) → member n (user_names users) ≡ true → member n actual ≡ true)
      → create_users cfg env actual users t w ≡ (t, w)
  unfolding create_users
  create_users_idle actual [] t w h = refl
  create_users_idle actual (u ∷ users) t w h =
      let rest =
        create_users_idle actual users t w
          (λ n m. h n (member_tail n u.name (user_names users) m)) in
      ground (arith, h u.name (member_head u.name (user_names users)), rest)

  delete_users_idle :
      (desired : List Text) (users : List IamUser) (t : Tally) (w : World)
      → ((n : Text) → member n (user_names users) ≡ true → member n desired ≡ true)
      → delete_users cfg env desired users t w ≡ (t, w)
  unfolding delete_users
  delete_users_idle desired [] t w h = refl
  delete_users_idle desired (u ∷ users) t w h =
      let rest =
        delete_users_idle desired users t w
          (λ n m. h n (member_tail n u.name (user_names users) m)) in
      ground (arith, h u.name (member_head u.name (user_names users)), rest)

  -- In a world without faults, where s3.json can be read and no desired user has the key of the
  -- administrator: a second run of the IAM half of `Reconcile`, over the users that `ListIAM` shows
  -- after the first one, does nothing: it counts nothing, writes nothing and restarts nothing.
  pub reconcile_users_again :
      IsQuiet env
      → (desired : List IamUser) (t t' : Tally) (w w' : World) {is js : List IamIdentity}
      → All (IsCustomer cfg) desired
      → identities w.iam.target ≡ some is
      → identities (reconcile_users cfg env desired (managed cfg is) t w).1.iam.target ≡ some js
      → reconcile_users cfg env desired (managed cfg js) t' w' ≡ (t', w')
  unfolding reconcile_users listed
  reconcile_users_again q desired t t' w w' {is} {js} c h k =
      let same : (n : Text)
          → member n (user_names (managed cfg js)) ≡ member n (user_names desired) =
        λ n. ground (arith, k, reconcile_users-listed cfg env q n desired t w c h) in
      let made =
        create_users_idle (user_names (managed cfg js)) desired t' w'
          (λ n m. ground (arith, same n, m)) in
      let kept =
        delete_users_idle (user_names desired) (managed cfg js) t' w'
          (λ n m. ground (arith, same n, m)) in
      ground (arith, made, kept)
