-- ===== src/S3/Manager/Iam/Laws.antt =====
-- What the operations on s3.json leave in the file, on every branch.
use s3_agent.Prelude.{
  ◌≡◌, ◌⊎◌, inl, inr, true, false, some, List, [], ◌∷◌, ◌++◌, Text, is_nil, ◌≟◌, ok, is_ok, arith,
  All, Result-cases,
}
use mathlib.Core.Option
use s3_agent.Config.{S3Config}
use s3_agent.S3.Types.{IamUser}
use s3_agent.S3.Manager.Base.{Env, World, IamIdentity, read_iam}
use s3_agent.S3.Manager.Iam.{
  has_credential, has_access_key, without, found, managed, is_system_admin, ensure_admin, list_iam,
  create_iam_user, delete_iam_user, identity_of, admin_identity,
}
use s3_agent.S3.Manager.Iam.Contents.{identities, read_keeps, read_effect, save_effect}

module _ {F : Type 0} (cfg : S3Config F) (env : Env) where
  -- `CreateIAMUser`: either the call failed and the file is as it was, or the identities are those
  -- of the file with the new one behind them (then an error can only come from the restart).
  pub create_iam_user_effect :
      (u : IamUser) (secret : Text) (w : World)
      → let (r, w') = create_iam_user cfg env u secret w in
        ((is_ok r ≡ false) × (w'.iam.target ≡ w.iam.target))
        ⊎ (identities w'.iam.target
            ≡ Option.map (λ is. is ++ identity_of u secret ∷ []) (identities w.iam.target))
  unfolding create_iam_user
  create_iam_user_effect u secret w = elim (Result-cases (read_iam cfg env w).0) [
    | inl (f, e) ↦ ground (
      arith,
      read_effect cfg env w e,
      read_keeps cfg env w,
      save_effect cfg env (f.identities ++ identity_of u secret ∷ []) (read_iam cfg env w).1,
    )
    | inr (x, e) ↦ ground (arith, read_keeps cfg env w)
  ]

  -- `DeleteIAMUser`: either the call failed and the file is as it was, or the file held an identity
  -- of the name, and now holds the identities of other names, in the same order.
  pub delete_iam_user_effect :
      (name : Text) (w : World)
      → let (r, w') = delete_iam_user cfg env name w in
        ((is_ok r ≡ false) × (w'.iam.target ≡ w.iam.target))
        ⊎ ((Option.map (found name) (identities w.iam.target) ≡ some true)
            × (identities w'.iam.target ≡ Option.map (without name) (identities w.iam.target)))
  unfolding delete_iam_user
  delete_iam_user_effect name w = elim (Result-cases (read_iam cfg env w).0) [
    | inl (f, e) ↦ ground (
      arith,
      read_effect cfg env w e,
      read_keeps cfg env w,
      save_effect cfg env (without name f.identities) (read_iam cfg env w).1,
    )
    | inr (x, e) ↦ ground (arith, read_keeps cfg env w)
  ]

  -- `EnsureAdmin`: either the call failed, no key is configured or an identity has the key, and the
  -- file is as it was; or a key is configured that no identity had, and the administrator stands
  -- behind the identities of the file.
  pub ensure_admin_effect :
      (w : World)
      → let (r, w') = ensure_admin cfg env w in
        ((w'.iam.target ≡ w.iam.target)
          × ((is_ok r ≡ false)
              ⊎ (is_nil cfg.admin_access_key ≡ true)
              ⊎ (Option.map (has_access_key cfg.admin_access_key) (identities w.iam.target)
                  ≡ some true)))
        ⊎ ((is_nil cfg.admin_access_key ≡ false)
            × (Option.map (has_access_key cfg.admin_access_key) (identities w.iam.target)
                ≡ some false)
            × (identities w'.iam.target
                ≡ Option.map (λ is. is ++ admin_identity cfg ∷ []) (identities w.iam.target)))
  unfolding ensure_admin
  ensure_admin_effect w = elim (Result-cases (read_iam cfg env w).0) [
    | inl (f, e) ↦ ground (
      arith,
      read_effect cfg env w e,
      read_keeps cfg env w,
      save_effect cfg env (f.identities ++ admin_identity cfg ∷ []) (read_iam cfg env w).1,
    )
    | inr (x, e) ↦ ground (arith, read_keeps cfg env w)
  ]

  has_access_key-append :
      (is : List IamIdentity)
      → has_access_key cfg.admin_access_key (is ++ admin_identity cfg ∷ []) ≡ true
  unfolding has_access_key has_credential
  has_access_key-append [] = ground arith
  has_access_key-append (i ∷ is) = ground (arith, has_access_key-append is)

  -- After an `EnsureAdmin` that returned no error, with an administrator configured, some identity
  -- of the file has the administrator's key.
  pub ensure_admin-has_access_key :
      (w : World)
      → (ensure_admin cfg env w).0 ≡ ok tt
      → is_nil cfg.admin_access_key ≡ false
      → Option.map
          (has_access_key cfg.admin_access_key)
          (identities (ensure_admin cfg env w).1.iam.target)
        ≡ some true
  unfolding ensure_admin
  ensure_admin-has_access_key w h k = elim (Result-cases (read_iam cfg env w).0) [
    | inl (f, e) ↦ ground (
      arith,
      read_effect cfg env w e,
      read_keeps cfg env w,
      save_effect cfg env (f.identities ++ admin_identity cfg ∷ []) (read_iam cfg env w).1,
      has_access_key-append f.identities,
    )
    | inr (x, e) ↦ ground (arith, read_keeps cfg env w)
  ]

  -- Where an identity has the administrator's key, `EnsureAdmin` writes nothing and restarts
  -- nothing.
  pub ensure_admin_idle :
      (w : World)
      → Option.map (has_access_key cfg.admin_access_key) (identities w.iam.target) ≡ some true
      → ((ensure_admin cfg env w).1.trace ≡ w.trace)
        × ((ensure_admin cfg env w).1.iam ≡ w.iam)
        × ((ensure_admin cfg env w).1.blocked ≡ w.blocked)
  unfolding ensure_admin read_iam
  ensure_admin_idle w h = ground arith

  -- `ListIAM` shows every identity of the file but those of the administrator's key, in order,
  -- and changes nothing.
  pub list_iam_lem :
      (w : World)
      → let (r, w') = list_iam cfg env w in
        ((is_ok r ≡ false)
          ⊎ (Option.map ok (Option.map (managed cfg) (identities w.iam.target)) ≡ some r))
        × (w'.trace ≡ w.trace)
        × (w'.iam ≡ w.iam)
  unfolding list_iam read_iam
  list_iam_lem w = ground arith

abbrev pub IsHidden : Text → IamUser → Type 0
IsHidden key u = (u.secret_key ≡ []) × ((u.access_key ≟ key) ≡ false)

-- No listed user shows a secret key or has the administrator's access key.
pub managed-All :
    {F : Type 0} (cfg : S3Config F) (is : List IamIdentity)
    → is_nil cfg.admin_access_key ≡ false
    → All (IsHidden cfg.admin_access_key) (managed cfg is)
unfolding managed is_system_admin
managed-All cfg [] h = tt
managed-All cfg (i ∷ is) h = ground (arith, managed-All cfg is h)
