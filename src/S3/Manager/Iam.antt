-- ===== src/S3/Manager/Iam.antt =====
-- The identities of s3.json: `EnsureAdmin`, `ListIAM`, `CreateIAMUser`, `DeleteIAMUser` and
-- `buildActions` of internal/modules/s3/manager.go.
pub mod Contents
pub mod Laws
pub mod Refines
use s3_agent.Prelude.{
  ◌≡◌, refl, Bool, true, false, not, ◌&&◌, ◌||◌, List, [], ◌∷◌, ◌++◌, Text, codes, if◌then◌else◌,
  is_nil, ◌≟◌,
}
use s3_agent.Config.{S3Config}
use s3_agent.S3.Types.{IamUser, BucketAcl}
use s3_agent.S3.Manager.Base.{
  Env, World, Error, M, pure, fail, ◌>>=◌, ◌>>◌, in_context, IamFile, IamIdentity, IamCredential,
  read_iam, write_iam, reload_weed_s3, iam_for_admin_check, iam_user_not_found,
}

-- The actions that one entry of the access list stands for.
acl_actions : Text → Text → List Text
acl_actions prefix permission =
    if permission ≟ codes "r"
    then (codes "Read:" ++ prefix) ∷ (codes "List:" ++ prefix) ∷ []
    else if permission ≟ codes "rw"
    then (codes "Read:" ++ prefix)
      ∷ (codes "Write:" ++ prefix)
      ∷ (codes "List:" ++ prefix)
      ∷ (codes "Tagging:" ++ prefix)
      ∷ []
    else (codes "Read:" ++ prefix)
      ∷ (codes "Write:" ++ prefix)
      ∷ (codes "List:" ++ prefix)
      ∷ (codes "Tagging:" ++ prefix)
      ∷ (codes "Admin:" ++ prefix)
      ∷ []

acls_actions : List BucketAcl → List Text
unfolding acl_actions
acls_actions [] = []
acls_actions (acl ∷ acls) =
    acl_actions (acl.bucket_id ++ codes "-*") acl.permission ++ acls_actions acls

-- `buildActions`
unfoldable pub build_actions : List BucketAcl → List Text
unfolding acls_actions
build_actions [] =
    codes "Read" ∷ codes "Write" ∷ codes "List" ∷ codes "Tagging" ∷ codes "Admin" ∷ []
build_actions (acl ∷ acls) = acls_actions (acl ∷ acls)

unfoldable pub has_credential : Text → List IamCredential → Bool
has_credential key [] = false
has_credential key (c ∷ cs) = c.access_key ≟ key || has_credential key cs

-- The two loops of `EnsureAdmin`.
unfoldable pub has_access_key : Text → List IamIdentity → Bool
unfolding has_credential
has_access_key key [] = false
has_access_key key (i ∷ is) = has_credential key i.credentials || has_access_key key is

abbrev pub admin_name : Text
admin_name = codes "plusclouds-s3-admin"

abbrev pub first_access_key : List IamCredential → Text
first_access_key [] = []
first_access_key (c ∷ cs) = c.access_key

-- The identity that `CreateIAMUser` appends.
unfoldable pub identity_of : IamUser → Text → IamIdentity
unfolding build_actions
identity_of user secret_key = record {
  name = user.name;
  credentials = record { access_key = user.access_key; secret_key = secret_key } ∷ [];
  actions = build_actions user.bucket_acls;
}

-- The loop of `DeleteIAMUser`: the identities that stay, and whether one went.
unfoldable pub without : Text → List IamIdentity → List IamIdentity
without name [] = []
without name (i ∷ is) = let rest = without name is in if i.name ≟ name then rest else i ∷ rest

unfoldable pub found : Text → List IamIdentity → Bool
found name [] = false
found name (i ∷ is) = i.name ≟ name || found name is

module _ {F : Type 0} (cfg : S3Config F) where
  abbrev pub admin_identity : IamIdentity
  admin_identity = record {
    name = admin_name;
    credentials =
        record { access_key = cfg.admin_access_key; secret_key = cfg.admin_secret_key } ∷ [];
    actions = codes "Admin" ∷ [];
  }

  -- `isSystemAdmin`
  unfoldable pub is_system_admin : Text → Bool
  is_system_admin key = not (is_nil cfg.admin_access_key) && key ≟ cfg.admin_access_key

  abbrev pub user_of : IamIdentity → IamUser
  user_of i = record {
    user_id = [];
    name = i.name;
    owner_tenant_id = [];
    access_key = first_access_key i.credentials;
    secret_key = [];
    bucket_acls = [];
  }

  -- The loop of `ListIAM`.
  unfoldable pub managed : List IamIdentity → List IamUser
  unfolding is_system_admin
  managed [] = []
  managed (i ∷ is) =
      let rest = managed is in
      if is_system_admin (first_access_key i.credentials) then rest else user_of i ∷ rest

module _ {F : Type 0} (cfg : S3Config F) (env : Env) where
  abbrev pub save : List IamIdentity → M (Unit {0})
  save is = do write_iam cfg env (record { identities = is }); reload_weed_s3 cfg env

  -- `EnsureAdmin`
  unfoldable pub ensure_admin : M (Unit {0})
  ensure_admin = if is_nil cfg.admin_access_key then pure tt else do
    iam ← in_context iam_for_admin_check (read_iam cfg env)
    if has_access_key cfg.admin_access_key iam.identities
        then pure tt
        else save (iam.identities ++ admin_identity cfg ∷ [])

  -- `ListIAM`
  unfoldable pub list_iam : M (List IamUser)
  list_iam = do iam ← read_iam cfg env; pure (managed cfg iam.identities)

  -- `CreateIAMUser`
  unfoldable pub create_iam_user : IamUser → Text → M (Unit {0})
  create_iam_user user secret_key = do
    iam ← read_iam cfg env
    save (iam.identities ++ identity_of user secret_key ∷ [])

  -- `DeleteIAMUser`
  unfoldable pub delete_iam_user : Text → M (Unit {0})
  delete_iam_user name = do
    iam ← read_iam cfg env
    if found name iam.identities
        then save (without name iam.identities)
        else fail (iam_user_not_found name)
