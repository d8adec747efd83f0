-- ===== src/Ctl/Laws.antt =====
-- What `s3dctl iam create` leaves in s3.json.
use s3_agent.Prelude.{◌≡◌, false, ◌||◌, some, List, [], ◌∷◌, ◌++◌, Text, codes, ok, is_nil, arith}
use s3_agent.Config.{S3Config}
use s3_agent.S3.Manager.Base.{Env, World, IamIdentity}
use s3_agent.S3.Manager.Iam.{identity_of, build_actions}
use s3_agent.S3.Manager.Iam.Contents.{IsQuiet, identities}
use s3_agent.S3.Manager.Reconcile.Users.{create_quiet}
use s3_agent.Ctl.{iam_create, iam_created, ctl_user, ctl_iam_create, run_command}

abbrev pub all_actions : List Text
all_actions = codes "Read" ∷ codes "Write" ∷ codes "List" ∷ codes "Tagging" ∷ codes "Admin" ∷ []

module _ {F : Type 0} (cfg : S3Config F) (env : Env) where
  -- In a world without faults, where s3.json can be read: `iam create` with a name and both keys
  -- appends an identity that may do everything, `Admin` included, whatever its flag `--actions` asks
  -- for.
  pub iam_create_unrestricted :
      IsQuiet env
      → (name access_key secret_key actions : Text) (w : World) {is : List IamIdentity}
      → (is_nil name || is_nil access_key || is_nil secret_key) ≡ false
      → identities w.iam.target ≡ some is
      → let (r, w') = run_command cfg env (iam_create name access_key secret_key actions) w in
        (r ≡ ok (iam_created name))
        × (identities w'.iam.target
            ≡ some (
                is
                ++ record {
                  name = name;
                  credentials = record { access_key = access_key; secret_key = secret_key } ∷ [];
                  actions = all_actions;
                }
                  ∷ []))
  unfolding run_command ctl_iam_create identity_of build_actions
  iam_create_unrestricted q name access_key secret_key actions w {is} given h =
      ground (arith, given, create_quiet cfg env q (ctl_user name access_key) secret_key w h)
