-- ===== src/Tests/Reconcile.antt =====
-- The theorems about runs and sequences of calls on s3.json at the fixtures.
use mathlib.Core.Option
use s3_agent.Prelude.{
  ℕ, ◌≡◌, refl, ◌⊎◌, inl, inr, Bool, true, false, Option, none, some, List, [], ◌∷◌, ◌++◌, Text,
  codes, Result, ok, err, member, All,
}
use s3_agent.S3.Manager.Base.{World, IamIdentity}
use s3_agent.S3.Manager.Iam.{managed, is_system_admin, identity_of}
use s3_agent.S3.Manager.Iam.Contents.{identities}
use s3_agent.S3.Manager.Iam.Refines.{
  IamCall, create, delete, ensure, list, calls, Refines, calls_refine,
}
use s3_agent.S3.Manager.Reconcile.{Tally, reconcile_users, user_names, empty_result}
use s3_agent.S3.Manager.Reconcile.Listed.{
  listed, IsCustomer, reconcile_users-listed, reconcile_users_again,
}
use s3_agent.Tests.Fixtures.{
  cfg, quiet, quiet-IsQuiet, world, identity, two_identities, bob, desired,
}

bob-IsCustomer : IsCustomer cfg bob
unfolding is_system_admin s3_agent.Prelude.text_dec
bob-IsCustomer = refl

customers : All (IsCustomer cfg) desired.iam_users
customers = (bob-IsCustomer, tt)

abbrev after_first : Tally × World
after_first =
    reconcile_users cfg quiet desired.iam_users (managed cfg two_identities) empty_result world

reconcile_users-listed_example :
    Option.map (listed cfg (codes "ann")) (identities after_first.1.iam.target)
    ≡ some (member (codes "ann") (user_names desired.iam_users))
reconcile_users-listed_example =
    reconcile_users-listed cfg quiet quiet-IsQuiet (codes "ann") desired.iam_users empty_result
      world customers refl

-- What the first run leaves: the administrator, and bob in place of ann.
abbrev left : List IamIdentity
left = identity (codes "root") (codes "ROOT") ∷ identity_of bob bob.secret_key ∷ []

after_first_left : identities after_first.1.iam.target ≡ some left
unfolding reconcile_users managed s3_agent.Prelude.text_dec member
    s3_agent.S3.Manager.Iam.delete_iam_user s3_agent.S3.Manager.Base.read_iam
    s3_agent.S3.Manager.Iam.create_iam_user s3_agent.S3.Manager.Base.write_iam
    s3_agent.S3.Manager.AtomicWrite.atomic_write s3_agent.S3.Manager.Base.reload_weed_s3
    s3_agent.S3.Manager.Iam.found s3_agent.S3.Manager.Iam.without identity_of
after_first_left = refl

reconcile_users_again_example :
    reconcile_users cfg quiet desired.iam_users (managed cfg left) empty_result after_first.1
    ≡ (empty_result, after_first.1)
reconcile_users_again_example =
    reconcile_users_again cfg quiet quiet-IsQuiet desired.iam_users empty_result empty_result world
      after_first.1 customers refl after_first_left

abbrev some_calls : List IamCall
some_calls = ensure ∷ create bob (codes "s") ∷ delete (codes "ann") ∷ list ∷ []

calls_refine_example :
    (js : List IamIdentity) × (identities (calls cfg quiet some_calls world).iam.target ≡ some js)
    × Refines cfg quiet some_calls world two_identities js
calls_refine_example = calls_refine cfg quiet some_calls world refl
