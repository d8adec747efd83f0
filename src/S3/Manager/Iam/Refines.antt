-- ===== src/S3/Manager/Iam/Refines.antt =====
-- s3.json as an abstract list of identities: what the operations on it promise over any sequence of
-- calls, faults included.
use s3_agent.Prelude.{
  ◌≡◌, refl, ◌⊎◌, inl, inr, Bool, false, some, List, [], ◌∷◌, ◌++◌, Text, if◌then◌else◌, is_ok,
  is_nil, arith,
}
use s3_agent.Config.{S3Config}
use s3_agent.S3.Types.{IamUser}
use s3_agent.S3.Manager.Base.{Env, World, IamIdentity}
use s3_agent.S3.Manager.Iam.{
  without, identity_of, admin_identity, has_access_key, create_iam_user, delete_iam_user,
  ensure_admin, list_iam,
}
use s3_agent.S3.Manager.Iam.Contents.{identities}
use s3_agent.S3.Manager.Iam.Laws.{
  create_iam_user_effect, delete_iam_user_effect, ensure_admin_effect, list_iam_lem,
}

-- The calls of a client of the manager.
pub data IamCall : Type 0 where
  create : IamUser → Text → IamCall
  delete : Text → IamCall
  ensure list : IamCall

module _ {F : Type 0} (cfg : S3Config F) where
  -- The specification: what a call makes of the identities.
  unfoldable pub after : IamCall → List IamIdentity → List IamIdentity
  after (create u secret) is = is ++ identity_of u secret ∷ []
  after (delete n) is = without n is
  after ensure is =
      if is_nil cfg.admin_access_key
      then is
      else if has_access_key cfg.admin_access_key is
      then is
      else is ++ admin_identity cfg ∷ []
  after list is = is

module _ {F : Type 0} (cfg : S3Config F) (env : Env) where
  -- The call of the manager: whether it succeeded, and the world behind it.
  unfoldable pub call : IamCall → World → Bool × World
  call (create u secret) w =
      (is_ok (create_iam_user cfg env u secret w).0, (create_iam_user cfg env u secret w).1)
  call (delete n) w = (is_ok (delete_iam_user cfg env n w).0, (delete_iam_user cfg env n w).1)
  call ensure w = (is_ok (ensure_admin cfg env w).0, (ensure_admin cfg env w).1)
  call list w = (is_ok (list_iam cfg env w).0, (list_iam cfg env w).1)

  unfoldable pub calls : List IamCall → World → World
  unfolding call
  calls [] w = w
  calls (c ∷ cs) w = calls cs (call c w).1

  -- Each call does what the specification says, or failed and did nothing.
  unfoldable pub Refines : List IamCall → World → List IamIdentity → List IamIdentity → Type 0
  Refines [] w is js = is ≡ js
  Refines (c ∷ cs) w is js =
      (((call c w).0 ≡ false) × Refines cs (call c w).1 is js)
      ⊎ Refines cs (call c w).1 (after cfg c is) js

  call_refines :
      (c : IamCall) (w : World) {is : List IamIdentity}
      → identities w.iam.target ≡ some is
      → (((call c w).0 ≡ false) × (identities (call c w).1.iam.target ≡ some is))
        ⊎ (identities (call c w).1.iam.target ≡ some (after cfg c is))
  unfolding call after
  call_refines (create u secret) w h = ground (arith, h, create_iam_user_effect cfg env u secret w)
  call_refines (delete n) w h = ground (arith, h, delete_iam_user_effect cfg env n w)
  call_refines ensure w h = ground (arith, h, ensure_admin_effect cfg env w)
  call_refines list w h = ground (arith, h, list_iam_lem cfg env w)

  -- Over any sequence of calls, whichever system calls and commands fail: if s3.json can be read at
  -- the start it can be read at the end, and its identities are those that the specification gives
  -- when each call does what it says, but for calls that returned an error and did nothing.
  pub calls_refine :
      (cs : List IamCall) (w : World) {is : List IamIdentity}
      → identities w.iam.target ≡ some is
      → (js : List IamIdentity) × (identities (calls cs w).iam.target ≡ some js)
        × Refines cs w is js
  unfolding calls Refines
  calls_refine [] w {is} h = (is, h, refl)
  calls_refine (c ∷ cs) w {is} h = elim (call_refines c w h) [
    | inl (e, k) ↦ let (js, p, r) = calls_refine cs (call c w).1 k in (js, p, inl (e, r))
    | inr k ↦ let (js, p, r) = calls_refine cs (call c w).1 k in (js, p, inr r)
  ]
