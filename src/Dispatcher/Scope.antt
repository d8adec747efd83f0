-- ===== src/Dispatcher/Scope.antt =====
-- About `reconcile` with a scope, which sets a part of the desired state to nil.
use s3_agent.Prelude.{
  ◌≡◌, true, false, some, List, [], Text, codes, ok, is_ok, member, inl, inr, Result-cases, arith,
}
use mathlib.Core.Option
use s3_agent.Config.{AgentConfig, S3Config}
use s3_agent.S3.Types.{FullSyncPayload}
use s3_agent.S3.Manager.Base.{Env, IamIdentity}
use s3_agent.S3.Manager.Iam.{found, managed}
use s3_agent.S3.Manager.Iam.Contents.{IsQuiet, identities}
use s3_agent.S3.Manager.Reconcile.{reconcile, user_names}
use s3_agent.S3.Manager.Reconcile.Names.{reconcile_names}
use s3_agent.S3.Observer.Change.{Float}
use s3_agent.Dispatcher.Types.{Op, Params, State, Peers}
use s3_agent.Dispatcher.Run.{run_op, run_last_desired, run_reconcile, scoped}

scoped_buckets :
    (scope : Text) (desired : FullSyncPayload)
    → scope ≡ codes "buckets"
    → (scoped scope desired).iam_users ≡ []
unfolding scoped
scoped_buckets scope desired h = ground (arith, h)

module _ {O : Type 0} {fl : Float} (cfg : S3Config fl.F) (agent : AgentConfig) (env : Env)
    (peers : Peers O fl) where
  run_last_desired_lem :
      (scope : Text) (s : State) {desired : FullSyncPayload}
      → s.last_desired ≡ some desired
      → is_ok (run_last_desired cfg agent env peers scope s).0 ≡ true
      → ((run_last_desired cfg agent env peers scope s).1.world
          ≡ (reconcile cfg env (scoped scope desired) s.world).1)
        × ((reconcile cfg env (scoped scope desired) s.world).0.1 ≡ ok tt)
  unfolding run_last_desired run_reconcile
  run_last_desired_lem scope s {desired} h g =
      elim (Result-cases (reconcile cfg env (scoped scope desired) s.world).0.1) [
        | inl (tt, e) ↦ ground (arith, h, g, e)
        | inr (x, e) ↦ ground (arith, h, g, e)
      ]

  -- In a world without faults, where s3.json can be read and a desired state is stored: a
  -- `reconcile` of scope "buckets" that succeeds leaves no identity of the name of a managed user
  -- in s3.json, whether or not that user is desired.
  pub reconcile_scope_buckets_names :
      IsQuiet env
      → (p : Params) (s : State) {desired : FullSyncPayload} {is : List IamIdentity}
      → p.scope ≡ codes "buckets"
      → s.last_desired ≡ some desired
      → identities s.world.iam.target ≡ some is
      → is_ok (run_op cfg agent env peers Op.reconcile p s).0 ≡ true
      → (n : Text) → member n (user_names (managed cfg is)) ≡ true
      → Option.map
          (found n)
          (identities (run_op cfg agent env peers Op.reconcile p s).1.world.iam.target)
        ≡ some false
  unfolding run_op member
  reconcile_scope_buckets_names q p s {desired} {is} sc h i g n m =
      let d = scoped p.scope desired in
      let l = run_last_desired_lem p.scope s h g in
      let users : d.iam_users ≡ [] = scoped_buckets p.scope desired sc in
      let names = reconcile_names cfg env q n d s.world i l.1 in ground (arith, users, l, names, m)
