-- ===== src/Tests/Dispatcher.antt =====
-- The dispatcher's theorems at the fixtures.
use mathlib.Core.Option
use s3_agent.Prelude.{
  ℕ, ◌≡◌, refl, ◌⊎◌, inl, inr, ◌≢◌, Bool, true, false, Option, none, some, List, [], ◌∷◌, ◌++◌,
  Text, codes, Result, ok, err, is_ok, member, arith,
}
use s3_agent.Prelude.Int.{pos}
use s3_agent.Executor.{execute}
use s3_agent.Protocol.{CommandPayload}
use s3_agent.S3.Manager.Base.{ran}
use s3_agent.S3.Manager.Iam.{managed, found}
use s3_agent.S3.Manager.Iam.Contents.{identities}
use s3_agent.S3.Manager.Reconcile.{user_names}
use s3_agent.Dispatcher.Types.{Op, Params, no_params}
use s3_agent.Dispatcher.Run.{run_op}
use s3_agent.Dispatcher.Dispatch.{dispatch, respond}
use s3_agent.Dispatcher.Laws.{IsAnswer, IsReply, dispatch-IsAnswer, run_exec_allowed}
use s3_agent.Dispatcher.Scope.{reconcile_scope_buckets_names}
use s3_agent.Tests.Fixtures.{
  cfg, agent, quiet, quiet-IsQuiet, peers, state, envelope, two_identities, whole,
}

abbrev command : Text → CommandPayload
command op = record { operation = op; params = []; timeout_s = pos 0 }

dispatch-IsAnswer_example :
    let e = envelope (codes "reconcile") in
    let (r, s') = respond {fl = whole} cfg agent quiet peers [] e state in
    IsAnswer {fl = whole} cfg agent quiet peers [] e state (r, s')
    × IsReply {fl = whole} cfg agent quiet peers [] e state r
        (dispatch {fl = whole} cfg agent quiet peers [] e state).0
    × ((dispatch {fl = whole} cfg agent quiet peers [] e state).1 ≡ s')
dispatch-IsAnswer_example =
    dispatch-IsAnswer {fl = whole} cfg agent quiet peers [] (envelope (codes "reconcile")) state

abbrev ls : Params
ls = record no_params { command = codes "ls"; args = codes "-l" ∷ [] }

run_exec_allowed_example :
    let w = state.world in
    let w' = (run_op {fl = whole} cfg agent quiet peers Op.exec ls state).1.world in
    ((member ls.command agent.allowed_commands ≡ false) × (w' ≡ w))
    ⊎ ((member ls.command agent.allowed_commands ≡ true)
        × (w'.trace
            ≡ w.trace
              ++ ran (execute ls.command ls.args (quiet.run w.clock ls.command ls.args)).1 ∷ []))
run_exec_allowed_example =
    run_exec_allowed {fl = whole} cfg agent quiet peers [] (envelope []) state ls

abbrev buckets_only : Params
buckets_only = record no_params { scope = codes "buckets" }

scope_done :
    is_ok (run_op {fl = whole} cfg agent quiet peers Op.reconcile buckets_only state).0 ≡ true
unfolding run_op s3_agent.S3.Manager.Reconcile.reconcile s3_agent.S3.Manager.Buckets.list_buckets
    s3_agent.S3.Manager.Base.do_s3 s3_agent.S3.Manager.Iam.list_iam
    s3_agent.S3.Manager.Base.read_iam member s3_agent.Prelude.text_dec
    s3_agent.S3.Manager.Buckets.delete_bucket s3_agent.S3.Manager.Buckets.create_bucket
scope_done = refl

ann_managed : member (codes "ann") (user_names (managed cfg two_identities)) ≡ true
unfolding member managed s3_agent.Prelude.text_dec
ann_managed = refl

reconcile_scope_buckets_names_example :
    Option.map (found (codes "ann")) (
      identities
        (run_op {fl = whole} cfg agent quiet peers Op.reconcile buckets_only
          state).1.world.iam.target)
    ≡ some false
reconcile_scope_buckets_names_example =
    reconcile_scope_buckets_names {fl = whole} cfg agent quiet peers quiet-IsQuiet buckets_only
      state refl refl refl scope_done (codes "ann") ann_managed
