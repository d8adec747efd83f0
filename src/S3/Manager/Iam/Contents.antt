-- ===== src/S3/Manager/Iam/Contents.antt =====
-- What s3.json holds behind a read or a write of internal/modules/s3/manager.go, with faults and
-- without.
use s3_agent.Prelude.{
  ◌≡◌, refl, ◌⊎◌, false, Option, none, some, List, [], ◌∷◌, Text, codes, ok, is_ok, arith, ℕ,
}
use s3_agent.Config.{S3Config}
use s3_agent.S3.Manager.AtomicWrite.{Node, atomic_write}
use s3_agent.S3.Manager.Base.{
  Env, World, IamFile, IamIdentity, IamData, json, malformed, read_iam, write_iam, reload_weed_s3,
}
use s3_agent.S3.Manager.Iam.{save}

-- The identities that a reader of the file finds, `none` if the file cannot be parsed.
abbrev pub identities : Option (Node IamData) → Option (List IamIdentity)
identities none = some []
identities (some n) = elim n.content [ json f ↦ some f.identities | malformed e ↦ none ]

-- No system call fails and every command succeeds.
pub record IsQuiet (env : Env) : Type 0 where
  pub reads : (t : ℕ) → env.read_error t ≡ none
  pub creates : (t : ℕ) → (env.write_faults t).create_temp ≡ false
  pub chmods : (t : ℕ) → (env.write_faults t).chmod ≡ false
  pub writes : (t : ℕ) → (env.write_faults t).write ≡ false
  pub closes : (t : ℕ) → (env.write_faults t).close ≡ false
  pub renames : (t : ℕ) → (env.write_faults t).rename ≡ false
  pub runs : (t : ℕ) (c : Text) (a : List Text) → (env.run t c a).run_err ≡ none

module _ {F : Type 0} (cfg : S3Config F) (env : Env) where
  reload_keeps : (w : World) → (reload_weed_s3 cfg env w).1.iam ≡ w.iam
  unfolding reload_weed_s3
  reload_keeps w = refl

  write_effect :
      (f : IamFile) (w : World)
      → ((is_ok (write_iam cfg env f w).0 ≡ false)
          × ((write_iam cfg env f w).1.iam.target ≡ w.iam.target))
        ⊎ (identities (write_iam cfg env f w).1.iam.target ≡ some f.identities)
  unfolding write_iam atomic_write
  write_effect f w = ground arith

  pub save_effect :
      (is : List IamIdentity) (w : World)
      → ((is_ok (save cfg env is w).0 ≡ false) × ((save cfg env is w).1.iam.target ≡ w.iam.target))
        ⊎ (identities (save cfg env is w).1.iam.target ≡ some is)
  save_effect is w =
      let f : IamFile = record { identities = is } in
      ground (arith, write_effect f w, reload_keeps (write_iam cfg env f w).1)

  pub read_keeps : (w : World) → (read_iam cfg env w).1.iam ≡ w.iam
  unfolding read_iam
  read_keeps w = refl

  -- What was read is what the file holds.
  pub read_effect :
      (w : World) {f : IamFile}
      → (read_iam cfg env w).0 ≡ ok f
      → identities w.iam.target ≡ some f.identities
  unfolding read_iam
  read_effect w h = ground arith

  module _ (q : IsQuiet env) where
    reload_quiet : (w : World) → (reload_weed_s3 cfg env w).0 ≡ ok tt
    unfolding reload_weed_s3
    reload_quiet w =
        ground
          (arith, q.runs w.clock (codes "systemctl") (codes "restart" ∷ cfg.weed_s3_service ∷ []))

    write_quiet :
        (f : IamFile) (w : World)
        → ((write_iam cfg env f w).0 ≡ ok tt)
          × (identities (write_iam cfg env f w).1.iam.target ≡ some f.identities)
    unfolding write_iam atomic_write
    write_quiet f w = ground (
      arith,
      q.creates w.clock,
      q.chmods w.clock,
      q.writes w.clock,
      q.closes w.clock,
      q.renames w.clock,
    )

    pub save_quiet :
        (is : List IamIdentity) (w : World)
        → ((save cfg env is w).0 ≡ ok tt) × (identities (save cfg env is w).1.iam.target ≡ some is)
    save_quiet is w =
        let f : IamFile = record { identities = is } in
        let w' = (write_iam cfg env f w).1 in
        ground (arith, write_quiet f w, reload_keeps w', reload_quiet w')

    pub read_quiet :
        (w : World) {is : List IamIdentity}
        → identities w.iam.target ≡ some is
        → (read_iam cfg env w).0 ≡ ok (record { identities = is })
    unfolding read_iam
    read_quiet w h = ground (arith, q.reads w.clock)
