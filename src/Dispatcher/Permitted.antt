-- ===== src/Dispatcher/Permitted.antt =====
-- The commands that the agent may run, and the operations that run some.
pub mod Answers
use s3_agent.Prelude.{
  ◌≡◌, refl, ◌⊎◌, inl, inr, true, List, [], ◌∷◌, Text, codes, member, All, All-append, arith,
  Result-cases, Option-cases, Bool-cases, is_nil, ◌≟◌,
}
use s3_agent.Prelude.Int.{ℤ, pos}
use s3_agent.Config.{AgentConfig, S3Config}
use s3_agent.Executor.{execute}
use s3_agent.Protocol.{Envelope, CommandPayload}
use s3_agent.S3.Types.{FullSyncPayload}
use s3_agent.S3.Manager.Base.{Env, Event, sent, ran}
use s3_agent.S3.Manager.Trace
use s3_agent.S3.Manager.Trace.{Admits}
use s3_agent.S3.Manager.Trace.Files
use s3_agent.S3.Observer.Change.{Float}
use s3_agent.Dispatcher.Types.{
  Op, Params, State, Peers, op_in, op_table, system, services, vm_reboot, vm_shutdown,
  system_update, allowed_operations, set_interval, exec, cluster_status, bucket_stats,
  bucket_create, bucket_update, bucket_delete, worm_bucket_create, worm_bucket_update,
  worm_bucket_delete, iam_create, iam_delete, iam_list, reconcile, customer_block, customer_unblock,
  blocked_list,
}
use s3_agent.Dispatcher.Commands.{
  run_command, run_captured, update_packages, update_system, tick, run_exec, apt_args,
}
use s3_agent.Dispatcher.Stored.{bucket_spec, worm_spec, user_of_params}
use s3_agent.Dispatcher.Run.{
  run, run_op, run_full_sync, run_reconcile, run_last_desired, run_bucket_stats, send_capabilities,
  set_interval_s,
}
use s3_agent.Dispatcher.Distro.{detect_debian_distro}
use s3_agent.Dispatcher.Dispatch.{respond, perform, params_of}

-- A command that the agent may run: the restart of the S3 service, the reload of Nginx, a reboot or
-- a shutdown, the two steps of a system update, or a command that is configured as allowed.
pub data IsPermitted (service : Text) (allowed : List Text) (command : Text) (args : List Text)
    : Type 0 where
  restart :
      command ≡ codes "systemctl"
      → args ≡ codes "restart" ∷ service ∷ []
      → IsPermitted service allowed command args
  reload :
      command ≡ codes "nginx"
      → args ≡ codes "-s" ∷ codes "reload" ∷ []
      → IsPermitted service allowed command args
  power :
      command ≡ codes "systemctl"
      → (args ≡ codes "reboot" ∷ []) ⊎ (args ≡ codes "poweroff" ∷ [])
      → IsPermitted service allowed command args
  windows_power :
      command ≡ codes "shutdown"
      → (args ≡ codes "/r" ∷ codes "/t" ∷ codes "0" ∷ [])
        ⊎ (args ≡ codes "/s" ∷ codes "/t" ∷ codes "0" ∷ [])
      → IsPermitted service allowed command args
  update :
      command ≡ codes "apt-get"
      → (args ≡ apt_args (codes "update")) ⊎ (args ≡ apt_args (codes "upgrade"))
      → IsPermitted service allowed command args
  configured : member command allowed ≡ true → IsPermitted service allowed command args

-- A request, or a permitted command.
abbrev pub Permits : Text → List Text → Event → Type 0
Permits service allowed (sent r) = Unit
Permits service allowed (ran a) = IsPermitted service allowed a.command a.args

module _ {O : Type 0} {fl : Float} (cfg : S3Config fl.F) (agent : AgentConfig) (env : Env)
    (peers : Peers O fl) where
  abbrev pub P : Event → Type 0
  P = Permits cfg.weed_s3_service agent.allowed_commands

  pub admits : Admits cfg P
  unfolding execute
  admits = record {
    requests = λ r. tt;
    restarts = λ o. restart refl refl;
    reloads = λ o. reload refl refl;
  }

  run_command-All :
      (c : Text) (a : List Text) (s : State)
      → IsPermitted cfg.weed_s3_service agent.allowed_commands c a
      → All P s.world.trace
      → All P (run_command cfg agent env peers c a s).1.world.trace
  unfolding run_command
  run_command-All c a s p h =
      All-append P s.world.trace (ran (execute c a (env.run s.world.clock c a)).1 ∷ []) h (p, tt)

  pub run_captured-All :
      (c : Text) (a : List Text) (s : State)
      → IsPermitted cfg.weed_s3_service agent.allowed_commands c a
      → All P s.world.trace
      → All P (run_captured cfg agent env peers c a s).1.world.trace
  unfolding run_captured
  run_captured-All c a s p h = run_command-All c a s p h

  update_packages-All :
      (d : Text) (s : State)
      → All P s.world.trace
      → All P (update_packages cfg agent env peers d s).1.world.trace
  unfolding update_packages
  update_packages-All d s h =
      let first =
        run_command-All (codes "apt-get") (apt_args (codes "update")) s (update refl (inl refl))
          h in
      let s1 =
        (run_command cfg agent env peers (codes "apt-get") (apt_args (codes "update")) s).1 in
      ground (
        arith,
        first,
        run_command-All (codes "apt-get") (apt_args (codes "upgrade")) s1 (update refl (inr refl))
            first,
      )

  pub update_system-All :
      (s : State) → All P s.world.trace → All P (update_system cfg agent env peers s).1.world.trace
  unfolding update_system
  update_system-All s h =
      elim (Result-cases (detect_debian_distro peers.to_lower (peers.os_release s.world.clock))) [
        | inr (e, d) ↦ ground (arith, d)
        | inl (distro, d) ↦ elim (Bool-cases (is_nil distro)) [
          | inl n ↦ ground (arith, d, n)
          | inr n ↦ ground (arith, d, n, update_packages-All distro (tick s) h)
        ]
      ]

  pub run_exec-All :
      (c : Text) (a : List Text) (s : State)
      → All P s.world.trace
      → All P (run_exec cfg agent env peers c a s).1.world.trace
  unfolding run_exec
  run_exec-All c a s h = elim (Bool-cases (member c agent.allowed_commands)) [
    | inl m ↦ rw m (run_captured-All c a s (configured m) h)
    | inr m ↦ rw m h
  ]

  pub bucket_stats-All :
      (s : State)
      → All P s.world.trace
      → All P (run_bucket_stats cfg agent env peers s).1.world.trace
  unfolding run_bucket_stats
  bucket_stats-All s h = ground arith

  pub set_interval-All :
      (i : ℤ) (s : State)
      → All P s.world.trace
      → All P (set_interval_s cfg agent env peers i s).1.world.trace
  unfolding set_interval_s
  set_interval-All i s h = ground arith

  run_reconcile-All :
      (d : FullSyncPayload) (s : State)
      → All P s.world.trace
      → All P (run_reconcile cfg agent env peers d s).1.world.trace
  unfolding run_reconcile
  run_reconcile-All d s h = Files.reconcile-All cfg env P admits d s.world h

  pub last_desired-All :
      (t : Text) (s : State)
      → All P s.world.trace
      → All P (run_last_desired cfg agent env peers t s).1.world.trace
  unfolding run_last_desired
  last_desired-All t s h = grind (arith, run_reconcile-All)

  pub full_sync-All :
      (t : Text) (s : State)
      → All P s.world.trace
      → All P (run_full_sync cfg agent env peers t s).1.world.trace
  unfolding run_full_sync
  full_sync-All t s h = grind (arith, run_reconcile-All)
