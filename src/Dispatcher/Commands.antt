-- ===== src/Dispatcher/Commands.antt =====
-- The operations of internal/dispatcher/dispatcher.go that run commands, and how an operation
-- passes on the state.
use s3_agent.Prelude.{
  ◌+◌, none, some, List, [], ◌∷◌, ◌++◌, if◌then◌else◌, Text, codes, Result, ok, err, wrap_err,
  is_nil, member,
}
use s3_agent.Config.{AgentConfig, S3Config}
use s3_agent.Executor.{ExecOutput, execute}
use s3_agent.S3.Manager.Base.{Env, M, ran}
use s3_agent.S3.Observer.Change.{Float}
use s3_agent.Dispatcher.Types.{
  Output, Failure, State, Peers, fields, s3_error, exec_error, os_unknown, not_debian, step_failed,
  command_not_allowed,
}
use s3_agent.Dispatcher.Distro.{detect_debian_distro}

-- An operation's result and the state behind it.
abbrev pub Run : Type 0 → Type 0
Run A = State → Result Failure A × State

-- A clock tick without another change, for a call that the model does not look into.
abbrev pub tick : State → State
tick s = record s { world = record s.world { clock = s.world.clock + 1 } }

abbrev pub on_world : {A : Type 0} → M A → Run A
on_world m s = (wrap_err s3_error (m s.world).0, record s { world = (m s.world).1 })

abbrev status_out :
    {O F : Type 0} → List (Text × Text) → Result Failure (Unit {0}) → Result Failure (Output O F)
status_out out (ok _) = ok (fields out)
status_out out (err e) = err e

-- A call of the manager that is answered by a map of strings.
abbrev pub answered : {O F : Type 0} → M (Unit {0}) → List (Text × Text) → Run (Output O F)
answered m out s = (status_out out (on_world m s).0, (on_world m s).1)

abbrev pub apt_args : Text → List Text
apt_args verb =
    codes "-y"
    ∷ codes "-o"
    ∷ codes "Dpkg::Options::=--force-confdef"
    ∷ codes "-o"
    ∷ codes "Dpkg::Options::=--force-confold"
    ∷ verb
    ∷ []

module _ {O : Type 0} {fl : Float} (cfg : S3Config fl.F) (agent : AgentConfig) (env : Env)
    (peers : Peers O fl) where
  -- `d.exec.Execute`: the output comes with the error, if there is one.
  unfoldable pub run_command : Text → List Text → State → ExecOutput × State
  unfolding execute
  run_command command args s =
      let (out, entry) = execute command args (env.run s.world.clock command args) in
      (
        out,
        record s {
          world = record s.world {
            clock = s.world.clock + 1;
            trace = s.world.trace ++ ran entry ∷ [];
          };
        },
      )

  abbrev captured : ExecOutput → Result Failure (Output O fl.F)
  captured o = elim o.error [
    | some e ↦ err (exec_error e)
    | none ↦ ok (fields ((codes "stdout", o.stdout) ∷ (codes "stderr", o.stderr) ∷ []))
  ]

  unfoldable pub run_captured : Text → List Text → Run (Output O fl.F)
  unfolding run_command
  run_captured command args s = let (out, s') = run_command command args s in (captured out, s')

  abbrev upgraded : Text → ExecOutput → ExecOutput → Result Failure (Output O fl.F)
  upgraded distro update upgrade = elim upgrade.error [
    | some e ↦ err (exec_error e)
    | none ↦ ok (
        fields (
          (codes "distro", distro)
          ∷ (codes "update_stdout", update.stdout)
          ∷ (codes "update_stderr", update.stderr)
          ∷ (codes "upgrade_stdout", upgrade.stdout)
          ∷ (codes "upgrade_stderr", upgrade.stderr)
          ∷ []))
  ]

  -- The two runs of apt-get: the upgrade only after an update without error.
  unfoldable pub update_packages : Text → Run (Output O fl.F)
  unfolding run_command
  update_packages distro s =
      let (update, s1) = run_command (codes "apt-get") (apt_args (codes "update")) s in
      elim update.error [
        | some e ↦ (err (step_failed (codes "apt-get update") e), s1)
        | none ↦
            let (upgrade, s2) = run_command (codes "apt-get") (apt_args (codes "upgrade")) s1 in
            (upgraded distro update upgrade, s2)
      ]

  -- `case "system.update"`
  unfoldable pub update_system : Run (Output O fl.F)
  unfolding update_packages
  update_system s = elim (detect_debian_distro peers.to_lower (peers.os_release s.world.clock)) [
    | err e ↦ (err (os_unknown e), tick s)
    | ok distro ↦
        if is_nil distro then (err not_debian, tick s) else update_packages distro (tick s)
  ]

  -- `case "exec"`
  unfoldable pub run_exec : Text → List Text → Run (Output O fl.F)
  unfolding run_captured
  run_exec command args s =
      if member command agent.allowed_commands
      then run_captured command args s
      else (err (command_not_allowed command), s)
