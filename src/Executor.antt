-- ===== src/Executor.antt =====
-- internal/executor/executor.go: one run of a command, its result and its audit entry. What the
-- process did (os/exec) is a parameter.
use s3_agent.Prelude.{Bool, true, false, Option, none, some, List, if◌then◌else◌, Text}
use s3_agent.Prelude.Int.{ℤ, pos, negsuc}

-- The error of `cmd.Run`: an `exec.ExitError` with its code, or any other.
pub data RunError : Type 0 where
  exit_error : ℤ → RunError
  other_error : Text → RunError

pub record RunOutcome : Type 0 where
  pub stdout : Text
  pub stderr : Text
  pub run_err : Option RunError
  -- `ctx.Err() == context.DeadlineExceeded`
  pub deadline_exceeded : Bool

pub data ExecError : Type 0 where
  timed_out : Text → ExecError
  command_failed : ℤ → RunError → ExecError

pub record ExecOutput : Type 0 where
  pub stdout : Text
  pub stderr : Text
  pub error : Option ExecError

pub record AuditEntry : Type 0 where
  pub command : Text
  pub args : List Text
  pub exit_code : ℤ
  pub success : Bool

unfoldable pub exit_code : Option RunError → ℤ
exit_code none = pos 0
exit_code (some (exit_error code)) = code
exit_code (some (other_error e)) = negsuc 0

exec_error : Text → Bool → Option RunError → Option ExecError
unfolding exit_code
exec_error command late none = none
exec_error command late (some e) =
    if late then some (timed_out command) else some (command_failed (exit_code (some e)) e)

succeeded : Option RunError → Bool
succeeded none = true
succeeded (some e) = false

-- `Execute`: the audit entry is written for every run.
unfoldable pub execute : Text → List Text → RunOutcome → ExecOutput × AuditEntry
unfolding exec_error exit_code succeeded
execute command args o = (
  record {
    stdout = o.stdout;
    stderr = o.stderr;
    error = exec_error command o.deadline_exceeded o.run_err;
  },
  record {
    command = command;
    args = args;
    exit_code = exit_code o.run_err;
    success = succeeded o.run_err;
  },
)
