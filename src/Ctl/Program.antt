-- ===== src/Ctl/Program.antt =====
-- cmd/ctl/main.go as a program: what each command prints, its error, and what it leaves. cobra's
-- parsing of the arguments is left out.
use s3_agent.Prelude.{
  ℕ, ◌≡◌, ◌||◌, Bool, true, false, Option, none, some, List, [], ◌∷◌, ◌++◌, map, Text, codes,
  Result, ok, err, is_nil, if◌then◌else◌,
}
use s3_agent.Touch.{Touch}
use s3_agent.Config.{Config, S3Config, LoadError}
use s3_agent.S3.Manager.Base.{Env, World}
use s3_agent.S3.Observer.Change.{Float}
use s3_agent.S3.Observer.Poll.{Net, poll_cluster, poll_requests}
use s3_agent.S3.Observer.Stats.{bucket_stats, stats_requests}
use s3_agent.Publisher.Send.{agent_version}
use s3_agent.Ctl.{
  Files, CtlCommand, CtlOutput, CtlError, iam_create, iam_delete, blocked_add, blocked_remove,
  identities_table, keys_table, no_identities, no_keys, iam_created, iam_deleted, key_blocked,
  key_unblocked, flags_required, run_command, CheckResult, run_checks,
}
use s3_agent.Ctl.Tables.{cluster_rows, volume_rows, bucket_rows, check_rows, table_lines}

pub data Command : Type 0 where
  check cluster_status cluster_volumes buckets_list version : Command
  manager : CtlCommand → Command

-- What the output needs: the test of the terminal, the formats `%.1f%%`, `%.1f` and `%q`, and
-- `strings.ToUpper`.
pub record Console (F : Type 0) : Type 0 where
  pub terminal : Bool
  pub percent : F → Text
  pub quotient : ℕ → ℕ → Text
  pub quoted : Text → Text
  pub to_upper : Text → Text

-- The errors of a run; `panicked` is the panic of `fileWriteCheck`.
pub data ProgramError : Type 0 where
  loading : LoadError → ProgramError
  command_failed : CtlError → ProgramError
  stats_failed checks_failed panicked : ProgramError

-- The lines that a run prints, its error, the world behind it, and what was asked of the machine
-- beside the manager's requests.
pub record Outcome : Type 0 where
  pub touched : List Touch
  pub lines : List Text
  pub error : Option ProgramError
  pub world : World

-- A request that reads, a file that is read, or a temporary file that is removed again.
abbrev pub IsPassive : Touch → Type 0
IsPassive (Touch.get url) = Unit
IsPassive (Touch.head url) = Unit
IsPassive (Touch.signed_head url) = ⊥
IsPassive (Touch.made_directory dir) = ⊥
IsPassive (Touch.opened_for_append file) = ⊥
IsPassive (Touch.opened_to_read file) = Unit
IsPassive (Touch.temporary_file path) = Unit

module _ (fl : Float) (out : Console fl.F) (files : Files) (net : Net) (env : Env) (now : ℕ) where
  abbrev table : List Text → List (List Text) → List Text
  table = table_lines out.to_upper

  abbrev pair : Text × Text → List Text
  pair (a, b) = a ∷ b ∷ []

  unfoldable pub output_lines : CtlOutput → List Text
  output_lines (identities_table rows) =
      table (codes "Name" ∷ codes "Access Key" ∷ []) (map pair rows)
  output_lines (keys_table keys) = table (codes "Blocked Access Key" ∷ []) (map (λ k. k ∷ []) keys)
  output_lines no_identities = codes "No IAM identities found." ∷ []
  output_lines no_keys = codes "No access keys are currently blocked." ∷ []
  output_lines (iam_created n) = (codes "IAM identity " ++ (out.quoted n ++ codes " created.")) ∷ []
  output_lines (iam_deleted n) = (codes "IAM identity " ++ (out.quoted n ++ codes " deleted.")) ∷ []
  output_lines (key_blocked k) = (codes "Access key " ++ (out.quoted k ++ codes " blocked.")) ∷ []
  output_lines (key_unblocked k) =
      (codes "Access key " ++ (out.quoted k ++ codes " unblocked.")) ∷ []

  abbrev finished : Result CtlError CtlOutput × World → Outcome
  finished (ok o, w) = record { touched = []; lines = output_lines o; error = none; world = w }
  finished (err e, w) = record {
    touched = [];
    lines = [];
    error = some (command_failed e);
    world = w;
  }

  abbrev shown : World → List Touch → List Text → Outcome
  shown w touched lines = record { touched = touched; lines = lines; error = none; world = w }

  -- The polls of the cluster, the two files that are read, one of them twice, and the temporary file.
  unfoldable pub check_requests : S3Config fl.F → List Touch
  unfolding poll_requests
  check_requests cfg =
      poll_requests cfg
      ++ Touch.opened_to_read cfg.iam_file
        ∷ Touch.opened_to_read cfg.iam_file
        ∷ Touch.opened_to_read cfg.nginx_blocked_keys_file
        ∷ []

  unfoldable check_outcome : S3Config fl.F → World → Option (List CheckResult × Bool) → Outcome
  unfolding check_requests check_rows table_lines
  check_outcome cfg w none = record {
    touched = check_requests cfg;
    lines = [];
    error = some panicked;
    world = w;
  }
  check_outcome cfg w (some (rs, pass)) = record {
    touched = check_requests cfg ++ Touch.temporary_file cfg.nginx_blocked_keys_file ∷ [];
    lines =
        table (codes "Check" ∷ codes "Status" ∷ codes "Detail" ∷ []) (check_rows out.terminal rs);
    error = if pass then none else some checks_failed;
    world = w;
  }

  unfoldable pub check_command : S3Config fl.F → World → Outcome
  unfolding check_outcome run_checks poll_cluster
  check_command cfg w = check_outcome cfg w (run_checks cfg files (poll_cluster fl cfg net now))

  abbrev status_header : List Text
  status_header = codes "Component" ∷ codes "Service" ∷ codes "API" ∷ codes "Detail" ∷ []

  abbrev buckets_header : List Text
  buckets_header = codes "Bucket" ∷ codes "Objects" ∷ codes "Size" ∷ codes "Health" ∷ []

  unfoldable pub status_command : S3Config fl.F → World → Outcome
  unfolding cluster_rows poll_cluster table_lines
  status_command cfg w = shown w (poll_requests cfg) (
      table status_header
        (cluster_rows out.terminal out.percent out.quotient (poll_cluster fl cfg net now)))

  unfoldable pub volumes_command : S3Config fl.F → World → Outcome
  unfolding volume_rows poll_cluster table_lines
  volumes_command cfg w = shown w (poll_requests cfg) (
      table (codes "Field" ∷ codes "Value" ∷ [])
        (volume_rows out.terminal out.percent out.quotient (poll_cluster fl cfg net now)))

  unfoldable pub buckets_command : S3Config fl.F → World → Outcome
  unfolding bucket_stats bucket_rows table_lines
  buckets_command cfg w = elim (bucket_stats cfg net) [
    | none ↦ record {
      touched = stats_requests cfg net;
      lines = [];
      error = some stats_failed;
      world = w;
    }
    | some stats ↦ shown w (stats_requests cfg net) (
        if is_nil stats
        then codes "No buckets found." ∷ []
        else table buckets_header (bucket_rows out.terminal out.percent out.quotient stats))
  ]

  abbrev version_outcome : World → Outcome
  version_outcome w = shown w [] ((codes "s3dctl " ++ agent_version) ∷ [])

  -- A command behind `loadDeps`; `version` does not call it.
  unfoldable pub loaded : Command → S3Config fl.F → World → Outcome
  unfolding check_command status_command volumes_command buckets_command run_command output_lines
  loaded check cfg w = check_command cfg w
  loaded cluster_status cfg w = status_command cfg w
  loaded cluster_volumes cfg w = volumes_command cfg w
  loaded buckets_list cfg w = buckets_command cfg w
  loaded version cfg w = version_outcome w
  loaded (manager c) cfg w = finished (run_command cfg env c w)

  -- The commands that need no configuration, or fail before they load it.
  abbrev before_loading : Command → World → Option Outcome
  before_loading version w = some (version_outcome w)
  before_loading (manager (iam_create name access_key secret_key actions)) w =
      if is_nil name || is_nil access_key || is_nil secret_key
      then some (finished (err flags_required, w))
      else none
  before_loading _ w = none

  -- A run; `config` is what `config.Load` returns.
  unfoldable pub s3dctl : Result LoadError (Config fl.F) → Command → World → Outcome
  unfolding loaded
  s3dctl config c w = elim (before_loading c w) [
    | some o ↦ o
    | none ↦ elim config [
      | err e ↦ record { touched = []; lines = []; error = some (loading e); world = w }
      | ok cfg ↦ loaded c cfg.s3 w
    ]
  ]

  -- The commands that show something.
  abbrev pub is_query : Command → Bool
  is_query (manager (iam_create name access_key secret_key actions)) = false
  is_query (manager (iam_delete name)) = false
  is_query (manager (blocked_add access_key reason)) = false
  is_query (manager (blocked_remove access_key)) = false
  is_query _ = true

  -- The files, the requests of the manager and the commands that were run are the same.
  pub record AreUntouched (v w : World) : Type 0 where
    pub identities : w.iam ≡ v.iam
    pub keys : w.blocked ≡ v.blocked
    pub trace : w.trace ≡ v.trace
