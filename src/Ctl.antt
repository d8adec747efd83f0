-- ===== src/Ctl.antt =====
-- cmd/ctl/main.go: the checks and the commands of s3dctl, over the same manager and observer.
-- The files that the checks open are a parameter; the tables and the printing are in its children.
pub mod Bytes
pub mod Tables
pub mod Program
pub mod Laws
use s3_agent.Prelude.{
  ℕ, ◌≡◌, refl, Bool, true, false, not, ◌&&◌, ◌||◌, Option, none, some, List, [], ◌∷◌, ◌++◌, Text,
  codes, Result, ok, err, is_nil, take, if◌then◌else◌,
}
use s3_agent.Strings.{has_prefix, has_suffix, last_index_byte}
use s3_agent.Strings.Spaces.{trim_space}
use s3_agent.Config.{S3Config}
use s3_agent.S3.Types.{ServiceHealth, ClusterComponents, BucketStat, IamUser}
use s3_agent.S3.Manager.Base.{Env, World, Error}
use s3_agent.S3.Manager.Iam.{list_iam, create_iam_user, delete_iam_user}
use s3_agent.S3.Manager.Blocked.{list_blocked, block_access_key, unblock_access_key}

pub record CheckResult : Type 0 where
  pub name : Text
  pub passed : Bool
  pub detail : Text

-- What the operating system answers: the error of `os.Open`, `os.ReadFile`, and the error of
-- `os.CreateTemp` in a directory.
pub record Files : Type 0 where
  pub open_error : Text → Option Text
  pub read_file : Text → Result Text Text
  pub create_temp_error : (dir : Text) → Option Text

-- `svcCheck`, `apiCheck`, `fileReadCheck` and `fileJSONCheck`
unfoldable pub svc_check : Text → ServiceHealth → CheckResult
svc_check label h = record {
  name = label;
  passed = h.active;
  detail = if is_nil h.name then codes "D-Bus unavailable" else h.sub_state;
}

unfoldable pub api_check : Text → Bool → Text → CheckResult
api_check label reachable detail = record { name = label; passed = reachable; detail = detail }

unfoldable pub file_read_check : Files → Text → Text → CheckResult
file_read_check files label path = elim (files.open_error path) [
  | some e ↦ record { name = label; passed = false; detail = e }
  | none ↦ record { name = label; passed = true; detail = path }
]

-- The text of an object, as far as it is looked at.
abbrev pub is_object_text : Text → Bool
is_object_text text =
    let trimmed = trim_space text in
    has_prefix trimmed (codes "{") && has_suffix trimmed (codes "}")

unfoldable pub file_json_check : Files → Text → Text → CheckResult
file_json_check files label path = elim (files.read_file path) [
  | err e ↦ record { name = label; passed = false; detail = e }
  | ok text ↦
      if not (is_object_text text)
      then record { name = label; passed = false; detail = codes "invalid JSON structure" }
      else record { name = label; passed = true; detail = codes "valid" }
]

-- `fileWriteCheck`; `none` is the panic of the slice where the path has no slash.
unfoldable pub file_write_check : Files → Text → Text → Option CheckResult
file_write_check files label path = elim (last_index_byte path b'/') [
  | none ↦ none
  | some i ↦
      let parent = take i path in
      let dir = if is_nil parent then codes "." else parent in
      elim (files.create_temp_error dir) [
        | some e ↦ some (record { name = label; passed = false; detail = e })
        | none ↦ some (record { name = label; passed = true; detail = path })
      ]
]

module _ {F : Type 0} (cfg : S3Config F) where
  -- The checks of `runChecks` before the last one.
  unfoldable pub first_checks : Files → ClusterComponents F → List CheckResult
  unfolding svc_check api_check file_read_check file_json_check
  first_checks files c =
      svc_check (codes "weed-master service") c.master.service
      ∷ svc_check (codes "weed-volume service") c.volume.service
      ∷ svc_check (codes "weed-filer service") c.filer.service
      ∷ svc_check (codes "weed-s3 service") c.s3.service
      ∷ svc_check (codes "nginx service") c.nginx.service
      ∷ api_check (codes "master API reachable") c.master.reachable
          (codes "GET " ++ (cfg.master_url ++ codes "/cluster/status"))
      ∷ api_check (codes "volume API reachable") c.volume.reachable
          (codes "GET " ++ (cfg.volume_url ++ codes "/status"))
      ∷ api_check (codes "filer API reachable") c.filer.reachable
          (codes "HEAD " ++ (cfg.filer_url ++ codes "/"))
      ∷ api_check (codes "s3 gateway reachable") c.s3.reachable
          (codes "HEAD " ++ (cfg.s3_url ++ codes "/"))
      ∷ file_read_check files (codes "s3.json readable") cfg.iam_file
      ∷ file_json_check files (codes "s3.json valid JSON") cfg.iam_file
      ∷ file_read_check files (codes "blocked_keys.conf readable") cfg.nginx_blocked_keys_file
      ∷ []

  -- The loop of `runChecks` over the results.
  abbrev pub all_pass : List CheckResult → Bool
  all_pass [] = true
  all_pass (r ∷ rs) = r.passed && all_pass rs

  -- `runChecks`: the rows that are printed, and whether no check failed; `none` is the panic.
  unfoldable pub run_checks : Files → ClusterComponents F → Option (List CheckResult × Bool)
  unfolding first_checks file_write_check
  run_checks files c =
      elim (file_write_check files (codes "blocked_keys.conf writable")
        cfg.nginx_blocked_keys_file) [
          | none ↦ none
          | some r ↦ let rs = first_checks files c ++ r ∷ [] in some (rs, all_pass rs)
        ]

-- The commands that use the manager.
pub data CtlCommand : Type 0 where
  iam_list : CtlCommand
  iam_create : (name access_key secret_key actions : Text) → CtlCommand
  iam_delete : (name : Text) → CtlCommand
  blocked_list : CtlCommand
  blocked_add : (access_key reason : Text) → CtlCommand
  blocked_remove : (access_key : Text) → CtlCommand

-- What a command prints: rows, the texts for an empty table, or what was done to a name.
pub data CtlOutput : Type 0 where
  identities_table : List (Text × Text) → CtlOutput
  keys_table : List Text → CtlOutput
  no_identities no_keys : CtlOutput
  iam_created iam_deleted key_blocked key_unblocked : Text → CtlOutput

pub data CtlError : Type 0 where
  flags_required : CtlError
  manager_error : Error → CtlError

abbrev pub printed :
    {A : Type 0} → (A → CtlOutput) → Result Error A × World → Result CtlError CtlOutput × World
printed f (ok a, w) = (ok (f a), w)
printed f (err e, w) = (err (manager_error e), w)

unfoldable pub identity_rows : List IamUser → List (Text × Text)
identity_rows [] = []
identity_rows (u ∷ us) = (u.name, u.access_key) ∷ identity_rows us

abbrev pub show_users : List IamUser → CtlOutput
show_users us = if is_nil us then no_identities else identities_table (identity_rows us)

abbrev pub show_keys : List Text → CtlOutput
show_keys ks = if is_nil ks then no_keys else keys_table ks

-- The user that `iam create` makes.
abbrev pub ctl_user : Text → Text → IamUser
ctl_user name access_key = record {
  user_id = [];
  name = name;
  owner_tenant_id = [];
  access_key = access_key;
  secret_key = [];
  bucket_acls = [];
}

module _ {F : Type 0} (cfg : S3Config F) (env : Env) where
  unfoldable pub ctl_iam_list : World → Result CtlError CtlOutput × World
  unfolding identity_rows list_iam
  ctl_iam_list w = printed show_users (list_iam cfg env w)

  -- The list of actions is split and dropped.
  unfoldable pub ctl_iam_create :
      (name access_key secret_key actions : Text) → World → Result CtlError CtlOutput × World
  unfolding create_iam_user
  ctl_iam_create name access_key secret_key actions w =
      if is_nil name || is_nil access_key || is_nil secret_key
      then (err flags_required, w)
      else printed (λ _. iam_created name)
          (create_iam_user cfg env (ctl_user name access_key) secret_key w)

  unfoldable pub ctl_iam_delete : Text → World → Result CtlError CtlOutput × World
  unfolding delete_iam_user
  ctl_iam_delete name w = printed (λ _. iam_deleted name) (delete_iam_user cfg env name w)

  unfoldable pub ctl_blocked_list : World → Result CtlError CtlOutput × World
  unfolding list_blocked
  ctl_blocked_list w = printed show_keys (list_blocked cfg env w)

  unfoldable pub ctl_blocked_add :
      (access_key reason : Text) → World → Result CtlError CtlOutput × World
  unfolding block_access_key
  ctl_blocked_add access_key reason w =
      printed (λ _. key_blocked access_key) (block_access_key cfg env access_key reason w)

  unfoldable pub ctl_blocked_remove : Text → World → Result CtlError CtlOutput × World
  unfolding unblock_access_key
  ctl_blocked_remove access_key w =
      printed (λ _. key_unblocked access_key) (unblock_access_key cfg env access_key w)

  unfoldable pub run_command : CtlCommand → World → Result CtlError CtlOutput × World
  unfolding ctl_iam_list ctl_iam_create ctl_iam_delete ctl_blocked_list ctl_blocked_add
      ctl_blocked_remove
  run_command iam_list = ctl_iam_list
  run_command (iam_create name access_key secret_key actions) =
      ctl_iam_create name access_key secret_key actions
  run_command (iam_delete name) = ctl_iam_delete name
  run_command blocked_list = ctl_blocked_list
  run_command (blocked_add access_key reason) = ctl_blocked_add access_key reason
  run_command (blocked_remove access_key) = ctl_blocked_remove access_key
