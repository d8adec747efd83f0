-- ===== src/S3/Manager/Base.antt =====
-- The state of the manager of internal/modules/s3/manager.go, the outside world that it meets, its
-- errors, and the calls that the other operations are made of: `doS3`, `decodeXML`, the reload
-- commands and the writes of its two files.
use s3_agent.Prelude.{
  ℕ, ◌+◌, Option, none, some, List, [], ◌∷◌, ◌++◌, Text, codes, Result, ok, err, wrap_err,
}
use s3_agent.Config.{S3Config}
use s3_agent.Executor.{RunOutcome, ExecError, AuditEntry, execute}
use s3_agent.S3.Signer.{Crypto, UrlParts, Stamp, Request, sign}
use s3_agent.S3.Manager.AtomicWrite.{Dir, WriteFaults, WriteError, atomic_write}

-- The structures of s3.json.
pub record IamCredential : Type 0 where
  pub access_key : Text
  pub secret_key : Text

pub record IamIdentity : Type 0 where
  pub name : Text
  pub credentials : List IamCredential
  pub actions : List Text

pub record IamFile : Type 0 where
  pub identities : List IamIdentity

-- The bytes of s3.json, as encoding/json reads them: a value, or the error of `Unmarshal`.
pub data IamData : Type 0 where
  json : IamFile → IamData
  malformed : Text → IamData

-- The text that `fmt.Errorf` puts in front of an error.
pub data Context : Type 0 where
  building_request listing_buckets parsing_bucket_list : Context
  creating_bucket creating_worm_bucket deleting_bucket deleting_worm_bucket : Text → Context
  setting_object_lock setting_lifecycle emptying_bucket deleting_object : Text → Context
  listing_objects iam_for_admin_check parsing_iam reading_iam reading_blocked : Context
  restarting : Text → Context
  reloading_nginx listing_actual_buckets listing_actual_iam : Context
  create_bucket delete_bucket create_iam_user delete_iam_user : Text → Context

pub data Error : Type 0 where
  bucket_name_required access_key_required retention_days_required : Error
  object_lock_mode : Text → Error
  iam_user_not_found : Text → Error
  http_status : ℕ → Error
  http_status_body : ℕ → Text → Error
  -- An error of a library or of the operating system.
  foreign : Text → Error
  exec_failed : ExecError → Error
  write_failed : WriteError → Error
  wrapped : Context → Error → Error

pub record Response : Type 0 where
  pub status : ℕ
  pub body : Text

-- What happened outside, in order.
pub data Event : Type 0 where
  sent : Request → Event
  ran : AuditEntry → Event

-- The outside world. Every answer may depend on the moment, the number of calls made before.
pub record Env : Type 0 where
  pub crypto : Crypto
  -- `http.NewRequestWithContext`, which parses the URL.
  pub parse_url : Text → Result Text UrlParts
  pub stamp : ℕ → Stamp
  pub date : ℕ → Text
  pub respond : ℕ → Request → Result Text Response
  pub run : ℕ → Text → List Text → RunOutcome
  pub read_error : ℕ → Option Text
  pub write_faults : ℕ → WriteFaults
  pub uid : ℕ
  pub gid : ℕ
  -- encoding/xml on the two listings: the names of the buckets, the keys of the objects.
  pub xml_bucket_names : Text → Result Text (List Text)
  pub xml_object_keys : Text → Result Text (List Text)

pub record World : Type 0 where
  pub clock : ℕ
  pub trace : List Event
  pub iam : Dir IamData
  pub blocked : Dir Text

abbrev pub M : Type 0 → Type 0
M A = World → Result Error A × World

abbrev pub pure : {A : Type 0} → A → M A
pure a w = (ok a, w)

abbrev pub fail : {A : Type 0} → Error → M A
fail e w = (err e, w)

-- `if err != nil { return err }`
abbrev pub resume : {A B : Type 0} → Result Error A → (A → M B) → M B
resume (ok a) f w = f a w
resume (err e) f w = (err e, w)

infixl 5 ◌>>=◌ ◌>>◌
abbrev pub ◌>>=◌ : {A B : Type 0} → M A → (A → M B) → M B
◌>>=◌ m f w = resume (m w).0 f (m w).1

abbrev pub ◌>>◌ : {B : Type 0} → M (Unit {0}) → M B → M B
m >> k = m >>= λ _. k

abbrev pub in_context : {A : Type 0} → Context → M A → M A
in_context c m w = (wrap_err (wrapped c) (m w).0, (m w).1)

abbrev pub lift : {A : Type 0} → Result Error A → M A
lift r w = (r, w)

module _ {F : Type 0} (cfg : S3Config F) (env : Env) where
  -- `m.client.Do`
  unfoldable pub send : Request → M Response
  send r w = (
    wrap_err foreign (env.respond w.clock r),
    record w { clock = w.clock + 1; trace = w.trace ++ sent r ∷ [] },
  )

  -- `http.NewRequestWithContext`, the header, the signature.
  unfoldable pub new_request : Text → Text → List (Text × Text) → Text → ℕ → Result Error Request
  unfolding sign
  new_request verb url headers body now = elim (env.parse_url url) [
    | err e ↦ err (wrapped building_request (foreign e))
    | ok u ↦ ok (
        sign env.crypto cfg.admin_access_key cfg.admin_secret_key cfg.s3_region u (env.stamp now)
          (record { verb = verb; url = url; host = u.host; headers = headers; body = body }))
  ]

  -- `doS3`
  unfoldable pub do_s3 : Text → Text → Text → M Response
  unfolding new_request send
  do_s3 verb url body w = (lift (new_request verb url [] body w.clock) >>= send) w

  -- `m.exec.Execute`, of which the manager uses the error alone.
  unfoldable pub execute_command : Text → List Text → M (Unit {0})
  unfolding execute
  execute_command command args w =
      let (out, entry) = execute command args (env.run w.clock command args) in
      (
        elim out.error [ none ↦ ok tt | some e ↦ err (exec_failed e) ],
        record w { clock = w.clock + 1; trace = w.trace ++ ran entry ∷ [] },
      )

  -- `reloadWeedS3`
  unfoldable pub reload_weed_s3 : M (Unit {0})
  unfolding execute_command
  reload_weed_s3 =
      in_context (restarting cfg.weed_s3_service)
        (execute_command (codes "systemctl") (codes "restart" ∷ cfg.weed_s3_service ∷ []))

  -- `reloadNginx`
  unfoldable pub reload_nginx : M (Unit {0})
  unfolding execute_command
  reload_nginx =
      in_context reloading_nginx
        (execute_command (codes "nginx") (codes "-s" ∷ codes "reload" ∷ []))

  -- What `os.ReadFile` gives: nothing for a file that does not exist.
  abbrev pub read_file : {A : Type 0} → Dir A → ℕ → Result Error (Option A)
  read_file d now = elim (env.read_error now) [
    | some e ↦ err (foreign e)
    | none ↦ elim d.target [ none ↦ ok none | some n ↦ ok (some n.content) ]
  ]

  abbrev parse_iam : Option IamData → Result Error IamFile
  parse_iam none = ok (record { identities = [] })
  parse_iam (some (json f)) = ok f
  parse_iam (some (malformed e)) = err (wrapped parsing_iam (foreign e))

  -- `readIAM`: a file that does not exist has no identities.
  unfoldable pub read_iam : M IamFile
  read_iam w = (
    elim (wrap_err (wrapped reading_iam) (read_file w.iam w.clock)) [
      | err e ↦ err e
      | ok d ↦ parse_iam d
    ],
    record w { clock = w.clock + 1 },
  )

  -- `writeIAM`
  unfoldable pub write_iam : IamFile → M (Unit {0})
  write_iam f w =
      let (r, d) = atomic_write env.uid env.gid (env.write_faults w.clock) (json f) 0o640 w.iam in
      (wrap_err write_failed r, record w { clock = w.clock + 1; iam = d })

  unfoldable pub write_blocked : Text → M (Unit {0})
  write_blocked t w =
      let (r, d) = atomic_write env.uid env.gid (env.write_faults w.clock) t 0o644 w.blocked in
      (wrap_err write_failed r, record w { clock = w.clock + 1; blocked = d })
