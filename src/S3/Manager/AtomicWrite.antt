-- ===== src/S3/Manager/AtomicWrite.antt =====
-- `atomicWrite` of internal/modules/s3/manager.go, over a directory that holds the file and the
-- temporary file. Which system calls fail is a parameter.
use s3_agent.Prelude.{
  ℕ, ◌≡◌, ◌⊎◌, Bool, true, false, Option, none, some, if◌then◌else◌, arith, Result, ok, err, is_ok,
}

pub record Node (A : Type 0) : Type 0 where
  pub content : A
  pub uid : ℕ
  pub gid : ℕ
  pub mode : ℕ

pub record Dir (A : Type 0) : Type 0 where
  pub target : Option (Node A)
  -- The temporary file; it has no content before the write.
  pub temp : Option (Node (Option A))

-- True where the call fails. `stat` stands for `os.Stat` on a file that is there.
pub record WriteFaults : Type 0 where
  pub create_temp : Bool
  pub chmod : Bool
  pub stat : Bool
  pub lchown : Bool
  pub write : Bool
  pub close : Bool
  pub rename : Bool
  pub remove : Bool

pub data WriteError : Type 0 where
  creating_temp chmod_temp writing_temp closing_temp renaming_temp : WriteError

module _ {A : Type 0} where
  -- The deferred removal of the temporary file.
  cleanup : WriteFaults → Dir A → Dir A
  cleanup f d = if f.remove then d else record d { temp = none }

  -- The owner of the file that is there, if it can be read and given.
  chown_like : WriteFaults → Option (Node A) → Node (Option A) → Node (Option A)
  chown_like f none n = n
  chown_like f (some old) n =
      if f.stat then n else if f.lchown then n else record n { uid = old.uid; gid = old.gid }

  -- `uid` and `gid` are those of the agent.
  unfoldable pub atomic_write :
      ℕ → ℕ → WriteFaults → A → ℕ → Dir A → Result WriteError (Unit {0}) × Dir A
  unfolding cleanup chown_like
  atomic_write uid gid f content perm d =
      let made : Node (Option A) = record { content = none; uid = uid; gid = gid; mode = perm } in
      let owned = chown_like f d.target made in
      if f.create_temp
      then (err creating_temp, d)
      else if f.chmod
      then (err chmod_temp, cleanup f (record d { temp = some (record made { mode = 0o600 }) }))
      else if f.write
      then (err writing_temp, cleanup f (record d { temp = some owned }))
      else if f.close
      then (
        err closing_temp,
        cleanup f (record d { temp = some (record owned { content = some content }) }),
      )
      else if f.rename
      then (
        err renaming_temp,
        cleanup f (record d { temp = some (record owned { content = some content }) }),
      )
      else (
        ok tt,
        record {
          target =
              some
                (record { content = content; uid = owned.uid; gid = owned.gid; mode = owned.mode });
          temp = none;
        },
      )

  -- The owner that a replacement of the file should have.
  abbrev pub kept : WriteFaults → Option (Node A) → (Node A → ℕ) → ℕ → ℕ
  kept f none field own = own
  kept f (some old) field own = if f.stat then own else if f.lchown then own else field old

  -- A reader of the path sees the old file or the new one, whole: after an error the file is the
  -- one that was there; after a success it holds the new content under the given mode, with the
  -- owner and group of the file that it replaces unless these could not be read or given. The
  -- temporary file is gone after every run in which the directory began without one, unless its
  -- removal fails after an error.
  pub atomic_write_atomic :
      (uid gid : ℕ) (f : WriteFaults) (content : A) (perm : ℕ) (t : Option (Node A))
      → let d : Dir A = record { target = t; temp = none } in
        let result = atomic_write uid gid f content perm d in
        (result.1.target ≡ (
          if is_ok result.0
          then some (record {
            content = content;
            uid = kept f t (λ n. n.uid) uid;
            gid = kept f t (λ n. n.gid) gid;
            mode = perm;
          })
          else t))
        × ((result.1.temp ≡ none) ⊎ ((f.remove ≡ true) × (is_ok result.0 ≡ false)))
  unfolding atomic_write
  atomic_write_atomic uid gid f content perm none = (ground arith, ground arith)
  atomic_write_atomic uid gid f content perm (some old) = (ground arith, ground arith)
