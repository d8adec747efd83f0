-- ===== src/S3/Manager/Blocked.antt =====
-- The include file of Nginx that blocks access keys: `ListBlocked`, `BlockAccessKey` and
-- `UnblockAccessKey` of internal/modules/s3/manager.go.
pub mod Laws
pub mod Listed
use s3_agent.Prelude.{
  ℕ, zero, suc, ◌-◌, ◌+◌, ◌≡◌, refl, Bool, true, false, ◌&&◌, Option, none, some, List, [], ◌∷◌,
  ◌++◌, ◌==◌, Text, codes, if◌then◌else◌, is_nil, ltb, length, take, drop, Result, ok, err,
}
use s3_agent.Strings.{has_prefix, contains, index_byte, last_index_byte, split, join}
use s3_agent.Strings.Spaces.{trim_space}
use s3_agent.Config.{S3Config}
use s3_agent.S3.Manager.Base.{
  Env, World, Error, M, pure, fail, ◌>>=◌, ◌>>◌, in_context, read_file, write_blocked, reload_nginx,
  reading_blocked, access_key_required,
}

abbrev pub newline : ℕ
newline = 10

abbrev pub quote : ℕ
quote = 34

abbrev pub quoted : Text → Text
quoted key = quote ∷ (key ++ quote ∷ [])

-- `bufio.ScanLines` drops the carriage return at the end of a line.
unfoldable pub drop_return : Text → Text
drop_return [] = []
drop_return (c ∷ []) = if c == 13 then [] else c ∷ []
drop_return (c ∷ d ∷ s) = c ∷ drop_return (d ∷ s)

-- The lines that a `bufio.Scanner` gives: it stops at a line of 64 KiB, and the empty text behind
-- the last line feed is no line.
unfoldable pub scan_lines : List Text → List Text
unfolding drop_return
scan_lines [] = []
scan_lines (l ∷ []) =
    if is_nil l then [] else if ltb (length l) 65536 then drop_return l ∷ [] else []
scan_lines (l ∷ m ∷ ls) =
    let rest = scan_lines (m ∷ ls) in if ltb (length l) 65536 then drop_return l ∷ rest else []

abbrev pub if_prefix : Text
if_prefix = codes "if ($http_authorization ~*"

-- The text between the first and the last quote.
between : Text → Option ℕ → Option ℕ → Option Text
between line (some start) (some end) =
    if ltb start end then some (take (end - (start + 1)) (drop (start + 1) line)) else none
between line start end = none

-- The key that a line blocks.
unfoldable pub key_of_line : Text → Option Text
unfolding between
key_of_line line =
    let l = trim_space line in
    if has_prefix l if_prefix
    then between l (index_byte l quote) (last_index_byte l quote)
    else none

unfoldable pub keys_of_lines : List Text → List Text
unfolding key_of_line
keys_of_lines [] = []
keys_of_lines (l ∷ ls) = elim (key_of_line l) [
  | none ↦ keys_of_lines ls
  | some k ↦ k ∷ keys_of_lines ls
]

-- The keys that the file blocks.
unfoldable pub blocked_keys : Text → List Text
unfolding keys_of_lines scan_lines
blocked_keys text = keys_of_lines (scan_lines (split text newline))

-- The lines that `BlockAccessKey` appends.
abbrev pub comment_line : Text → Text → Text
comment_line reason date = codes "# " ++ (reason ++ (codes " (blocked " ++ (date ++ codes ")")))

abbrev pub if_line : Text → Text
if_line key = codes "if ($http_authorization ~* \"" ++ (key ++ codes "\") {")

abbrev pub return_line : Text
return_line = codes "    return 403 \"Storage quota exceeded. Please contact support.\";"

unfoldable pub block_entry : Text → Text → Text → Text
block_entry reason date key =
    newline
    ∷ (comment_line reason date
        ++ newline
          ∷ (if_line key ++ newline ∷ (return_line ++ newline ∷ (codes "}" ++ newline ∷ []))))

-- Does the next line name the key?
abbrev next_names : Text → List Text → Bool
next_names key [] = false
next_names key (l ∷ ls) = contains l (quoted key)

-- The loop of `UnblockAccessKey`; `skip` lines are still to be left out.
unfoldable pub unblock_loop : Text → List Text → ℕ → List Text
unfolding contains trim_space
unblock_loop key [] skip = []
unblock_loop key (l ∷ ls) (suc skip) = unblock_loop key ls skip
unblock_loop key (l ∷ ls) zero =
    let after_comment = unblock_loop key ls 3 in
    let after_if = unblock_loop key ls 2 in
    let kept = l ∷ unblock_loop key ls 0 in
    if has_prefix (trim_space l) (codes "#") && next_names key ls
    then after_comment
    else if contains l (quoted key)
    then after_if
    else kept

unfoldable pub unblocked : Text → Text → Text
unfolding unblock_loop
unblocked key text = join (unblock_loop key (split text newline) 0) (newline ∷ [])

module _ {F : Type 0} (cfg : S3Config F) (env : Env) where
  -- `os.ReadFile`; `none` where the file does not exist.
  unfoldable pub read_blocked : M (Option Text)
  read_blocked w = (read_file cfg env w.blocked w.clock, record w { clock = w.clock + 1 })

  abbrev listed : Option Text → List Text
  listed none = []
  listed (some text) = blocked_keys text

  -- `ListBlocked`
  unfoldable pub list_blocked : M (List Text)
  unfolding read_blocked
  list_blocked = do text ← in_context reading_blocked read_blocked; pure (listed text)

  abbrev or_empty : Option Text → Text
  or_empty none = []
  or_empty (some text) = text

  -- The part of `BlockAccessKey` behind the read.
  unfoldable pub add_block : Text → Text → Text → M (Unit {0})
  add_block key reason text w =
      (if contains text (quoted key) then pure tt else do
        write_blocked cfg env (text ++ block_entry reason (env.date w.clock) key)
        reload_nginx cfg env)
        w

  -- `BlockAccessKey`
  unfoldable pub block_access_key : Text → Text → M (Unit {0})
  unfolding read_blocked add_block
  block_access_key key reason =
      if is_nil key
      then fail access_key_required
      else do text ← in_context reading_blocked read_blocked; add_block key reason (or_empty text)

  abbrev remove_block : Text → Option Text → M (Unit {0})
  remove_block key none = pure tt
  remove_block key (some text) = do write_blocked cfg env (unblocked key text); reload_nginx cfg env

  -- `UnblockAccessKey`
  unfoldable pub unblock_access_key : Text → M (Unit {0})
  unfolding read_blocked
  unblock_access_key key =
      if is_nil key
      then fail access_key_required
      else do text ← in_context reading_blocked read_blocked; remove_block key text
