-- ===== src/S3/Observer/Tail.antt =====
-- The part that `flush` and `readNewLines` of observer.go share: a log file is read from the offset
-- to its end. The file is what the system gives: its bytes, or none if it cannot be opened.
pub mod Laws
use s3_agent.Prelude.{
  ℕ, ◌+◌, ◌≡◌, refl, Bool, true, false, Option, none, some, List, [], ◌∷◌, ltb, if◌then◌else◌, Text,
  length, drop, is_nil, codes,
}
use s3_agent.Strings.{split, trim_right}

-- Which calls fail, in the order of the code.
pub record LogFile : Type 0 where
  pub bytes : Text
  pub stat_fails : Bool
  pub seek_fails : Bool
  pub read_fails : Bool

-- A file that is smaller than the offset was rotated.
abbrev pub rewind : LogFile → ℕ → ℕ
rewind f offset = if f.stat_fails then offset else if ltb (length f.bytes) offset then 0 else offset

-- The new bytes, none if there are none, and the next offset.
unfoldable pub read_new : Option LogFile → ℕ → Text × ℕ
read_new none offset = ([], offset)
read_new (some f) offset =
    let start = rewind f offset in
    let new = drop start f.bytes in
    if f.seek_fails
    then ([], start)
    else if f.read_fails
    then ([], start)
    else (new, start + length new)

-- `strings.Split(strings.TrimRight(string(data), "\n"), "\n")`
unfoldable pub lines_of : Text → List Text
lines_of new = split (trim_right new 10) 10
