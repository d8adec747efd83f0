-- ===== src/S3/Manager/Blocked/Listed.antt =====
-- `ListBlocked` on what `BlockAccessKey` wrote.
use s3_agent.Prelude.{
  ◌+◌, ◌-◌, ◌<◌, ◌≡◌, refl, ap, ◌∙◌, sym, true, none, some, List, [], ◌∷◌, ◌++◌, append_assoc, Text,
  codes, length, take, drop, arith, All, map,
}
use s3_agent.Strings.{has_prefix, index_byte, last_index_byte, split}
use s3_agent.Strings.Spaces.{
  trim_space, trim_right_space, trim_space_plain, trim_left_space_plain, ascii_space, ends_in_brace,
}
use s3_agent.Strings.Search.{take-append}
use s3_agent.S3.Manager.Blocked.{
  newline, quote, block_entry, comment_line, if_line, if_prefix, return_line, keys_of_lines,
  scan_lines, blocked_keys, key_of_line, drop_return,
}
use s3_agent.S3.Manager.Blocked.Laws.{IsPlain, entry_lines, split-block_entry}

abbrev pub IsShort : Text → Type 0
IsShort l = length l < 65536

key_of_line-nil : key_of_line [] ≡ none
unfolding key_of_line has_prefix trim_space
key_of_line-nil = refl

keys_of_lines-append :
    (ls ms : List Text) → keys_of_lines (ls ++ ms) ≡ keys_of_lines ls ++ keys_of_lines ms
unfolding keys_of_lines
keys_of_lines-append [] ms = refl
keys_of_lines-append (l ∷ ls) ms = ground (arith, keys_of_lines-append ls ms)

-- Where all lines are short, the scanner leaves out at most an empty line.
keys-scan_lines :
    (ls : List Text)
    → All IsShort ls
    → keys_of_lines (scan_lines ls) ≡ keys_of_lines (map drop_return ls)
unfolding keys_of_lines scan_lines
keys-scan_lines [] a = refl
keys-scan_lines ([] ∷ []) (h, a) = ground (arith, key_of_line-nil)
keys-scan_lines ((c ∷ l) ∷ []) (h, a) = ground arith
keys-scan_lines (l ∷ m ∷ ls) (h, a) = ground (arith, keys-scan_lines (m ∷ ls) a)

scan_lines-append :
    (ls : List Text) (m : Text) (ms : List Text)
    → All IsShort ls
    → scan_lines (ls ++ m ∷ ms) ≡ map drop_return ls ++ scan_lines (m ∷ ms)
unfolding scan_lines
scan_lines-append [] m ms a = refl
scan_lines-append (l ∷ []) m ms (h, a) = ground arith
scan_lines-append (l ∷ k ∷ ls) m ms (h, a) = ground (arith, scan_lines-append (k ∷ ls) m ms a)

drop_return_brace : (s : Text) → drop_return (s ++ 123 ∷ []) ≡ s ++ 123 ∷ []
unfolding drop_return
drop_return_brace [] = refl
drop_return_brace (c ∷ []) = refl
drop_return_brace (c ∷ d ∷ s) = ground (arith, drop_return_brace (d ∷ s))

last_index_byte_end : (s : Text) → last_index_byte (s ++ codes "\") {") quote ≡ some (length s)
unfolding last_index_byte
last_index_byte_end [] = refl
last_index_byte_end (c ∷ s) = ground (arith, last_index_byte_end s)

if_line_split :
    (key : Text)
    → if_line key ≡ (codes "if ($http_authorization ~* \"" ++ (key ++ codes "\") ")) ++ 123 ∷ []
if_line_split key = sym (
    append_assoc (codes "if ($http_authorization ~* \"") (key ++ codes "\") ") (123 ∷ [])
    ∙ ground (arith, append_assoc key (codes "\") ") (123 ∷ [])))

abbrev opening : Text
opening = codes "if ($http_authorization ~* \""

abbrev closing : Text
closing = codes "\") {"

trim_space-if_line : (key : Text) → trim_space (if_line key) ≡ if_line key
unfolding trim_space ascii_space
trim_space-if_line key =
    ap trim_right_space (trim_left_space_plain 105 (drop 1 (if_line key)) (omega arith) refl)
    ∙ (ap trim_right_space (if_line_split key)
        ∙ (ends_in_brace (opening ++ (key ++ codes "\") ")) ∙ sym (if_line_split key)))

if_line-index : (key : Text) → index_byte (if_line key) quote ≡ some 27
unfolding index_byte
if_line-index key = refl

if_line-last_index : (key : Text) → last_index_byte (if_line key) quote ≡ some (length key + 28)
if_line-last_index key =
    rw (append_assoc opening key closing) at (last_index_byte_end (opening ++ key)) ∙ ground arith

if_line-has_prefix : (key : Text) → has_prefix (if_line key) if_prefix ≡ true
unfolding has_prefix
if_line-has_prefix key = refl

if_line-between : (key : Text) → take (length key + 28 - 28) (drop 28 (if_line key)) ≡ key
if_line-between key =
    let e : length key + 28 - 28 ≡ length key = omega arith in rw e (take-append key closing)

key_of_line-if_line : (key : Text) → key_of_line (if_line key) ≡ some key
unfolding key_of_line
key_of_line-if_line key = ground (
  arith,
  trim_space-if_line key,
  if_line-index key,
  if_line-last_index key,
  if_line-has_prefix key,
  if_line-between key,
)

drop_return-if_line : (key : Text) → drop_return (if_line key) ≡ if_line key
drop_return-if_line key =
    ap drop_return (if_line_split key)
    ∙ (drop_return_brace (opening ++ (key ++ codes "\") ")) ∙ sym (if_line_split key))

key_of_line_comment :
    (reason date : Text) → key_of_line (drop_return (comment_line reason date)) ≡ none
unfolding key_of_line drop_return has_prefix ascii_space
key_of_line_comment reason date = rw (trim_space_plain 35 _ (omega arith) refl) refl

-- The keys of an entry: the one that it blocks.
keys_of_entry :
    (reason date key : Text)
    → length (comment_line reason date) < 65536
    → length (if_line key) < 65536
    → keys_of_lines (scan_lines (entry_lines reason date key)) ≡ key ∷ []
unfolding keys_of_lines scan_lines key_of_line has_prefix trim_space ascii_space
keys_of_entry reason date key h k = ground (
  arith,
  key_of_line_comment reason date,
  key_of_line-if_line key,
  drop_return-if_line key,
  key_of_line-nil,
)

-- `ListBlocked` shows, behind the keys that it showed before, the key that was blocked last, if
-- the reason, the date and the key have no line feed and every line, old and new, is shorter than
-- the 64 KiB at which the scanner stops.
pub blocked_keys-block_entry :
    (text reason date key : Text)
    → IsPlain reason date key
    → All IsShort (split text newline)
    → length (comment_line reason date) < 65536
    → length (if_line key) < 65536
    → blocked_keys (text ++ block_entry reason date key) ≡ blocked_keys text ++ key ∷ []
unfolding blocked_keys
blocked_keys-block_entry text reason date key p short h k =
    let lines = split text newline in
    ground (
      arith,
      split-block_entry text reason date key p,
      scan_lines-append lines (comment_line reason date)
          (if_line key ∷ return_line ∷ codes "}" ∷ [] ∷ []) short,
      keys_of_lines-append (map drop_return lines) (scan_lines (entry_lines reason date key)),
      keys-scan_lines lines short,
      keys_of_entry reason date key h k,
    )
