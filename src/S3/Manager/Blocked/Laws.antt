-- ===== src/S3/Manager/Blocked/Laws.antt =====
-- What blocking and unblocking leave in the include file.
use s3_agent.Prelude.{
  ℕ, zero, suc, ◌≡◌, refl, ◌≢◌, true, false, List, [], ◌∷◌, ◌++◌, append_assoc, Text, codes, arith,
  All, All-append,
}
use s3_agent.Strings.{has_prefix, contains, split, Lacks}
use s3_agent.Strings.Spaces.{trim_space, trim_space_plain, ascii_space}
use s3_agent.Strings.Search.{
  split_loop_at_sep, split_loop_last, split_loop-ne-nil, split-contains-false, join-split,
  join-append, contains-join, contains_middle,
}
use s3_agent.S3.Manager.Blocked.{
  newline, quoted, block_entry, comment_line, if_line, return_line, unblock_loop, unblocked,
}

-- The lines of an entry.
abbrev pub entry_lines : Text → Text → Text → List Text
entry_lines reason date key =
    comment_line reason date ∷ if_line key ∷ return_line ∷ codes "}" ∷ [] ∷ []

-- The texts that are written into an entry have no line feed.
pub record IsPlain (reason date key : Text) : Type 0 where
  pub reason_plain : Lacks newline reason
  pub date_plain : Lacks newline date
  pub key_plain : Lacks newline key

comment_line-Lacks :
    (reason date : Text)
    → Lacks newline reason
    → Lacks newline date
    → Lacks newline (comment_line reason date)
comment_line-Lacks reason date hr hd =
    All-append _ (codes "# ") (reason ++ (codes " (blocked " ++ (date ++ codes ")"))) (omega arith)
      (All-append _ reason (codes " (blocked " ++ (date ++ codes ")")) hr (
        All-append _ (codes " (blocked ") (date ++ codes ")") (omega arith)
          (All-append _ date (codes ")") hd (omega arith))))

if_line-Lacks : (key : Text) → Lacks newline key → Lacks newline (if_line key)
if_line-Lacks key h =
    All-append _ (codes "if ($http_authorization ~* \"") (key ++ codes "\") {") (omega arith)
      (All-append _ key (codes "\") {") h (omega arith))

pub split-block_entry :
    (text reason date key : Text)
    → IsPlain reason date key
    → split (text ++ block_entry reason date key) newline
      ≡ split text newline ++ entry_lines reason date key
unfolding split block_entry
split-block_entry text reason date key p = simp (
  split_loop_at_sep,
  split_loop_last newline [] (comment_line reason date)
      (comment_line-Lacks reason date p.reason_plain p.date_plain),
  split_loop_last newline [] (if_line key) (if_line-Lacks key p.key_plain),
)

-- Lines that do not name the key stay.
unblock_loop_kept :
    (key : Text) (ls : List Text) (l : Text) (rest : List Text)
    → All (λ m. contains m (quoted key) ≡ false) ls
    → contains l (quoted key) ≡ false
    → unblock_loop key (ls ++ l ∷ rest) 0 ≡ ls ++ unblock_loop key (l ∷ rest) 0
unfolding unblock_loop
unblock_loop_kept key [] l rest a h = refl
unblock_loop_kept key (m ∷ []) l rest (am, a) h = ground arith
unblock_loop_kept key (m ∷ n ∷ ls) l rest (am, (an, a)) h =
    ground (arith, unblock_loop_kept key (n ∷ ls) l rest (an, a) h)

comment_line_marked :
    (reason date : Text) → has_prefix (trim_space (comment_line reason date)) (codes "#") ≡ true
unfolding has_prefix ascii_space
comment_line_marked reason date = rw (trim_space_plain 35 _ (omega arith) refl) refl

if_line_named : (key : Text) → contains (if_line key) (quoted key) ≡ true
if_line_named key =
    rw append_assoc at
      (contains_middle (codes "if ($http_authorization ~* ") (quoted key) (codes ") {"))

unblock_loop_entry :
    (reason date key : Text) → unblock_loop key (entry_lines reason date key) 0 ≡ [] ∷ []
unfolding unblock_loop contains has_prefix
unblock_loop_entry reason date key =
    ground (arith, comment_line_marked reason date, if_line_named key)

split_fresh :
    (text key : Text)
    → contains text (quoted key) ≡ false
    → All (λ l. contains l (quoted key) ≡ false) (split text newline)
unfolding split
split_fresh text key h = split-contains-false newline [] text (quoted key) h

pub split-ne-nil : (text : Text) → split text newline ≢ []
unfolding split
split-ne-nil text = split_loop-ne-nil newline [] text

-- Blocking a key and then unblocking it leaves the file as it was, but for one line feed at its
-- end, if the reason, the date and the key have no line feed, the file did not hold the quoted key
-- and the comment does not.
pub unblocked-block_entry :
    (text reason date key : Text)
    → IsPlain reason date key
    → contains text (quoted key) ≡ false
    → contains (comment_line reason date) (quoted key) ≡ false
    → unblocked key (text ++ block_entry reason date key) ≡ text ++ newline ∷ []
unfolding unblocked
unblocked-block_entry text reason date key p fresh plain =
    let lines = split text newline in
    ground (
      arith,
      split-block_entry text reason date key p,
      unblock_loop_kept key lines (comment_line reason date)
          (if_line key ∷ return_line ∷ codes "}" ∷ [] ∷ []) (split_fresh text key fresh) plain,
      unblock_loop_entry reason date key,
      join-append lines [] (newline ∷ []) (split-ne-nil text),
      join-split newline text,
    )

unblock_loop-All :
    (key : Text) (ls : List Text) (skip : ℕ)
    → All (λ l. contains l (quoted key) ≡ false) (unblock_loop key ls skip)
unfolding unblock_loop
unblock_loop-All key [] skip = tt
unblock_loop-All key (l ∷ ls) (suc skip) = unblock_loop-All key ls skip
unblock_loop-All key (l ∷ ls) zero =
    ground (arith, unblock_loop-All key ls 3, unblock_loop-All key ls 2, unblock_loop-All key ls 0)

-- After an unblock of a key without a line feed the file does not hold the quoted key, whatever text
-- it held before.
pub unblocked-contains :
    (key text : Text) → Lacks newline key → contains (unblocked key text) (quoted key) ≡ false
unfolding unblocked
unblocked-contains key text h =
    contains-join newline (unblock_loop key (split text newline) 0) 34 (key ++ 34 ∷ [])
      (omega arith, All-append _ key (34 ∷ []) h (omega arith))
      (unblock_loop-All key (split text newline) 0)
