-- ===== src/S3/Observer/Traffic/Pieces.antt =====
-- A log that is read in pieces.
use s3_agent.Prelude.{
  ℕ, length-append, ◌≡◌, refl, sym, ap, ◌∙◌, true, some, List, [], ◌∷◌, ◌++◌, append_assoc,
  if◌then◌else◌, Text, is_nil, length, arith,
}
use s3_agent.Prelude.Int.{ℤ, pos, add64, IsInt64, add64_assoc, add64-IsInt64, add64_zero_right}
use s3_agent.Strings.{split, split_loop, trim_right}
use s3_agent.Strings.Search.{split_loop_at_sep}
use s3_agent.S3.Observer.Tail.{lines_of}
use s3_agent.S3.Observer.Tail.Laws.{intact, read_new-append}
use s3_agent.S3.Observer.Traffic.{parse_traffic_line, flush, collect}
use s3_agent.S3.Observer.Traffic.Laws.{Counter, amount, reported, counted, total, reported-collect}

blank_line : is_nil (parse_traffic_line []).bucket ≡ true
unfolding parse_traffic_line s3_agent.Strings.Spaces.fields
blank_line = refl

-- A text of lines.
unfoldable pub joined : List Text → Text
joined [] = []
joined (x ∷ xs) = x ++ 10 ∷ joined xs

module _ (c : Counter) (b : Text) where
  total_blank : (ls : List Text) (v : ℤ) → total c b ([] ∷ ls) v ≡ total c b ls v
  unfolding total
  total_blank ls v = rw blank_line refl

  total-append :
      (xs ys : List Text) (v : ℤ) → total c b (xs ++ ys) v ≡ total c b ys (total c b xs v)
  unfolding total
  total-append [] ys v = refl
  total-append (l ∷ xs) ys v = total-append xs ys (counted c b l v)

  -- Line feeds at the end change no sum.
  total-trim_right :
      (cur s : Text) (v : ℤ)
      → total c b (split_loop cur (trim_right s 10) 10) v ≡ total c b (split_loop cur s 10) v
  unfolding trim_right split_loop total
  total-trim_right cur [] v = refl
  total-trim_right cur (x ∷ s) v = ground (
    arith,
    total-trim_right [] s (counted c b cur v),
    total-trim_right (cur ++ x ∷ []) s v,
    total_blank [] (counted c b cur v),
  )

  zero-IsInt64 : IsInt64 (pos 0)
  zero-IsInt64 = omega arith

  counted-IsInt64 : (l : Text) (v : ℤ) → IsInt64 v → IsInt64 (counted c b l v)
  counted-IsInt64 l v h = ground (arith, h, add64-IsInt64 v (amount c (parse_traffic_line l)))

  counted_from : (l : Text) (v : ℤ) → IsInt64 v → counted c b l v ≡ add64 v (counted c b l (pos 0))
  counted_from l v h =
      let a = amount c (parse_traffic_line l) in
      ground (arith, h, add64_zero_right v h, add64_assoc v (pos 0) a)

  total-IsInt64 : (ls : List Text) (v : ℤ) → IsInt64 v → IsInt64 (total c b ls v)
  unfolding total
  total-IsInt64 [] v h = h
  total-IsInt64 (l ∷ ls) v h = total-IsInt64 ls (counted c b l v) (counted-IsInt64 l v h)

  total_from :
      (ls : List Text) (v : ℤ) → IsInt64 v → total c b ls v ≡ add64 v (total c b ls (pos 0))
  unfolding total
  total_from [] v h = sym (add64_zero_right v h)
  total_from (l ∷ ls) v h =
      let z = counted c b l (pos 0) in
      let t = total c b ls (pos 0) in
      total_from ls (counted c b l v) (counted-IsInt64 l v h)
      ∙ (ap (λ x. add64 x t) (counted_from l v h)
          ∙ (add64_assoc v z t
              ∙ ap (add64 v) (sym (total_from ls z (counted-IsInt64 l (pos 0) zero-IsInt64)))))

  -- What is reported for a bucket over the bytes that were read.
  reported-lines_of :
      (bytes : Text)
      → reported c b (if is_nil bytes then [] else collect (lines_of bytes) [])
        ≡ total c b (split bytes 10) (pos 0)
  unfolding lines_of split split_loop reported total
  reported-lines_of [] = sym (total_blank [] (pos 0))
  reported-lines_of (x ∷ bytes) =
      reported-collect c b (lines_of (x ∷ bytes)) [] ∙ total-trim_right [] (x ∷ bytes) (pos 0)

  reported-flush :
      (old new : Text)
      → reported c b (flush (some (intact (old ++ new))) (length old)).0
        ≡ total c b (split new 10) (pos 0)
  unfolding flush
  reported-flush old new =
      ap (λ r. reported c b (if is_nil r.0 then [] else collect (lines_of r.0) []))
        (read_new-append old new)
      ∙ reported-lines_of new

  flush_end : (bytes : Text) → (flush (some (intact bytes)) 0).1 ≡ length bytes
  unfolding flush
  flush_end bytes = ap (λ r. r.1) (read_new-append [] bytes) ∙ omega arith

  total-split :
      (old new : Text)
      → total c b (split (old ++ 10 ∷ new) 10) (pos 0)
        ≡ total c b (split new 10) (total c b (split old 10) (pos 0))
  unfolding split
  total-split old new =
      ap (λ ls. total c b ls (pos 0)) (split_loop_at_sep 10 [] old new)
      ∙ total-append (split old 10) (split new 10) (pos 0)

  total_blank_text : (v : ℤ) → total c b (split [] 10) v ≡ v
  unfolding split split_loop total
  total_blank_text v = total_blank [] v

  -- Where no call on the file fails: when the traffic of a log that ends in a line feed is flushed,
  -- and later that of what was appended, then the two values that are reported for a counter of a
  -- bucket add up to the one that a single flush of the whole log would report.
  pub flush_pieces :
      (old new : Text)
      → let first = flush (some (intact (old ++ 10 ∷ []))) 0 in
        let log = some (intact (old ++ 10 ∷ new)) in
        add64 (reported c b first.0) (reported c b (flush log first.1).0)
        ≡ reported c b (flush log 0).0
  flush_pieces old new =
      let start = old ++ 10 ∷ [] in
      let log = old ++ 10 ∷ new in
      let value = total c b (split old 10) (pos 0) in
      let one : reported c b (flush (some (intact start)) 0).0 ≡ value =
        reported-flush [] start ∙ (total-split old [] ∙ total_blank_text value) in
      let two : reported c b (flush (some (intact log)) (flush (some (intact start)) 0).1).0
          ≡ total c b (split new 10) (pos 0) =
        ap (λ n. reported c b (flush (some (intact log)) n).0) (flush_end start)
        ∙ (ap (λ t. reported c b (flush (some (intact t)) (length start)).0)
              (sym (append_assoc old (10 ∷ []) new))
            ∙ reported-flush start new) in
      let whole : reported c b (flush (some (intact log)) 0).0 ≡ total c b (split new 10) value =
        reported-flush [] log ∙ total-split old new in
      let sum =
        total_from (split new 10) value (total-IsInt64 (split old 10) (pos 0) zero-IsInt64) in
      cc

  -- A log that grows by lines, and is flushed after each of its pieces from the offset that the flush
  -- before has left: the sum of what is reported.
  unfoldable pub flush_run : (log : Text) (offset : ℕ) → List Text → ℤ
  flush_run log offset [] = pos 0
  flush_run log offset (x ∷ xs) =
      let grown = log ++ (x ++ 10 ∷ []) in
      let (stats, next) = flush (some (intact grown)) offset in
      add64 (reported c b stats) (flush_run grown next xs)

  flush_next :
      (old new : Text) → (flush (some (intact (old ++ new))) (length old)).1 ≡ length (old ++ new)
  unfolding flush
  flush_next old new = ap (λ r. r.1) (read_new-append old new) ∙ sym (length-append old new)

  flush_run-total :
      (log : Text) (xs : List Text)
      → flush_run log (length log) xs ≡ total c b (split (joined xs) 10) (pos 0)
  unfolding flush_run joined
  flush_run-total log [] = sym (total_blank_text (pos 0))
  flush_run-total log (x ∷ xs) =
      let piece = x ++ 10 ∷ [] in
      let grown = log ++ piece in
      let value = total c b (split x 10) (pos 0) in
      let one : reported c b (flush (some (intact grown)) (length log)).0 ≡ value =
        reported-flush log piece ∙ (total-split x [] ∙ total_blank_text value) in
      let rest : flush_run grown (flush (some (intact grown)) (length log)).1 xs
          ≡ total c b (split (joined xs) 10) (pos 0) =
        ap (λ n. flush_run grown n xs) (flush_next log piece) ∙ flush_run-total grown xs in
      let whole = total-split x (joined xs) in
      let sum =
        total_from (split (joined xs) 10) value (total-IsInt64 (split x 10) (pos 0) zero-IsInt64) in
      cc

  -- Where no call on the file fails: over any number of flushes of a log that grows by whole lines,
  -- the values that are reported for a counter of a bucket add up to the one that a single flush of
  -- the whole log would report: no line is lost and none is counted twice.
  pub flush_run-flush :
      (xs : List Text) → flush_run [] 0 xs ≡ reported c b (flush (some (intact (joined xs))) 0).0
  flush_run-flush xs = flush_run-total [] xs ∙ sym (reported-flush [] (joined xs))
