-- ===== src/Strings/Search.antt =====
-- Laws of the searches: where a byte is found, what a split gives back.
use s3_agent.Prelude.{
  ℕ, ◌≡◌, refl, sym, true, false, ◌||◌, none, some, List, [], ◌∷◌, ◌++◌, append-nil, append_assoc,
  arith, Text, length, take, All, ◌≢◌,
}
use s3_agent.Strings.{has_prefix, contains, index_byte, split_loop, split, join, Lacks}

pub has_prefix-append : (p s : Text) → has_prefix (p ++ s) p ≡ true
unfolding has_prefix
has_prefix-append [] s = unfold has_prefix in refl
has_prefix-append (c ∷ p) s = ground (arith, has_prefix-append p s)

pub index_byte-append :
    (b : ℕ) (s r : Text) → Lacks b s → index_byte (s ++ b ∷ r) b ≡ some (length s)
unfolding index_byte
index_byte-append b [] r h = ground arith
index_byte-append b (c ∷ s) r (hc, hs) = ground (arith, index_byte-append b s r hs)

pub index_byte-none : (b : ℕ) (s : Text) → Lacks b s → index_byte s b ≡ none
unfolding index_byte
index_byte-none b [] h = refl
index_byte-none b (c ∷ s) (hc, hs) = ground (arith, index_byte-none b s hs)

pub take-append : (s r : Text) → take (length s) (s ++ r) ≡ s
take-append [] r = refl
take-append (c ∷ s) r = ground (arith, take-append s r)

pub split_loop-append :
    (b : ℕ) (cur s r : Text) → Lacks b s → split_loop cur (s ++ r) b ≡ split_loop (cur ++ s) r b
unfolding split_loop
split_loop-append b cur [] r h = ground (arith, append-nil cur)
split_loop-append b cur (c ∷ s) r (hc, hs) =
    ground (arith, split_loop-append b (cur ++ c ∷ []) s r hs, append_assoc cur (c ∷ []) s)

pub has_prefix-append_left : (s r p : Text) → has_prefix s p ≡ true → has_prefix (s ++ r) p ≡ true
unfolding has_prefix
has_prefix-append_left s r [] h = ground arith
has_prefix-append_left [] r (x ∷ p) h = cc
has_prefix-append_left (c ∷ s) r (x ∷ p) h = ground (arith, has_prefix-append_left s r p)

pub contains-append_left : (s r p : Text) → contains s p ≡ true → contains (s ++ r) p ≡ true
unfolding contains has_prefix
contains-append_left [] [] p h = h
contains-append_left [] (c ∷ r) [] h = ground arith
contains-append_left [] (c ∷ r) (x ∷ p) h = cc
contains-append_left (c ∷ s) r p h =
    ground (arith, has_prefix-append_left (c ∷ s) r p, contains-append_left s r p)

pub contains-append_right : (s r p : Text) → contains r p ≡ true → contains (s ++ r) p ≡ true
unfolding contains
contains-append_right [] r p h = h
contains-append_right (c ∷ s) r p h = ground (arith, contains-append_right s r p h)

-- The text is found where it stands.
pub contains_middle : (s p r : Text) → contains (s ++ (p ++ r)) p ≡ true
unfolding contains
contains_middle s p r =
    contains-append_right s (p ++ r) p (contains-append_left p r p (contains_self p))
  where
    contains_self : (p : Text) → contains p p ≡ true
    contains_self [] = unfold contains has_prefix in refl
    contains_self (c ∷ p) = ground (arith, has_prefix-append (c ∷ p) [], append-nil (c ∷ p))

-- No part of a text holds what the text does not hold.
pub split-contains-false :
    (b : ℕ) (cur s p : Text)
    → contains (cur ++ s) p ≡ false
    → All (λ l. contains l p ≡ false) (split_loop cur s b)
unfolding split_loop
split-contains-false b cur [] p h = ground (arith, append-nil cur)
split-contains-false b cur (c ∷ s) p h = ground (
  arith,
  split-contains-false b (cur ++ c ∷ []) s p,
  split-contains-false b [] s p,
  append_assoc cur (c ∷ []) s,
  contains-append_left cur (c ∷ s) p,
  contains-append_right (cur ++ c ∷ []) s p,
)

-- A separator ends the parts of the text before it.
pub split_loop_at_sep :
    (b : ℕ) (cur s r : Text)
    → split_loop cur (s ++ b ∷ r) b ≡ split_loop cur s b ++ split_loop [] r b
unfolding split_loop
split_loop_at_sep b cur [] r = ground arith
split_loop_at_sep b cur (c ∷ s) r =
    ground (arith, split_loop_at_sep b [] s r, split_loop_at_sep b (cur ++ c ∷ []) s r)

pub split_loop_last : (b : ℕ) (cur s : Text) → Lacks b s → split_loop cur s b ≡ (cur ++ s) ∷ []
unfolding split_loop
split_loop_last b cur [] h = ground (arith, append-nil cur)
split_loop_last b cur (c ∷ s) (hc, hs) =
    ground (arith, split_loop_last b (cur ++ c ∷ []) s hs, append_assoc cur (c ∷ []) s)

pub split_loop-ne-nil : (b : ℕ) (cur s : Text) → split_loop cur s b ≢ []
unfolding split_loop
split_loop-ne-nil b cur [] = λ e. cc
split_loop-ne-nil b cur (c ∷ s) = ground (arith, split_loop-ne-nil b (cur ++ c ∷ []) s)

join_cons :
    (p : Text) (ps : List Text) (sep : Text)
    → ps ≢ []
    → join (p ∷ ps) sep ≡ p ++ (sep ++ join ps sep)
unfolding join
join_cons p [] sep h = absurd (h refl)
join_cons p (q ∷ ps) sep h = append_assoc p sep (join (q ∷ ps) sep)

join-split_loop : (b : ℕ) (cur s : Text) → join (split_loop cur s b) (b ∷ []) ≡ cur ++ s
unfolding split_loop
join-split_loop b cur [] = unfold join in sym (append-nil cur)
join-split_loop b cur (c ∷ s) = ground (
  arith,
  join_cons cur (split_loop [] s b) (b ∷ []) (split_loop-ne-nil b [] s),
  join-split_loop b [] s,
  join-split_loop b (cur ++ c ∷ []) s,
  append_assoc cur (c ∷ []) s,
)

-- Joining the parts of a split gives the text back.
pub join-split : (b : ℕ) (s : Text) → join (split s b) (b ∷ []) ≡ s
unfolding split
join-split b s = join-split_loop b [] s

pub join-append :
    (ps : List Text) (q sep : Text) → ps ≢ [] → join (ps ++ q ∷ []) sep ≡ join ps sep ++ (sep ++ q)
unfolding join
join-append [] q sep h = absurd (h refl)
join-append (p ∷ []) q sep h = append_assoc p sep q
join-append (p ∷ r ∷ ps) q sep h = ground (
  arith,
  join-append (r ∷ ps) q sep (λ e. cc),
  append_assoc (p ++ sep) (join (r ∷ ps) sep) (sep ++ q),
)

has_prefix_at_sep : (b : ℕ) (s r p : Text) → Lacks b p → has_prefix (s ++ b ∷ r) p ≡ has_prefix s p
unfolding has_prefix
has_prefix_at_sep b s r [] h = ground arith
has_prefix_at_sep b [] r (x ∷ p) (hx, hp) = ground arith
has_prefix_at_sep b (c ∷ s) r (x ∷ p) (hx, hp) = ground (arith, has_prefix_at_sep b s r p hp)

-- What has no separator in it does not reach over a separator.
pub contains_at_sep :
    (b : ℕ) (s r : Text) (x : ℕ) (p : Text)
    → Lacks b (x ∷ p)
    → contains (s ++ b ∷ r) (x ∷ p) ≡ (contains s (x ∷ p) || contains r (x ∷ p))
unfolding contains
contains_at_sep b [] r x p h = ground (arith, has_prefix_at_sep b [] r (x ∷ p) h)
contains_at_sep b (c ∷ s) r x p h =
    ground (arith, has_prefix_at_sep b (c ∷ s) r (x ∷ p) h, contains_at_sep b s r x p h)

pub contains-join :
    (b : ℕ) (ps : List Text) (x : ℕ) (p : Text)
    → Lacks b (x ∷ p)
    → All (λ l. contains l (x ∷ p) ≡ false) ps
    → contains (join ps (b ∷ [])) (x ∷ p) ≡ false
unfolding join
contains-join b [] x p h a = unfold contains has_prefix in refl
contains-join b (l ∷ []) x p h (al, _) = al
contains-join b (l ∷ m ∷ ps) x p h (al, a) = ground (
  arith,
  append_assoc l (b ∷ []) (join (m ∷ ps) (b ∷ [])),
  contains_at_sep b l (join (m ∷ ps) (b ∷ [])) x p h,
  contains-join b (m ∷ ps) x p h a,
)
