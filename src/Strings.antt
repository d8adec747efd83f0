-- ===== src/Strings.antt =====
-- What the agent uses of Go's `strings`, `strconv` and `fmt`, over lists of bytes.
pub mod Spaces
pub mod Numbers
pub mod Search
use s3_agent.Prelude.{
  ℕ, zero, suc, ◌+◌, ◌-◌, ◌≟◌, leb, ◌≡◌, refl, ap, ◌∙◌, Bool, true, false, ◌&&◌, ◌||◌, Option, none,
  some, List, [], ◌∷◌, ◌++◌, append-nil, append_assoc, arith, ◌==◌, if◌then◌else◌, Text, length,
  take, drop, All, is_nil, Bool-cases, inl, inr, ◌≢◌,
}

-- `strings.HasPrefix`
unfoldable pub has_prefix : Text → Text → Bool
has_prefix s [] = true
has_prefix [] (p ∷ ps) = false
has_prefix (c ∷ s) (p ∷ ps) = c == p && has_prefix s ps

-- `strings.TrimPrefix`
unfoldable pub trim_prefix : Text → Text → Text
unfolding has_prefix
trim_prefix s p = if has_prefix s p then drop (length p) s else s

-- `strings.HasSuffix`
unfoldable pub has_suffix : Text → Text → Bool
has_suffix s p = leb (length p) (length s) && drop (length s - length p) s ≟ p

-- `strings.Contains`
unfoldable pub contains : Text → Text → Bool
unfolding has_prefix
contains [] sub = has_prefix [] sub
contains (c ∷ s) sub = has_prefix (c ∷ s) sub || contains s sub

-- `strings.Index`; `none` is -1.
unfoldable pub index : Text → Text → Option ℕ
unfolding has_prefix
index [] sub = if has_prefix [] sub then some 0 else none
index (c ∷ s) sub =
    if has_prefix (c ∷ s) sub
    then some 0
    else elim (index s sub) [ none ↦ none | some i ↦ some (suc i) ]

-- `strings.IndexByte`
unfoldable pub index_byte : Text → ℕ → Option ℕ
index_byte [] b = none
index_byte (c ∷ s) b =
    if c == b then some 0 else elim (index_byte s b) [ none ↦ none | some i ↦ some (suc i) ]

-- `strings.LastIndex` of one byte.
unfoldable pub last_index_byte : Text → ℕ → Option ℕ
last_index_byte [] b = none
last_index_byte (c ∷ s) b = elim (last_index_byte s b) [
  | none ↦ (if c == b then some 0 else none)
  | some i ↦ some (suc i)
]

-- `strings.Split` by one byte: there is always a part.
unfoldable pub split_loop : Text → Text → ℕ → List Text
split_loop cur [] sep = cur ∷ []
split_loop cur (c ∷ s) sep = elim (c == sep) [
  | true ↦ cur ∷ split_loop [] s sep
  | false ↦ split_loop (cur ++ c ∷ []) s sep
]

unfoldable pub split : Text → ℕ → List Text
unfolding split_loop
split s sep = split_loop [] s sep

-- `strings.SplitN` by one byte: `n` is the number of parts at most, the last one is not split.
unfoldable pub split_n_loop : Text → Text → ℕ → ℕ → List Text
split_n_loop cur [] sep n = cur ∷ []
split_n_loop cur (c ∷ s) sep zero = (cur ++ c ∷ s) ∷ []
split_n_loop cur (c ∷ s) sep (suc n) = elim (c == sep) [
  | true ↦ cur ∷ split_n_loop [] s sep n
  | false ↦ split_n_loop (cur ++ c ∷ []) s sep (suc n)
]

-- At most `suc n` parts.
unfoldable pub split_n : Text → ℕ → ℕ → List Text
unfolding split_n_loop
split_n s sep n = split_n_loop [] s sep n

-- `strings.Join`
unfoldable pub join : List Text → Text → Text
join [] sep = []
join (p ∷ []) sep = p
join (p ∷ q ∷ ps) sep = p ++ sep ++ join (q ∷ ps) sep

-- `strings.TrimLeft` and `strings.TrimRight` of one byte, and `strings.Trim`.
unfoldable pub trim_left : Text → ℕ → Text
trim_left [] b = []
trim_left (c ∷ s) b = let rest = trim_left s b in if c == b then rest else c ∷ s

unfoldable pub trim_right : Text → ℕ → Text
trim_right [] b = []
trim_right (c ∷ s) b = let rest = trim_right s b in if c == b && is_nil rest then [] else c ∷ rest

unfoldable pub trim : Text → ℕ → Text
unfolding trim_left trim_right
trim s b = trim_right (trim_left s b) b

-- No byte of the text is `b`.
abbrev pub Lacks : ℕ → Text → Type 0
Lacks b = All (λ c. c ≢ b)
