-- ===== src/Strings/Spaces.antt =====
-- Go's white space (`unicode.IsSpace` on UTF-8), `strings.TrimSpace` and `strings.Fields`.
use Prim.Native.Nat.{pred}
use s3_agent.Prelude.{
  ℕ, zero, suc, ◌<◌, ◌≤◌, ◌≡◌, refl, Bool, false, ◌&&◌, ◌||◌, List, [], ◌∷◌, ◌++◌, ◌==◌, leb,
  if◌then◌else◌, Text, is_nil, length, codes, arith,
}

-- tab, line feed, vertical tab, form feed, carriage return, space
unfoldable pub ascii_space : ℕ → Bool
ascii_space c = c == 32 || (leb 9 c && leb c 13)

-- U+1680, U+2000 to U+200A, U+2028, U+2029, U+202F, U+205F, U+3000
wide_space : ℕ → ℕ → ℕ → Bool
wide_space a b c =
    a == 0xE1 && b == 0x9A && c == 0x80
    || (a == 0xE2
        && b == 0x80
        && ((leb 0x80 c && leb c 0x8A) || c == 0xA8 || c == 0xA9 || c == 0xAF))
    || (a == 0xE2 && b == 0x81 && c == 0x9F)
    || (a == 0xE3 && b == 0x80 && c == 0x80)

-- U+0085 and U+00A0
narrow_space : ℕ → ℕ → Bool
narrow_space a b = a == 0xC2 && (b == 0x85 || b == 0xA0)

-- The number of bytes of the space that the text begins with, 0 if it begins with none.
unfoldable pub space_width : Text → ℕ
unfolding ascii_space wide_space narrow_space
space_width [] = 0
space_width (a ∷ []) = if ascii_space a then 1 else 0
space_width (a ∷ b ∷ []) = if ascii_space a then 1 else if narrow_space a b then 2 else 0
space_width (a ∷ b ∷ c ∷ s) =
    if ascii_space a then 1 else if narrow_space a b then 2 else if wide_space a b c then 3 else 0

-- The text without the spaces that it begins with; `skip` bytes of a space are still to come.
unfoldable pub trim_left_space : Text → ℕ → Text
unfolding space_width
trim_left_space [] skip = []
trim_left_space (c ∷ s) (suc skip) = trim_left_space s skip
trim_left_space (c ∷ s) zero = elim (space_width (c ∷ s)) [
  | zero ↦ c ∷ s
  | suc w ↦ trim_left_space s w
]

unfoldable pub trim_right_space : Text → Text
unfolding trim_left_space
trim_right_space [] = []
trim_right_space (c ∷ s) = if is_nil (trim_left_space (c ∷ s) 0) then [] else c ∷ trim_right_space s

-- `strings.TrimSpace`
unfoldable pub trim_space : Text → Text
unfolding trim_right_space
trim_space s = trim_right_space (trim_left_space s 0)

flush : Text → List Text → List Text
flush [] parts = parts
flush (c ∷ cur) parts = (c ∷ cur) ∷ parts

-- `strings.Fields`; `cur` is the field that is being read.
unfoldable pub fields_loop : Text → Text → ℕ → List Text
unfolding space_width flush
fields_loop cur [] skip = flush cur []
fields_loop cur (c ∷ s) (suc skip) = fields_loop cur s skip
fields_loop cur (c ∷ s) zero = elim (space_width (c ∷ s)) [
  | zero ↦ fields_loop (cur ++ c ∷ []) s zero
  | suc w ↦ flush cur (fields_loop [] s w)
]

unfoldable pub fields : Text → List Text
unfolding fields_loop
fields s = fields_loop [] s zero

-- An ASCII byte that is no space begins no space.
pub space_width_plain :
    (c : ℕ) (s : Text) → c < 128 → ascii_space c ≡ false → space_width (c ∷ s) ≡ 0
unfolding space_width
space_width_plain c [] h p = ground arith
space_width_plain c (b ∷ []) h p = ground arith
space_width_plain c (b ∷ d ∷ s) h p = ground arith

pub trim_left_space_plain :
    (c : ℕ) (s : Text) → c < 128 → ascii_space c ≡ false → trim_left_space (c ∷ s) 0 ≡ c ∷ s
unfolding trim_left_space
trim_left_space_plain c s h p = ground (arith, space_width_plain c s h p)

pub trim_right_space_plain :
    (c : ℕ) (s : Text)
    → c < 128
    → ascii_space c ≡ false
    → trim_right_space (c ∷ s) ≡ c ∷ trim_right_space s
unfolding trim_right_space
trim_right_space_plain c s h p = ground (arith, trim_left_space_plain c s h p)

pub trim_space_plain :
    (c : ℕ) (s : Text)
    → c < 128
    → ascii_space c ≡ false
    → trim_space (c ∷ s) ≡ c ∷ trim_right_space s
unfolding trim_space
trim_space_plain c s h p = rw (trim_left_space_plain c s h p) (trim_right_space_plain c s h p)

-- A text that ends in a brace has no space at its end.
space_width_brace : (c : ℕ) (s : Text) → space_width (c ∷ s ++ 123 ∷ []) ≤ suc (length s)
unfolding space_width wide_space narrow_space
space_width_brace c [] = ground arith
space_width_brace c (d ∷ []) = ground arith
space_width_brace c (d ∷ e ∷ s) = ground arith

trim_left_space_brace :
    (s : Text) (skip : ℕ) → skip ≤ length s → is_nil (trim_left_space (s ++ 123 ∷ []) skip) ≡ false
unfolding trim_left_space
trim_left_space_brace [] zero h = refl
trim_left_space_brace [] (suc skip) h = absurd (omega arith)
trim_left_space_brace (c ∷ s) (suc skip) h = trim_left_space_brace s skip (omega arith)
trim_left_space_brace (c ∷ s) zero h =
    ground (
      arith,
      space_width_brace c s,
      trim_left_space_brace s (pred (space_width (c ∷ s ++ 123 ∷ []))),
    )

pub ends_in_brace : (s : Text) → trim_right_space (s ++ 123 ∷ []) ≡ s ++ 123 ∷ []
unfolding trim_right_space
ends_in_brace [] = refl
ends_in_brace (c ∷ s) =
    ground (arith, trim_left_space_brace (c ∷ s) 0 (omega arith), ends_in_brace s)

fields_test : fields (codes "  a bc\t d ") ≡ codes "a" ∷ codes "bc" ∷ codes "d" ∷ []
unfolding fields
fields_test = refl

trim_space_test : trim_space (codes " \ta b \r") ≡ codes "a b"
unfolding trim_space
trim_space_test = refl
