-- ===== src/Strings/Numbers.antt =====
-- `strconv.ParseInt(s, 10, 64)` with its error ignored, and the verb `%d`.
use s3_agent.Prelude.{
  ℕ, zero, suc, ◌+◌, ◌-◌, ◌*◌, ◌/◌, ◌%◌, ◌^◌, ◌≡◌, refl, Bool, ◌&&◌, Option, none, some, [], ◌∷◌,
  ◌==◌, leb, if◌then◌else◌, Text, codes,
}
use s3_agent.Prelude.Int.{ℤ, pos, negsuc}

abbrev pub max_int64 : ℕ
max_int64 = 2 ^ 63 - 1

is_digit : ℕ → Bool
is_digit c = leb b'0' c && leb c b'9'

-- The number that decimal digits spell, `none` where the text is no such number.
unfoldable pub digits_value : ℕ → Text → Option ℕ
unfolding is_digit
digits_value n [] = some n
digits_value n (c ∷ s) = if is_digit c then digits_value (n * 10 + (c - b'0')) s else none

unfoldable pub unsigned_value : Text → Option ℕ
unfolding digits_value
unsigned_value [] = none
unsigned_value (c ∷ s) = digits_value 0 (c ∷ s)

-- A value out of range is set to the nearest int64.
positive : Option ℕ → ℤ
positive none = pos 0
positive (some n) = if leb n max_int64 then pos n else pos max_int64

negative : Option ℕ → ℤ
negative none = pos 0
negative (some zero) = pos 0
negative (some (suc n)) = if leb n max_int64 then negsuc n else negsuc max_int64

-- The value that `ParseInt` and `Atoi` return beside an error: 0 for a text that is no number.
unfoldable pub parse_int : Text → ℤ
unfolding unsigned_value positive negative
parse_int [] = pos 0
parse_int (c ∷ s) =
    if c == b'+'
    then positive (unsigned_value s)
    else if c == b'-'
    then negative (unsigned_value s)
    else positive (unsigned_value (c ∷ s))

-- The digits of a number; the fuel is the number itself, which is more than enough.
unfoldable pub digits : ℕ → ℕ → Text → Text
digits zero n out = (b'0' + n % 10) ∷ out
digits (suc f) n out = elim (n / 10) [
  | zero ↦ (b'0' + n % 10) ∷ out
  | suc m ↦ digits f (suc m) ((b'0' + n % 10) ∷ out)
]

unfoldable pub show_nat : ℕ → Text
unfolding digits
show_nat n = digits n n []

unfoldable pub show_int : ℤ → Text
unfolding show_nat
show_int (pos n) = show_nat n
show_int (negsuc n) = b'-' ∷ show_nat (suc n)

parse_int_tests :
    (parse_int (codes "42") ≡ pos 42)
    × (parse_int (codes "-7") ≡ negsuc 6)
    × (parse_int (codes "4x") ≡ pos 0)
    × (parse_int (codes "99999999999999999999") ≡ pos max_int64)
unfolding parse_int
parse_int_tests = (refl, refl, refl, refl)

show_int_tests : (show_int (pos 1030) ≡ codes "1030") × (show_int (negsuc 9) ≡ codes "-10")
unfolding show_int
show_int_tests = (refl, refl)
