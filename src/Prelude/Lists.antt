-- ===== src/Prelude/Lists.antt =====
-- Lists measured by native numbers, texts as lists of bytes, and predicates on lists.
use Prim.Native.Nat.{ℕ, zero, suc, ◌+◌}
use Prim.Native.Char.{code}
use Prim.Native.String.{String}
use mathlib.Core.Path.{◌≡◌, refl}
use mathlib.Core.Logic.{◌↔◌, ite, dite}
use mathlib.Core.Bool.{Bool, true, false, ◌&&◌, ◌||◌, Bool-discrete}
use mathlib.Core.List.{List, [], ◌∷◌, ◌++◌}
use native.Mathlib.Omega.{arith}
use s3_agent.Prelude.Tests.{◌==◌}

-- A Go string is a sequence of bytes.
abbrev pub Text : Type 0
Text = List ℕ

-- The bytes of a literal of ASCII characters.
abbrev pub codes : String → Text
codes String.[] = []
codes (String.◌∷◌ c s) = code c ∷ codes s

module _ {ℓ} {A : Type ℓ} where
  abbrev pub length : List A → ℕ
  length [] = 0
  length (x ∷ xs) = suc (length xs)

  pub length-append : (xs ys : List A) → length (xs ++ ys) ≡ length xs + length ys
  length-append [] ys = omega arith
  length-append (x ∷ xs) ys = omega (arith, length-append xs ys)

  abbrev pub take : ℕ → List A → List A
  take zero xs = []
  take (suc n) [] = []
  take (suc n) (x ∷ xs) = x ∷ take n xs

  abbrev pub drop : ℕ → List A → List A
  drop zero xs = xs
  drop (suc n) [] = []
  drop (suc n) (x ∷ xs) = drop n xs

  pub drop-append : (xs ys : List A) → drop (length xs) (xs ++ ys) ≡ ys
  drop-append [] ys = refl
  drop-append (x ∷ xs) ys = drop-append xs ys

  abbrev pub is_nil : List A → Bool
  is_nil [] = true
  is_nil (x ∷ xs) = false

module _ {ℓ κ} {A : Type ℓ} (P : A → Type κ) where
  abbrev pub All : List A → Type κ
  All [] = Unit
  All (x ∷ xs) = P x × All xs

  pub All-append : (xs ys : List A) → All xs → All ys → All (xs ++ ys)
  All-append [] ys _ hy = hy
  All-append (x ∷ xs) ys (px, hx) hy = (px, All-append xs ys hx hy)

text_beq : Text → Text → Bool
text_beq [] [] = true
text_beq [] (y ∷ ys) = false
text_beq (x ∷ xs) [] = false
text_beq (x ∷ xs) (y ∷ ys) = x == y && text_beq xs ys

text_beq_iff : (s t : Text) → (text_beq s t ≡ true) ↔ (s ≡ t)
unfolding text_beq
text_beq_iff [] [] = (λ _. refl, λ _. refl)
text_beq_iff [] (y ∷ ys) = (λ h. cc, λ h. cc)
text_beq_iff (x ∷ xs) [] = (λ h. cc, λ h. cc)
text_beq_iff (x ∷ xs) (y ∷ ys) = ground (arith, text_beq_iff xs ys)

-- Shut in proofs, where a split on it yields the equation or its negation.
unfoldable pub text_dec : Discrete Text
unfolding text_beq text_beq_iff
text_dec s t =
    dite (Bool-discrete (text_beq s t) true) (λ same. yes ((text_beq_iff s t).0 same))
      (λ differ. no (λ p. differ ((text_beq_iff s t).1 p)))

-- Go's `==` on strings.
infix 50 ◌≟◌
abbrev pub ◌≟◌ : Text → Text → Bool
s ≟ t = ite (text_dec s t) true false

-- `slices.Contains`, and a look-up in a set of strings.
unfoldable pub member : Text → List Text → Bool
member x [] = false
member x (y ∷ ys) = x ≟ y || member x ys
