-- ===== src/Prelude/Int.antt =====
-- Signed integers over the native numbers, and the wrap-around of Go's int64.
use Prim.Native.Nat.{ℕ, suc, ◌+◌, ◌-◌, ◌*◌, ◌%◌, ◌^◌, ◌≤◌, ◌<◌}
use mathlib.Core.Path.{◌≡◌, ap}
use mathlib.Core.Bool.{Bool, ◌&&◌}
use native.Mathlib.Omega.{arith}
use s3_agent.Prelude.Tests.{ltb, leb, if◌then◌else◌}

-- `negsuc n` is -(n + 1).
pub data ℤ : Type 0 where
  pos : ℕ → ℤ
  negsuc : ℕ → ℤ

abbrev pub pos_part : ℤ → ℕ
pos_part (pos n) = n
pos_part (negsuc n) = 0

abbrev pub neg_part : ℤ → ℕ
neg_part (pos n) = 0
neg_part (negsuc n) = suc n

-- a - b, as an integer.
abbrev pub sub_ℕ : ℕ → ℕ → ℤ
sub_ℕ a b = if leb b a then pos (a - b) else negsuc (b - a - 1)

abbrev pub ltb_ℤ : ℤ → ℤ → Bool
ltb_ℤ a b = ltb (pos_part a + neg_part b) (pos_part b + neg_part a)

abbrev pub leb_ℤ : ℤ → ℤ → Bool
leb_ℤ a b = leb (pos_part a + neg_part b) (pos_part b + neg_part a)

abbrev pub eqb_ℤ : ℤ → ℤ → Bool
eqb_ℤ a b = leb_ℤ a b && leb_ℤ b a

infix 50 ◌≤ℤ◌
abbrev pub ◌≤ℤ◌ : ℤ → ℤ → Type 0
a ≤ℤ b = pos_part a + neg_part b ≤ pos_part b + neg_part a

-- The int64 whose bit pattern is `n mod 2 ^ 64`.
unfoldable pub signed64 : ℕ → ℤ
signed64 n = let m = n % 2 ^ 64 in if ltb m (2 ^ 63) then pos m else negsuc (2 ^ 64 - m - 1)

-- The bit pattern of an integer, in 64 bits.
unfoldable pub bits64 : ℤ → ℕ
bits64 (pos n) = n % 2 ^ 64
bits64 (negsuc n) = 2 ^ 64 - 1 - n % 2 ^ 64

-- The operations of Go's int64.
unfoldable pub add64 : ℤ → ℤ → ℤ
unfolding signed64 bits64
add64 a b = signed64 (bits64 a + bits64 b)

unfoldable pub sub64 : ℤ → ℤ → ℤ
unfolding signed64 bits64
sub64 a b = signed64 (bits64 a + 2 ^ 64 - bits64 b)

unfoldable pub mul64 : ℤ → ℤ → ℤ
unfolding signed64 bits64
mul64 a b = signed64 (bits64 a * bits64 b)

abbrev pub IsInt64 : ℤ → Type 0
IsInt64 a = (pos_part a < 2 ^ 63) × (neg_part a ≤ 2 ^ 63)

pub add64_pos : (a b : ℕ) → a + b < 2 ^ 63 → add64 (pos a) (pos b) ≡ pos (a + b)
unfolding add64
add64_pos a b h = ground arith

pub add64_zero : (a : ℤ) → IsInt64 a → add64 (pos 0) a ≡ a
unfolding add64
add64_zero (pos n) h = ground arith
add64_zero (negsuc n) h = ground arith

pub add64_assoc : (a b c : ℤ) → add64 (add64 a b) c ≡ add64 a (add64 b c)
unfolding add64
add64_assoc (pos a) (pos b) (pos c) = ground arith
add64_assoc (pos a) (pos b) (negsuc c) = ground arith
add64_assoc (pos a) (negsuc b) (pos c) = ground arith
add64_assoc (pos a) (negsuc b) (negsuc c) = ground arith
add64_assoc (negsuc a) (pos b) (pos c) = ground arith
add64_assoc (negsuc a) (pos b) (negsuc c) = ground arith
add64_assoc (negsuc a) (negsuc b) (pos c) = ground arith
add64_assoc (negsuc a) (negsuc b) (negsuc c) = ground arith

pub add64_comm : (a b : ℤ) → add64 a b ≡ add64 b a
unfolding add64
add64_comm a b = ap signed64 (omega arith)

pub add64_zero_right : (a : ℤ) → IsInt64 a → add64 a (pos 0) ≡ a
unfolding add64
add64_zero_right (pos n) h = ground arith
add64_zero_right (negsuc n) h = ground arith

signed64-IsInt64 : (n : ℕ) → IsInt64 (signed64 n)
unfolding signed64
signed64-IsInt64 n = ground arith

pub add64-IsInt64 : (a b : ℤ) → IsInt64 (add64 a b)
unfolding add64
add64-IsInt64 a b = signed64-IsInt64 (bits64 a + bits64 b)
