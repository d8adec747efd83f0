-- ===== src/Ctl/Bytes.antt =====
-- `formatBytes` of cmd/ctl/main.go: the unit in which a size is shown.
use s3_agent.Prelude.{
  ℕ, zero, suc, ◌+◌, ◌*◌, ◌/◌, ◌%◌, ◌^◌, ◌≤◌, ◌<◌, ◌≡◌, refl, inl, inr, ltb, leb, if◌then◌else◌,
  arith, Bool-cases, ltb→lt, ltb→le,
}

-- `%d B`, or the float64 of the size by the divisor with the letter `exp` of "KMGTPE".
pub data Size : Type 0 where
  plain : ℕ → Size
  scaled : (b div exp : ℕ) → Size

-- The loop, in Go's uint64. Of a uint64 there are at most 5 rounds: `n` is below 2 ^ 54 at first.
unfoldable pub scale : (rounds n div exp : ℕ) → ℕ × ℕ
scale zero n div exp = (div, exp)
scale (suc k) n div exp =
    let rest = scale k (n / 1024) (div * 1024 % 2 ^ 64) (suc exp) in
    if leb 1024 n then rest else (div, exp)

unfoldable pub format_bytes : ℕ → Size
unfolding scale
format_bytes b =
    if ltb b 1024 then plain b else let (div, exp) = scale 6 (b / 1024) 1024 0 in scaled b div exp

-- More rounds change nothing.
pub scale_enough : (k n div exp : ℕ) → n < 2 ^ 54 → scale (6 + k) n div exp ≡ scale 6 n div exp
unfolding scale
scale_enough k n div exp h = ground arith

-- The size of a uint64 from 1024 on is shown with a letter of the text, and the divisor is the power
-- of 1024 that belongs to the letter, which the size reaches, but not 1024 times over.
pub format_bytes_unit :
    (b : ℕ)
    → 1024 ≤ b
    → b < 2 ^ 64
    → (div : ℕ) × (exp : ℕ) × (format_bytes b ≡ scaled b div exp)
      × (exp ≤ 5)
      × (div ≡ 1024 ^ suc exp)
      × (div ≤ b)
      × (b < 1024 * div)
unfolding format_bytes scale
format_bytes_unit b h k = elim (Bool-cases (ltb b 1048576)) [
  | inl e ↦
      let lt = ltb→lt b 1048576 e in
      (1024, 0, ground arith, omega arith, refl, omega arith, omega arith)
  | inr e ↦
      let le = ltb→le b 1048576 e in
      elim (Bool-cases (ltb b 1073741824)) [
        | inl e ↦
            let lt = ltb→lt b 1073741824 e in
            (1048576, 1, ground arith, omega arith, refl, omega arith, omega arith)
        | inr e ↦
            let le = ltb→le b 1073741824 e in
            elim (Bool-cases (ltb b 1099511627776)) [
              | inl e ↦
                  let lt = ltb→lt b 1099511627776 e in
                  (1073741824, 2, ground arith, omega arith, refl, omega arith, omega arith)
              | inr e ↦
                  let le = ltb→le b 1099511627776 e in
                  elim (Bool-cases (ltb b 1125899906842624)) [
                    | inl e ↦
                        let lt = ltb→lt b 1125899906842624 e in
                        (
                          1099511627776,
                          3,
                          ground arith,
                          omega arith,
                          refl,
                          omega arith,
                          omega arith,
                        )
                    | inr e ↦
                        let le = ltb→le b 1125899906842624 e in
                        elim (Bool-cases (ltb b 1152921504606846976)) [
                          | inl e ↦
                              let lt = ltb→lt b 1152921504606846976 e in
                              (
                                1125899906842624,
                                4,
                                ground arith,
                                omega arith,
                                refl,
                                omega arith,
                                omega arith,
                              )
                          | inr e ↦
                              let le = ltb→le b 1152921504606846976 e in
                              (
                                1152921504606846976,
                                5,
                                ground arith,
                                omega arith,
                                refl,
                                omega arith,
                                omega arith,
                              )
                        ]
                  ]
            ]
      ]
]
