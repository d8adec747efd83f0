-- ===== src/Protocol/Uuid.antt =====
-- `newUUID` of internal/protocol/envelope.go. The 16 bytes of crypto/rand are its argument; a Go
-- array of that size has no other length.
use s3_agent.Prelude.{
  ℕ, zero, suc, false, ◌+◌, ◌-◌, ◌*◌, ◌/◌, ◌%◌, ◌<◌, ◌≡◌, refl, ◌∙◌, List, [], ◌∷◌, ◌++◌, Text,
  length, take, drop, All, ◌==◌, ltb, if◌then◌else◌, arith, codes,
}
use s3_agent.Strings.{join}

-- The version and the variant are set in the random bytes.
unfoldable pub set_version : List ℕ → List ℕ
set_version (a ∷ b ∷ c ∷ d ∷ e ∷ f ∷ g ∷ h ∷ i ∷ rest) =
    a ∷ b ∷ c ∷ d ∷ e ∷ f ∷ (g % 16 + 64) ∷ h ∷ (i % 64 + 128) ∷ rest
set_version other = other

-- The verb `%x`: two lower-case digits for each byte.
unfoldable pub hex_digit : ℕ → ℕ
hex_digit d = if ltb d 10 then b'0' + d else b'a' + (d - 10)

unfoldable pub hex : List ℕ → Text
unfolding hex_digit
hex [] = []
hex (b ∷ bs) = hex_digit (b / 16) ∷ hex_digit (b % 16) ∷ hex bs

-- `%08x-%04x-%04x-%04x-%012x`
unfoldable pub grouped : List ℕ → Text
unfolding hex join
grouped b =
    join
      (hex (take 4 b)
        ∷ hex (take 2 (drop 4 b))
        ∷ hex (take 2 (drop 6 b))
        ∷ hex (take 2 (drop 8 b))
        ∷ hex (drop 10 b)
        ∷ [])
      (codes "-")

unfoldable pub new_uuid : List ℕ → Text
unfolding set_version grouped
new_uuid random = grouped (set_version random)

-- The reverse direction: the bytes that an id spells, dashes left out.
unfoldable pub digit_value : ℕ → ℕ
digit_value c = if ltb c b'a' then c - b'0' else c - b'a' + 10

unfoldable pub without_dashes : Text → Text
without_dashes [] = []
without_dashes (c ∷ s) = let rest = without_dashes s in if c == b'-' then rest else c ∷ rest

unfoldable pub unhex : Text → List ℕ
unfolding digit_value
unhex (c ∷ d ∷ s) = (digit_value c * 16 + digit_value d) ∷ unhex s
unhex s = []

unfoldable pub uuid_bytes : Text → List ℕ
unfolding without_dashes unhex
uuid_bytes s = unhex (without_dashes s)

abbrev pub IsByte : ℕ → Type 0
IsByte b = b < 256

digit_value-hex_digit : (d : ℕ) → d < 16 → digit_value (hex_digit d) ≡ d
unfolding digit_value hex_digit
digit_value-hex_digit d h = ground arith

unhex-hex : (bs : List ℕ) → All IsByte bs → unhex (hex bs) ≡ bs
unfolding unhex hex
unhex-hex [] h = refl
unhex-hex (b ∷ bs) (h, hs) =
    let high = digit_value-hex_digit (b / 16) (omega arith) in
    let low = digit_value-hex_digit (b % 16) (omega arith) in
    let byte : digit_value (hex_digit (b / 16)) * 16 + digit_value (hex_digit (b % 16)) ≡ b =
      omega (arith, high, low) in
    rw (byte, unhex-hex bs hs) refl

hex_digit-dash : (d : ℕ) → (hex_digit d == b'-') ≡ false
unfolding hex_digit
hex_digit-dash d = ground arith

without_dashes-hex : (bs : List ℕ) → without_dashes (hex bs) ≡ hex bs
unfolding without_dashes hex
without_dashes-hex [] = refl
without_dashes-hex (b ∷ bs) =
    rw (hex_digit-dash (b / 16), hex_digit-dash (b % 16), without_dashes-hex bs) refl

without_dashes-group :
    (bs : List ℕ) (t : Text)
    → without_dashes (hex bs ++ codes "-" ++ t) ≡ hex bs ++ without_dashes t
unfolding without_dashes hex
without_dashes-group [] t = refl
without_dashes-group (b ∷ bs) t =
    rw (hex_digit-dash (b / 16), hex_digit-dash (b % 16), without_dashes-group bs t) refl

hex-take : (n : ℕ) (bs : List ℕ) → hex (take n bs) ++ hex (drop n bs) ≡ hex bs
unfolding hex
hex-take zero bs = refl
hex-take (suc n) [] = refl
hex-take (suc n) (b ∷ bs) = rw (hex-take n bs) refl

-- Two bytes from a position on, and those behind them.
hex-pair :
    (n : ℕ) (bs : List ℕ)
    → hex (take 2 (drop n bs)) ++ hex (drop (suc (suc n)) bs) ≡ hex (drop n bs)
unfolding hex
hex-pair zero [] = refl
hex-pair zero (a ∷ []) = refl
hex-pair zero (a ∷ b ∷ bs) = refl
hex-pair (suc n) [] = refl
hex-pair (suc n) (b ∷ bs) = hex-pair n bs

without_dashes-groups :
    (a b c d e : List ℕ)
    → without_dashes (join (hex a ∷ hex b ∷ hex c ∷ hex d ∷ hex e ∷ []) (codes "-"))
      ≡ hex a ++ (hex b ++ (hex c ++ (hex d ++ hex e)))
unfolding join
without_dashes-groups a b c d e =
    rw
      (
        without_dashes-group a,
        without_dashes-group b,
        without_dashes-group c,
        without_dashes-group d,
        without_dashes-hex e,
      )
      refl

without_dashes-grouped : (b : List ℕ) → without_dashes (grouped b) ≡ hex b
unfolding grouped
without_dashes-grouped b =
    without_dashes-groups (take 4 b) (take 2 (drop 4 b)) (take 2 (drop 6 b)) (take 2 (drop 8 b))
      (drop 10 b)
    ∙ rw (hex-pair 8 b, hex-pair 6 b, hex-pair 4 b, hex-take 4 b) refl

set_version-AreBytes : (r : List ℕ) → All IsByte r → All IsByte (set_version r)
unfolding set_version
set_version-AreBytes (a ∷ b ∷ c ∷ d ∷ e ∷ f ∷ g ∷ h ∷ i ∷ r)
      (pa, (pb, (pc, (pd, (pe, (pf, (pg, (ph, (pi, pr))))))))) =
    (pa, (pb, (pc, (pd, (pe, (pf, (omega arith, (ph, (omega arith, pr)))))))))
set_version-AreBytes r p = p

uuid_bytes-new_uuid :
    (random : List ℕ) → All IsByte random → uuid_bytes (new_uuid random) ≡ set_version random
unfolding uuid_bytes new_uuid
uuid_bytes-new_uuid random h =
    rw (without_dashes-grouped (set_version random))
      (unhex-hex (set_version random) (set_version-AreBytes random h))

-- The element at a place, 0 behind the end.
abbrev pub at : ℕ → List ℕ → ℕ
at zero [] = 0
at zero (x ∷ xs) = x
at (suc n) [] = 0
at (suc n) (x ∷ xs) = at n xs

-- An id in the form of RFC 4122, version 4, of some random bytes.
pub record IsUuid (random : List ℕ) (id : Text) : Type 0 where
  pub version_byte : ℕ
  pub variant_byte : ℕ
  pub bytes :
      uuid_bytes id ≡ take 6 random ++ (version_byte ∷ at 7 random ∷ variant_byte ∷ drop 9 random)
  pub version : version_byte / 16 ≡ 4
  pub version_rest : version_byte % 16 ≡ at 6 random % 16
  pub variant : variant_byte / 64 ≡ 2
  pub variant_rest : variant_byte % 64 ≡ at 8 random % 64
  pub length_36 : length id ≡ 36
  pub dashes : (at 8 id ≡ b'-') × (at 13 id ≡ b'-') × (at 18 id ≡ b'-') × (at 23 id ≡ b'-')

-- The id made of 16 random bytes has 36 characters with dashes at the four places of a UUID, and
-- spells the bytes but for two: the upper half of the seventh is the version 4, the two upper bits
-- of the ninth are the variant 2, and what is left of both is random.
pub new_uuid_lem :
    (b0 b1 b2 b3 b4 b5 b6 b7 b8 b9 b10 b11 b12 b13 b14 b15 : ℕ)
    → let random =
        b0 ∷ b1 ∷ b2 ∷ b3 ∷ b4 ∷ b5 ∷ b6 ∷ b7 ∷ b8 ∷ b9 ∷ b10 ∷ b11 ∷ b12 ∷ b13 ∷ b14 ∷ b15 ∷ [] in
      All IsByte random → IsUuid random (new_uuid random)
unfolding new_uuid
new_uuid_lem b0 b1 b2 b3 b4 b5 b6 b7 b8 b9 b10 b11 b12 b13 b14 b15 h =
    let random =
      b0 ∷ b1 ∷ b2 ∷ b3 ∷ b4 ∷ b5 ∷ b6 ∷ b7 ∷ b8 ∷ b9 ∷ b10 ∷ b11 ∷ b12 ∷ b13 ∷ b14 ∷ b15 ∷ [] in
    record {
      version_byte = b6 % 16 + 64;
      variant_byte = b8 % 64 + 128;
      bytes = uuid_bytes-new_uuid random h;
      version = omega arith;
      version_rest = omega arith;
      variant = omega arith;
      variant_rest = omega arith;
      length_36 = refl;
      dashes = (refl, refl, refl, refl);
    }
