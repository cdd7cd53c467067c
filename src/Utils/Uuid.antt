-- ===== src/Utils/Uuid.antt =====
-- The form of the texts of `GenerateUUIDv4`.
use Prim.Native.Nat.{bit_and, bit_or}
use volta.Prelude.{
  ℕ, ◌/◌, ◌%◌, ◌≤◌, ◌<◌, ◌^◌, ◌≡◌, refl, ap, ◌∙◌, true, ◌∷◌, ◌++◌, arith, Text, text,
}
use volta.Utils.{hex_digit, hex, with_version, with_variant, uuid_text, generate_uuid_v4}
use volta.Utils.Bits.{
  half, double, half-lt, half-le, and_lowest, or_lowest, half-bit_and, half-bit_or, bit_and_zero,
  bit_or_zero,
}
use volta.Utils.Hex.{fits, matches, matches-hex, matches-hex_group, matches-dash}

-- The bits that are set.
with_version-lt : (a : ℕ) → with_version a < 2 ^ 64
with_version-lt a = half-lt 64 (with_version a) 0 (
    omega (
      arith,
      half-bit_or 64 (bit_and a 0xffffffffffff0fff) 0x4000,
      ap (λ n. bit_or n 0) (half-bit_and 64 a 0xffffffffffff0fff ∙ bit_and_zero (half 64 a)),
      bit_or_zero 0,
    ))

with_variant-lt : (b : ℕ) → with_variant b < 2 ^ 64
with_variant-lt b = half-lt 64 (with_variant b) 0 (
    omega (
      arith,
      half-bit_or 64 (bit_and b 0x3fffffffffffffff) 0x8000000000000000,
      ap (λ n. bit_or n 0) (half-bit_and 64 b 0x3fffffffffffffff ∙ bit_and_zero (half 64 b)),
      bit_or_zero 0,
    ))

mask-lt : (k a m : ℕ) → half k m ≡ 0 → bit_and a m < double k 1
mask-lt k a m h =
    half-lt k (bit_and a m) 0
      (omega (arith, half-bit_and k a m, ap (bit_and (half k a)) h, bit_and_zero (half k a)))

-- The two highest bits of the second number are 10.
with_variant-top : (b : ℕ) → half 62 (with_variant b) ≡ 2
with_variant-top b =
    half-bit_or 62 (bit_and b 0x3fffffffffffffff) 0x8000000000000000
    ∙ ap (λ n. bit_or n 2) (half-bit_and 62 b 0x3fffffffffffffff ∙ bit_and_zero (half 62 b))
    ∙ bit_or_zero 2

bit_and_15 : (x : ℕ) → bit_and x 15 ≡ x % 16
bit_and_15 x = omega (
  arith,
  and_lowest x 15,
  and_lowest (x / 2) 7,
  and_lowest (x / 2 / 2) 3,
  and_lowest (x / 2 / 2 / 2) 1,
  bit_and_zero (x / 2 / 2 / 2 / 2),
)

-- A number whose last hexadecimal digit is 0, with a 4 put there.
or_4 : (x : ℕ) → x % 16 ≡ 0 → bit_or x 4 % 16 ≡ 4
or_4 x h = omega (
  arith,
  or_lowest x 4,
  or_lowest (x / 2) 2,
  or_lowest (x / 2 / 2) 1,
  or_lowest (x / 2 / 2 / 2) 0,
)

and_f0 : (x : ℕ) → bit_and x 0xffffffffffff0 % 16 ≡ 0
and_f0 x = omega (
  arith,
  and_lowest x 0xffffffffffff0,
  and_lowest (x / 2) 0x7fffffffffff8,
  and_lowest (x / 2 / 2) 0x3fffffffffffc,
  and_lowest (x / 2 / 2 / 2) 0x1fffffffffffe,
)

with_version-digit : (a : ℕ) → half 12 (with_version a) % 16 ≡ 4
with_version-digit a =
    ap (λ n. n % 16)
      (half-bit_or 12 (bit_and a 0xffffffffffff0fff) 0x4000
        ∙ ap (λ n. bit_or n 4) (half-bit_and 12 a 0xffffffffffff0fff))
    ∙ or_4 (bit_and (half 12 a) 0xffffffffffff0) (and_f0 (half 12 a))

-- The third group, which begins with the version.
version_digit : (a : ℕ) → bit_and (with_version a) 0xffff / 16 / 16 / 16 % 16 ≡ 4
version_digit a = omega (
  arith,
  half-bit_and 12 (with_version a) 0xffff,
  bit_and_15 (half 12 (with_version a)),
  with_version-digit a,
)

variant_fits : (d : ℕ) → 8 ≤ d → d < 12 → fits b'y' (hex_digit d) ≡ true
variant_fits d h k = ground arith

variant_digit :
    (b : ℕ)
    → (8 ≤ with_variant b / 2 ^ 48 / 16 / 16 / 16 % 16)
      × (with_variant b / 2 ^ 48 / 16 / 16 / 16 % 16 < 12)
variant_digit b =
    let high = half-lt 62 (with_variant b) 2 (omega (arith, with_variant-top b)) in
    let low = half-le 62 (with_variant b) 2 (omega (arith, with_variant-top b)) in
    (omega (arith, high, low), omega (arith, high, low))

-- Whatever two numbers are drawn, the text is that of a version 4 UUID of variant 1: groups of 8, 4, 4,
-- 4 and 12 lower-case hexadecimal digits between dashes, the third of which begins with 4, and the
-- fourth with 8, 9, a or b.
pub generate_uuid_v4_lem :
    (a b : ℕ) → matches (text "xxxxxxxx-xxxx-4xxx-yxxx-xxxxxxxxxxxx") (generate_uuid_v4 a b) ≡ true
unfolding generate_uuid_v4 uuid_text
generate_uuid_v4_lem a b =
    matches-dash (text "xxxxxxxx") (text "xxxx-4xxx-yxxx-xxxxxxxxxxxx") (hex 8 (a' / 2 ^ 32)) from_2
      (matches-hex 7 (a' / 2 ^ 32) (omega arith) (omega (arith, with_version-lt a)))
      (matches-dash (text "xxxx") (text "4xxx-yxxx-xxxxxxxxxxxx")
        (hex 4 (bit_and (a' / 2 ^ 16) 0xffff)) from_3
        (matches-hex 3 (bit_and (a' / 2 ^ 16) 0xffff) (omega arith)
          (mask-lt 16 (a' / 2 ^ 16) 0xffff refl))
        (matches-dash (text "4xxx") (text "yxxx-xxxxxxxxxxxx") (hex 4 (bit_and a' 0xffff)) from_4
          (matches-hex_group b'4' (bit_and a' 0xffff) (mask-lt 16 a' 0xffff refl)
            (ap (λ d. fits b'4' (hex_digit d)) (version_digit a)))
          (matches-dash (text "yxxx") (text "xxxxxxxxxxxx") (hex 4 (b' / 2 ^ 48))
            (hex 12 (bit_and b' 0xffffffffffff))
            (matches-hex_group b'y' (b' / 2 ^ 48) (omega (arith, with_variant-lt b)) (
              variant_fits (b' / 2 ^ 48 / 16 / 16 / 16 % 16) (variant_digit b).0
                (variant_digit b).1))
            (matches-hex 11 (bit_and b' 0xffffffffffff) (omega arith)
              (mask-lt 48 b' 0xffffffffffff refl)))))
  where
    a' : ℕ
    a' = with_version a

    b' : ℕ
    b' = with_variant b

    from_4 : Text
    from_4 = hex 4 (b' / 2 ^ 48) ++ b'-' ∷ hex 12 (bit_and b' 0xffffffffffff)

    from_3 : Text
    from_3 = hex 4 (bit_and a' 0xffff) ++ b'-' ∷ from_4

    from_2 : Text
    from_2 = hex 4 (bit_and (a' / 2 ^ 16) 0xffff) ++ b'-' ∷ from_3
