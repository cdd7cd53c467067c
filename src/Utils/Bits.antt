-- ===== src/Utils/Bits.antt =====
-- The digit laws of the binary operations, at shifts and masks.
use Prim.Native.Nat.{bit_and, bit_or, bit_and-bitwise, bit_or-bitwise, digits, min, max}
use volta.Prelude.{ℕ, zero, suc, ◌+◌, ◌*◌, ◌/◌, ◌%◌, ◌≤◌, ◌<◌, ◌≡◌, refl, sym, ap, ◌∙◌, arith}

-- A shift to the right.
abbrev pub half : ℕ → ℕ → ℕ
half zero n = n
half (suc k) n = half k (n / 2)

-- A shift to the left.
abbrev pub double : ℕ → ℕ → ℕ
double zero n = n
double (suc k) n = double k n * 2

pub half-lt : (k n q : ℕ) → half k n ≤ q → n < double k (q + 1)
half-lt zero n q h = omega arith
half-lt (suc k) n q h = omega (arith, half-lt k (n / 2) q h)

pub half-le : (k n q : ℕ) → q ≤ half k n → double k q ≤ n
half-le zero n q h = omega arith
half-le (suc k) n q h = omega (arith, half-le k (n / 2) q h)

-- One law for the operations, from what they stand for: `z` where the first number has no digits left, and
-- `f` of two digits.
module _ (z : ℕ → ℕ) (f : ℕ → ℕ → ℕ) where
  digits_none : (n b : ℕ) → digits z f n 0 b ≡ z b
  digits_none zero b = refl
  digits_none (suc n) b = refl

  -- Rounds beyond the first number change nothing.
  digits_spare :
      (less more a b : ℕ) → a ≤ less → less ≤ more → digits z f more a b ≡ digits z f less a b
  digits_spare less more zero b enough spare = digits_none more b ∙ sym (digits_none less b)
  digits_spare zero more (suc a) b enough spare = absurd (omega arith)
  digits_spare (suc less) zero (suc a) b enough spare = absurd (omega arith)
  digits_spare (suc less) (suc more) (suc a) b enough spare =
      ap (λ rest. rest * 2 + f (suc a % 2) (b % 2))
        (digits_spare less more (suc a / 2) (b / 2) (omega arith) (omega arith))

  digits_step :
      (a b : ℕ)
      → z b ≡ z (b / 2) * 2 + f 0 (b % 2)
      → digits z f a a b ≡ digits z f (a / 2) (a / 2) (b / 2) * 2 + f (a % 2) (b % 2)
  digits_step zero b h = h
  digits_step (suc a) b h =
      ap (λ rest. rest * 2 + f (suc a % 2) (b % 2))
        (digits_spare (suc a / 2) a (suc a / 2) (b / 2) (omega arith) (omega arith))

-- The lowest digit, and the rest of them.
module _ (x y : ℕ) where
  pub and_lowest : bit_and x y ≡ min (x % 2) (y % 2) + 2 * bit_and (x / 2) (y / 2)
  and_lowest =
      let whole = bit_and-bitwise x y in
      let rest = bit_and-bitwise (x / 2) (y / 2) in
      omega (arith, whole, rest, digits_step (λ _. 0) min x y (omega arith))

  pub or_lowest : bit_or x y ≡ max (x % 2) (y % 2) + 2 * bit_or (x / 2) (y / 2)
  or_lowest =
      let whole = bit_or-bitwise x y in
      let rest = bit_or-bitwise (x / 2) (y / 2) in
      omega (arith, whole, rest, digits_step (λ d. d) max x y (omega arith))

pub half-bit_and : (k a b : ℕ) → half k (bit_and a b) ≡ bit_and (half k a) (half k b)
half-bit_and zero a b = refl
half-bit_and (suc k) a b =
    ap (half k)
      (let e : bit_and a b / 2 ≡ bit_and (a / 2) (b / 2) = omega (arith, and_lowest a b) in e)
    ∙ half-bit_and k (a / 2) (b / 2)

pub half-bit_or : (k a b : ℕ) → half k (bit_or a b) ≡ bit_or (half k a) (half k b)
half-bit_or zero a b = refl
half-bit_or (suc k) a b =
    ap (half k)
      (let e : bit_or a b / 2 ≡ bit_or (a / 2) (b / 2) = omega (arith, or_lowest a b) in e)
    ∙ half-bit_or k (a / 2) (b / 2)

digits_masked : (n a : ℕ) → digits (λ _. 0) min n a 0 ≡ 0
digits_masked zero a = refl
digits_masked (suc n) zero = refl
digits_masked (suc n) (suc a) = omega (arith, digits_masked n (suc a / 2))

pub bit_and_zero : (a : ℕ) → bit_and a 0 ≡ 0
bit_and_zero a = bit_and-bitwise a 0 ∙ digits_masked a a

pub bit_or_zero : (b : ℕ) → bit_or 0 b ≡ b
bit_or_zero b = bit_or-bitwise 0 b
