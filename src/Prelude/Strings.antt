-- ===== src/Prelude/Strings.antt =====
-- Text as the list of its bytes, decimal numbers, and the standard library's tests on text.
use Prim.Native.Nat.{ℕ, zero, suc, ◌+◌, ◌-◌, ◌/◌, ◌%◌, ◌^◌}
use Prim.Native.Char.{code}
use Prim.Native.String.{String}
use mathlib.Core.Path.{◌≡◌, refl}
use mathlib.Core.Logic.{inl, inr}
use mathlib.Core.Bool.{Bool, true, false, ◌&&◌, ◌||◌}
use mathlib.Core.List.{List, [], ◌∷◌, ◌++◌}
use native.Mathlib.Omega.{arith}
use volta.Prelude.Tests.{ltb, ◌==◌, if◌then◌else◌, Bool-cases}

abbrev pub Text : Type 0
Text = List ℕ

-- The bytes of a literal, which is ASCII throughout the program.
abbrev pub text : String → Text
text String.[] = []
text (String.◌∷◌ c s) = code c ∷ text s

infix 50 ◌=t=◌
abbrev pub ◌=t=◌ : Text → Text → Bool
[] =t= [] = true
[] =t= (_ ∷ _) = false
(_ ∷ _) =t= [] = false
(x ∷ xs) =t= (y ∷ ys) = x == y && (xs =t= ys)

-- `std::string::starts_with`
abbrev pub starts_with : Text → Text → Bool
starts_with _ [] = true
starts_with [] (_ ∷ _) = false
starts_with (x ∷ xs) (p ∷ ps) = x == p && starts_with xs ps

pub starts_with-append : (p s : Text) → starts_with (p ++ s) p ≡ true
starts_with-append [] [] = refl
starts_with-append [] (x ∷ s) = refl
starts_with-append (x ∷ p) s = ground (arith, starts_with-append p s)

-- The decimal digits of a number, most significant first. A `uint64_t` has at most twenty.
dec_from : ℕ → ℕ → Text → Text
dec_from zero n acc = acc
dec_from (suc f) n acc =
    let more = dec_from f (n / 10) ((b'0' + n % 10) ∷ acc) in
    if ltb n 10 then (b'0' + n) ∷ acc else more

unfoldable pub dec : ℕ → Text
unfolding dec_from
dec n = dec_from 20 n []

-- An `int64_t`, given by its bit pattern.
unfoldable pub dec_int64 : ℕ → Text
dec_int64 n = if ltb n (2 ^ 63) then dec n else b'-' ∷ dec (2 ^ 64 - n)

-- No byte of the text is `c`.
abbrev pub Free : ℕ → Text → Type 0
Free c [] = Unit
Free c (x ∷ xs) = ((x == c) ≡ false) × Free c xs

pub Free-append : (c : ℕ) (xs ys : Text) → Free c xs → Free c ys → Free c (xs ++ ys)
Free-append c [] ys h k = k
Free-append c (x ∷ xs) ys h k = (h.0, Free-append c xs ys h.1 k)

-- The byte is neither a digit nor one of `-`, `.` and `/` below the digits.
abbrev pub IsSeparator : ℕ → Type 0
IsSeparator c = (ltb c b'-' || ltb b'9' c) ≡ true

dec_from-Free : (c f n : ℕ) (acc : Text) → IsSeparator c → Free c acc → Free c (dec_from f n acc)
unfolding dec_from
dec_from-Free c zero n acc h k = k
dec_from-Free c (suc f) n acc h k =
    ground (arith, dec_from-Free c f (n / 10) ((b'0' + n % 10) ∷ acc) h)

pub dec-Free : (c n : ℕ) → IsSeparator c → Free c (dec n)
unfolding dec
dec-Free c n h = dec_from-Free c 20 n [] h tt

pub dec_int64-Free : (c n : ℕ) → IsSeparator c → Free c (dec_int64 n)
unfolding dec_int64
dec_int64-Free c n h = elim (Bool-cases (ltb n (2 ^ 63))) [
  | inl e ↦ rw e (dec-Free c n h)
  | inr e ↦ rw e (ground (arith), dec-Free c (2 ^ 64 - n) h)
]
