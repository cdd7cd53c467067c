-- ===== src/Utils/Hex.antt =====
-- Padded hexadecimal numbers, and patterns of their bytes.
use volta.Prelude.{
  ℕ, zero, suc, ◌-◌, ◌*◌, ◌/◌, ◌%◌, ◌<◌, ◌^◌, ◌≡◌, refl, sym, ap, ap₂, ◌∙◌, Bool, true, false, ◌&&◌,
  ◌||◌, [], ◌∷◌, ◌++◌, append_assoc, arith, Text, text, length, length-append, replicate, ltb,
  lt→ltb, leb, ◌==◌, if◌then◌else◌, Bool-cases, inl, inr,
}
use volta.Utils.{hex_digit, hex_from, hex}

abbrev is_hex : ℕ → Bool
is_hex c = (leb b'0' c && leb c b'9') || (leb b'a' c && leb c b'f')

-- A byte of a pattern: `x` any lower-case digit, `y` one whose two highest bits are 10, else itself.
abbrev pub fits : ℕ → ℕ → Bool
fits p c =
    if p == b'x'
    then is_hex c
    else if p == b'y'
    then (c == b'8' || (c == b'9' || (c == b'a' || c == b'b')))
    else p == c

abbrev pub matches : Text → Text → Bool
matches [] [] = true
matches [] (_ ∷ _) = false
matches (_ ∷ _) [] = false
matches (p ∷ ps) (c ∷ cs) = fits p c && matches ps cs

matches-append :
    (ps qs xs ys : Text)
    → matches ps xs ≡ true
    → matches qs ys ≡ true
    → matches (ps ++ qs) (xs ++ ys) ≡ true
matches-append [] qs [] ys h k = k
matches-append [] qs (x ∷ xs) ys h k = absurd (ground arith)
matches-append (p ∷ ps) qs [] ys h k = absurd (ground arith)
matches-append (p ∷ ps) qs (x ∷ xs) ys h k = ground (arith, matches-append ps qs xs ys)

replicate-suc : (n c : ℕ) → replicate (suc n) c ≡ replicate n c ++ c ∷ []
replicate-suc zero c = refl
replicate-suc (suc n) c = ap (λ (t : Text). c ∷ t) (replicate-suc n c)

-- The last `w` digits.
abbrev fixed : ℕ → ℕ → Text
fixed zero n = []
fixed (suc w) n = fixed w (n / 16) ++ hex_digit (n % 16) ∷ []

abbrev pow16 : ℕ → ℕ
pow16 zero = 1
pow16 (suc w) = pow16 w * 16

is_hex-hex_digit : (d : ℕ) → d < 16 → is_hex (hex_digit d) ≡ true
is_hex-hex_digit d h = ground arith

matches-fixed : (w n : ℕ) → matches (replicate w b'x') (fixed w n) ≡ true
matches-fixed zero n = refl
matches-fixed (suc w) n =
    ap (λ p. matches p (fixed (suc w) n)) (replicate-suc w b'x')
    ∙ matches-append (replicate w b'x') (b'x' ∷ []) (fixed w (n / 16)) (hex_digit (n % 16) ∷ [])
        (matches-fixed w (n / 16)) (ground (arith, is_hex-hex_digit (n % 16)))

fixed_zero : (w : ℕ) → replicate w b'0' ≡ fixed w 0
fixed_zero zero = refl
fixed_zero (suc w) = replicate-suc w b'0' ∙ ap (λ t. t ++ b'0' ∷ []) (fixed_zero w)

-- One digit, padded, and one digit more.
pad_digit : (w n : ℕ) → n < 16 → replicate (suc w - 1) b'0' ++ hex_digit n ∷ [] ≡ fixed (suc w) n
pad_digit w n h =
    ap₂ (λ (s : Text) (d : ℕ). s ++ d ∷ [])
      (ap (λ m. replicate m b'0') (let e : suc w - 1 ≡ w = omega arith in e)
        ∙ fixed_zero w
        ∙ ap (fixed w) (let e : 0 ≡ n / 16 = omega arith in e))
      (ap hex_digit (let e : n ≡ n % 16 = omega arith in e))

pad_more :
    (w : ℕ) (more rest : Text) (d : ℕ)
    → replicate (suc w - length more) b'0' ++ more ≡ rest
    → replicate (suc (suc w) - length (more ++ d ∷ [])) b'0' ++ (more ++ d ∷ []) ≡ rest ++ d ∷ []
pad_more w more rest d h =
    ap (λ m. replicate m b'0' ++ (more ++ d ∷ []))
      (let e : suc (suc w) - length (more ++ d ∷ []) ≡ suc w - length more =
          omega (arith, length-append more (d ∷ [])) in
        e)
    ∙ sym (append_assoc (replicate (suc w - length more) b'0') more (d ∷ []))
    ∙ ap (λ s. s ++ d ∷ []) h

hex_from-fixed :
    (f w n : ℕ)
    → w < f
    → n < pow16 (suc w)
    → replicate (suc w - length (hex_from f n)) b'0' ++ hex_from f n ≡ fixed (suc w) n
unfolding hex_from
hex_from-fixed zero w n h k = absurd (omega arith)
hex_from-fixed (suc f) zero n h k = rw (lt→ltb n 16 (omega arith)) (pad_digit 0 n (omega arith))
hex_from-fixed (suc f) (suc w) n h k = elim (Bool-cases (ltb n 16)) [
  | inl small ↦ rw small (pad_digit (suc w) n (ground arith))
  | inr large ↦ rw large (
      pad_more w (hex_from f (n / 16)) (fixed (suc w) (n / 16)) (hex_digit (n % 16))
        (hex_from-fixed f w (n / 16) (omega arith) (omega arith)))
]

hex-fixed : (w n : ℕ) → w < 16 → n < pow16 (suc w) → hex (suc w) n ≡ fixed (suc w) n
unfolding hex
hex-fixed w n h k = hex_from-fixed 16 w n h k

-- A group whose first digit is read by a pattern's byte of its own.
matches-group :
    (p x : ℕ)
    → fits p (hex_digit (x / 16 / 16 / 16 % 16)) ≡ true
    → matches (p ∷ text "xxx") (fixed 4 x) ≡ true
matches-group p x h = ground (arith, h, matches-fixed 3 x)

pub matches-hex :
    (w n : ℕ) → w < 16 → n < pow16 (suc w) → matches (replicate (suc w) b'x') (hex (suc w) n) ≡ true
matches-hex w n h k =
    ap (matches (replicate (suc w) b'x')) (hex-fixed w n h k) ∙ matches-fixed (suc w) n

pub matches-hex_group :
    (p x : ℕ)
    → x < 2 ^ 16
    → fits p (hex_digit (x / 16 / 16 / 16 % 16)) ≡ true
    → matches (p ∷ text "xxx") (hex 4 x) ≡ true
matches-hex_group p x h k =
    ap (matches (p ∷ text "xxx")) (hex-fixed 3 x (omega arith) h) ∙ matches-group p x k

-- A group and the dash after it.
pub matches-dash :
    (ps qs xs ys : Text)
    → matches ps xs ≡ true
    → matches qs ys ≡ true
    → matches (ps ++ b'-' ∷ qs) (xs ++ b'-' ∷ ys) ≡ true
matches-dash ps qs xs ys h k = matches-append ps (b'-' ∷ qs) xs (b'-' ∷ ys) h k
