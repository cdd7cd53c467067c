-- ===== src/Prelude/Pieces.antt =====
-- Pieces of a list: what `take` and `drop` leave of it.
use Prim.Native.Nat.{ℕ, zero, suc, ◌+◌, ◌-◌, ◌≤◌}
use mathlib.Core.Path.{◌≡◌, refl, sym, ap, ◌∙◌, subst}
use mathlib.Core.List.{List, [], ◌∷◌, ◌++◌, Sublist, sublist-append_left}
use native.Mathlib.Omega.{arith}
use volta.Prelude.Lists.{length, take, drop}

module _ {ℓ} {A : Type ℓ} where
  pub take-append : (n : ℕ) (xs ys : List A) → n ≤ length xs → take n (xs ++ ys) ≡ take n xs
  take-append zero xs ys h = refl
  take-append (suc n) [] ys h = absurd (omega arith)
  take-append (suc n) (x ∷ xs) ys h = ap (λ l. x ∷ l) (take-append n xs ys (omega arith))

  pub take-append-drop : (n : ℕ) (xs : List A) → take n xs ++ drop n xs ≡ xs
  take-append-drop zero xs = refl
  take-append-drop (suc n) [] = refl
  take-append-drop (suc n) (x ∷ xs) = ap (λ l. x ∷ l) (take-append-drop n xs)

  pub take_all : (n : ℕ) (xs : List A) → length xs ≤ n → take n xs ≡ xs
  take_all zero [] h = refl
  take_all zero (x ∷ xs) h = absurd (omega arith)
  take_all (suc n) [] h = refl
  take_all (suc n) (x ∷ xs) h = ap (λ l. x ∷ l) (take_all n xs (omega arith))

  pub drop_all : (n : ℕ) (xs : List A) → length xs ≤ n → drop n xs ≡ []
  drop_all zero [] h = refl
  drop_all zero (x ∷ xs) h = absurd (omega arith)
  drop_all (suc n) [] h = refl
  drop_all (suc n) (x ∷ xs) h = drop_all n xs (omega arith)

  take_nil : (n : ℕ) → take {A = A} n [] ≡ []
  take_nil zero = refl
  take_nil (suc n) = refl

  -- The piece from `s` on, `n` long, follows the first `s`.
  pub take_piece : (s n : ℕ) (xs : List A) → take (s + n) xs ≡ take s xs ++ take n (drop s xs)
  take_piece zero n xs = ap (λ k. take k xs) (omega arith)
  take_piece (suc s) n [] = take_nil (suc s + n) ∙ sym (take_nil n)
  take_piece (suc s) n (x ∷ xs) =
      ap (λ k. take k (x ∷ xs)) (let e : suc s + n ≡ suc (s + n) = omega arith in e)
      ∙ ap (λ l. x ∷ l) (take_piece s n xs)

  pub take-sublist : (n : ℕ) (xs : List A) → Sublist (take n xs) xs
  take-sublist n xs =
      subst (Sublist (take n xs)) (take-append-drop n xs)
        (sublist-append_left (take n xs) (drop n xs))

  -- The first `m` are among the first `n`, if `n` is not less.
  pub take-take-sublist : (m n : ℕ) (xs : List A) → m ≤ n → Sublist (take m xs) (take n xs)
  take-take-sublist m n xs h =
      subst (Sublist (take m xs))
        (sym (take_piece m (n - m) xs) ∙ ap (λ k. take k xs) (omega arith))
        (sublist-append_left (take m xs) (take (n - m) (drop m xs)))
