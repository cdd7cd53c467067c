-- ===== src/Buffer/Series/Window.antt =====
-- Reading the storage of a ring round its end, and writing just past what is read.
use native.Mathlib.Nat.{mod-add-mod, mod-eq_of_lt, mod-eq-sub-mod, mod-lt}
use native.Mathlib.Decide.{dec_lt}
use volta.Prelude.{
  ℕ, zero, suc, ◌+◌, ◌-◌, ◌%◌, ◌<◌, ◌≡◌, ◌≢◌, refl, sym, ap, ap₂, ◌∙◌, List, [], ◌∷◌, ◌++◌, arith,
  length, get_or, set, drop, get_or-set_self, get_or-set_ne,
}
use volta.Buffer.Series.{Sample, zero_sample, copy_from}

-- Fewer than `c` steps round the ring do not come back to the start.
residue-ne : {c r k : ℕ} → r < c → suc k < c → (r + suc k) % c ≢ r
residue-ne {c} {r} {k} hr hk = elim (dec_lt (r + suc k) c) [
  | yes p ↦ omega (arith, mod-eq_of_lt p)
  | no p ↦ omega (
    arith,
    mod-eq-sub-mod {n = r + suc k} {m = c} (omega arith),
    mod-eq_of_lt {n = r + suc k - c} {m = c} (omega arith),
  )
]

index-ne : (c i k : ℕ) → suc k < c → (i + suc k) % c ≢ i % c
index-ne c i k hk e =
    residue-ne {c = c} {r = i % c} {k = k} (omega arith) hk (mod-add-mod i c (suc k) ∙ e)

pub length-copy_from : (samples : List Sample) (c i n : ℕ) → length (copy_from samples c i n) ≡ n
length-copy_from samples c i zero = refl
length-copy_from samples c i (suc n) = ap suc (length-copy_from samples c (i + 1) n)

-- Writing just past a window of fewer than `c` samples extends it by that sample.
pub copy_from-set :
    (samples : List Sample) (c i n j : ℕ) (x : Sample)
    → length samples ≡ c
    → n < c
    → j ≡ (i + n) % c
    → copy_from (set samples j x) c i (suc n) ≡ copy_from samples c i n ++ x ∷ []
copy_from-set samples c i zero j x hs hn e =
    ap (λ (y : Sample). y ∷ [])
      (ap (λ k. get_or (set samples j x) k zero_sample) (ap (λ k. k % c) (omega arith) ∙ sym e)
        ∙ get_or-set_self samples j x zero_sample
            (let b : 0 < c = omega arith in omega (arith, mod-lt (i + 0) {m = c} b)))
copy_from-set samples c i (suc n) j x hs hn e =
    ap₂ ◌∷◌ (get_or-set_ne samples x zero_sample (λ q. index-ne c i n hn (sym e ∙ q))) (
      copy_from-set samples c (i + 1) n j x hs (omega arith)
        (e ∙ ap (λ k. k % c) (let r : i + suc n ≡ i + 1 + n = omega arith in r)))

-- Leaving the first samples of a window out.
pub drop-copy_from :
    (samples : List Sample) (c i n k : ℕ)
    → drop k (copy_from samples c i n) ≡ copy_from samples c (i + k) (n - k)
drop-copy_from samples c i n zero = ap₂ (copy_from samples c) (start i) (all_left n)
  where
    start : (i : ℕ) → i ≡ i + 0
    start i = omega arith

    all_left : (n : ℕ) → n ≡ n - 0
    all_left n = omega arith
drop-copy_from samples c i zero (suc k) = ap (copy_from samples c (i + suc k)) (none_left k)
  where
    none_left : (k : ℕ) → 0 ≡ 0 - suc k
    none_left k = omega arith
drop-copy_from samples c i (suc n) (suc k) =
    drop-copy_from samples c (i + 1) n k ∙ ap₂ (copy_from samples c) (start i k) (left n k)
  where
    start : (i k : ℕ) → i + 1 + k ≡ i + suc k
    start i k = omega arith

    left : (n k : ℕ) → n - k ≡ suc n - suc k
    left n k = omega arith
