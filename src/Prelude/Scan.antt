-- ===== src/Prelude/Scan.antt =====
-- Formatted input of the standard library: words and unsigned numbers of a text.
use Prim.Native.Nat.{ℕ, ◌+◌, ◌-◌, ◌*◌, ◌^◌, ◌%◌}
use mathlib.Core.Bool.{Bool, true, false, ◌&&◌, ◌||◌, not}
use mathlib.Core.Option.{Option, none, some}
use mathlib.Core.List.{[], ◌∷◌}
use volta.Prelude.Tests.{leb, ◌==◌, if◌then◌else◌}
use volta.Prelude.Strings.{Text}

-- `isspace`: the blank and the bytes 9 to 13.
abbrev pub is_space : ℕ → Bool
is_space c = c == b' ' || (leb 9 c && leb c 13)

abbrev pub is_digit : ℕ → Bool
is_digit c = leb b'0' c && leb c b'9'

unfoldable pub skip_space : Text → Text
skip_space [] = []
skip_space (c ∷ cs) = let rest = skip_space cs in if is_space c then rest else c ∷ cs

-- The bytes up to the next space, and the rest.
unfoldable pub word : Text → Text × Text
word [] = ([], [])
word (c ∷ cs) = let (w, rest) = word cs in if is_space c then ([], c ∷ cs) else (c ∷ w, rest)

-- `>>` into a string: `none` at the end of the input, where the string is left as it is.
unfoldable pub read_word : Text → Option (Text × Text)
unfolding skip_space word
read_word t = elim (skip_space t) [ [] ↦ none | c ∷ cs ↦ some (word (c ∷ cs)) ]

-- The digits at the head of a text, read after `acc`; whether there is one; the rest.
unfoldable pub read_digits : ℕ → Bool → Text → ℕ × Bool × Text
read_digits acc seen [] = (acc, seen, [])
read_digits acc seen (c ∷ cs) =
    let more = read_digits (acc * 10 + (c - b'0')) true cs in
    if is_digit c then more else (acc, seen, c ∷ cs)

-- What `>>` into an unsigned variable does: nothing at the end of the input; a failure, which stores a
-- value; or a number and the rest.
pub data Extract : Type 0 where
  absent : Extract
  fails : ℕ → Extract
  number : ℕ → Text → Extract

-- A number below `2 ^ 64`, or its negation modulo `2 ^ 64`; no digits store 0, too many the maximum.
abbrev pub extracted : Bool → ℕ × Bool × Text → Extract
extracted negative (n, seen, rest) =
    if not seen
    then fails 0
    else if leb (2 ^ 64) n
    then fails (2 ^ 64 - 1)
    else number (if negative then (2 ^ 64 - n) % 2 ^ 64 else n) rest

unfoldable pub read_uint64 : Text → Extract
unfolding skip_space read_digits
read_uint64 t = elim (skip_space t) [
  | [] ↦ absent
  | c ∷ cs ↦
      if c == b'-'
      then extracted true (read_digits 0 false cs)
      else if c == b'+'
      then extracted false (read_digits 0 false cs)
      else extracted false (read_digits 0 false (c ∷ cs))
]
