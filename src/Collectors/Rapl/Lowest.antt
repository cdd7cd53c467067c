-- ===== src/Collectors/Rapl/Lowest.antt =====
-- `OpenMSR`: the file that is read is that of the lowest-numbered CPU whose file opens.
use volta.Prelude.{
  ℕ, ◌≤◌, ◌≡◌, refl, ap, subst, ◌∙◌, true, false, Option, none, some, List, [], ◌∷◌, arith,
  is_empty, if◌then◌else◌, leb, Bool-cases, Option-cases, inl, inr,
}
use volta.Collectors.Rapl.{
  Entry, Result, ok, throws, msr_open, msr_read, insert, sort, open_files, cpu_entries, open_msr,
}

-- The lower of a CPU, if its file opens, and of one that is known.
abbrev lower : ℕ × Option ℕ → Option (ℕ × ℕ) → Option (ℕ × ℕ)
lower (id, none) known = known
lower (id, some fd) none = some (id, fd)
lower (id, some fd) (some (j, g)) = if leb id j then some (id, fd) else some (j, g)

-- The lowest CPU whose file opens, with its file.
abbrev pub lowest : List (ℕ × Option ℕ) → Option (ℕ × ℕ)
lowest [] = none
lowest (e ∷ es) = lower e (lowest es)

abbrev pub file_of : Option (ℕ × ℕ) → Option ℕ
file_of none = none
file_of (some (_, fd)) = some fd

-- The file that `ReadMSR` reads.
abbrev first_file : List ℕ → Option ℕ
first_file [] = none
first_file (fd ∷ _) = some fd

lower-lower :
    (id j : ℕ) (msr other : Option ℕ) (known : Option (ℕ × ℕ))
    → leb id j ≡ false
    → lower (j, other) (lower (id, msr) known) ≡ lower (id, msr) (lower (j, other) known)
lower-lower id j none other known h = refl
lower-lower id j (some fd) none known h = refl
lower-lower id j (some fd) (some g) none h = ground arith
lower-lower id j (some fd) (some g) (some (k, f)) h = ground arith

lowest-insert :
    (id : ℕ) (msr : Option ℕ) (es : List (ℕ × Option ℕ))
    → lowest (insert (id, msr) es) ≡ lower (id, msr) (lowest es)
unfolding insert
lowest-insert id msr [] = refl
lowest-insert id msr ((j, other) ∷ rest) = elim (Bool-cases (leb id j)) [
  | inl h ↦ rw h refl
  | inr h ↦ rw h (
      ap (lower (j, other)) (lowest-insert id msr rest)
      ∙ lower-lower id j msr other (lowest rest) h)
]

lowest-sort : (es : List (ℕ × Option ℕ)) → lowest (sort es) ≡ lowest es
unfolding sort
lowest-sort [] = refl
lowest-sort ((id, msr) ∷ es) =
    lowest-insert id msr (sort es) ∙ ap (lower (id, msr)) (lowest-sort es)

-- In order of their numbers.
abbrev From : ℕ → List (ℕ × Option ℕ) → Type 0
From n [] = Unit
From n ((j, _) ∷ es) = (n ≤ j) × From j es

insert-From :
    (n id : ℕ) (msr : Option ℕ) (es : List (ℕ × Option ℕ))
    → n ≤ id
    → From n es
    → From n (insert (id, msr) es)
unfolding insert
insert-From n id msr [] h s = (h, tt)
insert-From n id msr ((j, other) ∷ rest) h s = elim (Bool-cases (leb id j)) [
  | inl le ↦ rw le (h, (ground (arith, le), s.1))
  | inr gt ↦ rw gt (s.0, insert-From j id msr rest (ground arith) s.1)
]

sort-From : (es : List (ℕ × Option ℕ)) → From 0 (sort es)
unfolding sort
sort-From [] = tt
sort-From ((id, msr) ∷ es) = insert-From 0 id msr (sort es) (omega arith) (sort-From es)

-- No lower CPU stands in an ordered list.
abbrev AtLeast : ℕ → Option (ℕ × ℕ) → Type 0
AtLeast n none = Unit
AtLeast n (some (j, _)) = n ≤ j

From-le : (n j : ℕ) (es : List (ℕ × Option ℕ)) → n ≤ j → From j es → From n es
From-le n j [] h s = tt
From-le n j ((k, _) ∷ es) h s = (omega (arith, s.0), s.1)

AtLeast-lower :
    (n j fd : ℕ) (known : Option (ℕ × ℕ))
    → n ≤ j
    → AtLeast n known
    → AtLeast n (lower (j, some fd) known)
AtLeast-lower n j fd none h k = h
AtLeast-lower n j fd (some (m, g)) h k = elim (Bool-cases (leb j m)) [
  | inl e ↦ rw e h
  | inr e ↦ rw e k
]

lowest-AtLeast : (n : ℕ) (es : List (ℕ × Option ℕ)) → From n es → AtLeast n (lowest es)
lowest-AtLeast n [] s = tt
lowest-AtLeast n ((j, none) ∷ es) s = lowest-AtLeast n es (From-le n j es s.0 s.1)
lowest-AtLeast n ((j, some fd) ∷ es) s =
    AtLeast-lower n j fd (lowest es) s.0 (lowest-AtLeast n es (From-le n j es s.0 s.1))

first_file-ordered :
    (n : ℕ) (es : List (ℕ × Option ℕ))
    → From n es
    → first_file (open_files es) ≡ file_of (lowest es)
unfolding open_files
first_file-ordered n [] s = refl
first_file-ordered n ((j, none) ∷ es) s = first_file-ordered j es s.1
first_file-ordered n ((j, some fd) ∷ es) s = elim (Option-cases (lowest es)) [
  | inl e ↦ rw e refl
  | inr ((k, g), e) ↦
      let later : j ≤ k = subst (AtLeast j) e (lowest-AtLeast j es s.1) in
      let chosen : leb j k ≡ true = ground arith in rw (e, chosen) refl
]

-- The file that `ReadMSR` reads after `OpenMSR`, or the exception that is thrown: without a file the one of
-- `ReadMSR`.
abbrev pub read_file : Result (List ℕ) → Result ℕ
read_file (throws e) = throws e
read_file (ok []) = throws msr_read
read_file (ok (fd ∷ _)) = ok fd

-- The file of a CPU, or the exception of `OpenMSR`.
abbrev pub file_or_throw : Option ℕ → Result ℕ
file_or_throw none = throws msr_open
file_or_throw (some fd) = ok fd

read_file-open_files :
    (files : List ℕ)
    → read_file (if is_empty files then throws msr_open else ok files)
      ≡ file_or_throw (first_file files)
read_file-open_files [] = refl
read_file-open_files (fd ∷ files) = refl

open_msr-found :
    (entries : List Entry) (found : List (ℕ × Option ℕ))
    → cpu_entries entries ≡ some found
    → open_msr (some entries) ≡ (
        if is_empty (open_files (sort found))
        then throws msr_open
        else ok (open_files (sort found)))
unfolding open_msr
open_msr-found entries found e = rw (e, open_msr) refl

-- Where no CPU's number is out of range: of the entries of /dev/cpu that name CPUs, in whatever order
-- they are listed, the file that the collector reads after `OpenMSR` is that of the lowest-numbered one
-- whose file opens; where none opens, `OpenMSR` throws its exception.
pub open_msr-lowest :
    (entries : List Entry) (found : List (ℕ × Option ℕ))
    → cpu_entries entries ≡ some found
    → read_file (open_msr (some entries)) ≡ file_or_throw (file_of (lowest found))
open_msr-lowest entries found e =
    ap read_file (open_msr-found entries found e)
    ∙ read_file-open_files (open_files (sort found))
    ∙ ap file_or_throw
        (first_file-ordered 0 (sort found) (sort-From found) ∙ ap file_of (lowest-sort found))
