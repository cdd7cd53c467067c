-- ===== src/Exporter/Rows.antt =====
-- The rows of a dump read back: four fields to a line.
use volta.Prelude.{
  ℕ, ◌≡◌, refl, ap, ap₂, append_assoc, ◌∙◌, Option, none, some, List, [], ◌∷◌, ◌++◌, arith, Text,
  text, dec, dec_int64, dec-Free, dec_int64-Free, Free, Free-append, if◌then◌else◌, ◌==◌, map,
}
use volta.Metric.{Metric, DeviceId}
use volta.Exporter.{Printer, describe_id, describe_device, row, rows}

-- Cut a text at each byte `c`; the last piece is what follows the last one.
unfoldable pub split : ℕ → Text → Text × List Text
split c [] = ([], [])
split c (x ∷ xs) =
    let (field, fields) = split c xs in if x == c then ([], field ∷ fields) else (x ∷ field, fields)

split-Free : (c : ℕ) (t : Text) → Free c t → split c t ≡ (t, [])
unfolding split
split-Free c [] h = refl
split-Free c (x ∷ t) h = ground (arith, split-Free c t h.1)

split-append :
    (c : ℕ) (t rest : Text)
    → Free c t
    → split c (t ++ c ∷ rest) ≡ (t, (split c rest).0 ∷ (split c rest).1)
unfolding split
split-append c [] rest h = ground arith
split-append c (x ∷ t) rest h = ground (arith, split-append c t rest h.1)

-- Neither the field separator `;` nor a line feed stands in the text.
abbrev pub Plain : Text → Type 0
Plain t = Free 59 t × Free 10 t

-- A text of decimal numbers and the words of the program.
Plain-dec : (n : ℕ) → Plain (dec n)
Plain-dec n = (dec-Free 59 n refl, dec-Free 10 n refl)

Plain-append : (s t : Text) → Plain s → Plain t → Plain (s ++ t)
Plain-append s t h k = (Free-append 59 s t h.0 k.0, Free-append 10 s t h.1 k.1)

Plain-describe_id : (d : DeviceId) → Plain (describe_id d)
unfolding describe_id
Plain-describe_id (DeviceId.gpu a b c f) = Plain-append (text "gpu=") _ (ground arith) (
    Plain-append (dec a) _ (Plain-dec a) (
      Plain-append (text ":") _ (ground arith) (
        Plain-append (dec b) _ (Plain-dec b) (
          Plain-append (text ":") _ (ground arith) (
            Plain-append (dec c) _ (Plain-dec c)
              (Plain-append (text ".") _ (ground arith) (Plain-dec f)))))))
Plain-describe_id (DeviceId.cpu s c) =
    Plain-append (text "cpu=") _ (ground arith) (
      Plain-append (dec s) _ (Plain-dec s) (Plain-append (text "/") _ (ground arith) (Plain-dec c)))
Plain-describe_id (DeviceId.net i) =
    Plain-append (text "net_ifindex=") _ (ground arith) (Plain-dec i)
Plain-describe_id (DeviceId.disk a b) =
    Plain-append (text "disk=") _ (ground arith) (
      Plain-append (dec a) _ (Plain-dec a) (Plain-append (text ":") _ (ground arith) (Plain-dec b)))

Plain-describe_device : (d : Option DeviceId) → Plain (describe_device d)
unfolding describe_device
Plain-describe_device none = ground arith
Plain-describe_device (some d) = Plain-describe_id d

-- The complete lines of a text, and the fields of a line.
abbrev all_but_last : List Text → List Text
all_but_last [] = []
all_but_last (x ∷ []) = []
all_but_last (x ∷ (y ∷ ys)) = x ∷ all_but_last (y ∷ ys)

unfoldable pub lines : Text → List Text
lines t = let (first, others) = split 10 t in all_but_last (first ∷ others)

unfoldable pub fields : Text → List Text
fields line = let (first, others) = split 59 line in first ∷ others

unfoldable pub read_rows : Text → List (List Text)
read_rows t = map fields (lines t)

lines-append : (l rest : Text) → Free 10 l → lines (l ++ 10 ∷ rest) ≡ l ∷ lines rest
unfolding lines
lines-append l rest h = rw (split-append 10 l rest h)

lines-nil : lines [] ≡ []
unfolding lines split
lines-nil = refl

module _ (p : Printer) where
  -- What the row of a metric says.
  abbrev pub entry : Metric → List Text
  entry m =
      p.metric_type_name m.type
      ∷ describe_device m.dev_id
      ∷ dec_int64 m.timestamp
      ∷ p.show_double m.value
      ∷ []

  -- A row without its line feed.
  abbrev body : Metric → Text
  body m =
      p.metric_type_name m.type
      ++ 59
        ∷ (describe_device m.dev_id ++ 59 ∷ (dec_int64 m.timestamp ++ 59 ∷ p.show_double m.value))

  row-body : (m : Metric) (rest : Text) → row p m ++ rest ≡ body m ++ 10 ∷ rest
  unfolding row
  row-body m rest = simp append_assoc

  fields-body :
      (m : Metric)
      → Plain (p.metric_type_name m.type)
      → Plain (p.show_double m.value)
      → fields (body m) ≡ entry m
  unfolding fields
  fields-body m n v = rw (split-append 59 (p.metric_type_name m.type) _ n.0) (
      rw (split-append 59 (describe_device m.dev_id) _ (Plain-describe_device m.dev_id).0) (
        rw (split-append 59 (dec_int64 m.timestamp) _ (dec_int64-Free 59 m.timestamp refl))
          (rw (split-Free 59 (p.show_double m.value) v.0))))

  Free-body :
      (m : Metric)
      → Plain (p.metric_type_name m.type)
      → Plain (p.show_double m.value)
      → Free 10 (body m)
  Free-body m n v = Free-append 10 (p.metric_type_name m.type) _ n.1 (
    refl,
    Free-append 10 (describe_device m.dev_id) _ (Plain-describe_device m.dev_id).1 (
      refl,
      Free-append 10 (dec_int64 m.timestamp) _ (dec_int64-Free 10 m.timestamp refl) (refl, v.1),
    ),
  )

  -- If the names of the metric types and the printed values hold no `;` and no line feed, then the
  -- rows of a dump read back as one line of four fields for each metric, in order: the type's name,
  -- the device, the timestamp and the value.
  pub read_rows-rows :
      (ms : List Metric)
      → ((type : ℕ) → Plain (p.metric_type_name type))
      → ((value : ℕ) → Plain (p.show_double value))
      → read_rows (rows p ms) ≡ map entry ms
  unfolding read_rows rows
  read_rows-rows [] n v = ap (map fields) lines-nil
  read_rows-rows (m ∷ ms) n v =
      ap (λ t. map fields (lines t)) (row-body m (rows p ms))
      ∙ ap (map fields) (lines-append (body m) (rows p ms) (Free-body m (n m.type) (v m.value)))
      ∙ ap₂ ◌∷◌ (fields-body m (n m.type) (v m.value)) (read_rows-rows ms n v)
