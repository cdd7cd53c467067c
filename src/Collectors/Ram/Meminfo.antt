-- ===== src/Collectors/Ram/Meminfo.antt =====
-- What `ReadStats` reads in a /proc/meminfo of the usual form.
use volta.Prelude.{
  ℕ, ◌-◌, ◌*◌, ◌≤◌, ◌<◌, ◌^◌, ◌≡◌, refl, ap, ◌∙◌, true, false, ◌&&◌, some, List, [], ◌∷◌, ◌++◌,
  Text, text, ◌=t=◌, arith, All, ltb, mul64, sub64, number, read_word, read_uint64,
}
use volta.Collectors.Ram.{Stats, after_number, scan_line, take_value, read_lines, read_stats}

-- A line with a key that `ReadStats` does not look for.
pub record IsOther (line : Text) : Type 0 where
  pub word : Text
  pub after_key : Text
  pub key_read : read_word line ≡ some (word, after_key)
  pub not_total : (word =t= text "MemTotal:") ≡ false
  pub not_available : (word =t= text "MemAvailable:") ≡ false

-- A line with the key and the number.
pub record IsEntry (key : Text) (n : ℕ) (line : Text) : Type 0 where
  pub after_key : Text
  pub after_value : Text
  pub key_read : read_word line ≡ some (key, after_key)
  pub value_read : read_uint64 after_key ≡ number n after_value

scan_line_lem :
    (line w rest : Text) (s : Stats)
    → read_word line ≡ some (w, rest)
    → scan_line line s ≡ record s { key = w; value = after_number s.value (read_uint64 rest) }
unfolding scan_line
scan_line_lem line w rest s e = rw (e, scan_line) refl

scan_entry :
    (key line : Text) (n : ℕ) (s : Stats)
    → IsEntry key n line
    → scan_line line s ≡ record s { key = key; value = n }
scan_entry key line n s h =
    scan_line_lem line key h.after_key s h.key_read
    ∙ ap (λ x. record s { key = key; value = after_number s.value x }) h.value_read

take_value_other :
    (s : Stats)
    → (s.key =t= text "MemTotal:") ≡ false
    → (s.key =t= text "MemAvailable:") ≡ false
    → take_value s ≡ s
unfolding take_value
take_value_other s p q = rw (p, q) refl

step_other :
    (line : Text) (s : Stats)
    → IsOther line
    → ((take_value (scan_line line s)).total ≡ s.total)
      × ((take_value (scan_line line s)).available ≡ s.available)
step_other line s h =
    let e = scan_line_lem line h.word h.after_key s h.key_read in
    let r = ap take_value e ∙ take_value_other _ h.not_total h.not_available in
    (ap (λ x. x.total) r, ap (λ x. x.available) r)

-- Lines with other keys are passed over, as long as one of the two values is missing.
skip_others :
    (lines rest : List Text) (s : Stats)
    → All IsOther lines
    → (ltb 0 s.total && ltb 0 s.available) ≡ false
    → (s' : Stats) × (read_lines s (lines ++ rest) ≡ read_lines s' rest)
      × (s'.total ≡ s.total)
      × (s'.available ≡ s.available)
unfolding read_lines
skip_others [] rest s h e = (s, refl, refl, refl)
skip_others (line ∷ lines) rest s h e =
    let (total_kept, available_kept) = step_other line s h.0 in
    let (s', r, t, a) =
      skip_others lines rest (take_value (scan_line line s)) h.1
        (ground (arith, total_kept, available_kept)) in
    (s', ground (arith, total_kept, available_kept, r), t ∙ total_kept, a ∙ available_kept)

step_total :
    (line : Text) (n : ℕ) (s : Stats)
    → IsEntry (text "MemTotal:") n line
    → take_value (scan_line line s)
      ≡ record { total = mul64 n 1024; available = s.available; key = text "MemTotal:"; value = n }
unfolding take_value
step_total line n s h = ap take_value (scan_entry (text "MemTotal:") line n s h)

step_available :
    (line : Text) (n : ℕ) (s : Stats)
    → IsEntry (text "MemAvailable:") n line
    → take_value (scan_line line s)
      ≡ record { total = s.total; available = mul64 n 1024; key = text "MemAvailable:"; value = n }
unfolding take_value
step_available line n s h = ap take_value (scan_entry (text "MemAvailable:") line n s h)

read_lines-stop :
    (line : Text) (lines : List Text) (s s' : Stats)
    → take_value (scan_line line s) ≡ s'
    → (ltb 0 s'.total && ltb 0 s'.available) ≡ true
    → read_lines s (line ∷ lines) ≡ s'
unfolding read_lines
read_lines-stop line lines s s' e h = ground (arith, e)

read_lines-on :
    (line : Text) (lines : List Text) (s s' : Stats)
    → take_value (scan_line line s) ≡ s'
    → (ltb 0 s'.total && ltb 0 s'.available) ≡ false
    → read_lines s (line ∷ lines) ≡ read_lines s' lines
unfolding read_lines
read_lines-on line lines s s' e h = ground (arith, e)

-- Of a /proc/meminfo where lines with other keys stand before and between a MemTotal line with t and a
-- MemAvailable line with a, `ReadStats` returns used = (t - a) * 1024 and total = t * 1024, if a is
-- positive and at most t, and t kibibytes fit 64 bits. The lines after those are not used, and the
-- indeterminate first `value` is not either.
pub read_stats_lem :
    (value t a : ℕ) (others more rest : List Text) (total_line available_line : Text)
    → All IsOther others
    → IsEntry (text "MemTotal:") t total_line
    → All IsOther more
    → IsEntry (text "MemAvailable:") a available_line
    → 0 < a
    → a ≤ t
    → t * 1024 < 2 ^ 64
    → read_stats value (others ++ (total_line ∷ (more ++ (available_line ∷ rest))))
      ≡ ((t - a) * 1024, t * 1024)
unfolding read_stats
read_stats_lem value t a others more rest total_line available_line h ht h' ha pos le bound =
    let s0 : Stats = record { total = 0; available = 0; key = []; value = value } in
    let (s1, e1, t1, a1) =
      skip_others others (total_line ∷ (more ++ (available_line ∷ rest))) s0 h refl in
    let s2 : Stats = record {
      total = mul64 t 1024;
      available = s1.available;
      key = text "MemTotal:";
      value = t;
    } in
    let e2 =
      read_lines-on total_line (more ++ (available_line ∷ rest)) s1 s2
        (step_total total_line t s1 ht) (ground (arith, a1)) in
    let (s3, e3, t3, a3) = skip_others more (available_line ∷ rest) s2 h' (ground (arith, a1)) in
    let s4 : Stats = record {
      total = s3.total;
      available = mul64 a 1024;
      key = text "MemAvailable:";
      value = a;
    } in
    let total_eq : s3.total ≡ t * 1024 = t3 ∙ omega arith in
    let available_eq : mul64 a 1024 ≡ a * 1024 = omega arith in
    let e4 =
      read_lines-stop available_line rest s3 s4 (step_available available_line a s3 ha)
        (ground (arith, total_eq, available_eq)) in
    let all = e1 ∙ e2 ∙ e3 ∙ e4 in
    let difference : sub64 (t * 1024) (a * 1024) ≡ (t - a) * 1024 = omega arith in
    ap (λ s. (sub64 s.total s.available, s.total)) all
    ∙ ap (λ n. (sub64 n (mul64 a 1024), n)) total_eq
    ∙ ap (λ n. (sub64 (t * 1024) n, t * 1024)) available_eq
    ∙ ap (λ n. (n, t * 1024)) difference
