-- ===== src/Exporter/Life.antt =====
-- The life of a dump: what one start, any dumps and one end leave in the file.
use volta.Prelude.{
  ◌≡◌, refl, sym, ap, ◌∙◌, true, false, Option, none, some, List, [], ◌∷◌, ◌++◌, arith, Text,
  is_some, append_assoc, append-nil, All,
}
use volta.Metric.{Metric}
use volta.Exporter.{Printer, Disk, Exporter, start_dump, end_dump, dump, rows}

-- A file is open only while a dump is in progress.
abbrev pub IsValid : Exporter → Type 0
IsValid e = is_some e.dump_file ≡ true → e.is_exporting ≡ true

-- The calls of an exporter's clients, with what the file system and the clock say at a start.
pub data Call : Type 0 where
  start : Disk → Text → Option Text → Call
  batch : List Metric → Call
  end : Call

module _ (p : Printer) where
  unfoldable pub step : Exporter → Call → Exporter
  step e (start disk now dir) = start_dump disk now e dir
  step e (batch metrics) = dump p e metrics
  step e end = end_dump e

  unfoldable pub run : Exporter → List Call → Exporter
  unfolding step
  run e [] = e
  run e (c ∷ cs) = run (step e c) cs

  step-IsValid : (e : Exporter) (c : Call) → IsValid e → IsValid (step e c)
  unfolding step start_dump dump end_dump
  step-IsValid e (start disk now none) v = ground arith
  step-IsValid e (start disk now (some dir)) v = ground arith
  step-IsValid e (batch metrics) v = ground arith
  step-IsValid e end v = ground arith

  -- After any calls a file is open exactly while a dump is in progress, so no row is lost.
  run-IsValid : (cs : List Call) (e : Exporter) → IsValid e → IsValid (run e cs)
  unfolding run
  run-IsValid [] e v = v
  run-IsValid (c ∷ cs) e v = run-IsValid cs (step e c) (step-IsValid e c v)

  -- The rows of the batches among the calls, in order.
  abbrev logged : List Call → Text
  logged [] = []
  logged (batch metrics ∷ cs) = rows p metrics ++ logged cs
  logged (_ ∷ cs) = logged cs

  abbrev IsNoEnd : Call → Type 0
  IsNoEnd end = ⊥
  IsNoEnd _ = Unit

  abbrev closed_with : Exporter → Text → Text → Exporter
  closed_with e path content = record e {
    dump_file = none;
    is_exporting = false;
    closed = (path, content) ∷ e.closed;
  }

  end_dump_open :
      (e : Exporter) (path content : Text)
      → e.dump_file ≡ some (path, content)
      → end_dump e ≡ closed_with e path content
  unfolding end_dump
  end_dump_open e path content o = ground arith

  start_dump_active :
      (disk : Disk) (now : Text) (dir : Option Text) (e : Exporter)
      → e.is_exporting ≡ true
      → start_dump disk now e dir ≡ e
  unfolding start_dump
  start_dump_active disk now dir e a = ground arith

  dump_active :
      (e : Exporter) (path content : Text) (metrics : List Metric)
      → e.is_exporting ≡ true
      → e.dump_file ≡ some (path, content)
      → dump p e metrics ≡ record e { dump_file = some (path, content ++ rows p metrics) }
  unfolding dump
  dump_active e path content metrics a o = ground arith

  -- While a dump is in progress, batches are appended in order and further starts change nothing;
  -- the end closes the file with what was written, and no dump is in progress.
  run-end_dump :
      (cs : List Call) (e : Exporter) (path content : Text)
      → e.is_exporting ≡ true
      → e.dump_file ≡ some (path, content)
      → All IsNoEnd cs
      → end_dump (run e cs) ≡ record e {
        dump_file = none;
        is_exporting = false;
        closed = (path, content ++ logged cs) ∷ e.closed;
      }
  unfolding run
  run-end_dump [] e path content a o h =
      end_dump_open e path content o ∙ ap (closed_with e path) (sym (append-nil content))
  run-end_dump (start disk now dir ∷ cs) e path content a o h =
      ap (λ (x : Exporter). end_dump (run x cs)) (start_dump_active disk now dir e a)
      ∙ run-end_dump cs e path content a o h.1
  run-end_dump (batch metrics ∷ cs) e path content a o h =
      ap (λ (x : Exporter). end_dump (run x cs)) (dump_active e path content metrics a o)
      ∙ run-end_dump cs (record e { dump_file = some (path, content ++ rows p metrics) }) path
          (content ++ rows p metrics) a refl h.1
      ∙ ap (closed_with e path) (append_assoc content (rows p metrics) (logged cs))
  run-end_dump (end ∷ cs) e path content a o h = elim h.0 [ ]
