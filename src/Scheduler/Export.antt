-- ===== src/Scheduler/Export.antt =====
-- A dump that is in progress while the loop collects.
use volta.Prelude.{
  ◌≡◌, refl, sym, ap, ◌∙◌, true, Option, none, some, List, [], ◌∷◌, ◌++◌, arith, All, Text,
  append_assoc, append-nil, Option-cases, inl, inr,
}
use volta.Metric.{Metric}
use volta.Buffer.Metrics.{add_metrics}
use volta.Exporter.{Printer, Disk, Exporter, start_dump, dump, row, rows}
use volta.Scheduler.{
  Scheduler, Event, collected, commanded, Command, starts, ends, parse_command, obey, step, steps,
}
use volta.Scheduler.Loop.{all_metrics, add_metrics-append, add_metrics_nil}

abbrev IsStart : Command → Type 0
IsStart (starts path) = Unit {0}
IsStart ends = ⊥

-- The event does not end a dump: metrics are collected, or starts are commanded.
abbrev pub Continues : Event → Type 0
Continues (collected metrics) = Unit {0}
Continues (commanded disk now message) =
    (commands : List Command) × (parse_command message ≡ some commands) × All IsStart commands

-- Starts change nothing while a dump is in progress.
obey_active :
    (disk : Disk) (now : Text) (e : Exporter) (commands : List Command)
    → e.is_exporting ≡ true
    → All IsStart commands
    → obey disk now e commands ≡ e
unfolding obey start_dump
obey_active disk now e [] active h = refl
obey_active disk now e (starts path ∷ commands) active h =
    ground (arith, active, obey_active disk now e commands active h.1)
obey_active disk now e (ends ∷ commands) active h = absurd h.0

-- The exporter with its file at some content.
abbrev pub writing : Exporter → Text → Text → Exporter
writing e path content = record e { dump_file = some (path, content) }

writing_self :
    (e : Exporter) (path content : Text)
    → e.dump_file ≡ some (path, content)
    → e ≡ writing e path (content ++ [])
writing_self e path content h = ground (arith, append-nil content)

module _ (p : Printer) where
  rows-append : (ms ns : List Metric) → rows p (ms ++ ns) ≡ rows p ms ++ rows p ns
  unfolding rows
  rows-append [] ns = refl
  rows-append (m ∷ ms) ns =
      ap (λ t. row p m ++ t) (rows-append ms ns)
      ∙ sym (append_assoc (row p m) (rows p ms) (rows p ns))

  dump_open :
      (e : Exporter) (path content : Text) (ms : List Metric)
      → e.is_exporting ≡ true
      → e.dump_file ≡ some (path, content)
      → dump p e ms ≡ writing e path (content ++ rows p ms)
  unfolding dump
  dump_open e path content ms active file = ground arith

  steps_collected :
      (ms : List Metric) (evs : List Event) (s : Scheduler)
      → steps p s (collected ms ∷ evs)
        ≡ steps p
            (record s { buffer = add_metrics s.buffer ms; exporter = dump p s.exporter ms })
            evs
  unfolding steps
  steps_collected ms evs s = refl

  steps_started :
      (disk : Disk) (now message : Text) (commands : List Command) (evs : List Event)
      (s : Scheduler)
      → parse_command message ≡ some commands
      → steps p s (commanded disk now message ∷ evs)
        ≡ steps p (record s { exporter = obey disk now s.exporter commands }) evs
  unfolding steps
  steps_started disk now message commands evs s e = ground (arith, e)

  -- Events that do not end the dump write what was collected to its file, in order.
  pub steps_export :
      (evs : List Event) (s : Scheduler) (path content : Text)
      → s.exporter.is_exporting ≡ true
      → s.exporter.dump_file ≡ some (path, content)
      → All Continues evs
      → (s' : Scheduler) × (steps p s evs ≡ some s')
        × (s'.exporter ≡ writing s.exporter path (content ++ rows p (all_metrics evs)))
        × (s'.buffer ≡ add_metrics s.buffer (all_metrics evs))
  unfolding steps rows
  steps_export [] s path content active file h =
      (s, refl, writing_self s.exporter path content file, add_metrics_nil s.buffer)
  steps_export (collected ms ∷ evs) s path content active file h =
      let (s', e, x, b) =
        steps_export evs
          (record s {
            buffer = add_metrics s.buffer ms;
            exporter = writing s.exporter path (content ++ rows p ms);
          })
          path (content ++ rows p ms) active refl h.1 in
      (
        s',
        steps_collected ms evs s
            ∙ ap (λ x. steps p (record s { buffer = add_metrics s.buffer ms; exporter = x }) evs)
                (dump_open s.exporter path content ms active file)
            ∙ e,
        x
            ∙ ap (writing s.exporter path) (
                append_assoc content (rows p ms) (rows p (all_metrics evs))
                ∙ ap (λ t. content ++ t) (sym (rows-append ms (all_metrics evs)))),
        b ∙ add_metrics-append ms (all_metrics evs) s.buffer,
      )
  steps_export (commanded disk now message ∷ evs) s path content active file
        ((commands, e, only), h) =
      let (s', f, x, b) = steps_export evs s path content active file h in
      (
        s',
        steps_started disk now message commands evs s e
            ∙ ap (λ x. steps p (record s { exporter = x }) evs)
                (obey_active disk now s.exporter commands active only)
            ∙ f,
        x,
        b,
      )

  none_left : (s : Scheduler) → steps p s [] ≡ some s
  unfolding steps
  none_left s = refl

  started : (s t : Scheduler) → steps p s [] ≡ some t → s ≡ t
  unfolding steps
  started s t e = ground arith

  pub steps-cons :
      (s : Scheduler) (ev : Event) (evs : List Event) {t : Scheduler}
      → step p s ev ≡ some t
      → steps p s (ev ∷ evs) ≡ steps p t evs
  unfolding steps
  steps-cons s ev evs e =
      ap
        (λ (o : Option Scheduler). elim o as (λ x. Option Scheduler) [
          | none ↦ none
          | some t ↦ steps p t evs
        ])
        e

  steps-stuck :
      (s : Scheduler) (ev : Event) (evs : List Event)
      → step p s ev ≡ none
      → steps p s (ev ∷ evs) ≡ none
  unfolding steps
  steps-stuck s ev evs e =
      ap
        (λ (o : Option Scheduler). elim o as (λ x. Option Scheduler) [
          | none ↦ none
          | some t ↦ steps p t evs
        ])
        e

  pub steps_then :
      (evs : List Event) (s : Scheduler) {t u : Scheduler} (ev : Event)
      → steps p s evs ≡ some t
      → step p t ev ≡ some u
      → steps p s (evs ++ ev ∷ []) ≡ some u
  steps_then [] s {t} {u} ev e f =
      let same : s ≡ t = started s t e in
      steps-cons s ev [] (ap (λ x. step p x ev) same ∙ f) ∙ none_left u
  steps_then (first ∷ evs) s {t} ev e f = elim (Option-cases (step p s first)) [
    | inl g ↦ absurd (let h : some t ≡ none = sym e ∙ steps-stuck s first evs g in cc)
    | inr (s1, g) ↦
        steps-cons s first (evs ++ ev ∷ []) g
        ∙ steps_then evs s1 ev (sym (steps-cons s first evs g) ∙ e) f
  ]
