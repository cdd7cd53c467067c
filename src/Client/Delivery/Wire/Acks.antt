-- ===== src/Client/Delivery/Wire/Acks.antt =====
-- An acknowledgement moves the samples of a batch from those pending to those acknowledged.
use volta.Prelude.{
  ℕ, ◌≤◌, ◌≡◌, refl, sym, ap, ◌∙◌, subst, Bool, true, false, some, List, [], ◌∷◌, ◌++◌, arith,
  length, if◌then◌else◌, Bool-cases, Option-cases, inl, inr, append-nil,
}
use volta.Buffer.Series.{SeriesBuffer, Snapshot}
use volta.Buffer.Keys.{BufferKey, key_eq}
use volta.Buffer.Metrics.{get_buffer, get_all_keys}
use volta.Buffer.Metrics.Acks.{ack_found}
use volta.Client.Writer.{Writer}
use volta.Client.Writer.Waiting.{waiting}
use volta.Client.Stream.{
  MetricBatch, Reactor, Pending, find_pending, erase_pending, acknowledge, on_read_done,
}
use volta.Client.Stream.Valid.{IsSound}
use volta.Client.Stream.Pending.{find_pending-All}
use volta.Client.Stream.Acks.{acknowledge_result, acknowledge_unknown}
use volta.Client.Delivery.{Ledger, pending_for, ack_entries, acked_batch}
use volta.Client.Delivery.Batches.{pending_for-erase_pending, pending_for-erase_other}
use volta.Client.Delivery.Rounds.{ledger_unknown, ledger_own, ledger_other}
use volta.Client.Delivery.Wire.{received, all_samples}
use volta.Client.Delivery.Wire.Headers.{get_all_keys-ack}
use volta.Client.Delivery.Wire.Batches.{Accounted}

-- What an acknowledgement leaves as it was.
abbrev SameBut : Reactor → Reactor → Type 0
SameBut r r' = (r'.writer ≡ r.writer) × (get_all_keys r'.buffer ≡ get_all_keys r.buffer)

module _ (key : BufferKey) where
  moved :
      (w : Writer MetricBatch) (bs : List MetricBatch) (g : Ledger) (t : Snapshot) (ps qs : Pending)
      → pending_for key ps ≡ t ∷ []
      → pending_for key qs ≡ []
      → received key (bs ++ waiting w) ≡ g.acked ++ all_samples (pending_for key ps)
      → received key (bs ++ waiting w) ≡ (ack_entries t g).acked ++ all_samples (pending_for key qs)
  moved w bs g t ps qs only gone a =
      a
      ∙ ap (λ ts. g.acked ++ all_samples ts) only
      ∙ ap (λ xs. g.acked ++ xs) (append-nil t.samples)
      ∙ sym (append-nil (g.acked ++ t.samples))
      ∙ ap (λ ts. (g.acked ++ t.samples) ++ all_samples ts) (sym gone)

  acknowledge-Accounted :
      {room : ℕ} {r r' : Reactor} (bs : List MetricBatch) (g : Ledger) (id : ℕ)
      → IsSound room r
      → length (pending_for key r.pending_snapshots) ≤ 1
      → acknowledge r id ≡ some r'
      → Accounted key r bs g.acked
      → Accounted key r' bs (acked_batch key r id g).acked × SameBut r r'
  acknowledge-Accounted {r = r} {r'} bs g id v single e a =
      elim (Option-cases (find_pending id r.pending_snapshots)) [
        | inl unknown ↦
            subst (λ (s : Reactor). Accounted key s bs (acked_batch key r id g).acked × SameBut r s)
              (let q : r ≡ r' = ground (arith, acknowledge_unknown r id unknown) in q)
              (
                subst (λ (h : Ledger). Accounted key r bs h.acked)
                    (sym (ledger_unknown key r id g unknown)) a,
                (refl, refl),
              )
        | inr ((k, t), known) ↦
            let (b, found, _) =
              find_pending-All
                (λ j u. (b : SeriesBuffer) × (get_buffer r.buffer j ≡ some b) × (u.end ≤ b.head)) id
                r.pending_snapshots v.snapped known in
            let (m', acked) = ack_found r.buffer k t found in
            subst (λ (s : Reactor). Accounted key s bs (acked_batch key r id g).acked × SameBut r s)
              (acknowledge_result r id k t known acked e)
              (
                elim (Bool-cases (key_eq k key)) [
                  | inl hit ↦
                      let (only, gone) =
                        pending_for-erase_pending key id k t r.pending_snapshots known hit single in
                      subst
                        (λ (h : Ledger).
                          received key (bs ++ waiting r.writer)
                          ≡ h.acked
                            ++ all_samples (pending_for key (erase_pending id r.pending_snapshots)))
                        (sym (ledger_own key r id g known hit))
                        (moved r.writer bs g t r.pending_snapshots
                          (erase_pending id r.pending_snapshots) only gone a)
                  | inr miss ↦
                      subst
                        (λ (h : Ledger).
                          received key (bs ++ waiting r.writer)
                          ≡ h.acked
                            ++ all_samples (pending_for key (erase_pending id r.pending_snapshots)))
                        (sym (ledger_other key r id g known miss))
                        (a
                          ∙ ap (λ ts. g.acked ++ all_samples ts)
                              (sym (
                                pending_for-erase_other key id k t r.pending_snapshots known miss)))
                ],
                (refl, get_all_keys-ack r.buffer k t acked),
              )
      ]

  pub on_read_done-Accounted :
      {room : ℕ} {r r' : Reactor} (bs : List MetricBatch) (g : Ledger) (ok : Bool) (id : ℕ)
      {again : Bool}
      → IsSound room r
      → length (pending_for key r.pending_snapshots) ≤ 1
      → on_read_done r ok id ≡ some (r', again)
      → Accounted key r bs g.acked
      → Accounted key r' bs (if ok then acked_batch key r id g else g).acked × SameBut r r'
  unfolding on_read_done
  on_read_done-Accounted {r = r} {r'} bs g false id v single e a =
      subst (λ (s : Reactor). Accounted key s bs g.acked × SameBut r s)
        (let q : r ≡ r' = ground arith in q) (a, (refl, refl))
  on_read_done-Accounted {r = r} {r'} bs g true id v single e a =
      elim (Option-cases (acknowledge r id)) [
        | inl null ↦ absurd (ground arith)
        | inr (s, done) ↦
            acknowledge-Accounted bs g id v single
              (done ∙ (let q : some s ≡ some r' = ground arith in q)) a
      ]
