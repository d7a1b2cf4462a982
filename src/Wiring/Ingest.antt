-- ===== src/Wiring/Ingest.antt =====
-- An ingest of the wired process, down to the consumers' channels.
use labeler_relay.Prelude.{
  ℕ, suc, float64, float64_exact, float64-exact, ◌≤◌, ◌≡◌, refl, sym, subst, ap, ◌∙◌, ◌⊎◌, inl, inr,
  String, some, ℤ, Result, ok, err,
}
use labeler_relay.Store.Events.{
  Row, Events, IngestEvent, IngestFaults, Encoders, LabelPersist, to_live, persist_ingest,
  new_label_persist, set_broadcaster, set_head_seq_callback,
}
use labeler_relay.Store.Events.Order.{IsWellFormed, append_row, stored}
use labeler_relay.Store.Events.Ingest.{persist_ingest-outcome}
use labeler_relay.Server.Hub.{Hub}
use labeler_relay.Server.Hub.Broadcast.{IsConsistent, offered, broadcast_lem}
use labeler_relay.Metrics.{Gauges}
use labeler_relay.Wiring.{Process, broadcast_to, set_head_gauge, wired_persist}

module _ {Label Service : Type 0} (enc : Encoders Label Service) (f : IngestFaults) (now : ℤ)
    (e : IngestEvent Label Service) (db : Events) (h : Hub) (gauge : ℕ) (gauges : Gauges) where
  abbrev before : Process
  before = record { hub = some h; head_seq = gauge; gauges = gauges }

  -- One row is stored, every subscriber of the hub is offered just this event, and the gauge has its number as a
  -- float64.
  pub record Relayed (out : Result ℕ × LabelPersist Process × Process) : Type 0 where
    pub row : Row
    pub reported : out.0 ≡ ok row.relay_seq
    pub appended : (out.1).store ≡ append_row db row
    pub from_event : row ≡ stored row.relay_seq e now row.frame_cbor
    pub reached : out.2 ≡ record {
      hub = some (offered (to_live row) h.subs h);
      head_seq = float64 row.relay_seq;
      gauges = gauges;
    }
    pub shown : (out.2.head_seq ≡ row.relay_seq) ⊎ (float64_exact ≤ row.relay_seq)

  -- PersistIngest of the wired process, over a well-formed table and a consistent hub, either reports an
  -- error, and then neither the table nor the hub nor the gauge has changed, or appends one row for the
  -- event, and then the hub, which does not panic, has offered that row to each subscriber, dropping those
  -- whose buffer is full, and the gauge shows its number, which is the one returned, as a float64: exactly
  -- below 2 ^ 53, and otherwise rounded.
  pub wired_ingest-outcome :
      IsWellFormed db
      → IsConsistent h
      → ((cause : String) × ((persist_ingest enc f now e (wired_persist db) before).0 ≡ err cause)
          × ((persist_ingest enc f now e (wired_persist db) before).1 ≡ wired_persist db)
          × ((persist_ingest enc f now e (wired_persist db) before).2 ≡ before))
        ⊎ Relayed (persist_ingest enc f now e (wired_persist db) before)
  unfolding wired_persist set_broadcaster set_head_seq_callback new_label_persist broadcast_to
  wired_ingest-outcome wf c =
      elim (persist_ingest-outcome enc f now e (wired_persist db) before wf) [
        | inl r ↦ inl (r.cause, r.reported, r.kept, r.silent)
        | inr a ↦
            let row = stored (suc db.last_seq) e now a.event.frame_cbor in
            let reached : (persist_ingest enc f now e (wired_persist db) before).2 ≡ record {
              hub = some (offered (to_live row) h.subs h);
              head_seq = float64 row.relay_seq;
              gauges = gauges;
            } =
              a.called
              ∙ ap (λ le. set_head_gauge (float64 (suc db.last_seq)) (broadcast_to le before))
                  a.committed.announced
              ∙ ap (λ o. record { hub = o; head_seq = float64 (suc db.last_seq); gauges = gauges })
                  (broadcast_lem (to_live row) h c) in
            inr (record {
              row = row;
              reported = a.reported;
              appended = a.committed.appended;
              from_event = refl;
              reached = reached;
              shown =
                  subst (λ p. (p.head_seq ≡ row.relay_seq) ⊎ (float64_exact ≤ row.relay_seq))
                    (sym reached) (float64-exact row.relay_seq);
            })
      ]
