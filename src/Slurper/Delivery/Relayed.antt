-- ===== src/Slurper/Delivery/Relayed.antt =====
-- From a labeler's stream to what a consumer of the relay reads of the log.
use mathlib.Core.List.{map-append}
use labeler_relay.Prelude.{
  ◌≡◌, refl, sym, subst, ap, ◌∙◌, ◌⊎◌, inl, inr, false, none, some, List, [], ◌∷◌, ◌++◌, map, arith,
  ℤ, pos, ltb_ℤ, ok, All, All-imp, All-and, All-select_of, IsOrdered, select-of_true, past,
}
use labeler_relay.Store.Events.{Row, Events, LiveEvent, to_live}
use labeler_relay.Store.Events.Order.{IsWellFormed}
use labeler_relay.Store.Registry.{read_cursor}
use labeler_relay.Store.Frame.{frame_encoders, decode_labels_frame}
use labeler_relay.Store.Frame.Stored.{decode_labels_frame-encoded, encode_frame-labels}
use labeler_relay.Store.Playback.{playback_frames}
use labeler_relay.Store.Playback.Exact.{collect, no_scan_fault, playback_frames-exact}
use labeler_relay.Cbor.{Cbg, Codec}
use labeler_relay.Cbor.Reading.{Fits}
use labeler_relay.Slurper.Frames.{Subscription, labels_event_of}
use labeler_relay.Slurper.Frames.CrashSafe.{kept_of}
use labeler_relay.Slurper.Dial.{State}
use labeler_relay.Slurper.Delivery.{UpFrame, number_of, Link, Steps, between}
use labeler_relay.Slurper.Delivery.Frame.{Holds, IsStored}
use labeler_relay.Slurper.Delivery.AtLeastOnce.{Steps-IsStored, Steps-IsWellFormed}

-- The events that a consumer reads from the start of the log.
abbrev pub read_all : Events → List LiveEvent
read_all db = (playback_frames none no_scan_fault db (pos 0) collect []).2

read_all-rows : (db : Events) → IsWellFormed db → read_all db ≡ map to_live db.rows
read_all-rows db h =
    ap (λ out. out.2) (playback_frames-exact db (pos 0) [] h).0
    ∙ ap (map to_live) (
        select-of_true (λ r. past (pos 0) r.relay_seq) db.rows
          (All-imp _ _ db.rows (λ r k. ground arith) h.positive))

module _ {Label Service W : Type 0} (c : Cbg) (l : Codec Label) (r : Codec Service)
    (s : Subscription Label W) where
  -- No label of the frame is kept, or one of the events is a labels event whose bytes decode to the event's
  -- number, the labeler, the frame's number and the labels that are kept.
  abbrev pub IsRelayed : List LiveEvent → UpFrame Label → Type 0
  IsRelayed events u =
      (kept_of s u.1 ≡ [])
      ⊎ ((before : List LiveEvent) × (e : LiveEvent) × (behind : List LiveEvent) × (events
            ≡ before ++ e ∷ behind)
          × (e.kind ≡ "labels")
          × (decode_labels_frame c l e.frame_cbor
              ≡ ok (record {
                seq = pos e.relay_seq;
                src = s.labeler.did;
                upstream_seq = number_of u;
                labels = map some (kept_of s u.1);
              })))

  Holds-decodes :
      (seq : ℤ) (kept : List Label) (row : Row)
      → Fits seq
      → Holds (frame_encoders c l r) s seq kept row
      → decode_labels_frame c l row.frame_cbor
        ≡ ok (record {
          seq = pos row.relay_seq;
          src = s.labeler.did;
          upstream_seq = seq;
          labels = map some kept;
        })
  Holds-decodes seq kept row fits h =
      decode_labels_frame-encoded c l (pos row.relay_seq) seq s.labeler.did (map some kept)
        row.frame_cbor h.small fits
        (encode_frame-labels c l r row.relay_seq (labels_event_of s seq kept) row.frame_cbor refl
          h.encoded)

  IsStored-IsRelayed :
      (rows : List Row) (u : UpFrame Label)
      → Fits (number_of u)
      → IsStored (frame_encoders c l r) s rows u
      → IsRelayed (map to_live rows) u
  IsStored-IsRelayed rows u fits (inl none_kept) = inl none_kept
  IsStored-IsRelayed rows u fits (inr (before, row, behind, split, holds)) = inr (
    map to_live before,
    to_live row,
    map to_live behind,
    ap (map to_live) split ∙ map-append to_live before (row ∷ behind),
    holds.labels_kind,
    Holds-decodes (number_of u) (kept_of s u.1) row fits holds,
  )

  module _ (stream : List (UpFrame Label)) (ordered : IsOrdered number_of stream)
      (fits : All (λ u. Fits (number_of u)) stream) (c0 : ℤ) where
    -- A labeler's frames, in ascending order of numbers of 64 bits, through the whole relay: after any run of
    -- steps of the subscription that starts with the stored cursor `c0` over a well-formed event table,
    -- with whatever connections, ends of connections and failures, a consumer that reads the log from its
    -- start gets, for every frame past `c0` and not past the stored cursor, an event whose bytes decode
    -- to exactly the labels of the frame that the signature policy keeps, in their order, unless it keeps
    -- none, with the labeler, the frame's own number and the number of the event.
    pub Steps-IsRelayed :
        (st : State W) (link : Link Label W)
        → IsWellFormed st.persist.store
        → read_cursor none s.labeler.did st.registry ≡ ok (some c0)
        → Steps (frame_encoders c l r) s stream (record { state = st; coming = none }) link
        → (c' : ℤ) × (read_cursor none s.labeler.did link.state.registry ≡ ok (some c'))
          × (ltb_ℤ c' c0 ≡ false)
          × All (IsRelayed (read_all link.state.persist.store)) (between c0 c' stream)
    Steps-IsRelayed st link h q steps =
        let enc = frame_encoders c l r in
        let (c', reads, forward, stored) =
          Steps-IsStored enc s stream ordered c0 st link h q steps in
        let well_formed = Steps-IsWellFormed enc s stream ordered c0 st link h q steps in
        let frames = between c0 c' stream in
        let fit = All-select_of (λ u. Fits (number_of u)) _ stream fits in
        (
          c',
          reads,
          forward,
          subst (λ es. All (IsRelayed es) frames)
              (sym (read_all-rows link.state.persist.store well_formed))
              (All-imp (λ u. Fits (number_of u) × IsStored enc s link.state.persist.store.rows u) _
                frames (λ u k. IsStored-IsRelayed link.state.persist.store.rows u k.0 k.1)
                (All-and _ _ frames fit stored)),
        )
