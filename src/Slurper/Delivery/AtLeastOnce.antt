-- ===== src/Slurper/Delivery/AtLeastOnce.antt =====
-- What of a labeler's stream is in the event table: an invariant of the steps.
use labeler_relay.Prelude.{
  ◌≡◌, refl, sym, subst, ap, ◌∙◌, inl, inr, Bool, true, false, Option, none, some, List, [], ◌∷◌,
  not, ◌&&◌, ℤ, ltb_ℤ, ltb_ℤ_irrefl, ltb_ℤ_behind, All-select, Result, ok, err, All, All-imp,
  beyond, IsOrdered, beyond-advance, beyond-cover, if◌then◌else◌,
}
use labeler_relay.Store.Events.{Row, Encoders, LabelPersist}
use labeler_relay.Store.Events.Order.{IsWellFormed}
use labeler_relay.Store.Events.Ingest.{persist_ingest-IsWellFormed}
use labeler_relay.Store.Registry.{Registry, read_cursor}
use labeler_relay.Store.Registry.Laws.{write_cursor-moves}
use labeler_relay.Slurper.Frames.{Subscription, FrameFaults, handle_label_labels}
use labeler_relay.Slurper.Dial.{State, handle_event, label_labels}
use labeler_relay.Slurper.Dial.Resume.{handle_label_labels-cursor}
use labeler_relay.Slurper.Delivery.Frame.{
  Grows, IsStored, IsStored-Grows, persist_ingest-Grows, Handled, handle_label_labels-Handled,
}
use labeler_relay.Slurper.Delivery.{
  UpFrame, number_of, Link, after_frame, Step, connects, handles_labels, handles_info,
  handles_error, hangs_up, other_ingest, other_rows, Steps, stop, step, between,
}

module _ {Label Service W : Type 0} (enc : Encoders Label Service) (s : Subscription Label W) where
  module _ (stream : List (UpFrame Label)) (ordered : IsOrdered number_of stream) (c0 : ℤ) where
    -- What is owed for the frames up to the cursor `c`.
    abbrev Covers : List Row → ℤ → Type 0
    Covers rows c =
        All
          (λ u.
            ltb_ℤ c (number_of u) ≡ false → ltb_ℤ c0 (number_of u) ≡ true → IsStored enc s rows u)
          stream

    abbrev Expects : ℤ → Option (List (UpFrame Label)) → Type 0
    Expects c none = Unit
    Expects c (some us) = us ≡ beyond number_of c stream

    record Inv (l : Link Label W) : Type 0 where
      cursor : ℤ
      reads : read_cursor none s.labeler.did l.state.registry ≡ ok (some cursor)
      well_formed : IsWellFormed l.state.persist.store
      forward : ltb_ℤ cursor c0 ≡ false
      covered : Covers l.state.persist.store.rows cursor
      expected : Expects cursor l.coming

    Covers-Grows :
        (rows rows' : List Row) (c : ℤ) → Grows rows rows' → Covers rows c → Covers rows' c
    Covers-Grows rows rows' c g =
        All-imp _ _ stream (λ u k past fresh. IsStored-Grows enc s rows rows' u g (k past fresh))

    Expects-after_frame :
        (c : ℤ) (r : Result (Unit {0})) (rest : List (UpFrame Label))
        → (r ≡ ok tt → rest ≡ beyond number_of c stream)
        → Expects c (after_frame r rest)
    Expects-after_frame c (ok tt) rest h = h refl
    Expects-after_frame c (err e) rest h = tt

    -- The cursor after a frame, and what it covers.
    handles_labels-Covers :
        (f : FrameFaults) (seq : ℤ) (labels : List Label) (rest : List (UpFrame Label))
        (p : LabelPersist W) (reg : Registry) (c : ℤ)
        (out : Result (Unit {0}) × LabelPersist W × Registry × W)
        → read_cursor none s.labeler.did reg ≡ ok (some c)
        → Covers p.store.rows c
        → ltb_ℤ c c0 ≡ false
        → beyond number_of c stream ≡ (seq, labels) ∷ rest
        → Handled enc s f seq labels p reg out
        → (c' : ℤ) × (read_cursor none s.labeler.did out.2 ≡ ok (some c'))
          × Covers out.1.store.rows c'
          × (ltb_ℤ c' c0 ≡ false)
    handles_labels-Covers f seq labels rest p reg c out q k forward ahead h =
        let kept = Covers-Grows p.store.rows out.1.store.rows c h.grown k in
        elim h.advanced [
          | inl same ↦ (c, ap (λ g. read_cursor none s.labeler.did g) same ∙ q, kept, forward)
          | inr (after, done) ↦
              let reads = ap (λ g. read_cursor none s.labeler.did g) after in
              let past : ltb_ℤ c seq ≡ true =
                (subst (λ us. All (λ u. ltb_ℤ c (number_of u) ≡ true) us) ahead
                  (All-select (λ u. ltb_ℤ c (number_of u)) stream)).0 in
              elim (write_cursor-moves f.cursor_exec f.cursor_affected s.labeler.did seq reg) [
                | inl same ↦ (c, reads ∙ same ∙ q, kept, forward)
                | inr moved ↦ (
                  seq,
                  reads ∙ moved,
                  beyond-cover number_of
                      (λ u. ltb_ℤ c0 (number_of u) ≡ true → IsStored enc s out.1.store.rows u) c
                      stream (seq, labels) rest ordered ahead (λ fresh. done) kept,
                  ltb_ℤ_behind c seq c0 forward past,
                )
              ]
        ]

    handles_labels-Inv :
        (seq : ℤ) (labels : List Label) (f : FrameFaults) (now : ℤ) (rest : List (UpFrame Label))
        (st : State W)
        → Inv (record { state = st; coming = some ((seq, labels) ∷ rest) })
        → Inv (record {
          state = (handle_event enc s (label_labels seq labels f now) st).1;
          coming = after_frame (handle_event enc s (label_labels seq labels f now) st).0 rest;
        })
    unfolding handle_event
    handles_labels-Inv seq labels f now rest st inv =
        let out = handle_label_labels enc s f now seq labels st.persist st.registry st.world in
        let h =
          handle_label_labels-Handled enc s f now seq labels st.persist st.registry st.world
            inv.well_formed in
        let (c', reads, covered, forward) =
          handles_labels-Covers f seq labels rest st.persist st.registry inv.cursor out inv.reads
            inv.covered inv.forward (sym inv.expected) h in
        let at_seq : out.0 ≡ ok tt → seq ≡ c' = λ done.
          let moved =
            handle_label_labels-cursor enc s f now seq labels st.persist st.registry st.world
              done in
          cc in
        record {
          cursor = c';
          reads = reads;
          well_formed = h.well_formed;
          covered = covered;
          forward = forward;
          expected = Expects-after_frame c' out.0 rest (λ done.
              subst (λ n. rest ≡ beyond number_of n stream) (at_seq done)
                (sym (
                  beyond-advance number_of inv.cursor stream (seq, labels) rest ordered
                    (sym inv.expected))));
        }

    Step-Inv : (l m : Link Label W) → Step enc s stream l m → Inv l → Inv m
    unfolding handle_event
    Step-Inv l m (connects c st coming q) inv =
        let same : inv.cursor ≡ c = let reads = inv.reads in cc in
        record {
          cursor = inv.cursor;
          reads = inv.reads;
          well_formed = inv.well_formed;
          covered = inv.covered;
          forward = inv.forward;
          expected = ap (λ n. beyond number_of n stream) (sym same);
        }
    Step-Inv l m (handles_labels seq labels f now rest st) inv =
        handles_labels-Inv seq labels f now rest st inv
    Step-Inv l m (handles_info rest st) inv = inv
    Step-Inv l m (handles_error name rest st) inv = record {
      cursor = inv.cursor;
      reads = inv.reads;
      well_formed = inv.well_formed;
      covered = inv.covered;
      forward = inv.forward;
      expected = tt;
    }
    Step-Inv l m (hangs_up st coming) inv = record {
      cursor = inv.cursor;
      reads = inv.reads;
      well_formed = inv.well_formed;
      covered = inv.covered;
      forward = inv.forward;
      expected = tt;
    }
    Step-Inv l m (other_ingest f now e w st coming) inv = record {
      cursor = inv.cursor;
      reads = inv.reads;
      well_formed = persist_ingest-IsWellFormed enc f now e st.persist w inv.well_formed;
      covered =
          Covers-Grows _ _ inv.cursor
            (persist_ingest-Grows enc s f now e st.persist w inv.well_formed) inv.covered;
      forward = inv.forward;
      expected = inv.expected;
    }
    Step-Inv l m (other_rows reg st coming q) inv = record {
      cursor = inv.cursor;
      reads = q ∙ inv.reads;
      well_formed = inv.well_formed;
      covered = inv.covered;
      forward = inv.forward;
      expected = inv.expected;
    }

    Steps-Inv : (l m : Link Label W) → Steps enc s stream l m → Inv l → Inv m
    Steps-Inv l m stop inv = inv
    Steps-Inv l m (step one more) inv = Steps-Inv _ m more (Step-Inv l _ one inv)

    Covers-start :
        (rows : List Row) (us : List (UpFrame Label))
        → All
            (λ u.
              ltb_ℤ c0 (number_of u) ≡ false
              → ltb_ℤ c0 (number_of u) ≡ true
              → IsStored enc s rows u)
            us
    Covers-start rows [] = tt
    Covers-start rows (u ∷ us) = (λ h k. absurd cc, Covers-start rows us)

    -- What the invariant says of the frames between the two cursors.
    Covers-between :
        (rows : List Row) (c : ℤ) (us : List (UpFrame Label))
        → All
            (λ u.
              ltb_ℤ c (number_of u) ≡ false → ltb_ℤ c0 (number_of u) ≡ true → IsStored enc s rows u)
            us
        → All (IsStored enc s rows) (between c0 c us)
    Covers-between rows c [] h = tt
    Covers-between rows c (u ∷ us) h =
        choose (ltb_ℤ c0 (number_of u)) (ltb_ℤ c (number_of u)) (λ p q. h.0 q p)
          (Covers-between rows c us h.1)
      where
        choose :
            (fresh past : Bool)
            → (fresh ≡ true → past ≡ false → IsStored enc s rows u)
            → All (IsStored enc s rows) (between c0 c us)
            → All
                (IsStored enc s rows)
                (if fresh && not past then u ∷ between c0 c us else between c0 c us)
        choose true false due rest = (due refl refl, rest)
        choose true true due rest = rest
        choose false past due rest = rest

    start-Inv :
        (st : State W)
        → IsWellFormed st.persist.store
        → read_cursor none s.labeler.did st.registry ≡ ok (some c0)
        → Inv (record { state = st; coming = none })
    start-Inv st h q = record {
      cursor = c0;
      reads = q;
      well_formed = h;
      forward = ltb_ℤ_irrefl c0;
      covered = Covers-start st.persist.store.rows stream;
      expected = tt;
    }

    pub Steps-IsWellFormed :
        (st : State W) (l : Link Label W)
        → IsWellFormed st.persist.store
        → read_cursor none s.labeler.did st.registry ≡ ok (some c0)
        → Steps enc s stream (record { state = st; coming = none }) l
        → IsWellFormed l.state.persist.store
    Steps-IsWellFormed st l h q steps =
        (Steps-Inv (record { state = st; coming = none }) l steps (start-Inv st h q)).well_formed

    -- The stream of a labeler in ascending order of its numbers, and a subscription that starts with the
    -- stored cursor `c0` over a well-formed event table. However often it connects, wherever each
    -- connection ends, whatever fails in the handlers, and whatever other events are stored and other
    -- rows of the registry changed meanwhile: the stored cursor is never before `c0`, and of every
    -- frame past `c0` and not past the cursor, the event table has, under the labeler's DID and the number
    -- of the frame, a row that encodes exactly the labels the signature policy keeps, in their order,
    -- unless it keeps none.
    pub Steps-IsStored :
        (st : State W) (l : Link Label W)
        → IsWellFormed st.persist.store
        → read_cursor none s.labeler.did st.registry ≡ ok (some c0)
        → Steps enc s stream (record { state = st; coming = none }) l
        → (c : ℤ) × (read_cursor none s.labeler.did l.state.registry ≡ ok (some c))
          × (ltb_ℤ c c0 ≡ false)
          × All (IsStored enc s l.state.persist.store.rows) (between c0 c stream)
    Steps-IsStored st l h q steps =
        let inv = Steps-Inv (record { state = st; coming = none }) l steps (start-Inv st h q) in
        (
          inv.cursor,
          inv.reads,
          inv.forward,
          Covers-between l.state.persist.store.rows inv.cursor stream inv.covered,
        )
