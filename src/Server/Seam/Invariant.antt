-- ===== src/Server/Seam/Invariant.antt =====
-- The invariant of StreamFrom. `waiting` is what the live channel and the writer still hold: the
-- buffer, then what was committed and not offered, or lost after a drop.
use labeler_relay.Prelude.{
  ℕ, zero, suc, ◌≤◌, ◌≡◌, Bool, true, false, Option, none, some, List, [], ◌∷◌, ◌++◌, map, ℤ, past,
  All, IsAscending, above, ◌<◌,
}
use labeler_relay.Store.Events.{LiveEvent, to_live}
use labeler_relay.Store.Events.Order.{IsWellFormed}
use labeler_relay.Store.Playback.{rows_after}
use labeler_relay.Server.Seam.{
  System, Loop, backfill, seam, straggler, Phase, at, reading, stopping, tailing, finished, sending,
}

abbrev pub live_seq : LiveEvent → ℕ
live_seq e = e.relay_seq

abbrev pub beyond : ℤ → List LiveEvent → List LiveEvent
beyond = above live_seq

abbrev pub to_list : Option LiveEvent → List LiveEvent
to_list none = []
to_list (some e) = e ∷ []

-- The variables that the phase's part of the invariant speaks of.
pub record View : Type 0 where
  pub cursor : ℤ
  pub sent : ℤ
  pub draining : Bool
  pub unread : List LiveEvent
  pub history : List LiveEvent
  pub waiting : List LiveEvent

-- Before phase 4 the cursor is the last number sent, and the table holds all that is unread.
pub record Backfilling (v : View) : Type 0 where
  pub at_sent : v.cursor ≡ v.sent
  pub synced : v.unread ≡ beyond v.cursor v.history

-- What the live channel holds covers all that is past the cursor.
abbrev pub Covered : View → Type 0
Covered v = beyond v.cursor v.history ≡ beyond v.cursor v.waiting

-- The rows left of a chunk are the next ones to send.
abbrev pub Snapshot : View → List LiveEvent → Type 0
Snapshot v rest = (tail : List LiveEvent) × (beyond v.cursor v.history ≡ rest ++ tail)

-- In the last loop the drainer has ended, and an empty chunk means that nothing is unread.
abbrev pub LastLoop : Loop → List LiveEvent → ℕ → View → Type 0
LastLoop backfill rest n v = Unit
LastLoop seam rest n v = Unit
LastLoop straggler rest (suc n) v = v.draining ≡ false
LastLoop straggler (e ∷ es) zero v = v.draining ≡ false
LastLoop straggler [] zero v = (v.draining ≡ false) × Covered v

pub record Tailing (v : View) : Type 0 where
  pub stopped : v.draining ≡ false
  pub covered : beyond v.sent v.history ≡ beyond v.sent v.waiting
  pub unsent :
      All (λ e. past v.cursor e.relay_seq ≡ true → past v.sent e.relay_seq ≡ true) v.waiting
  pub monotone : (n : ℕ) → past v.sent n ≡ true → past v.cursor n ≡ true

pub record Sending (e : LiveEvent) (v : View) : Type 0 where
  pub stopped : v.draining ≡ false
  pub next : beyond v.sent v.history ≡ e ∷ v.waiting
  pub new : past v.cursor e.relay_seq ≡ true
  pub later : All (λ x. e.relay_seq < x.relay_seq) v.waiting

abbrev pub PhaseInv : Phase → View → Type 0
PhaseInv (at backfill) v = Backfilling v
PhaseInv (at seam) v = Backfilling v
PhaseInv (at straggler) v = Backfilling v × (v.draining ≡ false)
PhaseInv (reading l rest n) v = Backfilling v × Snapshot v rest × LastLoop l rest n v
PhaseInv stopping v = Backfilling v
PhaseInv tailing v = Tailing v
PhaseInv (sending e) v = Sending e v
PhaseInv finished v = Unit

abbrev pub view : System → List LiveEvent → View
view s waiting = record {
  cursor = s.cursor;
  sent = s.sent;
  draining = s.draining;
  unread = map to_live (rows_after s.cursor s.db.rows);
  history = s.history;
  waiting = waiting;
}

pub record Inv (since : ℤ) (s : System) : Type 0 where
  pub well_formed : IsWellFormed s.db
  pub ascending : IsAscending live_seq s.history
  pub minted : All (λ e. e.relay_seq ≤ s.db.last_seq) s.history
  pub ahead : past s.sent (suc s.db.last_seq) ≡ true
  pub cursor_ahead : past s.cursor (suc s.db.last_seq) ≡ true
  pub since_ahead : past since (suc s.db.last_seq) ≡ true
  pub exactly_once : s.out ++ beyond s.sent s.history ≡ beyond since s.history
  pub before : List LiveEvent
  pub lost : List LiveEvent
  pub held : s.history ≡ before ++ (s.live.buffer ++ lost)
  pub open_lost : s.live.closed ≡ false → lost ≡ to_list s.pending
  pub phase : PhaseInv s.phase (view s (s.live.buffer ++ lost))
