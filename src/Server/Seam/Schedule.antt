-- ===== src/Server/Seam/Schedule.antt =====
-- The moves of all threads around one StreamFrom, and schedules as lists of moves.
use labeler_relay.Prelude.{
  ℕ, ◌≡◌, Bool, true, Option, none, some, List, [], ◌∷◌, ◌++◌, ℤ, Result, ok, err,
}
use labeler_relay.Store.Events.{
  Row, Events, LiveEvent, IngestEvent, Encoders, IngestFaults, ingest_tx,
}
use labeler_relay.Store.Prune.{prune_batch}
use labeler_relay.Store.Playback.{rows_after}
use labeler_relay.Server.Seam.{
  System, Phase, ReaderEnv, reader_step, drain_step, drain_stop, broadcast_step, at, reading,
  stopping, tailing, finished, sending,
}

pub data Move (Label Service : Type 0) : Type 0 where
  commits : IngestFaults → ℤ → IngestEvent Label Service → Move Label Service
  broadcasts drains drainer_stops cancels : Move Label Service
  prunes : (List Row → ℕ → Bool) → ℤ → Move Label Service
  reads : ReaderEnv → Move Label Service

abbrev pub commit_of : Option LiveEvent → Result (LiveEvent × Events) → System → System
commit_of (some le) r s = s
commit_of none (err m) s = s
commit_of none (ok (le, db)) s = record s {
  db = db;
  pending = some le;
  history = s.history ++ le ∷ [];
}

-- A prune takes no event that the backfill still has to read.
abbrev pub Spares : Phase → System → System → Type 0
Spares tailing s t = Unit
Spares (sending e) s t = Unit
Spares finished s t = Unit
Spares (at l) s t = rows_after s.cursor t.db.rows ≡ rows_after s.cursor s.db.rows
Spares (reading l rest n) s t = rows_after s.cursor t.db.rows ≡ rows_after s.cursor s.db.rows
Spares stopping s t = rows_after s.cursor t.db.rows ≡ rows_after s.cursor s.db.rows

module _ {Label Service : Type 0} (enc : Encoders Label Service) (buf_size : ℕ) where
  -- The writer's transaction; the mutex keeps the next one out until the broadcast.
  unfoldable pub commit_step : IngestFaults → ℤ → IngestEvent Label Service → System → System
  commit_step f now e s = commit_of s.pending (ingest_tx enc f now e s.db) s

  unfoldable pub step : Move Label Service → System → System
  unfolding commit_step broadcast_step drain_step drain_stop reader_step
  step (commits f now e) s = commit_step f now e s
  step broadcasts s = broadcast_step s
  step drains s = drain_step s
  step drainer_stops s = drain_stop s
  step cancels s = record s { cancelled = true }
  step (prunes pick cutoff) s = record s { db = (prune_batch pick cutoff s.db).0 }
  step (reads env) s = reader_step env buf_size s.phase s

  unfoldable pub run : List (Move Label Service) → System → System
  run [] s = s
  run (m ∷ ms) s = run ms (step m s)

  -- Every prune of a schedule is such a one.
  abbrev pub SparesUnread : List (Move Label Service) → System → Type 0
  SparesUnread [] s = Unit
  SparesUnread (prunes pick cutoff ∷ ms) s =
      Spares s.phase s (step (prunes pick cutoff) s) × SparesUnread ms (step (prunes pick cutoff) s)
  SparesUnread (commits f now e ∷ ms) s = SparesUnread ms (step (commits f now e) s)
  SparesUnread (broadcasts ∷ ms) s = SparesUnread ms (step broadcasts s)
  SparesUnread (drains ∷ ms) s = SparesUnread ms (step drains s)
  SparesUnread (drainer_stops ∷ ms) s = SparesUnread ms (step drainer_stops s)
  SparesUnread (cancels ∷ ms) s = SparesUnread ms (step cancels s)
  SparesUnread (reads env ∷ ms) s = SparesUnread ms (step (reads env) s)
