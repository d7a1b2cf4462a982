-- ===== src/Store/Log.antt =====
-- What the event log promises, without its table: an append-only sequence of events under numbers that
-- are never given twice, from which events may disappear. Below are the commands that change the table,
-- each one transaction: PersistIngest, and a DELETE of Prune.
pub mod History
pub mod Refines
pub mod Readers
mod Tests
use labeler_relay.Prelude.{ℕ, suc, ◌≡◌, Bool, List, [], ◌∷◌, ◌++◌, map, ℤ, ◌⊎◌}
use labeler_relay.Store.Events.{
  Row, Events, LiveEvent, IngestEvent, Encoders, IngestFaults, LabelPersist, to_live,
  persist_ingest,
}
use labeler_relay.Store.Prune.{prune_batch}

pub record Log : Type 0 where
  pub entries : List LiveEvent
  pub given : ℕ  -- the largest number given so far

-- Some elements of the first list, in their order.
abbrev pub Thinned : List LiveEvent → List LiveEvent → Type 0
Thinned [] ys = ys ≡ []
Thinned (x ∷ xs) ys = Thinned xs ys ⊎ ((zs : List LiveEvent) × (ys ≡ x ∷ zs) × Thinned xs zs)

-- One change of a log.
pub data Step (l l' : Log) : Type 0 where
  added :
      (e : LiveEvent)
      → e.relay_seq ≡ suc l.given
      → l'.entries ≡ l.entries ++ e ∷ []
      → l'.given ≡ suc l.given
      → Step l l'
  thinned : Thinned l.entries l'.entries → l'.given ≡ l.given → Step l l'

pub data Steps : Log → Log → Type 0 where
  stop : {l : Log} → Steps l l
  step : {l m n : Log} → Step l m → Steps m n → Steps l n

-- The log that a table stands for.
abbrev pub log_of : Events → Log
log_of db = record { entries = map to_live db.rows; given = db.last_seq }

pub data Command (Label Service : Type 0) : Type 0 where
  ingest : IngestFaults → ℤ → IngestEvent Label Service → Command Label Service
  delete_batch : (List Row → ℕ → Bool) → ℤ → Command Label Service

module _ {Label Service W : Type 0} (enc : Encoders Label Service) where
  unfoldable pub exec : Command Label Service → LabelPersist W → W → LabelPersist W × W
  unfolding persist_ingest prune_batch
  exec (ingest f now e) p w = let (r, p', w') = persist_ingest enc f now e p w in (p', w')
  exec (delete_batch pick cutoff) p w =
      (record p { store = (prune_batch pick cutoff p.store).0 }, w)

  unfoldable pub exec_all : List (Command Label Service) → LabelPersist W → W → LabelPersist W × W
  unfolding exec
  exec_all [] p w = (p, w)
  exec_all (c ∷ cs) p w = let (p', w') = exec c p w in exec_all cs p' w'
