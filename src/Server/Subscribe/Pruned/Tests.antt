-- ===== src/Server/Subscribe/Pruned/Tests.antt =====
-- A request with cursor 5 around a Prune of the three sample rows.
use labeler_relay.Prelude.{
  ℕ, ◌≡◌, refl, String, false, none, ok, err, [], ◌∷◌, ℤ, pos, Result, str_eq, if◌then◌else◌, arith,
}
use labeler_relay.Store.Samples.{three_rows}
use labeler_relay.Store.Playback.{max_seq}
use labeler_relay.Store.Prune.{PruneRound}
use labeler_relay.Store.Prune.Exact.{IsQuiet}
use labeler_relay.Store.Prune.First.{first_picked, first_picked-Limits}
use labeler_relay.Server.Subscribe.{StartFaults}
use labeler_relay.Server.Subscribe.Pruned.{Refused, prune-Refused}

abbrev parse_five : String → Result ℤ
parse_five t = if str_eq t "5" then ok (pos 5) else err "invalid syntax"

abbrev calm_start : StartFaults
calm_start = record {
  live_head = none;
  status_head = none;
  status_floor = none;
  resume_floor = none;
  info_body = ok (1 ∷ []);
  info_write_fails = false;
}

abbrev calm_round : PruneRound
calm_round = record {
  context_error = none;
  exec = none;
  rows_affected = none;
  pick = first_picked 1 (pos 99);
  meanwhile = λ db. db;
}

calm_round-IsQuiet : (i : ℕ) → IsQuiet 1 (pos 99) calm_round
calm_round-IsQuiet i = record {
  no_cancel = refl;
  no_exec = refl;
  no_affected = refl;
  limits = first_picked-Limits 1 (pos 99);
  alone = λ db. refl;
}

head_run : 5 ≡ max_seq three_rows.rows
unfolding max_seq
head_run = refl

prune-Refused_example :
    Refused parse_five calm_start "5" 5 refl refl refl refl
      (λ i. calm_round)
      (pos 99)
      1
      calm_round-IsQuiet
      (omega arith)
      4
      three_rows
prune-Refused_example =
    prune-Refused parse_five calm_start "5" 5 refl refl refl refl (λ i. calm_round) (pos 99) 1
      calm_round-IsQuiet (omega arith) 4 three_rows (omega arith) head_run (omega arith)
      (refl, (refl, (refl, tt))) (omega arith)
