-- ===== src/Slurper/Samples.antt =====
-- A subscription, URLs and states that the tests of several modules share.
use Prim.Native.String
use labeler_relay.Prelude.{
  ℕ, String, true, none, some, [], ◌∷◌, ℤ, pos, negsuc, ok, if◌then◌else◌, ◌==◌,
}
use labeler_relay.Store.Events.Order.{no_faults}
use labeler_relay.Store.Samples.{World, recorder, labeler, two_labelers}
use labeler_relay.Upstream.{Urls}
use labeler_relay.Slurper.Frames.{Subscription, FrameFaults}
use labeler_relay.Slurper.Dial.{State, DialFaults}

abbrev pub digit : ℤ → String
digit (pos n) = if n == 7 then "7" else "8"
digit (negsuc n) = "-"

-- URLs that are a scheme and the rest.
abbrev pub split_urls : Urls (String × String)
split_urls = record {
  parse = λ s. ok ("https", s);
  scheme = λ u. u.0;
  with_scheme = λ s u. (s, u.1);
  set_cursor = λ cursor u. (u.0, String.◌++◌ u.1 (String.◌++◌ "?cursor=" cursor));
  render = λ u. String.◌++◌ u.0 (String.◌++◌ "://" u.1);
}

-- Labels are numbers; only 41 is signed.
abbrev pub subscriber : Subscription ℕ World
subscriber = record {
  labeler = record (labeler "did:plc:a" "manual") { endpoint = "a.example" };
  sig_default = true;
  sig = λ l. if l == 41 then 1 ∷ [] else [];
  on_drop_unsigned = none;
  on_ingested = none;
}

abbrev pub quiet : FrameFaults
quiet = record { wait = λ i. none; ingest = no_faults; cursor_exec = none; cursor_affected = none }

abbrev pub start : State World
start = record { persist = recorder; registry = two_labelers; world = ([], []) }

abbrev pub calm : DialFaults
calm = record { read_cursor = none; connect = none; stream = some "EOF" }
