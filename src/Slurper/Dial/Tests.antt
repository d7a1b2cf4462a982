-- ===== src/Slurper/Dial/Tests.antt =====
-- A connection to a labeler and the dial after it; the redial loop around such connections.
use labeler_relay.Prelude.{
  ℕ, suc, ◌≡◌, refl, true, false, none, some, List, [], ◌∷◌, pos, ok, ◌>>=◌, with_context,
}
use labeler_relay.Store.Events.{persist_ingest, ingest_tx, insert_placeholder, encode_frame}
use labeler_relay.Store.Registry.{read_cursor, write_cursor, find, modify}
use labeler_relay.Store.Samples.{plain_encoders, two_labelers}
use labeler_relay.Upstream.{DialEnd, cancelled, ended, Round, run}
use labeler_relay.Slurper.Backoff.{next_ms, sleep_ms}
use labeler_relay.Slurper.Policy.{keep_label}
use labeler_relay.Slurper.Frames.{keep_labels, handle_label_labels}
use labeler_relay.Slurper.Samples.{digit, split_urls, subscriber, quiet, start, calm}
use labeler_relay.Slurper.Dial.{
  StreamEvent, label_labels, label_info, handle_event, handle_events, websocket_scheme, with_cursor,
  dial_url, dial,
}
use labeler_relay.Slurper.Dial.Resume.{reached, dial-continues}

-- The second frame has no signed label.
abbrev events : List (StreamEvent ℕ)
events =
    label_labels (pos 11) (40 ∷ 41 ∷ []) quiet (pos 40)
    ∷ label_info
    ∷ label_labels (pos 12) (40 ∷ []) quiet (pos 41)
    ∷ []

cursor_run : read_cursor none "did:plc:a" two_labelers ≡ ok (some (pos 7))
unfolding read_cursor find
cursor_run = refl

url_run :
    dial_url split_urls digit none subscriber.labeler two_labelers ≡ ok "wss://a.example?cursor=7"
unfolding dial_url read_cursor find
url_run = refl

events_run : (handle_events plain_encoders subscriber events start).0 ≡ ok tt
unfolding handle_events handle_event handle_label_labels keep_labels keep_label persist_ingest
    ingest_tx insert_placeholder encode_frame write_cursor find modify
events_run = refl

dial-continues_example :
    dial_url split_urls digit none subscriber.labeler
      (dial plain_encoders subscriber split_urls digit calm events start).1.registry
    ≡ (with_context "invalid endpoint URL" (ok ("https", "a.example")) >>= (λ u. ok (
        split_urls.render (
          with_cursor split_urls digit
            (reached plain_encoders subscriber events (some (pos 7)))
            (websocket_scheme split_urls u)))))
dial-continues_example =
    dial-continues plain_encoders subscriber split_urls digit calm events start (some (pos 7))
      "wss://a.example?cursor=7" url_run refl cursor_run events_run

-- Dials that count themselves; the third is cut off by the context.
abbrev round : DialEnd → Round ℕ
round end = record {
  done_before = false;
  dial = λ n. (end, suc n);
  connected_for = 5;
  intn = λ n. n;
  done_asleep = false;
}

redial_run : run 0 (round ended ∷ round ended ∷ round cancelled ∷ []) 0 ≡ (110 ∷ 220 ∷ [], true, 3)
unfolding run next_ms sleep_ms
redial_run = refl
