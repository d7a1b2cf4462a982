-- ===== src/Firehose/Redial/Progress.antt =====
-- The cursor of the firehose over many sessions.
use labeler_relay.Prelude.{
  ◌≡◌, refl, sym, ap, ◌∙◌, String, false, Option, none, List, [], ◌∷◌, ◌++◌, map, ok, Fault, All,
  ok_injective,
}
use labeler_relay.Store.Meta.{Meta, get_meta}
use labeler_relay.Upstream.Loop.{states, run-states}
use labeler_relay.Firehose.{Relay, Batch, cursor_key}
use labeler_relay.Firehose.Dial.{
  Watcher, StreamEvent, repo_commit, error_frame, with_cursor, dial_url,
}
use labeler_relay.Firehose.Dial.Resume.{reached, dial-resumes}
use labeler_relay.Firehose.Redial.{Session, redial, round_of, run_watcher}

module _ {Label Service U : Type 0} (v : Watcher Label Service U) where
  abbrev pub all_events : List (Session Service) → List (StreamEvent Service)
  all_events [] = []
  all_events (s ∷ ss) = s.events ++ all_events ss

  reached-append :
      (es fs : List (StreamEvent Service)) (o : Option String)
      → reached v (es ++ fs) o ≡ reached v fs (reached v es o)
  reached-append [] fs o = refl
  reached-append (error_frame ∷ es) fs o = reached-append es fs o
  reached-append (repo_commit c ∷ es) fs o = reached-append es fs _

  -- A session that connects, and flushes on the way out.
  abbrev pub Flushes : Session Service → Type 0
  Flushes s = (s.faults.connect ≡ none) × (s.faults.exit_flush ≡ none)

  dial_url-parsed :
      (f : Fault) (db : Meta) (u : U)
      → v.urls.parse v.url ≡ ok u
      → dial_url v f db ≡ ok (v.urls.render (with_cursor v (get_meta f cursor_key db) u))
  unfolding dial_url
  dial_url-parsed f db u parsed = rw parsed refl

  module _ {W : Type 0} where
    -- A session whose flush on the way out succeeds moves the cursor past its events.
    redial-cursor :
        (s : Session Service) (u : U) (rb : Relay W × Batch) (o : Option String)
        → v.urls.parse v.url ≡ ok u
        → s.faults.connect ≡ none
        → s.faults.exit_flush ≡ none
        → get_meta none cursor_key rb.1.meta ≡ ok o
        → get_meta none cursor_key (redial v s rb).1.1.meta ≡ ok (reached v s.events o)
    unfolding redial get_meta
    redial-cursor s u (r, b) o parsed connected flushed q =
        let opened = dial_url-parsed s.faults.read_meta b.meta u parsed in
        (dial-resumes v s.faults s.events r b _ opened connected flushed).0
        ∙ ap (λ o. ok (reached v s.events o)) (ok_injective q)

    states-cursor :
        (ss : List (Session Service)) (u : U) (rb : Relay W × Batch) (o : Option String)
        → v.urls.parse v.url ≡ ok u
        → All Flushes ss
        → get_meta none cursor_key rb.1.meta ≡ ok o
        → get_meta none cursor_key (states (map (round_of v) ss) rb).1.meta
          ≡ ok (reached v (all_events ss) o)
    states-cursor [] u rb o parsed fs q = q
    states-cursor (s ∷ ss) u rb o parsed fs q =
        states-cursor ss u (redial v s rb).1 (reached v s.events o) parsed fs.1
          (redial-cursor s u rb o parsed fs.0.0 fs.0.1 q)
        ∙ ap (λ o. ok o) (sym (reached-append s.events (all_events ss) o))

    -- Over any number of redials of a URL that parses, which the end of the context has not stopped and
    -- each of which connects and flushes on its way out, the stored cursor of the firehose comes as far as the last commit with a
    -- readable archive over all sessions, as if they had been one, whatever the batching does within each;
    -- and it is what it was at the start if no session had such a commit.
    pub run_watcher-cursor :
        (ss : List (Session Service)) (u : U) (r : Relay W) (b : Batch) (o : Option String)
        → v.urls.parse v.url ≡ ok u
        → All Flushes ss
        → get_meta none cursor_key b.meta ≡ ok o
        → (run_watcher v ss r b).1 ≡ false
        → get_meta none cursor_key (run_watcher v ss r b).2.1.meta
          ≡ ok (reached v (all_events ss) o)
    unfolding run_watcher
    run_watcher-cursor ss u r b o parsed fs q going =
        ap (λ rb. get_meta none cursor_key rb.1.meta)
          (run-states 0 (map (round_of v) ss) (r, b) going)
        ∙ states-cursor ss u (r, b) o parsed fs q
