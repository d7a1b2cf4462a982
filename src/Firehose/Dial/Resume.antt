-- ===== src/Firehose/Dial/Resume.antt =====
-- Where the next session of the firehose starts.
use labeler_relay.Prelude.{
  ℕ, ◌≡◌, refl, ap, ◌∙◌, String, Option, none, some, List, [], ◌∷◌, ℤ, ok, err, ◌>>=◌, Fault, arith,
  with_context,
}
use labeler_relay.Store.Meta.{find_meta, get_meta, set_meta, find_meta-put_meta}
use labeler_relay.Firehose.{Relay, Batch, cursor_key, maybe_flush_cursor, handle_commit}
use labeler_relay.Firehose.Dial.{
  Commit, StreamEvent, repo_commit, error_frame, Watcher, DialFaults, handle_event, handle_events,
  with_cursor, dial_url, flush_pending, reset, session, dial,
}

-- The cursor as far as a session has come.
abbrev progress : (ℤ → String) → Batch → Option String
progress sprint b = elim b.pending_seq [
  | none ↦ find_meta cursor_key b.meta
  | some seq ↦ some (sprint seq)
]

maybe_flush_cursor-progress :
    (sprint : ℤ → String) (every interval : ℤ) (f : Fault) (elapsed : ℕ) (seq : ℤ) (b : Batch)
    → progress sprint (maybe_flush_cursor sprint every interval f elapsed seq b) ≡ some (sprint seq)
unfolding maybe_flush_cursor set_meta
maybe_flush_cursor-progress sprint every interval f elapsed seq b =
    ground (arith, find_meta-put_meta cursor_key cursor_key (sprint seq) b.meta)

flush_pending-progress :
    {Label Service U : Type 0} (v : Watcher Label Service U) (b : Batch)
    → find_meta cursor_key (flush_pending v none b.pending_seq b).meta ≡ progress v.sprint b
unfolding set_meta
flush_pending-progress v b = at_exit b.pending_seq refl
  where
    at_exit :
        (o : Option ℤ)
        → b.pending_seq ≡ o
        → find_meta cursor_key (flush_pending v none o b).meta
          ≡ elim o [ none ↦ find_meta cursor_key b.meta | some seq ↦ some (v.sprint seq) ]
    at_exit none q = refl
    at_exit (some seq) q = find_meta-put_meta cursor_key cursor_key (v.sprint seq) b.meta

module _ {Label Service U : Type 0} (v : Watcher Label Service U) where
  -- The cursor of the last commit whose archive could be read, or `o` if there is none.
  abbrev pub reached : List (StreamEvent Service) → Option String → Option String
  reached [] o = o
  reached (error_frame ∷ es) o = reached es o
  reached (repo_commit c ∷ es) o =
      reached es (elim c.ops [ err e ↦ o | ok ops ↦ some (v.sprint c.seq) ])

module _ {Label Service U W : Type 0} (v : Watcher Label Service U) where
  handle_commit-progress :
      (c : Commit Service) (r : Relay W) (b : Batch)
      → progress v.sprint (handle_event v (repo_commit c) r b).1
        ≡ elim c.ops [ err e ↦ progress v.sprint b | ok ops ↦ some (v.sprint c.seq) ]
  unfolding handle_event handle_commit
  handle_commit-progress c r b =
      elim c.ops
        as (λ ops.
          progress v.sprint
            (handle_commit v.encoders v.auto_subscribe v.sprint c.envs v.cursor_flush_every
              v.cursor_flush_interval c.flush_fault c.elapsed c.seq ops r b).1
          ≡ elim ops [ err e ↦ progress v.sprint b | ok ops ↦ some (v.sprint c.seq) ]) [
            | err e ↦ refl
            | ok ops ↦
                maybe_flush_cursor-progress v.sprint v.cursor_flush_every v.cursor_flush_interval
                  c.flush_fault c.elapsed c.seq b
          ]

  handle_events-progress :
      (es : List (StreamEvent Service)) (r : Relay W) (b : Batch)
      → progress v.sprint (handle_events v es r b).1 ≡ reached v es (progress v.sprint b)
  unfolding handle_events handle_event
  handle_events-progress [] r b = refl
  handle_events-progress (error_frame ∷ es) r b = handle_events-progress es r b
  handle_events-progress (repo_commit c ∷ es) r b =
      let (r', b') = handle_event v (repo_commit c) r b in
      handle_events-progress es r' b' ∙ ap (λ o. reached v es o) (handle_commit-progress c r b)

  dial-connected :
      (f : DialFaults) (events : List (StreamEvent Service)) (r : Relay W) (b : Batch)
      (url : String)
      → dial_url v f.read_meta b.meta ≡ ok url
      → f.connect ≡ none
      → (dial v f events r b).2 ≡ (session v f events r (reset b)).1
  unfolding dial
  dial-connected f events r b url opened connected = rw (dial, opened, connected) refl

  -- When a session of the firehose has connected and its flush on the way out succeeds, GetMeta afterwards
  -- reads the number of its last commit with a readable archive, or what it read before if there was none,
  -- whatever the batching and its writes did meanwhile; and this is the cursor in the URL of the next dial.
  pub dial-resumes :
      (f : DialFaults) (events : List (StreamEvent Service)) (r : Relay W) (b : Batch)
      (url : String)
      → dial_url v f.read_meta b.meta ≡ ok url
      → f.connect ≡ none
      → f.exit_flush ≡ none
      → (get_meta none cursor_key (dial v f events r b).2.meta
          ≡ ok (reached v events (find_meta cursor_key b.meta)))
        × (dial_url v none (dial v f events r b).2.meta ≡ (
            with_context "invalid URL" (v.urls.parse v.url) >>= (λ u. ok (
              v.urls.render
                (with_cursor v (ok (reached v events (find_meta cursor_key b.meta))) u)))))
  unfolding get_meta dial_url
  dial-resumes f events r b url opened connected flushed =
      let (r', b') = handle_events v events r (reset b) in
      let read : find_meta cursor_key (dial v f events r b).2.meta
          ≡ reached v events (find_meta cursor_key b.meta) =
        ap (λ x. find_meta cursor_key x.meta) (dial-connected f events r b url opened connected)
        ∙ ap (λ o. find_meta cursor_key (flush_pending v o b'.pending_seq b').meta) flushed
        ∙ flush_pending-progress v b'
        ∙ handle_events-progress events r (reset b) in
      (
        ap (λ o. ok o) read,
        ap
            (λ o.
              with_context "invalid URL" (v.urls.parse v.url)
              >>= (λ u. ok (v.urls.render (with_cursor v (ok o) u))))
            read,
      )
