-- ===== src/Server/Subscribe/Wire/Outcome.antt =====
-- Which frames the handler writes for the events of a stream.
use labeler_relay.Prelude.{
  ℕ, zero, suc, ◌+◌, ◌<◌, ◌≡◌, refl, sym, subst, append-nil, Bool, true, false, List, [], ◌∷◌, ◌++◌,
  map, take, length, if◌then◌else◌, arith,
}
use labeler_relay.Store.Events.{LiveEvent}
use labeler_relay.Server.Subscribe.{
  Frame, message, error_frame, kind_to_msg_type, write_events, write_stream,
}

-- The message of an event.
abbrev pub message_of : LiveEvent → Frame
message_of e = message (kind_to_msg_type e.kind) e.frame_cbor

abbrev pub too_slow : Frame
too_slow = error_frame "ConsumerTooSlow" "consumer is too slow to keep up with the stream"

write_events-whole :
    (fails : ℕ → Bool) (n : ℕ) (es : List LiveEvent)
    → ((i : ℕ) → i < length es → fails (n + i) ≡ false)
    → write_events fails n es ≡ (map message_of es, true)
unfolding write_events
write_events-whole fails n [] h = refl
write_events-whole fails n (e ∷ es) h =
    let first : fails n ≡ false = subst (λ m. fails m ≡ false) (omega arith) (h 0 (omega arith)) in
    let rest =
      write_events-whole fails (suc n) es
        (λ i q. subst (λ m. fails m ≡ false) (omega arith) (h (suc i) (omega (arith, q)))) in
    ground (arith, first, rest)

write_events-cut :
    (fails : ℕ → Bool) (n k : ℕ) (es : List LiveEvent)
    → k < length es
    → ((i : ℕ) → i < k → fails (n + i) ≡ false)
    → fails (n + k) ≡ true
    → write_events fails n es ≡ (map message_of (take (suc k) es), false)
unfolding write_events
write_events-cut fails n k [] l h q = absurd (omega (arith, l))
write_events-cut fails n zero (e ∷ es) l h q =
    let first : fails n ≡ true = subst (λ m. fails m ≡ true) (omega arith) q in
    ground (arith, first)
write_events-cut fails n (suc k) (e ∷ es) l h q =
    let first : fails n ≡ false = subst (λ m. fails m ≡ false) (omega arith) (h 0 (omega arith)) in
    let rest =
      write_events-cut fails (suc n) k es (omega (arith, l))
        (λ i r. subst (λ m. fails m ≡ false) (omega arith) (h (suc i) (omega (arith, r))))
        (subst (λ m. fails m ≡ true) (omega arith) q) in
    ground (arith, first, rest)

-- When no write of the events fails, the handler writes a message for each event of the stream, in
-- order, and then, unless the request was cancelled, the error ConsumerTooSlow.
pub write_stream-whole :
    (fails : ℕ → Bool) (cancelled : Bool) (es : List LiveEvent)
    → ((i : ℕ) → i < length es → fails i ≡ false)
    → write_stream fails cancelled es
      ≡ map message_of es ++ (if cancelled then [] else too_slow ∷ [])
unfolding write_stream
write_stream-whole fails cancelled es h =
    rw (write_events-whole fails 0 es (λ i q. subst (λ m. fails m ≡ false) (omega arith) (h i q)))
      (ending cancelled)
  where
    ending :
        (b : Bool)
        → (if b then map message_of es else map message_of es ++ too_slow ∷ [])
          ≡ map message_of es ++ (if b then [] else too_slow ∷ [])
    ending true = sym (append-nil (map message_of es))
    ending false = refl

-- When the write of the k-th event is the first that fails, the handler has tried to write the events up
-- to that one, in order, and writes nothing more, not even an error.
pub write_stream-cut :
    (fails : ℕ → Bool) (cancelled : Bool) (k : ℕ) (es : List LiveEvent)
    → k < length es
    → ((i : ℕ) → i < k → fails i ≡ false)
    → fails k ≡ true
    → write_stream fails cancelled es ≡ map message_of (take (suc k) es)
unfolding write_stream
write_stream-cut fails cancelled k es l h q =
    rw
      (write_events-cut fails 0 k es l (λ i r. subst (λ m. fails m ≡ false) (omega arith) (h i r))
        (subst (λ m. fails m ≡ true) (omega arith) q))
      refl
