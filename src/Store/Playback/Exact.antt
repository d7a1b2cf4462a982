-- ===== src/Store/Playback/Exact.antt =====
-- What a playback delivers: exactly the stored rows past the cursor, in order; and how chunks
-- compose.
use mathlib.Core.List.{map-append}
use labeler_relay.Prelude.{
  ℕ, suc, ◌+◌, ◌<◌, ◌≡◌, refl, ap, sym, ◌∙◌, none, List, [], ◌∷◌, ◌++◌, map, arith, append_assoc,
  append-nil, ℤ, pos, ok, Fault, take, drop, length, All, IsAscending, IsAscending-select, above,
  above-advance_to, take-append-drop,
}
use labeler_relay.Store.Events.{Row, Events, LiveEvent, to_live}
use labeler_relay.Store.Events.Order.{seq_of, IsWellFormed}
use labeler_relay.Store.Playback.{
  insert_by_seq, order_by_seq, rows_after, Callback, deliver, playback_frames,
  playback_frames_chunk,
}

insert_by_seq-first :
    (r : Row) (xs : List Row)
    → All (λ x. r.relay_seq < x.relay_seq) xs
    → insert_by_seq r xs ≡ r ∷ xs
unfolding insert_by_seq
insert_by_seq-first r [] h = refl
insert_by_seq-first r (x ∷ xs) h = ground arith

pub order_by_seq-IsAscending : (xs : List Row) → IsAscending seq_of xs → order_by_seq xs ≡ xs
unfolding order_by_seq
order_by_seq-IsAscending [] h = refl
order_by_seq-IsAscending (x ∷ xs) h =
    ap (insert_by_seq x) (order_by_seq-IsAscending xs h.1) ∙ insert_by_seq-first x xs h.0

-- The query of a playback over a well-formed table.
pub query-IsWellFormed :
    (db : Events) (since : ℤ)
    → IsWellFormed db
    → order_by_seq (rows_after since db.rows) ≡ rows_after since db.rows
query-IsWellFormed db since h =
    order_by_seq-IsAscending (rows_after since db.rows)
      (IsAscending-select seq_of _ db.rows h.ascending)

-- A callback that takes every event and keeps the list of them.
abbrev pub collect : Callback (List LiveEvent)
collect e w = ok (w ++ e ∷ [])

abbrev pub no_scan_fault : ℕ → Fault
no_scan_fault n = none

deliver-collect :
    (n : ℕ) (rs : List Row) (w : List LiveEvent)
    → deliver collect no_scan_fault n rs w ≡ (n + length rs, none, w ++ map to_live rs)
unfolding deliver
deliver-collect n [] w = ground (arith, append-nil w)
deliver-collect n (r ∷ rs) w = ground (
  arith,
  deliver-collect (suc n) rs (w ++ to_live r ∷ []),
  append_assoc w (to_live r ∷ []) (map to_live rs),
)

-- PlaybackFrames over a well-formed table hands the callback exactly the stored events whose
-- number is past `since`, each once, in ascending order.
pub playback_frames-exact :
    (db : Events) (since : ℤ) (w : List LiveEvent)
    → IsWellFormed db
    → (playback_frames none no_scan_fault db since collect w
        ≡ (length (rows_after since db.rows), none, w ++ map to_live (rows_after since db.rows)))
      × IsAscending seq_of (rows_after since db.rows)
unfolding playback_frames
playback_frames-exact db since w h = (
  rw (query-IsWellFormed db since h)
      (ground (arith, deliver-collect 0 (rows_after since db.rows) w)),
  IsAscending-select seq_of _ db.rows h.ascending,
)

-- PlaybackFramesChunk: the first `limit` of those.
pub playback_frames_chunk-exact :
    (db : Events) (since : ℤ) (limit : ℕ) (w : List LiveEvent)
    → IsWellFormed db
    → playback_frames_chunk none no_scan_fault db since limit collect w ≡ (
      length (take limit (rows_after since db.rows)),
      none,
      w ++ map to_live (take limit (rows_after since db.rows)),
    )
unfolding playback_frames_chunk
playback_frames_chunk-exact db since limit w h =
    rw (query-IsWellFormed db since h)
      (ground (arith, deliver-collect 0 (take limit (rows_after since db.rows)) w))

-- The number of the last row of a chunk, where the next chunk starts.
abbrev pub cursor_after : ℤ → List Row → ℤ
cursor_after since [] = since
cursor_after since (r ∷ rs) = cursor_after (pos r.relay_seq) rs

pub above-cursor_after :
    (since : ℤ) (rows ys zs : List Row)
    → IsAscending seq_of rows
    → above seq_of since rows ≡ ys ++ zs
    → above seq_of (cursor_after since ys) rows ≡ zs
above-cursor_after since rows [] zs h e = e
above-cursor_after since rows (y ∷ ys) zs h e =
    above-cursor_after (pos y.relay_seq) rows ys zs h
      (above-advance_to seq_of since rows [] y (ys ++ zs) h e)

-- Reading a chunk and then the rest from the chunk's last number on delivers what one playback
-- delivers: nothing is left out at the border and nothing comes twice.
pub playback_frames-chunk :
    (db : Events) (since : ℤ) (limit : ℕ) (w : List LiveEvent)
    → IsWellFormed db
    → let chunk = take limit (rows_after since db.rows) in
      let first = playback_frames_chunk none no_scan_fault db since limit collect w in
      (playback_frames none no_scan_fault db (cursor_after since chunk) collect first.2).2
      ≡ (playback_frames none no_scan_fault db since collect w).2
playback_frames-chunk db since limit w h =
    let all = rows_after since db.rows in
    let chunk = take limit all in
    let split : all ≡ chunk ++ drop limit all = sym (take-append-drop limit all) in
    let rest = above-cursor_after since db.rows chunk (drop limit all) h.ascending split in
    let tail = drop limit all in
    rw (ap (λ out. out.2) (playback_frames_chunk-exact db since limit w h)) (
      ap (λ out. out.2)
        (playback_frames-exact db (cursor_after since chunk) (w ++ map to_live chunk) h).0
      ∙ ap (λ rs. (w ++ map to_live chunk) ++ map to_live rs) rest
      ∙ append_assoc w (map to_live chunk) (map to_live tail)
      ∙ ap (◌++◌ w) (sym (map-append to_live chunk tail))
      ∙ ap (λ rs. w ++ map to_live rs) (sym split)
      ∙ sym (ap (λ out. out.2) (playback_frames-exact db since w h).0))
