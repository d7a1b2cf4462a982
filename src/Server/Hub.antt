-- ===== src/Server/Hub.antt =====
-- internal/server/hub.go. The channel of a subscription is numbered like the subscription; it
-- outlives the entry of the map, since the subscriber keeps it. The loop over the map takes the
-- keys in the order of `subs`, which no operation relies on. A panic is `none`.
pub mod Broadcast
pub mod Calls
use labeler_relay.Prelude.{
  ℕ, zero, suc, ◌+◌, Bool, true, false, not, Option, none, some, List, [], ◌∷◌, ◌++◌, ◌==◌,
  if◌then◌else◌, select, any,
}
use labeler_relay.Store.Events.{LiveEvent}
use labeler_relay.Server.Channel.{Chan, make, has_room, close}

pub record Hub : Type 0 where
  pub subs : List ℕ
  pub next : ℕ
  pub chans : ℕ → Chan LiveEvent

unfoldable pub new_hub : Hub
new_hub = record { subs = []; next = 0; chans = λ id. make 0 }

abbrev pub update : {A : Type 0} → (ℕ → A) → ℕ → A → ℕ → A
update f k a j = if j == k then a else f j

abbrev pub member : ℕ → List ℕ → Bool
member id = any (λ j. id == j)

-- delete(h.subs, id)
abbrev pub delete : ℕ → List ℕ → List ℕ
delete id = select (λ j. not (j == id))

-- close(sub.ch); delete(h.subs, id)
unfoldable pub close_sub : ℕ → Hub → Option Hub
close_sub id h = elim (close (h.chans id)) [
  | none ↦ none
  | some c ↦ some (record h { subs = delete id h.subs; chans = update h.chans id c })
]

-- The body of the loop: the send, or the drop of a subscriber whose buffer is full. A send on a
-- closed channel panics.
unfoldable pub broadcast_one : LiveEvent → ℕ → Hub → Option Hub
unfolding close_sub
broadcast_one e id h =
    let c = h.chans id in
    if c.closed
    then none
    else if has_room c
    then some (record h { chans = update h.chans id (record c { buffer = c.buffer ++ e ∷ [] }) })
    else close_sub id h

unfoldable pub broadcast_all : LiveEvent → List ℕ → Hub → Option Hub
broadcast_all e [] h = some h
broadcast_all e (id ∷ ids) h = elim (broadcast_one e id h) [
  | none ↦ none
  | some h' ↦ broadcast_all e ids h'
]

unfoldable pub broadcast : LiveEvent → Hub → Option Hub
unfolding broadcast_all broadcast_one
broadcast e h = broadcast_all e h.subs h

-- Subscribe: the number of the subscription and of its channel.
unfoldable pub subscribe : ℕ → Hub → ℕ × Hub
subscribe buf_size h = (
  h.next,
  record {
    subs = h.next ∷ h.subs;
    next = suc h.next;
    chans = update h.chans h.next (make buf_size);
  },
)

-- The function that Subscribe returns to end the subscription.
unfoldable pub cancel : ℕ → Hub → Option Hub
unfolding close_sub
cancel id h = if member id h.subs then close_sub id h else some h

-- A receive by the subscriber takes from the channel alone.
unfoldable pub set_chan : ℕ → Chan LiveEvent → Hub → Hub
set_chan id c h = record h { chans = update h.chans id c }
