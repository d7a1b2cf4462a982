-- ===== src/Server/Hub/Calls.antt =====
-- Every operation of the hub keeps its invariant, and no sequence of them panics.
use labeler_relay.Prelude.{
  ℕ, ◌≡◌, refl, true, false, not, Option, none, some, List, [], ◌∷◌, ◌==◌, arith, if◌then◌else◌,
  All, All-imp, All-select_of, All-select, All-and, Bool-cases, inl, inr, ==→eq, ==_refl, ==_false,
}
use labeler_relay.Store.Events.{LiveEvent}
use labeler_relay.Server.Hub.{
  Hub, new_hub, update, member, delete, close_sub, broadcast, subscribe, cancel, set_chan,
}
use labeler_relay.Server.Hub.Broadcast.{
  IsConsistent, offered, broadcast_lem, offered-IsConsistent, member_lt, IsDistinct-select,
}

pub subscribe-IsConsistent : (n : ℕ) (h : Hub) → IsConsistent h → IsConsistent (subscribe n h).1
unfolding subscribe
subscribe-IsConsistent n h c = record {
  numbered = (omega arith, All-imp _ _ h.subs (λ j k. omega arith) c.numbered);
  distinct = (member_lt h.next h.next h.subs c.numbered (omega arith), c.distinct);
  opened = (
    rw (==_refl h.next) refl,
    All-imp _ _ h.subs (λ j k. rw (==_false j h.next k.0) k.1)
        (All-and _ _ h.subs c.numbered c.opened),
  );
}

opened_at :
    (h : Hub) (id : ℕ) (ids : List ℕ)
    → member id ids ≡ true
    → All (λ j. (h.chans j).closed ≡ false) ids
    → (h.chans id).closed ≡ false
opened_at h id [] m o = cc
opened_at h id (j ∷ js) m o = elim (Bool-cases (id == j)) [
  | inl q ↦ rw (==→eq id j q) o.0
  | inr q ↦ opened_at h id js (ground arith) o.1
]

abbrev pub without : ℕ → Hub → Hub
without id h = record h {
  subs = delete id h.subs;
  chans = update h.chans id (record (h.chans id) { closed = true });
}

-- Ending a subscription never panics: the channel of one that the hub has not dropped is closed
-- and its entry removed; for one that is gone already nothing happens.
pub cancel_lem :
    (id : ℕ) (h : Hub)
    → IsConsistent h
    → cancel id h ≡ some (if member id h.subs then without id h else h)
unfolding cancel close_sub
cancel_lem id h c = elim (Bool-cases (member id h.subs)) [
  | inl m ↦ rw (m, opened_at h id h.subs m c.opened, close_sub)
  | inr m ↦ rw m
]

pub without-IsConsistent : (id : ℕ) (h : Hub) → IsConsistent h → IsConsistent (without id h)
without-IsConsistent id h c = record {
  numbered = All-select_of _ _ h.subs c.numbered;
  distinct = IsDistinct-select _ h.subs c.distinct;
  opened =
      All-imp _ _ _ (λ j k. ground arith)
        (All-and _ _ _ (All-select (λ j. not (j == id)) h.subs)
          (All-select_of _ _ h.subs c.opened));
}

new_hub-IsConsistent : IsConsistent new_hub
unfolding new_hub
new_hub-IsConsistent = record { numbered = tt; distinct = tt; opened = tt }

-- Any use of the hub: broadcasts, subscriptions, their ends, and receives by subscribers, in any
-- order. A receive takes from the buffer of any channel and leaves its state.
pub data HubCall : Type 0 where
  broadcasts : LiveEvent → HubCall
  subscribes : ℕ → HubCall
  cancels : ℕ → HubCall
  receives : ℕ → List LiveEvent → HubCall

abbrev hub_call : HubCall → Hub → Option Hub
hub_call (broadcasts e) h = broadcast e h
hub_call (subscribes n) h = some (subscribe n h).1
hub_call (cancels id) h = cancel id h
hub_call (receives id rest) h = some (set_chan id (record (h.chans id) { buffer = rest }) h)

abbrev pub hub_calls : List HubCall → Hub → Option Hub
hub_calls [] h = some h
hub_calls (c ∷ cs) h = elim (hub_call c h) [ none ↦ none | some h' ↦ hub_calls cs h' ]

receive-IsConsistent :
    (id : ℕ) (rest : List LiveEvent) (h : Hub)
    → IsConsistent h
    → IsConsistent (set_chan id (record (h.chans id) { buffer = rest }) h)
unfolding set_chan
receive-IsConsistent id rest h c = record {
  numbered = c.numbered;
  distinct = c.distinct;
  opened = All-imp _ _ h.subs (λ j k. same j k) c.opened;
}
  where
    same :
        (j : ℕ)
        → (h.chans j).closed ≡ false
        → (update h.chans id (record (h.chans id) { buffer = rest }) j).closed ≡ false
    same j k = ground (arith, ==→eq j id)

hub_calls_total :
    (cs : List HubCall) (h : Hub)
    → IsConsistent h
    → (h' : Hub) × (hub_calls cs h ≡ some h') × IsConsistent h'
hub_calls_total [] h c = (h, refl, c)
hub_calls_total (broadcasts e ∷ cs) h c =
    rw (broadcast_lem e h c, hub_calls)
      (hub_calls_total cs (offered e h.subs h) (offered-IsConsistent e h c))
hub_calls_total (subscribes n ∷ cs) h c =
    hub_calls_total cs (subscribe n h).1 (subscribe-IsConsistent n h c)
hub_calls_total (cancels id ∷ cs) h c = elim (Bool-cases (member id h.subs)) [
  | inl m ↦
      rw (cancel_lem id h c, m, hub_calls)
        (hub_calls_total cs (without id h) (without-IsConsistent id h c))
  | inr m ↦ rw (cancel_lem id h c, m, hub_calls) (hub_calls_total cs h c)
]
hub_calls_total (receives id rest ∷ cs) h c =
    hub_calls_total cs (set_chan id (record (h.chans id) { buffer = rest }) h)
      (receive-IsConsistent id rest h c)

-- From a new hub on, no sequence of broadcasts, subscriptions, cancellations (repeated ones too)
-- and receives sends on a closed channel or closes one twice.
pub hub_never_panics :
    (cs : List HubCall) → (h : Hub) × (hub_calls cs new_hub ≡ some h) × IsConsistent h
hub_never_panics cs = hub_calls_total cs new_hub new_hub-IsConsistent
