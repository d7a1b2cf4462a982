-- ===== src/Server/Hub/Broadcast.antt =====
-- The invariant of the hub, and Broadcast at each subscriber by itself.
use labeler_relay.Prelude.{
  ◌&&◌, ℕ, ◌<◌, ◌≡◌, refl, ap, Bool, true, false, not, some, List, [], ◌∷◌, ◌++◌, ◌==◌, arith,
  if◌then◌else◌, select, All, All-imp, All-select_of, All-select, All-and, Bool-cases, inl, inr,
  select-select, select-cong, ◌∙◌, ==→eq, ==_refl, fun_ext, ◌≤◌, sym, select-of_true,
}
use labeler_relay.Store.Events.{LiveEvent}
use labeler_relay.Server.Channel.{Chan, has_room}
use labeler_relay.Server.Hub.{
  Hub, update, member, delete, close_sub, broadcast_one, broadcast_all, broadcast,
}

abbrev pub IsDistinct : List ℕ → Type 0
IsDistinct [] = Unit
IsDistinct (x ∷ xs) = (member x xs ≡ false) × IsDistinct xs

-- Every entry of the map has a number given out before, and an open channel.
pub record IsConsistent (h : Hub) : Type 0 where
  pub numbered : All (λ id. id < h.next) h.subs
  pub distinct : IsDistinct h.subs
  pub opened : All (λ id. (h.chans id).closed ≡ false) h.subs

-- What one broadcast does to a subscriber's channel.
abbrev pub offer : LiveEvent → Chan LiveEvent → Chan LiveEvent
offer e c =
    if has_room c then record c { buffer = c.buffer ++ e ∷ [] } else record c { closed = true }

-- The hub after a broadcast to the subscriptions `ids`, described at each one by itself.
abbrev pub offered : LiveEvent → List ℕ → Hub → Hub
offered e ids h = record h {
  subs = select (λ id. not (member id ids && not (has_room (h.chans id)))) h.subs;
  chans = λ id. if member id ids then offer e (h.chans id) else h.chans id;
}

abbrev offered_one : LiveEvent → ℕ → Hub → Hub
offered_one e id h = record h {
  subs = if has_room (h.chans id) then h.subs else delete id h.subs;
  chans = update h.chans id (offer e (h.chans id));
}

broadcast_one_lem :
    (e : LiveEvent) (id : ℕ) (h : Hub)
    → (h.chans id).closed ≡ false
    → broadcast_one e id h ≡ some (offered_one e id h)
unfolding broadcast_one close_sub
broadcast_one_lem e id h o = elim (Bool-cases (has_room (h.chans id))) [
  | inl r ↦ rw (o, r)
  | inr r ↦ rw (o, r, close_sub)
]

-- Does a subscription stay in the map, after the step at `id`?
abbrev kept : LiveEvent → ℕ → List ℕ → Hub → ℕ → Bool
kept e id ids h j =
    not (member j ids && not (has_room (update h.chans id (offer e (h.chans id)) j)))

-- The two tests agree at every subscription.
kept_room :
    (e : LiveEvent) (id : ℕ) (ids : List ℕ) (h : Hub)
    → member id ids ≡ false
    → has_room (h.chans id) ≡ true
    → (j : ℕ)
    → not (member j ids && not (has_room (update h.chans id (offer e (h.chans id)) j)))
      ≡ not (member j (id ∷ ids) && not (has_room (h.chans j)))
kept_room e id ids h d r j = elim (Bool-cases (j == id)) [
  | inl q ↦ let s = ==→eq j id q in rw s (rw (==_refl id, d, r))
  | inr q ↦ rw q refl
]

kept_full :
    (e : LiveEvent) (id : ℕ) (ids : List ℕ) (h : Hub)
    → member id ids ≡ false
    → has_room (h.chans id) ≡ false
    → (j : ℕ)
    → (not (j == id)
        && not (member j ids && not (has_room (update h.chans id (offer e (h.chans id)) j))))
      ≡ not (member j (id ∷ ids) && not (has_room (h.chans j)))
kept_full e id ids h d r j = elim (Bool-cases (j == id)) [
  | inl q ↦ let s = ==→eq j id q in rw s (rw (==_refl id, r))
  | inr q ↦ rw q refl
]

offered-subs :
    (e : LiveEvent) (id : ℕ) (ids : List ℕ) (h : Hub)
    → member id ids ≡ false
    → (offered e ids (offered_one e id h)).subs ≡ (offered e (id ∷ ids) h).subs
offered-subs e id ids h d = elim (Bool-cases (has_room (h.chans id))) [
  | inl r ↦
      ap (λ (b : Bool). select (kept e id ids h) (if b then h.subs else delete id h.subs)) r
      ∙ select-cong _ _ h.subs (kept_room e id ids h d r)
  | inr r ↦
      ap (λ (b : Bool). select (kept e id ids h) (if b then h.subs else delete id h.subs)) r
      ∙ select-select _ _ h.subs
      ∙ select-cong _ _ h.subs (kept_full e id ids h d r)
]

offered-chans :
    (e : LiveEvent) (id : ℕ) (ids : List ℕ) (h : Hub)
    → member id ids ≡ false
    → (j : ℕ) → (offered e ids (offered_one e id h)).chans j ≡ (offered e (id ∷ ids) h).chans j
offered-chans e id ids h d j = elim (Bool-cases (j == id)) [
  | inl q ↦ let s = ==→eq j id q in rw s (rw (==_refl id, d))
  | inr q ↦ rw q refl
]

offered_lem :
    (e : LiveEvent) (id : ℕ) (ids : List ℕ) (h : Hub)
    → member id ids ≡ false
    → offered e ids (offered_one e id h) ≡ offered e (id ∷ ids) h
offered_lem e id ids h d = λ i. record {
  subs = offered-subs e id ids h d i;
  next = h.next;
  chans = fun_ext (offered-chans e id ids h d) i;
}

pub member_lt : (id n : ℕ) (ids : List ℕ) → All (λ j. j < n) ids → n ≤ id → member id ids ≡ false
member_lt id n [] a h = refl
member_lt id n (j ∷ js) a h = ground (arith, member_lt id n js a.1 h)

still_open :
    (e : LiveEvent) (id : ℕ) (h : Hub) (ids : List ℕ)
    → member id ids ≡ false
    → All (λ j. (h.chans j).closed ≡ false) ids
    → All (λ j. ((offered_one e id h).chans j).closed ≡ false) ids
still_open e id h [] d o = tt
still_open e id h (j ∷ js) d o = (ground arith, still_open e id h js (ground arith) o.1)

broadcast_all_lem :
    (e : LiveEvent) (ids : List ℕ) (h : Hub)
    → IsDistinct ids
    → All (λ id. (h.chans id).closed ≡ false) ids
    → broadcast_all e ids h ≡ some (offered e ids h)
unfolding broadcast_all
broadcast_all_lem e [] h d o = ap some (λ i. record {
  subs = sym (select-of_true (λ id. true) h.subs (all_true h.subs)) i;
  next = h.next;
  chans = h.chans;
})
  where
    all_true : (ids : List ℕ) → All (λ id. Path Bool true true) ids
    all_true [] = tt
    all_true (x ∷ xs) = (refl, all_true xs)
broadcast_all_lem e (id ∷ ids) h d o =
    rw (broadcast_one_lem e id h o.0, broadcast_all)
      (broadcast_all_lem e ids (offered_one e id h) d.1 (still_open e id h ids d.0 o.1)
        ∙ ap some (offered_lem e id ids h d.0))

-- A broadcast never panics on a consistent hub. It appends the event to the channel of each
-- subscriber that has room, closes the channel of each that has none and removes just those from
-- the map, and touches no other channel, in whatever order the map is walked.
pub broadcast_lem :
    (e : LiveEvent) (h : Hub) → IsConsistent h → broadcast e h ≡ some (offered e h.subs h)
unfolding broadcast
broadcast_lem e h c = broadcast_all_lem e h.subs h c.distinct c.opened

not-member-select :
    (p : ℕ → Bool) (x : ℕ) (ys : List ℕ) → member x ys ≡ false → member x (select p ys) ≡ false
not-member-select p x [] h = refl
not-member-select p x (y ∷ ys) h = ground (arith, not-member-select p x ys)

pub IsDistinct-select : (p : ℕ → Bool) (ids : List ℕ) → IsDistinct ids → IsDistinct (select p ids)
IsDistinct-select p [] d = tt
IsDistinct-select p (x ∷ xs) d = keep (p x) (IsDistinct-select p xs d.1)
  where
    keep :
        (b : Bool)
        → IsDistinct (select p xs)
        → IsDistinct (if b then x ∷ select p xs else select p xs)
    keep true k = (not-member-select p x xs d.0, k)
    keep false k = k

opened_after :
    (e : LiveEvent) (h : Hub) (j : ℕ)
    → not (member j h.subs && not (has_room (h.chans j))) ≡ true
    → (h.chans j).closed ≡ false
    → (if member j h.subs then offer e (h.chans j) else h.chans j).closed ≡ false
opened_after e h j k o = elim (Bool-cases (member j h.subs)) [
  | inl m ↦ ground arith
  | inr m ↦ rw m o
]

pub offered-IsConsistent :
    (e : LiveEvent) (h : Hub) → IsConsistent h → IsConsistent (offered e h.subs h)
offered-IsConsistent e h c = record {
  numbered = All-select_of _ _ h.subs c.numbered;
  distinct = IsDistinct-select _ h.subs c.distinct;
  opened =
      All-imp _ _ _ (λ j k. opened_after e h j k.0 k.1)
        (All-and _ _ _ (All-select _ h.subs) (All-select_of _ _ h.subs c.opened));
}
