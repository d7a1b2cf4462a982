-- ===== src/Store/Log/History.antt =====
-- What a run of a log leaves of its entries.
use labeler_relay.Prelude.{
  ◌≤◌, ◌<◌, ◌≡◌, refl, sym, ap, ◌∙◌, subst, List, [], ◌∷◌, ◌++◌, append_assoc, append-nil, inl, inr,
  All, All-append, All-imp, arith,
}
use labeler_relay.Store.Events.{LiveEvent}
use labeler_relay.Store.Log.{Log, Thinned, Step, added, thinned, Steps, stop, step}

pub Thinned-refl : (xs : List LiveEvent) → Thinned xs xs
Thinned-refl [] = refl
Thinned-refl (x ∷ xs) = inr (xs, refl, Thinned-refl xs)

pub Thinned-trans : (xs ys zs : List LiveEvent) → Thinned xs ys → Thinned ys zs → Thinned xs zs
Thinned-trans [] ys zs h k = subst (λ w. Thinned w zs) h k
Thinned-trans (x ∷ xs) ys zs (inl h) k = inl (Thinned-trans xs ys zs h k)
Thinned-trans (x ∷ xs) ys zs (inr (vs, e, h)) k = elim (subst (λ w. Thinned w zs) e k) [
  | inl k' ↦ inl (Thinned-trans xs vs zs h k')
  | inr (us, e', k') ↦ inr (us, e', Thinned-trans xs vs us h k')
]

-- Thinning an append thins both parts.
pub Thinned-append :
    (xs ys zs : List LiveEvent)
    → Thinned (xs ++ ys) zs
    → (us : List LiveEvent) × (vs : List LiveEvent) × (zs ≡ us ++ vs)
      × Thinned xs us
      × Thinned ys vs
Thinned-append [] ys zs h = ([], zs, refl, refl, h)
Thinned-append (x ∷ xs) ys zs (inl h) =
    let (us, vs, e, a, b) = Thinned-append xs ys zs h in (us, vs, e, inl a, b)
Thinned-append (x ∷ xs) ys zs (inr (ws, q, h)) =
    let (us, vs, e, a, b) = Thinned-append xs ys ws h in
    (x ∷ us, vs, q ∙ ap (λ l. x ∷ l) e, inr (us, refl, a), b)

pub All-Thinned :
    (P : LiveEvent → Type 0) (xs ys : List LiveEvent) → Thinned xs ys → All P xs → All P ys
All-Thinned P [] ys h k = subst (λ w. All P w) (sym h) tt
All-Thinned P (x ∷ xs) ys (inl h) k = All-Thinned P xs ys h k.1
All-Thinned P (x ∷ xs) ys (inr (zs, e, h)) k =
    subst (λ w. All P w) (sym e) (k.0, All-Thinned P xs zs h k.1)

-- The later log is what is left of the earlier one, and then entries under numbers given since.
pub record History (l l' : Log) : Type 0 where
  pub left : List LiveEvent
  pub fresh : List LiveEvent
  pub split : l'.entries ≡ left ++ fresh
  pub rest : Thinned l.entries left
  pub numbered : All (λ e. (l.given < e.relay_seq) × (e.relay_seq ≤ l'.given)) fresh
  pub counter : l.given ≤ l'.given

History-trans : {l m n : Log} → History l m → History m n → History l n
History-trans {l} {m} {n} h k =
    let (us, vs, e, a, b) =
      Thinned-append h.left h.fresh k.left (subst (λ w. Thinned w k.left) h.split k.rest) in
    record {
      left = us;
      fresh = vs ++ k.fresh;
      split = k.split ∙ ap (λ w. w ++ k.fresh) e ∙ append_assoc us vs k.fresh;
      rest = Thinned-trans l.entries h.left us h.rest a;
      numbered =
          All-append _ vs k.fresh
            (All-imp _ _ vs (λ x q. omega (arith, k.counter))
              (All-Thinned _ h.fresh vs b h.numbered))
            (All-imp _ _ k.fresh (λ x q. omega (arith, h.counter)) k.numbered);
      counter = omega (arith, h.counter, k.counter);
    }

Step-History : {l l' : Log} → Step l l' → History l l'
Step-History {l} {l'} (added e number entries given) = record {
  left = l.entries;
  fresh = e ∷ [];
  split = entries;
  rest = Thinned-refl l.entries;
  numbered = (omega arith, tt);
  counter = omega arith;
}
Step-History {l} {l'} (thinned h given) = record {
  left = l'.entries;
  fresh = [];
  split = sym (append-nil l'.entries);
  rest = h;
  numbered = tt;
  counter = omega arith;
}

pub Steps-History : {l l' : Log} → Steps l l' → History l l'
Steps-History {l} stop = record {
  left = l.entries;
  fresh = [];
  split = sym (append-nil l.entries);
  rest = Thinned-refl l.entries;
  numbered = tt;
  counter = omega arith;
}
Steps-History (step s rest) = History-trans (Step-History s) (Steps-History rest)
