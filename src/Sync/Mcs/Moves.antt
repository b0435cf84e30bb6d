-- ===== src/Sync/Mcs/Moves.antt =====
-- What each kind of access to the MCS lock does to its queue.
use libnumakit.Prelude.{
  ℕ, ◌≡◌, ◌≢◌, inl, inr, true, false, none, some, List, [], ◌∷◌, ◌++◌, arith, ◌==◌, refl,
  Bool-cases, ap, sym,
}
use mathlib.Core.Path.{subst}
use libnumakit.Sync.Threads.{update, member, Distinct, member-append, append-Distinct}
use libnumakit.Sync.Mcs.{
  idle, swap, link, spin, inside, Node, State, fresh, at, enqueued, link_to, unlock_next,
}
use libnumakit.Sync.Mcs.Chain.{
  last_from, last?, Head, Front, Outside, Queued, Chain-update, Chain-self, Chain-linked,
  Chain-append, Chain-join, last_from-member, last_from-append,
}
use libnumakit.Sync.Mcs.Front.{Head-append, Head-next, busy_member, away, away_fresh}

pub Front-update :
    (node : ℕ → Node) (j : ℕ) (m : Node) (q : List ℕ)
    → member j q ≡ false
    → Front node q
    → Front (update node j m) q
Front-update node j m [] h f = tt
Front-update node j m (a ∷ q) h f =
    let same : update node j m a ≡ node a = ground arith in
    (subst (λ x. Head x.pc x q) (sym same) f.0, Chain-update node j a m q h f.1)

pub prepare-Queued :
    {s : State} {q : List ℕ} (i : ℕ)
    → Queued s q
    → (s.node i).pc ≡ idle
    → Queued (record s { node = update s.node i fresh }) q
prepare-Queued {s} {q} i v e = record {
  distinct = v.distinct;
  ends = v.ends;
  front = Front-update s.node i fresh q (away v i (inl e)) v.front;
  rest = λ j h. ground (arith, v.rest j h);
}

-- An access of the thread in front that leaves its node's `next` as it is.
pub Head-Queued :
    {s : State} (i : ℕ) (q : List ℕ) (m : Node)
    → Queued s (i ∷ q)
    → m.next ≡ (s.node i).next
    → Head m.pc m q
    → Queued (record s { node = update s.node i m }) (i ∷ q)
Head-Queued {s} i q m v e h = record {
  distinct = v.distinct;
  ends = v.ends;
  front = (
    subst (λ x. Head x.pc x q) {x = m} {y = update s.node i m i} (ground arith) h,
    Chain-self s.node i m q v.distinct.0 e v.front.1,
  );
  rest = λ j away. ground (arith, v.rest j away);
}

pub exchange-Front :
    (node : ℕ → Node) (i : ℕ) (q : List ℕ)
    → Distinct q
    → member i q ≡ false
    → (node i).next ≡ none
    → (node i).locked ≡ true
    → Front node q
    → Front (update node i (at (node i) (enqueued (last? q)))) (q ++ i ∷ [])
unfolding enqueued
exchange-Front node i [] d h en el f = (
  subst (λ x. Head x.pc x []) {x = at (node i) inside} {y = update node i (at (node i) inside) i}
      (ground arith) tt,
  ground arith,
)
exchange-Front node i (a ∷ q) d h en el f = (
  subst (λ x. Head x.pc x (q ++ i ∷ [])) {x = node a}
      {y = update node i (at (node i) (link (last_from a q))) a} (ground arith)
      (Head-append (node a).pc (node a) q i f.0),
  Chain-append node i a (at (node i) (link (last_from a q))) q h refl en el f.1,
)

pub join-Front :
    (node : ℕ → Node) (i p : ℕ) (q : List ℕ)
    → Distinct q
    → member i q ≡ true
    → (node i).pc ≡ link p
    → Front node q
    → Front (link_to node p i) q × (member p q ≡ true)
unfolding link_to
join-Front node i p [] d h e f = cc
join-Front node i p (a ∷ q) d h e f = elim (Bool-cases (i == a)) [
  | inl here ↦ absurd (head_links (subst (λ j. Head (node j).pc (node j) q) (ground arith) f.0))
  | inr later ↦
      let behind : member i q ≡ true = ground arith in
      let linked = Chain-join node i p a q d behind e f.1 in
      let there = Chain-linked node i p a q behind e f.1 in
      elim (Bool-cases (p == a)) [
        | inl own ↦ (
          (
            subst (λ x. Head x.pc x q) {x = record (node a) { next = some i }}
                {y = link_to node p i a} (ground arith) (Head-next (node a).pc (node a) q i f.0),
            linked,
          ),
          there,
        )
        | inr other ↦ (
          (
            subst (λ x. Head x.pc x q) {x = node a} {y = link_to node p i a} (ground arith) f.0,
            linked,
          ),
          there,
        )
      ]
]
  where
    head_links : Head (node i).pc (node i) q → ⊥
    head_links h = subst (λ x. Head x (node i) q) e h

pub join-Queued :
    {s : State} {q : List ℕ} (i p : ℕ)
    → Queued s q
    → (s.node i).pc ≡ link p
    → Queued (record s { node = link_to s.node p i }) q
unfolding link_to
join-Queued {s} {q} i p v e =
    let there = busy_member v i (λ x. cc) (λ x. cc) in
    let (front', linked) = join-Front s.node i p q v.distinct there e v.front in
    record {
      distinct = v.distinct;
      ends = v.ends;
      front = front';
      rest = λ j away.
          subst Outside {x = s.node j} {y = link_to s.node p i j} (same j (λ x. cc) (λ x. cc))
            (v.rest j away);
    }
  where
    same : (j : ℕ) → i ≢ j → p ≢ j → s.node j ≡ link_to s.node p i j
    same j hi hp = ground arith

pub free-Queued :
    {s : State} (i : ℕ) (q : List ℕ)
    → Queued s (i ∷ q)
    → s.tail ≡ some i
    → Queued (record { tail = none; node = update s.node i (at (s.node i) idle) }) q
free-Queued {s} i [] v e = record {
  distinct = tt;
  ends = refl;
  front = tt;
  rest = λ j away. ground (arith, v.rest j);
}
free-Queued {s} i (b ∷ q) v e = ground (arith, v.ends, v.distinct, last_from-member b q)

pub notify-Queued :
    {s : State} (i j : ℕ) (q : List ℕ)
    → Queued s (i ∷ q)
    → (s.node i).next ≡ some j
    → Queued (record s { node = unlock_next s.node i j }) q
unfolding unlock_next
notify-Queued {s} i j [] v e = absurd (ground (arith, v.front))
notify-Queued {s} i j (b ∷ q) v e =
    let behind : ((s.node b).pc ≡ spin) × (b ≡ j) = ground (arith, v.front.1.1) in
    let gone = at (s.node i) idle in
    let opened = record (update s.node i gone b) { locked = false } in
    subst (λ x. Queued (record s { node = unlock_next s.node i x }) (b ∷ q)) behind.1
      (record {
        distinct = v.distinct.1;
        ends = v.ends;
        front = (
          subst (λ x. Head x.pc x q) {x = record (s.node b) { locked = false }}
              {y = unlock_next s.node i b b} (ground arith)
              (subst (λ x. Head x (record (s.node b) { locked = false }) q) (sym behind.0) refl),
          Chain-self (update s.node i gone) b opened q v.distinct.1.0 refl
              (Chain-update s.node i b gone q v.distinct.0 v.front.1.2),
        );
        rest = λ k away. ground (arith, v.rest k);
      })

pub exchange-Queued :
    {s : State} {q : List ℕ} (i : ℕ)
    → Queued s q
    → (s.node i).pc ≡ swap
    → Queued
        (record { tail = some i; node = update s.node i (at (s.node i) (enqueued s.tail)) })
        (q ++ i ∷ [])
exchange-Queued {s} {q} i v e =
    let gone = away v i (inr e) in
    let (en, el) = away_fresh v i e in
    record {
      distinct = append-Distinct i q v.distinct gone;
      ends = sym (last?-append i q);
      front =
          subst (λ x. Front (update s.node i (at (s.node i) (enqueued x))) (q ++ i ∷ []))
            (sym v.ends) (exchange-Front s.node i q v.distinct gone en el v.front);
      rest = λ j h. ground (arith, member-append j i q, v.rest j);
    }
  where
    last?-append : (j : ℕ) (l : List ℕ) → last? (l ++ j ∷ []) ≡ some j
    last?-append j [] = refl
    last?-append j (a ∷ l) = ap some (last_from-append a j l)
