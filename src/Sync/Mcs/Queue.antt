-- ===== src/Sync/Mcs/Queue.antt =====
-- The MCS lock is a queue of threads: whoever exchanges the tail joins at the end, only the thread in
-- front may be inside, and leaving takes it off.
use libnumakit.Prelude.{
  ℕ, ◌≡◌, ◌≢◌, ◌⊎◌, inl, inr, none, some, List, [], ◌∷◌, ◌++◌, refl, Option, ap, ◌∙◌, sym,
}
use mathlib.Core.Path.{subst}
use libnumakit.Sync.Mcs.{
  inside, wait, grant, Node, State, start, at, look_next, Step, prepare, exchange, join, poll,
  enter, leave, free, fail, poll_next, seen, notify, Reach, begin, next,
}
use libnumakit.Sync.Mcs.Chain.{last?, Head, Queued}
use libnumakit.Sync.Mcs.Front.{Owns, in_front}
use libnumakit.Sync.Mcs.Moves.{
  prepare-Queued, Head-Queued, join-Queued, free-Queued, notify-Queued, exchange-Queued,
}

-- The queue behind an access: the same, one thread longer, or without the thread in front.
abbrev pub Advance : List ℕ → List ℕ → Type 0
Advance q q' = (q' ≡ q) ⊎ ((i : ℕ) × (q' ≡ q ++ i ∷ [])) ⊎ ((i : ℕ) × (q ≡ i ∷ q'))

look_next-Head :
    (m : Node) (o : Option ℕ) (q : List ℕ) → m.next ≡ o → Head (look_next o) (at m (look_next o)) q
unfolding look_next
look_next-Head m none q e = tt
look_next-Head m (some j) q e = λ x. cc

-- The exchange that frees the lock fails only if another thread stands behind.
behind_others :
    (tail : Option ℕ) (i : ℕ) (q : List ℕ) → tail ≢ some i → tail ≡ last? (i ∷ q) → q ≢ []
behind_others tail i q ne e none_behind = ne (e ∙ ap (λ l. last? (i ∷ l)) none_behind)

-- When the busy nodes of the MCS lock make up the queue `q`, every access of a thread leads to a
-- state in which they make up a queue again: `q`, `q` with a thread more at its end, or `q` without
-- the thread in front.
pub Step-Advances :
    {s t : State} {q : List ℕ} → Queued s q → Step s t → (q' : List ℕ) × Queued t q' × Advance q q'
Step-Advances {q = q} v (prepare i e) = (q, prepare-Queued i v e, inl refl)
Step-Advances {q = q} v (exchange i e) = (q ++ i ∷ [], exchange-Queued i v e, inr (inl (i, refl)))
Step-Advances {q = q} v (join i p e) = (q, join-Queued i p v e, inl refl)
Step-Advances {q = q} v (poll i e l) = (q, v, inl refl)
Step-Advances {s} v (enter i e l) =
    let (q', at_front) = in_front v i (inr (e, l)) in
    (
      i ∷ q',
      Head-Queued i q' (at (s.node i) inside) (subst (Queued s) at_front v) refl tt,
      inl (sym at_front),
    )
Step-Advances {s} v (leave i e) =
    let (q', at_front) = in_front v i (inl (rw e tt)) in
    (
      i ∷ q',
      Head-Queued i q' (at (s.node i) (look_next (s.node i).next)) (subst (Queued s) at_front v)
          refl (look_next-Head (s.node i) (s.node i).next q' refl),
      inl (sym at_front),
    )
Step-Advances {s} v (free i e l) =
    let (q', at_front) = in_front v i (inl (rw e tt)) in
    (q', free-Queued i q' (subst (Queued s) at_front v) l, inr (inr (i, at_front)))
Step-Advances {s} v (fail i e l) =
    let (q', at_front) = in_front v i (inl (rw e tt)) in
    (
      i ∷ q',
      Head-Queued i q' (at (s.node i) wait) (subst (Queued s) at_front v) refl
          (behind_others s.tail i q' l (v.ends ∙ ap last? at_front)),
      inl (sym at_front),
    )
Step-Advances {q = q} v (poll_next i e l) = (q, v, inl refl)
Step-Advances {s} v (seen i j e l) =
    let (q', at_front) = in_front v i (inl (rw e tt)) in
    (
      i ∷ q',
      Head-Queued i q' (at (s.node i) grant) (subst (Queued s) at_front v) refl (λ x. cc),
      inl (sym at_front),
    )
Step-Advances {s} v (notify i j e l) =
    let (q', at_front) = in_front v i (inl (rw e tt)) in
    (q', notify-Queued i j q' (subst (Queued s) at_front v) l, inr (inr (i, at_front)))

pub start-Queued : Queued start []
start-Queued = record { distinct = tt; ends = refl; front = tt; rest = λ i h. inl refl }

pub Reach-Queued : {s : State} → Reach s → (q : List ℕ) × Queued s q
Reach-Queued begin = ([], start-Queued)
Reach-Queued (next r st) =
    let (q, v) = Reach-Queued r in let (q', v', _) = Step-Advances v st in (q', v')

-- In every state that threads reach, at most one thread is between the lock and the unlock of the
-- MCS lock, or still inside the unlock.
pub one_owner : {s : State} → Reach s → (i j : ℕ) → Owns (s.node i).pc → Owns (s.node j).pc → i ≡ j
one_owner r i j hi hj =
    let (q, v) = Reach-Queued r in
    let (qi, ei) = in_front v i (inl hi) in let (qj, ej) = in_front v j (inl hj) in cc (sym ei ∙ ej)
