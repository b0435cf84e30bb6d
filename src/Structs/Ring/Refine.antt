-- ===== src/Structs/Ring/Refine.antt =====
-- A valid ring is a queue of at most `2 ^ k` items, however often the exchange fails.
use libnumakit.Prelude.{
  ℕ, ◌+◌, ◌-◌, ◌^◌, ◌≤◌, ◌<◌, ◌≡◌, zero, suc, Bool, true, false, Option, none, some, List, [], ◌∷◌,
  ◌++◌, length, arith, ℕ_discrete, ◌∙◌, ap, ap₂, sym, refl, if◌then◌else◌, ◌==◌,
}
use libnumakit.Structs.Ring.{Ring, push_loop, pop_loop, push, pop}
use libnumakit.Structs.Ring.Invariant.{cell_at, IsValid, items, contents, length-items, slots-ne}
use libnumakit.Structs.Ring.Slots
use libnumakit.Structs.Ring.Slots.{put, take_out}

-- The queue that the ring promises: what `push` returns and leaves, what `pop` returns and leaves.
unfoldable pub queue_push : ℕ → List ℕ → ℕ → Bool × List ℕ
queue_push n q x = if length q == n then (false, q) else (true, q ++ x ∷ [])

unfoldable pub queue_pop : List ℕ → Option ℕ × List ℕ
queue_pop [] = (none, [])
queue_pop (x ∷ q) = (some x, q)

-- Some round of the loop lets the exchange through, as the machine does in the end.
abbrev pub lets_through : List Bool → Bool
lets_through [] = false
lets_through (true ∷ rounds) = true
lets_through (false ∷ rounds) = lets_through rounds

module _ {k t h : ℕ} {r : Ring} (v : IsValid k t h r) where
  open v use {wide, narrow, order, room}

  items-put :
      (x p n : ℕ) → t ≤ p → p + n ≤ h → h < t + 2 ^ k → items k (put k h r x) p n ≡ items k r p n
  items-put x p zero lo hi below = refl
  items-put x p (suc n) lo hi below =
      ap₂ ◌∷◌
        (ap (λ c. c.item)
          (Slots.cell_at-put_ne v x p
            (λ e. slots-ne (2 ^ k) p h (omega arith) (omega arith) (sym e))))
        (items-put x (p + 1) n (omega arith) (omega arith) below)

  items-put_last :
      (x p n : ℕ)
      → t ≤ p
      → p + n ≡ h
      → h < t + 2 ^ k
      → items k (put k h r x) p (suc n) ≡ items k r p n ++ x ∷ []
  items-put_last x p zero lo hi below =
      let last : p ≡ h = omega arith in rw last (ap (λ c. c.item ∷ []) (Slots.cell_at-put_self v x))
  items-put_last x p (suc n) lo hi below =
      ap₂ ◌∷◌
        (ap (λ c. c.item)
          (Slots.cell_at-put_ne v x p
            (λ e. slots-ne (2 ^ k) p h (omega arith) (omega arith) (sym e))))
        (items-put_last x (p + 1) n (omega arith) (omega arith) below)

  items-take : (p n : ℕ) → t < p → p + n ≤ t + 2 ^ k → items k (take_out k t r) p n ≡ items k r p n
  items-take p zero lo hi = refl
  items-take p (suc n) lo hi =
      ap₂ ◌∷◌
        (ap (λ c. c.item)
          (Slots.cell_at-take_ne v p (slots-ne (2 ^ k) t p (omega arith) (omega arith))))
        (items-take (p + 1) n (omega arith) (omega arith))

  push_eq :
      (rounds : List Bool) (x : ℕ)
      → lets_through rounds ≡ true
      → push_loop rounds r x r.head
        ≡ (if h == t + 2 ^ k then some (false, r) else some (true, put k h r x))
  unfolding push_loop
  push_eq [] x e = cc
  push_eq (true ∷ rounds) x e = elim (ℕ_discrete h (t + 2 ^ k)) [
    | yes full ↦ rw (Slots.push_round-full v x true full, push_loop) (ground arith)
    | no ne ↦ rw (Slots.push_round-room v x (omega arith), push_loop) (ground arith)
  ]
  push_eq (false ∷ rounds) x e = elim (ℕ_discrete h (t + 2 ^ k)) [
    | yes full ↦ rw (Slots.push_round-full v x false full, push_loop) (ground arith)
    | no ne ↦ rw (Slots.push_round-unlucky v x (omega arith), push_loop) (push_eq rounds x e)
  ]

  pop_eq :
      (rounds : List Bool)
      → lets_through rounds ≡ true
      → pop_loop rounds r r.tail
        ≡ (if h == t then some (none, r) else some (some (cell_at k r t).item, take_out k t r))
  unfolding pop_loop
  pop_eq [] e = cc
  pop_eq (true ∷ rounds) e = elim (ℕ_discrete h t) [
    | yes empty ↦ rw (Slots.pop_round-empty v true empty, pop_loop) (ground arith)
    | no ne ↦ rw (Slots.pop_round-some v (omega arith), pop_loop) (ground arith)
  ]
  pop_eq (false ∷ rounds) e = elim (ℕ_discrete h t) [
    | yes empty ↦ rw (Slots.pop_round-empty v false empty, pop_loop) (ground arith)
    | no ne ↦ rw (Slots.pop_round-unlucky v (omega arith), pop_loop) (pop_eq rounds e)
  ]

  contents-put :
      (x : ℕ) → h < t + 2 ^ k → contents k t (h + 1) (put k h r x) ≡ contents k t h r ++ x ∷ []
  contents-put x below =
      ap (items k (put k h r x) t) {x = h + 1 - t} {y = suc (h - t)} (omega arith)
      ∙ items-put_last x t (h - t) (omega arith) (omega arith) below

  contents-take :
      t < h → contents k t h r ≡ (cell_at k r t).item ∷ contents k (t + 1) h (take_out k t r)
  contents-take below =
      ap (items k r t) {x = h - t} {y = suc (h - (t + 1))} (omega arith)
      ∙ ap (λ q. (cell_at k r t).item ∷ q)
          (sym (items-take (t + 1) (h - (t + 1)) (omega arith) (omega arith)))

  -- `push` on a valid ring, for any sequence of rounds in which an exchange is let through in the
  -- end, returns what a queue of at most `2 ^ k` items returns, and leaves a valid ring that holds
  -- what that queue then holds.
  pub push_refines :
      (rounds : List Bool) (x : ℕ)
      → lets_through rounds ≡ true
      → (b : Bool) × (h' : ℕ) × (r' : Ring) × (push rounds r x ≡ some (b, r'))
        × IsValid k t h' r'
        × (queue_push (2 ^ k) (contents k t h r) x ≡ (b, contents k t h' r'))
  unfolding push queue_push
  push_refines rounds x e = elim (ℕ_discrete h (t + 2 ^ k)) [
    | yes full ↦ (
      false,
      h,
      r,
      push_eq rounds x e ∙ ground arith,
      v,
      ground (arith, length-items k r t (h - t)),
    )
    | no ne ↦ (
      true,
      h + 1,
      put k h r x,
      push_eq rounds x e ∙ ground arith,
      Slots.put-IsValid v x (omega arith),
      ground (arith, length-items k r t (h - t), contents-put x (omega arith)),
    )
  ]

  -- `pop` on a valid ring, for any sequence of rounds in which an exchange is let through in the
  -- end, returns what the queue returns, and leaves a valid ring that holds the rest of it.
  pub pop_refines :
      (rounds : List Bool)
      → lets_through rounds ≡ true
      → (out : Option ℕ) × (t' : ℕ) × (r' : Ring) × (pop rounds r ≡ some (out, r'))
        × IsValid k t' h r'
        × (queue_pop (contents k t h r) ≡ (out, contents k t' h r'))
  unfolding pop queue_pop
  pop_refines rounds e = elim (ℕ_discrete h t) [
    | yes empty ↦ (
      none,
      t,
      r,
      pop_eq rounds e ∙ ground arith,
      v,
      (let none_left : h - t ≡ 0 = omega arith in rw none_left refl),
    )
    | no ne ↦ (
      some (cell_at k r t).item,
      t + 1,
      take_out k t r,
      pop_eq rounds e ∙ ground arith,
      Slots.take_out-IsValid v (omega arith),
      rw (contents-take (omega arith)) refl,
    )
  ]
