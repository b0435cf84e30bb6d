-- ===== src/Structs/Ring/Queue.antt =====
-- The ring as its clients see it: `Holds k q r` says that `r` is a valid ring of `2 ^ k` slots that
-- holds the items `q`, and each operation is a law about `q`.
use libnumakit.Prelude.{
  ℕ, ◌-◌, ◌^◌, ◌≤◌, ◌<◌, ◌≡◌, Bool, true, false, Option, none, some, List, [], ◌∷◌, ◌++◌, length,
  arith, ◌∙◌, ap, sym, refl,
}
use libnumakit.Structs.Ring.{Ring, push, pop, push_loop, pop_loop, push_round, pop_round}
use libnumakit.Structs.Ring.Invariant.{IsValid, contents, length-items}
use libnumakit.Structs.Ring.Refine.{lets_through, push_refines, pop_refines, queue_push, queue_pop}

abbrev pub Holds : ℕ → List ℕ → Ring → Type 0
Holds k q r = (t : ℕ) × (h : ℕ) × IsValid k t h r × (contents k t h r ≡ q)

-- How many items there are, from the two counters.
pub length-Holds : (k : ℕ) (q : List ℕ) (r : Ring) → Holds k q r → length q ≤ 2 ^ k
length-Holds k q r (t, h, v, e) =
    omega (arith, ap length (sym e) ∙ length-items k r t (h - t), v.room)

queue_push_room :
    (n : ℕ) (q : List ℕ) (x : ℕ) → length q < n → queue_push n q x ≡ (true, q ++ x ∷ [])
unfolding queue_push
queue_push_room n q x h = ground arith

queue_push_full : (n : ℕ) (q : List ℕ) (x : ℕ) → length q ≡ n → queue_push n q x ≡ (false, q)
unfolding queue_push
queue_push_full n q x h = ground arith

-- Neither operation touches the arena or the size of the ring.
abbrev pub SamePlace : Ring → Ring → Type 0
SamePlace r r' = (r'.arena ≡ r.arena) × (r'.capacity ≡ r.capacity)

push_loop-SamePlace :
    (rounds : List Bool) (r : Ring) (x head : ℕ) (b : Bool) (r' : Ring)
    → push_loop rounds r x head ≡ some (b, r')
    → SamePlace r r'
unfolding push_loop push_round
push_loop-SamePlace [] r x head b r' e = cc
push_loop-SamePlace (lucky ∷ rounds) r x head b r' e =
    ground (arith, push_loop-SamePlace rounds r x r.head b r')

pop_loop-SamePlace :
    (rounds : List Bool) (r : Ring) (tail : ℕ) (out : Option ℕ) (r' : Ring)
    → pop_loop rounds r tail ≡ some (out, r')
    → SamePlace r r'
unfolding pop_loop pop_round
pop_loop-SamePlace [] r tail out r' e = cc
pop_loop-SamePlace (lucky ∷ rounds) r tail out r' e =
    ground (arith, pop_loop-SamePlace rounds r r.tail out r')

module _ {k : ℕ} {r : Ring} (rounds : List Bool) (lucky : lets_through rounds ≡ true) where
  -- `push` does what the queue does.
  push_law :
      {q : List ℕ} (x : ℕ) {b : Bool} {q' : List ℕ}
      → Holds k q r
      → queue_push (2 ^ k) q x ≡ (b, q')
      → (r' : Ring) × (push rounds r x ≡ some (b, r')) × Holds k q' r' × SamePlace r r'
  unfolding push
  push_law {q} x {b} {q'} (t, h, v, e) spec =
      let (b', h', r', ran, v', spec') = push_refines v rounds x lucky in
      let same : (b', contents k t h' r') ≡ (b, q') =
        sym spec' ∙ ap (λ q. queue_push (2 ^ k) q x) e ∙ spec in
      (
        r',
        ran ∙ ap (λ p. some (p.0, r')) same,
        (t, h', v', ap (λ p. p.1) same),
        push_loop-SamePlace rounds r x r.head b' r' ran,
      )

  -- `pop` does what the queue does.
  pop_law :
      {q : List ℕ} {out : Option ℕ} {q' : List ℕ}
      → Holds k q r
      → queue_pop q ≡ (out, q')
      → (r' : Ring) × (pop rounds r ≡ some (out, r')) × Holds k q' r' × SamePlace r r'
  unfolding pop
  pop_law {q} {out} {q'} (t, h, v, e) spec =
      let (out', t', r', ran, v', spec') = pop_refines v rounds lucky in
      let same : (out', contents k t' h r') ≡ (out, q') = sym spec' ∙ ap queue_pop e ∙ spec in
      (
        r',
        ran ∙ ap (λ p. some (p.0, r')) same,
        (t', h, v', ap (λ p. p.1) same),
        pop_loop-SamePlace rounds r r.tail out' r' ran,
      )

  pub push_room :
      (q : List ℕ) (x : ℕ)
      → Holds k q r
      → length q < 2 ^ k
      → (r' : Ring) × (push rounds r x ≡ some (true, r'))
        × Holds k (q ++ x ∷ []) r'
        × SamePlace r r'
  push_room q x holds room = push_law x holds (queue_push_room (2 ^ k) q x room)

  pub push_full :
      (q : List ℕ) (x : ℕ)
      → Holds k q r
      → length q ≡ 2 ^ k
      → (r' : Ring) × (push rounds r x ≡ some (false, r')) × Holds k q r' × SamePlace r r'
  push_full q x holds full = push_law x holds (queue_push_full (2 ^ k) q x full)

  pub pop_empty :
      Holds k [] r → (r' : Ring) × (pop rounds r ≡ some (none, r')) × Holds k [] r' × SamePlace r r'
  unfolding queue_pop
  pop_empty holds = pop_law holds refl

  pub pop_cons :
      (x : ℕ) (q : List ℕ)
      → Holds k (x ∷ q) r
      → (r' : Ring) × (pop rounds r ≡ some (some x, r')) × Holds k q r' × SamePlace r r'
  unfolding queue_pop
  pop_cons x q holds = pop_law holds refl
