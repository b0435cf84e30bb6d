-- ===== src/Sched/Messaging/Delivery.antt =====
-- A mailbox is a queue: what `nkit_send` puts in, `nkit_process_local` hands out once and in order.
use libnumakit.Prelude.{
  ℕ, zero, suc, ◌+◌, ◌-◌, ◌^◌, ◌≤◌, ◌<◌, ◌≡◌, ◌≢◌, refl, ap, sym, ◌∙◌, min, Bool, true, false, ◌||◌,
  Option, none, some, List, [], ◌∷◌, ◌++◌, ltb, leb, ◌==◌, get_elem?, if◌then◌else◌, length, take,
  drop, arith, Bool-cases, inl, inr, get_elem?-set_self, length-set, ltb→lt, lt→ltb, length-append,
  get_elem?-set_ne,
}
use mathlib.Core.Path.{subst}
use libnumakit.Structs.Ring.{Ring}
use libnumakit.Structs.Ring.Refine.{lets_through}
use libnumakit.Structs.Ring.Queue.{Holds, length-Holds, push_room, push_full, pop_empty, pop_cons}
use libnumakit.Sched.Context.{Context, Mailbox}
use libnumakit.Sched.Messaging.{
  sent, invalid_node, congested, ring_of, put_ring, send, drain, process_local,
}

-- How many of `n` messages the loop takes, with `processed` behind it.
abbrev pub quota : ℕ → ℕ → ℕ → ℕ
quota limit processed n = if limit == 0 then n else min n (limit - processed)

-- The mailbox of a node holds the messages `q` in a ring of `2 ^ k` slots.
abbrev pub Mailed : ℕ → List ℕ → ℕ → Context → Type 0
Mailed k q node c =
    (box : Mailbox) × (r : Ring) × (ring_of c node ≡ some (box, r))
    × Holds k q r
    × (node < c.num_nodes)
    × (node < length c.mailboxes)

-- The other mailboxes are as before.
abbrev pub OthersSame : ℕ → Context → Context → Type 0
OthersSame node c c' = (j : ℕ) → node ≢ j → get_elem? c'.mailboxes j ≡ get_elem? c.mailboxes j

take_all : (q : List ℕ) → (take (length q) q ≡ q) × (drop (length q) q ≡ [])
take_all [] = (refl, refl)
take_all (x ∷ q) = let (t, d) = take_all q in (ap (◌∷◌ x) t, d)

-- What the loop comes to with so many messages in the ring.
abbrev pub Drained : ℕ → List Bool → ℕ → ℕ → ℕ → List ℕ → Ring → Type 0
Drained k rounds fuel limit processed q r =
    (r' : Ring) × (drain fuel rounds limit processed r
      ≡ some (take (quota limit processed (length q)) q, r'))
    × Holds k (drop (quota limit processed (length q)) q) r'

module _ (k : ℕ) (rounds : List Bool) (lucky : lets_through rounds ≡ true) where
  turn :
      (fuel limit processed : ℕ) (q : List ℕ) (r : Ring)
      → length q < suc fuel
      → Holds k q r
      → (limit == 0 || ltb processed limit) ≡ true
      → ((q' : List ℕ) (r' : Ring)
          → length q' < fuel
          → Holds k q' r'
          → Drained k rounds fuel limit (processed + 1) q' r')
      → Drained k rounds (suc fuel) limit processed q r
  unfolding drain
  turn fuel limit processed [] r enough h more ih =
      let (r', ran, h', _) = pop_empty rounds lucky h in
      let nothing : quota limit processed 0 ≡ 0 = ground arith in
      rw (nothing, more, ran) (r', refl, h')
  turn fuel limit processed (x ∷ q) r enough h more ih =
      let (r1, ran, h1, _) = pop_cons rounds lucky x q h in
      let (r2, rest, h2) = ih q r1 (omega arith) h1 in
      let one_more : quota limit processed (suc (length q))
          ≡ suc (quota limit (processed + 1) (length q)) =
        ground arith in
      rw (one_more, more, ran, rest) (r2, refl, h2)

  drain_law :
      (fuel limit processed : ℕ) (q : List ℕ) (r : Ring)
      → length q < fuel
      → Holds k q r
      → Drained k rounds fuel limit processed q r
  unfolding drain
  drain_law zero limit processed q r enough h = absurd (omega arith)
  drain_law (suc fuel) limit processed q r enough h =
      elim (Bool-cases (limit == 0 || ltb processed limit)) [
        | inr over ↦
            let none_left : quota limit processed (length q) ≡ 0 = ground arith in
            rw (none_left, over) (r, refl, h)
        | inl more ↦
            turn fuel limit processed q r enough h more (drain_law fuel limit (processed + 1))
      ]

  ring_of-put :
      (c : Context) (node : ℕ) (box : Mailbox) (r : Ring)
      → node < length c.mailboxes
      → ring_of (put_ring c node box r) node ≡ some (record box { ring = some r }, r)
  unfolding ring_of put_ring
  ring_of-put c node box r lt =
      rw (get_elem?-set_self c.mailboxes node (some (record box { ring = some r })) lt, ring_of)
        refl

  put_ring-Mailed :
      (q : List ℕ) (c : Context) (node : ℕ) (box : Mailbox) (r : Ring)
      → node < c.num_nodes
      → node < length c.mailboxes
      → Holds k q r
      → Mailed k q node (put_ring c node box r) × OthersSame node c (put_ring c node box r)
  unfolding put_ring
  put_ring-Mailed q c node box r lt there h = (
    (
      record box { ring = some r },
      r,
      ring_of-put c node box r there,
      h,
      lt,
      rw (length-set c.mailboxes node (some (record box { ring = some r }))) there,
    ),
    λ j ne. get_elem?-set_ne c.mailboxes (some (record box { ring = some r })) ne,
  )

  -- A message to a mailbox of `2 ^ k` slots that is not full is sent and stands behind the others;
  -- a full one reports congestion and keeps its messages; no other mailbox changes.
  pub send_law :
      (q : List ℕ) (c : Context) (node x : ℕ)
      → Mailed k q node c
      → (c' : Context) × (send rounds c (some node) x
          ≡ some (if ltb (length q) (2 ^ k) then sent else congested, c'))
        × Mailed k (if ltb (length q) (2 ^ k) then q ++ x ∷ [] else q) node c'
        × OthersSame node c c'
        × (c'.num_nodes ≡ c.num_nodes)
  unfolding send put_ring
  send_law q c node x (box, r, at_node, h, lt, there) =
      let in_range : leb c.num_nodes node ≡ false = ground arith in
      elim (Bool-cases (ltb (length q) (2 ^ k))) [
        | inl room ↦
            let (r', ran, h', _) = push_room rounds lucky q x h (ltb→lt (length q) (2 ^ k) room) in
            let (m, others) = put_ring-Mailed (q ++ x ∷ []) c node box r' lt there h' in
            rw (room, in_range, at_node, ran) (put_ring c node box r', refl, m, others, refl)
        | inr full ↦
            let is_full : length q ≡ 2 ^ k =
              omega (arith, length-Holds k q r h, not_less (length q) (2 ^ k) full) in
            let (r', ran, h', _) = push_full rounds lucky q x h is_full in
            let (m, others) = put_ring-Mailed q c node box r' lt there h' in
            rw (full, in_range, at_node, ran) (put_ring c node box r', refl, m, others, refl)
      ]
    where
      not_less : (a b : ℕ) → ltb a b ≡ false → b ≤ a
      not_less a b h = ground arith

  -- The node's own messages are handed out, oldest first: all of them, or as many as the limit says.
  pub process_law :
      (fuel limit : ℕ) (q : List ℕ) (c : Context) (node : ℕ)
      → length q < fuel
      → Mailed k q node c
      → (c' : Context) × (process_local fuel rounds c (some node) limit
          ≡ some (take (quota limit 0 (length q)) q, c'))
        × Mailed k (drop (quota limit 0 (length q)) q) node c'
        × OthersSame node c c'
        × (c'.num_nodes ≡ c.num_nodes)
  unfolding process_local put_ring
  process_law fuel limit q c node enough (box, r, at_node, h, lt, there) =
      let in_range : leb c.num_nodes node ≡ false = ground arith in
      let (r', ran, h') = drain_law fuel limit 0 q r enough h in
      let (m, others) =
        put_ring-Mailed (drop (quota limit 0 (length q)) q) c node box r' lt there h' in
      rw (in_range, at_node, ran) (put_ring c node box r', refl, m, others, refl)

-- Sends a list of messages to one node; `none` as soon as one is not sent.
abbrev pub send_all : List Bool → Context → ℕ → List ℕ → Option Context
send_all rounds c node [] = some c
send_all rounds c node (x ∷ xs) = elim (send rounds c (some node) x) [
  | none ↦ none
  | some (sent, c') ↦ send_all rounds c' node xs
  | some (invalid_node, c') ↦ none
  | some (congested, c') ↦ none
]

append_assoc : (q : List ℕ) (x : ℕ) (xs : List ℕ) → (q ++ x ∷ []) ++ xs ≡ q ++ x ∷ xs
append_assoc [] x xs = refl
append_assoc (y ∷ q) x xs = ap (λ l. y ∷ l) (append_assoc q x xs)

append_nil : (q : List ℕ) → q ++ [] ≡ q
append_nil [] = refl
append_nil (y ∷ q) = ap (λ l. y ∷ l) (append_nil q)

module _ (k : ℕ) (rounds : List Bool) (lucky : lets_through rounds ≡ true) where
  send_all_law :
      (xs q : List ℕ) (c : Context) (node : ℕ)
      → length q + length xs ≤ 2 ^ k
      → Mailed k q node c
      → (c' : Context) × (send_all rounds c node xs ≡ some c') × Mailed k (q ++ xs) node c'
  send_all_law [] q c node fits m = (c, refl, subst (λ l. Mailed k l node c) (sym (append_nil q)) m)
  send_all_law (x ∷ xs) q c node fits m =
      let (c1, ran, m1, _, _) = send_law k rounds lucky q c node x m in
      let room : ltb (length q) (2 ^ k) ≡ true = lt→ltb (length q) (2 ^ k) (omega arith) in
      let ran1 : send rounds c (some node) x ≡ some (sent, c1) =
        ran ∙ ap (λ b. some (if b then sent else congested, c1)) room in
      let m2 : Mailed k (q ++ x ∷ []) node c1 =
        subst (λ b. Mailed k (if b then q ++ x ∷ [] else q) node c1) room m1 in
      let (c2, rest, m3) =
        send_all_law xs (q ++ x ∷ []) c1 node (omega (arith, length-append q (x ∷ []))) m2 in
      (c2, rw (ran1, send_all) rest, subst (λ l. Mailed k l node c2) (append_assoc q x xs) m3)

  -- When a mailbox holds `q` and has room for the messages `xs`, sending all of them succeeds, and
  -- a call of `process_local` without a limit then hands out `q` and `xs` in this order, each
  -- message once, and leaves the mailbox empty.
  pub process-send_all :
      (xs q : List ℕ) (c : Context) (node fuel : ℕ)
      → length q + length xs ≤ 2 ^ k
      → length q + length xs < fuel
      → Mailed k q node c
      → (c' : Context) × (c'' : Context) × (send_all rounds c node xs ≡ some c')
        × (process_local fuel rounds c' (some node) 0 ≡ some (q ++ xs, c''))
        × Mailed k [] node c''
  process-send_all xs q c node fuel fits enough m =
      let (c1, sends, m1) = send_all_law xs q c node fits m in
      let (c2, ran, m2, _, _) =
        process_law k rounds lucky fuel 0 (q ++ xs) c1 node (omega (arith, length-append q xs))
          m1 in
      let (all, none_left) = take_all (q ++ xs) in
      (
        c1,
        c2,
        sends,
        ran ∙ ap (λ l. some (l, c2)) all,
        subst (λ l. Mailed k l node c2) none_left m2,
      )
