-- ===== src/Sync/PCounter/Sum.antt =====
-- The counter against one number: every operation, from any node, is the operation on the sum.
use libnumakit.Prelude.{
  ℕ, zero, suc, ◌+◌, ◌-◌, ◌%◌, ◌^◌, ◌<◌, ◌≡◌, refl, ◌∙◌, List, [], ◌∷◌, length, arith, add64,
  Option, none, some, get_or, set, replicate, length-set, length-replicate,
}
use libnumakit.Sync.PCounter.{PCounter, own_slot, add, inc, dec, sum, read, reset}

-- One value per node, and at least one node.
pub record IsValid (c : PCounter) : Type 0 where
  pub nonempty : 0 < c.num_nodes
  pub one_each : length c.values ≡ c.num_nodes

total : List ℕ → ℕ
total [] = 0
total (v ∷ vs) = v + total vs

sum_lem : (vs : List ℕ) (acc : ℕ) → acc < 2 ^ 64 → sum vs acc ≡ (acc + total vs) % 2 ^ 64
unfolding sum total
sum_lem [] acc h = omega arith
sum_lem (v ∷ vs) acc h = sum_lem vs (add64 acc v) (omega arith) ∙ omega arith

total-set :
    (vs : List ℕ) (i x : ℕ)
    → i < length vs
    → (total (set vs i (add64 (get_or vs i 0) x))) % 2 ^ 64 ≡ (total vs + x) % 2 ^ 64
unfolding total
total-set [] i x h = absurd (omega arith)
total-set (v ∷ vs) zero x h = omega arith
total-set (v ∷ vs) (suc i) x h = omega (arith, total-set vs i x (omega arith))

total-replicate : (n : ℕ) → total (replicate n 0) ≡ 0
unfolding total
total-replicate zero = refl
total-replicate (suc n) = omega (arith, total-replicate n)

own_slot_lt : (node : Option ℕ) (n : ℕ) → 0 < n → own_slot node n < n
unfolding own_slot
own_slot_lt none n h = h
own_slot_lt (some node) n h = ground arith

pub read-add :
    (c : PCounter) (node : Option ℕ) (x : ℕ) → IsValid c → read (add node x c) ≡ add64 (read c) x
unfolding read add
read-add c node x v =
    let i = own_slot node c.num_nodes in
    let lt : i < length c.values =
      omega (arith, own_slot_lt node c.num_nodes v.nonempty, v.one_each) in
    omega (
      arith,
      sum_lem (set c.values i (add64 (get_or c.values i 0) x)) 0 (omega arith),
      sum_lem c.values 0 (omega arith),
      total-set c.values i x lt,
    )

pub add-IsValid : (c : PCounter) (node : Option ℕ) (x : ℕ) → IsValid c → IsValid (add node x c)
unfolding add
add-IsValid c node x v = record {
  nonempty = v.nonempty;
  one_each = length-set c.values (own_slot node c.num_nodes) _ ∙ v.one_each;
}

pub read-reset : (c : PCounter) → IsValid c → (read (reset c) ≡ 0) × IsValid (reset c)
unfolding read reset
read-reset c v = (
  omega (arith, sum_lem (replicate c.num_nodes 0) 0 (omega arith), total-replicate c.num_nodes),
  record { nonempty = v.nonempty; one_each = length-replicate c.num_nodes 0 },
)

-- What a caller may ask of a counter, from whichever node it runs on.
pub data Op : Type 0 where
  adding : Option ℕ → ℕ → Op
  counting counting_down : Option ℕ → Op
  resetting : Op

abbrev pub run : List Op → PCounter → PCounter
run [] c = c
run (adding node x ∷ ops) c = run ops (add node x c)
run (counting node ∷ ops) c = run ops (inc node c)
run (counting_down node ∷ ops) c = run ops (dec node c)
run (resetting ∷ ops) c = run ops (reset c)

-- The same on a single number modulo 2^64.
abbrev pub count : List Op → ℕ → ℕ
count [] n = n
count (adding _ x ∷ ops) n = count ops (add64 n x)
count (counting _ ∷ ops) n = count ops (add64 n 1)
count (counting_down _ ∷ ops) n = count ops (add64 n (2 ^ 64 - 1))
count (resetting ∷ ops) n = count ops 0

-- Whatever a counter's clients do from whichever nodes, the sum that `read` returns is what the
-- same operations make of a single 64-bit number.
pub read-run : (ops : List Op) (c : PCounter) → IsValid c → read (run ops c) ≡ count ops (read c)
unfolding inc dec
read-run [] c v = refl
read-run (adding node x ∷ ops) c v =
    rw (read-run ops (add node x c) (add-IsValid c node x v), read-add c node x v)
read-run (counting node ∷ ops) c v =
    rw (read-run ops (add node 1 c) (add-IsValid c node 1 v), read-add c node 1 v)
read-run (counting_down node ∷ ops) c v = rw (
  read-run ops (add node (2 ^ 64 - 1) c) (add-IsValid c node (2 ^ 64 - 1) v),
  read-add c node (2 ^ 64 - 1) v,
)
read-run (resetting ∷ ops) c v =
    let (zeroed, v') = read-reset c v in rw (read-run ops (reset c) v', zeroed)
