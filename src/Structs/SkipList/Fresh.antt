-- ===== src/Structs/SkipList/Fresh.antt =====
-- The node of a put: its level, its memory, and the list beside it.
use libnumakit.Prelude.{
  add64, ℕ, zero, suc, ◌+◌, ◌-◌, ◌≤◌, ◌≡◌, ◌≢◌, inl, inr, refl, ap, ap₂, ◌∙◌, true, false, some,
  List, [], ◌∷◌, length, replicate, arith, Bool-cases, if◌then◌else◌, ltb,
}
use libnumakit.Memory.Os.{Os, World, onnode}
use libnumakit.Sync.Threads.{update}
use libnumakit.Structs.SkipList.{
  Node, Nodes, Shard, node_bytes, next_of, Rand, random_level, half_rand_max, create_node, link,
}
use libnumakit.Structs.SkipList.Chain.{high, Chain, last_high, All}
use libnumakit.Structs.SkipList.Shards.{put_new}
use libnumakit.Structs.SkipList.Sorted.{Differs}
use libnumakit.Structs.SkipList.Relink.{Kept, Chain-move, All-zip}
use libnumakit.Structs.SkipList.Link.{from}
use libnumakit.Structs.SkipList.Insert.{Alike}

pub random_level_bounds :
    (rand : Rand) (n level seed : ℕ)
    → (level ≤ (random_level rand n level seed).0)
      × ((random_level rand n level seed).0 ≤ level + n)
unfolding random_level
random_level_bounds rand zero level seed = (omega arith, omega arith)
random_level_bounds rand (suc n) level seed = elim (Bool-cases (ltb (rand seed).0 half_rand_max)) [
  | inl e ↦
      let (lo, hi) = random_level_bounds rand n (level + 1) (rand seed).1 in
      rw e (omega arith, omega arith)
  | inr e ↦ rw e (omega arith, omega arith)
]

abbrev pub drawn : Rand → Shard → ℕ
drawn rand s = (random_level rand (s.max_level - 1) 1 s.seed).0

-- The shard behind a draw.
abbrev pub aged : Rand → Shard → Shard
aged rand s = record s {
  seed = (random_level rand (s.max_level - 1) 1 s.seed).1;
  current_level = if ltb s.current_level (drawn rand s) then drawn rand s else s.current_level;
}

abbrev pub fresh : List ℕ → ℕ → ℕ → Node
fresh key value level = record { key = key; value = value; level = level; next = replicate level 0 }

module _ (os : Os) (rand : Rand) (key : List ℕ) (value : ℕ) (us : List ℕ) (s : Shard)
    (nodes : Nodes) (w : World) where
  abbrev pub place : ℕ
  place = os.numa_alloc w (node_bytes (drawn rand s)) s.node_id

  pub put_new-failed :
      place ≡ 0 → put_new os rand key value us s nodes w ≡ some (false, aged rand s, nodes, w)
  unfolding put_new create_node
  put_new-failed e = ground arith

  pub put_new-made :
      {nodes' : Nodes}
      → place ≢ 0
      → link (drawn rand s) 0 place us (update nodes place (fresh key value (drawn rand s)))
        ≡ some nodes'
      → put_new os rand key value us s nodes w
        ≡ some (
          true,
          record (aged rand s) { count = add64 s.count 1 },
          nodes',
          onnode place (node_bytes (drawn rand s)) ∷ w,
        )
  unfolding put_new create_node
  put_new-made ne e = ground arith

pub last_high-Alike :
    (nodes nodes' : Nodes) (i a : ℕ) (p : List ℕ)
    → All (Alike nodes nodes') p
    → last_high nodes' i a p ≡ last_high nodes i a p
last_high-Alike nodes nodes' i a [] h = refl
last_high-Alike nodes nodes' i a (b ∷ p) h =
    ap (λ n. last_high nodes' i (if ltb i n then b else a) p) h.0.2
    ∙ last_high-Alike nodes nodes' i (if high nodes i b then b else a) p h.1

pub from-Alike :
    (nodes nodes' : Nodes) (a : ℕ) (p : List ℕ) (i n : ℕ)
    → All (Alike nodes nodes') p
    → from nodes' a p i n ≡ from nodes a p i n
from-Alike nodes nodes' a p i zero h = refl
from-Alike nodes nodes' a p i (suc n) h =
    ap₂ ◌∷◌ (last_high-Alike nodes nodes' i a p h) (from-Alike nodes nodes' a p (i + 1) n h)

-- A node that is written where no node of the list stands.
module _ (nodes : Nodes) (new : ℕ) (m : Node) where
  pub untouched : (x : ℕ) → new ≢ x → update nodes new m x ≡ nodes x
  untouched x ne = ground arith

  pub written : update nodes new m new ≡ m
  written = ground arith

  pub untouched-Alike :
      (l : List ℕ) → All (Differs new) l → All (Alike nodes (update nodes new m)) l
  untouched-Alike [] f = tt
  untouched-Alike (b ∷ l) f =
      let e = untouched b f.0 in
      (
        (ap (λ n. n.key) e, ap (λ n. n.value) e, ap (λ n. n.level) e, ap (λ n. length n.next) e),
        untouched-Alike l f.1,
      )

  pub untouched-Chain :
      (i a : ℕ) (l : List ℕ)
      → All (Differs new) (a ∷ l)
      → Chain nodes i a l
      → Chain (update nodes new m) i a l
  untouched-Chain i a l f c =
      Chain-move nodes (update nodes new m) i a a l
        (ap (λ n. next_of (λ _. n) a i) (untouched a f.0))
        (All-zip {P = Differs new} {Q = Differs new} l
          (λ x ne ne'.
            (ap (λ n. n.level) (untouched x ne), ap (λ n. next_of (λ _. n) x i) (untouched x ne)))
          f.1 f.1)
        c

pub Kept-Alike :
    {nodes nodes' : Nodes} (l : List ℕ) → Kept nodes nodes' → All (Alike nodes nodes') l
Kept-Alike [] v = tt
Kept-Alike (b ∷ l) v = ((v.key b, v.value b, v.level b, v.size b), Kept-Alike l v)
