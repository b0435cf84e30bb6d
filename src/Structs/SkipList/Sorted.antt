-- ===== src/Structs/SkipList/Sorted.antt =====
-- The list of a shard: its order, its map, and where a key splits it.
use libnumakit.Prelude.{
  ◌^◌, ◌%◌, ℕ, ◌≤◌, ◌<◌, ◌≡◌, ◌≢◌, inl, inr, refl, ap, sym, ◌∙◌, Bool, true, false, Option, none,
  some, List, [], ◌∷◌, ◌++◌, length, Bool-cases, if◌then◌else◌,
}
use libnumakit.Structs.SkipList.{Nodes, Shard, key_lt, keys_equal}
use libnumakit.Structs.SkipList.Order.{key_lt_trans, key_lt_irrefl, keys_equal_eq}
use libnumakit.Structs.SkipList.Chain.{Chain, All, Smaller, NotSmaller}

abbrev pub Before : Nodes → ℕ → ℕ → Type 0
Before nodes b c = key_lt (nodes b).key (nodes c).key ≡ true

abbrev pub Sorted : Nodes → List ℕ → Type 0
Sorted nodes [] = Unit
Sorted nodes (b ∷ q) = All (Before nodes b) q × Sorted nodes q

-- A node has a pointer for each of its levels.
abbrev pub Shaped : Nodes → ℕ → ℕ → Type 0
Shaped nodes top b =
    (b ≢ 0)
    × (0 < (nodes b).level)
    × ((nodes b).level ≤ top)
    × (length (nodes b).next ≡ (nodes b).level)

abbrev pub Differs : ℕ → ℕ → Type 0
Differs a b = a ≢ b

abbrev pub Distinct : List ℕ → Type 0
Distinct [] = Unit
Distinct (b ∷ q) = All (Differs b) q × Distinct q

-- The nodes of a shard in the order of their keys.
pub record IsSkip (nodes : Nodes) (s : Shard) (q : List ℕ) : Type 0 where
  pub top : 0 < s.max_level
  pub head_next : length (nodes s.head).next ≡ s.max_level
  pub chains : (i : ℕ) → i < s.max_level → Chain nodes i s.head q
  pub sorted : Sorted nodes q
  pub shaped : All (Shaped nodes s.max_level) q
  pub distinct : Distinct (s.head ∷ q)
  pub counted : s.count ≡ length q % 2 ^ 64

-- The map: the value of the node with the key.
abbrev pub lookup : Nodes → List ℕ → List ℕ → Option ℕ
lookup nodes key [] = none
lookup nodes key (b ∷ q) =
    if keys_equal (nodes b).key key then some (nodes b).value else lookup nodes key q

-- The smaller nodes stand in front.
pub record Split (nodes : Nodes) (key : List ℕ) (l p q : List ℕ) : Type 0 where
  pub whole : l ≡ p ++ q
  pub smaller : All (Smaller nodes key) p
  pub others : All (NotSmaller nodes key) q

pub not_smaller :
    (nodes : Nodes) (key : List ℕ) (top b : ℕ) (q : List ℕ)
    → key_lt (nodes b).key key ≡ false
    → All (Before nodes b) q
    → All (Shaped nodes top) q
    → All (NotSmaller nodes key) q
not_smaller nodes key top b [] e h s = tt
not_smaller nodes key top b (c ∷ q) e h s =
    ((s.0.0, not_lt (key_lt (nodes c).key key) refl), not_smaller nodes key top b q e h.1 s.1)
  where
    not_lt : (t : Bool) → key_lt (nodes c).key key ≡ t → key_lt (nodes c).key key ≡ false
    not_lt true et = cc (sym e ∙ key_lt_trans (nodes b).key (nodes c).key key h.0 et)
    not_lt false et = et

pub split :
    (nodes : Nodes) (key : List ℕ) (top : ℕ) (l : List ℕ)
    → Sorted nodes l
    → All (Shaped nodes top) l
    → (p : List ℕ) × (q : List ℕ) × Split nodes key l p q
split nodes key top [] so sh = ([], [], record { whole = refl; smaller = tt; others = tt })
split nodes key top (b ∷ l) so sh = elim (Bool-cases (key_lt (nodes b).key key)) [
  | inl e ↦
      let (p, q, v) = split nodes key top l so.1 sh.1 in
      (
        b ∷ p,
        q,
        record {
          whole = ap (λ x. b ∷ x) v.whole;
          smaller = ((sh.0.0, e), v.smaller);
          others = v.others;
        },
      )
  | inr e ↦ (
    [],
    b ∷ l,
    record {
      whole = refl;
      smaller = tt;
      others = ((sh.0.0, e), not_smaller nodes key top b l e so.0 sh.1);
    },
  )
]

-- Smaller nodes do not have the key.
pub lookup-Smaller :
    (nodes : Nodes) (key : List ℕ) (p q : List ℕ)
    → All (Smaller nodes key) p
    → lookup nodes key (p ++ q) ≡ lookup nodes key q
lookup-Smaller nodes key [] q h = refl
lookup-Smaller nodes key (b ∷ p) q h =
    ap (λ t. if t then some (nodes b).value else lookup nodes key (p ++ q))
      (differs (keys_equal (nodes b).key key) refl)
    ∙ lookup-Smaller nodes key p q h.1
  where
    differs : (t : Bool) → keys_equal (nodes b).key key ≡ t → keys_equal (nodes b).key key ≡ false
    differs false e = e
    differs true e =
        cc (
          sym h.0.1
          ∙ ap (λ x. key_lt x key) (keys_equal_eq (nodes b).key key e)
          ∙ key_lt_irrefl key)

pub All-append_split : (P : ℕ → Type 0) (p q : List ℕ) → All P (p ++ q) → All P p × All P q
All-append_split P [] q h = (tt, h)
All-append_split P (b ∷ p) q h = let (hp, hq) = All-append_split P p q h.1 in ((h.0, hp), hq)

pub Sorted-append_right : (nodes : Nodes) (p q : List ℕ) → Sorted nodes (p ++ q) → Sorted nodes q
Sorted-append_right nodes [] q h = h
Sorted-append_right nodes (b ∷ p) q h = Sorted-append_right nodes p q h.1
