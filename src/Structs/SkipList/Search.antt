-- ===== src/Structs/SkipList/Search.antt =====
-- The search in a skip list finds the last smaller node of each level.
use libnumakit.Prelude.{
  ℕ, zero, suc, ◌≤◌, ◌<◌, ◌≡◌, ◌⊎◌, inl, inr, refl, ap, ap₂, sym, ◌∙◌, true, some, List, [], ◌∷◌,
  ◌++◌, length, length-append, arith, Bool-cases, if◌then◌else◌,
}
use mathlib.Core.Path.{subst}
use mathlib.Core.List.{append_assoc}
use libnumakit.Structs.SkipList.{Nodes, Shard, next_of, descend, search_key}
use libnumakit.Structs.SkipList.Chain.{
  high, Chain, last_high, All, Smaller, NotSmaller, Chain-high, Chain-append, last_high-high,
  last_high-low, walk_lem,
}

-- The entries of `update` from level 0 on, in front of those from level `n` on.
abbrev pub lasts : Nodes → ℕ → List ℕ → ℕ → List ℕ → List ℕ
lasts nodes a p zero acc = acc
lasts nodes a p (suc i) acc = lasts nodes a p i (last_high nodes i a p ∷ acc)

abbrev end_of : Nodes → ℕ → List ℕ → ℕ → ℕ → ℕ
end_of nodes a p zero c = c
end_of nodes a p (suc n) c = last_high nodes 0 a p

-- The last node that is high enough splits the list, if there is one.
last_high-split :
    (nodes : Nodes) (i a : ℕ) (p : List ℕ)
    → (last_high nodes i a p ≡ a)
      ⊎ ((p1 : List ℕ) × (c : ℕ) × (p2 : List ℕ) × (p ≡ p1 ++ c ∷ p2)
          × (high nodes i c ≡ true)
          × (last_high nodes i a p ≡ c))
last_high-split nodes i a [] = inl refl
last_high-split nodes i a (b ∷ p) = elim (Bool-cases (high nodes i b)) [
  | inl e ↦ elim (last_high-split nodes i b p) [
    | inl l ↦ inr ([], b, p, refl, e, last_high-high nodes i a b p e ∙ l)
    | inr (p1, c, p2, ep, ec, l) ↦
        inr (b ∷ p1, c, p2, ap (λ x. b ∷ x) ep, ec, last_high-high nodes i a b p e ∙ l)
  ]
  | inr e ↦ elim (last_high-split nodes i a p) [
    | inl l ↦ inl (last_high-low nodes i a b p e ∙ l)
    | inr (p1, c, p2, ep, ec, l) ↦
        inr (b ∷ p1, c, p2, ap (λ x. b ∷ x) ep, ec, last_high-low nodes i a b p e ∙ l)
  ]
]

last_high-append :
    (nodes : Nodes) (i a : ℕ) (p q : List ℕ)
    → last_high nodes i a (p ++ q) ≡ last_high nodes i (last_high nodes i a p) q
last_high-append nodes i a [] q = refl
last_high-append nodes i a (b ∷ p) q =
    last_high-append nodes i (if high nodes i b then b else a) p q

All-append_right : (P : ℕ → Type 0) (p q : List ℕ) → All P (p ++ q) → All P q
All-append_right P [] q h = h
All-append_right P (b ∷ p) q h = All-append_right P p q h.1

-- Where a search that goes on below level `n` stands: at `c`, with the smaller nodes `p'` before it.
abbrev On : Nodes → ℕ → List ℕ → List ℕ → ℕ → ℕ → List ℕ → Type 0
On nodes a p q n c p' =
    (j : ℕ) → j < n → Chain nodes j c (p' ++ q) × (last_high nodes j c p' ≡ last_high nodes j a p)

module _ (nodes : Nodes) (key : List ℕ) (a : ℕ) (p q : List ℕ)
    (hq : All (NotSmaller nodes key) q) where
  On-below :
      (i c : ℕ) (p' : List ℕ)
      → All (Smaller nodes key) p'
      → On nodes a p q (suc i) c p'
      → (p'' : List ℕ) × All (Smaller nodes key) p''
        × (length p'' ≤ length p')
        × On nodes a p q i (last_high nodes i c p') p''
  On-below i c p' hp on = elim (last_high-split nodes i c p') [
    | inl l ↦ (p', hp, omega arith, λ j lt. subst (At j p') (sym l) (on j (omega arith)))
    | inr (p1, d, p2, ep, ed, l) ↦
        let hp' = subst (All (Smaller nodes key)) ep hp in
        (
          p2,
          (All-append_right (Smaller nodes key) p1 (d ∷ p2) hp').1,
          omega (arith, ap length ep, length-append p1 (d ∷ p2)),
          λ j lt. subst (At j p2) (sym l) (
              below j d p1 p2 (higher j i d (omega arith) ed)
                (subst (λ x. At j x c) ep (on j (omega arith)))),
        )
  ]
    where
      At : ℕ → List ℕ → ℕ → Type 0
      At j x d = Chain nodes j d (x ++ q) × (last_high nodes j d x ≡ last_high nodes j a p)

      higher : (j i d : ℕ) → j ≤ i → high nodes i d ≡ true → high nodes j d ≡ true
      higher j i d le e = ground arith

      below : (j d : ℕ) (p1 p2 : List ℕ) → high nodes j d ≡ true → At j (p1 ++ d ∷ p2) c → At j p2 d
      below j d p1 p2 e h = (
        (Chain-high nodes j (last_high nodes j c p1) d (p2 ++ q) e (
            Chain-append nodes j c p1 (d ∷ p2 ++ q)
              (subst (Chain nodes j c) (append_assoc p1 (d ∷ p2) q) h.0))).1,
        sym (last_high-high nodes j (last_high nodes j c p1) d p2 e)
            ∙ sym (last_high-append nodes j c p1 (d ∷ p2))
            ∙ h.1,
      )

  descend_lem :
      (fuel n c : ℕ) (p' acc : List ℕ)
      → All (Smaller nodes key) p'
      → length p' < fuel
      → On nodes a p q n c p'
      → descend fuel nodes key n c acc ≡ some (end_of nodes a p n c, lasts nodes a p n acc)
  unfolding descend
  descend_lem fuel zero c p' acc hp enough on = refl
  descend_lem fuel (suc i) c p' acc hp enough on =
      let (ch, l) = on i (omega arith) in
      let (p'', hp'', shorter, on') = On-below i c p' hp on in
      rw (walk_lem fuel nodes key i c p' q hp hq ch enough, descend)
        (descend_lem fuel i (last_high nodes i c p') p'' (last_high nodes i c p' ∷ acc) hp''
            (omega arith) on'
          ∙ ap₂ (λ x y. some (x, y)) (lowest i (last_high nodes i c p') l)
              (ap (λ x. lasts nodes a p i (x ∷ acc)) l))
    where
      lowest : (n x : ℕ) → x ≡ last_high nodes n a p → end_of nodes a p n x ≡ last_high nodes 0 a p
      lowest zero x e = e
      lowest (suc n) x e = refl

  -- The search of a list with the smaller nodes `p` in front.
  pub search_key_lem :
      (fuel : ℕ) (s : Shard)
      → s.head ≡ a
      → 0 < s.max_level
      → All (Smaller nodes key) p
      → length p < fuel
      → ((i : ℕ) → i < s.max_level → Chain nodes i a (p ++ q))
      → {n : ℕ} → next_of nodes (last_high nodes 0 a p) 0 ≡ some n
      → search_key fuel nodes s key ≡ some (n, lasts nodes a p s.max_level [])
  unfolding search_key
  search_key_lem fuel s eh pos hp enough chains {n} en = rw (eh, run, search_key) (rw en refl)
    where
      bottom : (m : ℕ) → 0 < m → end_of nodes a p m a ≡ last_high nodes 0 a p
      bottom zero lt = elim lt [ ]
      bottom (suc m) lt = refl

      run :
          descend fuel nodes key s.max_level a []
          ≡ some (last_high nodes 0 a p, lasts nodes a p s.max_level [])
      run =
          descend_lem fuel s.max_level a p [] hp enough (λ j lt. (chains j lt, refl))
          ∙ ap (λ x. some (x, lasts nodes a p s.max_level [])) (bottom s.max_level pos)
