-- ===== src/Structs/Deque/Owner.antt =====
-- The owner's pop, from the back of the deque.
use libnumakit.Prelude.{
  ℕ, suc, ◌+◌, ◌-◌, ◌≤◌, ◌≡◌, refl, ap, sym, ◌∙◌, true, false, none, some, List, [], ◌∷◌, ◌++◌, ltb,
  ◌==◌, length, one-le-pow2, arith, lt→ltb, length-append, Bool-cases, inl, inr,
}
use libnumakit.Structs.Deque.{Deque, pop, steal}
use libnumakit.Structs.Deque.Items.{at, items, load_lem, items_snoc}
use libnumakit.Structs.Deque.Refine.{Holds, length_of, content_of}

snoc_inj : (q q' : List ℕ) (x y : ℕ) → q ++ x ∷ [] ≡ q' ++ y ∷ [] → (q ≡ q') × (x ≡ y)
snoc_inj [] [] x y e = (refl, cc)
snoc_inj [] (b ∷ []) x y e = cc
snoc_inj [] (b ∷ c ∷ q') x y e = cc
snoc_inj (a ∷ []) [] x y e = cc
snoc_inj (a ∷ c ∷ q) [] x y e = cc
snoc_inj (a ∷ q) (b ∷ q') x y e = let (eq, ex) = snoc_inj q q' x y (ap rest e) in (cc, ex)
  where
    rest : List ℕ → List ℕ
    rest [] = []
    rest (z ∷ l) = l

module _ (k : ℕ) (q : List ℕ) (x : ℕ) (d : Deque) (v : Holds k (q ++ x ∷ []) d) where
  len : d.bottom ≡ d.top + suc (length q)
  len = omega (arith, length_of v, length-append q (x ∷ []))

  split : (items k d.array d.top (length q) ≡ q) × (at k d.array (d.top + length q) ≡ x)
  split = snoc_inj (items k d.array d.top (length q)) q (at k d.array (d.top + length q)) x (
      sym (items_snoc k d.array d.top (length q))
      ∙ ap (items k d.array d.top) {x = suc (length q)} {y = length (q ++ x ∷ [])}
          (omega (arith, length-append q (x ∷ [])))
      ∙ content_of v)

  -- The owner's `pop` of a deque that holds `q` and then `x` returns `x`, and leaves a deque that
  -- holds `q`.
  pub pop_lem : (d' : Deque) × (pop d ≡ some (some x, d')) × Holds k q d'
  unfolding pop
  pop_lem =
      let some_left : ltb d.top d.bottom ≡ true = lt→ltb d.top d.bottom (omega (arith, len)) in
      let item : at k d.array (d.bottom - 1) ≡ x =
        ap (at k d.array) {x = d.bottom - 1} {y = d.top + length q} (omega (arith, len))
        ∙ split.1 in
      elim (Bool-cases (d.top == d.bottom - 1)) [
        | inl last ↦
            let one : d.top ≡ d.bottom - 1 = ground arith in
            (
              record d { top = d.top + 1 },
              rw (some_left, load_lem v.shaped (d.bottom - 1), last, item) refl,
              record {
                narrow = v.narrow;
                shaped = v.shaped;
                order = omega (arith, len);
                room = omega (arith, len, one, one-le-pow2 k);
                content =
                    ap (items k d.array (d.top + 1)) {x = d.bottom - (d.top + 1)} {y = 0}
                      (omega (arith, len, one))
                    ∙ nothing q (omega (arith, len, one));
              },
            )
        | inr more ↦ (
          record d { bottom = d.bottom - 1 },
          rw (some_left, load_lem v.shaped (d.bottom - 1), more, item) refl,
          record {
            narrow = v.narrow;
            shaped = v.shaped;
            order = omega (arith, len);
            room = omega (arith, v.room);
            content =
                ap (items k d.array d.top) {x = d.bottom - 1 - d.top} {y = length q}
                  (omega (arith, len))
                ∙ split.0;
          },
        )
      ]
    where
      nothing : (q : List ℕ) → length q ≡ 0 → [] ≡ q
      nothing [] h = refl
      nothing (y ∷ q) h = absurd (omega (arith, h))

-- `pop` and `steal` of an empty deque return nothing and leave it as it is.
pub empty_lem :
    (k : ℕ) (d : Deque) → Holds k [] d → (pop d ≡ some (none, d)) × (steal d ≡ some (none, d))
unfolding pop steal
empty_lem k d v =
    let nothing_left : ltb d.top d.bottom ≡ false =
      not_less d.top d.bottom (omega (arith, length_of v)) in
    (rw nothing_left refl, rw nothing_left refl)
  where
    not_less : (a b : ℕ) → b ≤ a → ltb a b ≡ false
    not_less a b h = ground arith
