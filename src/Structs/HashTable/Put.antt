-- ===== src/Structs/HashTable/Put.antt =====
-- `nkit_hash_put` acts on the finite map that `nkit_hash_get` looks things up in.
use libnumakit.Prelude.{
  ℕ, ◌+◌, ◌*◌, ◌^◌, ◌≤◌, ◌<◌, ◌≡◌, ◌≢◌, inl, inr, refl, ap, sym, ◌∙◌, true, false, some, List, ◌∷◌,
  leb, if◌then◌else◌, arith, Bool-cases,
}
use mathlib.Core.Path.{subst}
use libnumakit.Memory.Os.{Os, World}
use libnumakit.Structs.HashTable.{HashTable, keys_equal, put_internal, entry, resize, put, get}
use libnumakit.Structs.HashTable.Tidy.{keys_equal_eq, keys_equal_self}
use libnumakit.Structs.HashTable.Content.{IsTable, Holds, get-Holds, get_content}
use libnumakit.Structs.HashTable.Insert.{Updates, put_internal-Updates}
use libnumakit.Structs.HashTable.Resize.{Resized, SameMap, resize_lem, pow2-suc, grows}

-- An update of a table with the same map.
SameMap-Updates :
    (k k1 k2 : ℕ) (t t1 t2 : HashTable) (key : List ℕ) (value : ℕ)
    → SameMap k t k1 t1
    → Updates k1 t1 k2 t2 key value
    → Updates k t k2 t2 key value
SameMap-Updates k k1 k2 t t1 t2 key value m u = record {
  table = u.table;
  holds = u.holds;
  kept = λ key' v ne h. u.kept key' v ne (m.there key' v h);
  back = λ key' v ne h. m.back key' v (u.back key' v ne h);
}

module _ {k k' : ℕ} {t t' : HashTable} (fuel : ℕ) (v : IsTable k t) (few : 2 ^ k < fuel)
    (few' : 2 ^ k' < fuel) where
  -- Two tables that hold the same at a key have the same lookup there.
  pub get-same :
      (c : ℕ) (key : List ℕ)
      → IsTable k' t'
      → ((x : ℕ) → Holds k t (c ∷ key) x → Holds k' t' (c ∷ key) x)
      → ((x : ℕ) → Holds k' t' (c ∷ key) x → Holds k t (c ∷ key) x)
      → get fuel t' (c ∷ key) ≡ get fuel t (c ∷ key)
  get-same c key v' there back = elim (get_content v fuel c key few) [
    | inl (x, h, e) ↦ get-Holds v' fuel c key few' x (there x h) ∙ sym e
    | inr (gone, e) ↦ elim (get_content v' fuel c key few') [
      | inl (x, h', e') ↦ let (p, l, ek, ev) = back x h' in absurd (gone p l ek)
      | inr (gone', e') ↦ e' ∙ sym e
    ]
  ]

  pub get-Updates :
      (b : ℕ) (key : List ℕ) (value c : ℕ) (key' : List ℕ)
      → Updates k t k' t' (b ∷ key) value
      → get fuel t' (c ∷ key')
        ≡ (if keys_equal (c ∷ key') (b ∷ key) then some (some value) else get fuel t (c ∷ key'))
  get-Updates b key value c key' u = elim (Bool-cases (keys_equal (c ∷ key') (b ∷ key))) [
    | inl same ↦ rw same (
        subst (λ l. get fuel t' l ≡ some (some value))
          (sym (keys_equal_eq (c ∷ key') (b ∷ key) same))
          (get-Holds u.table fuel b key few' value u.holds))
    | inr other ↦ rw other (
        get-same c key' u.table (λ x. u.kept (c ∷ key') x (differs other))
          (λ x. u.back (c ∷ key') x (differs other)))
  ]
    where
      differs : keys_equal (c ∷ key') (b ∷ key) ≡ false → c ∷ key' ≢ b ∷ key
      differs other e =
          cc (sym other ∙ ap (λ l. keys_equal l (b ∷ key)) e ∙ keys_equal_self (b ∷ key))

-- The two ways into the insertion: behind a resize, or at once.
put_after :
    (os : Os) (fuel : ℕ) (t t1 t2 : HashTable) (b : ℕ) (key : List ℕ) (value : ℕ) (w w1 : World)
    → (if leb (t.capacity * 3) (t.count * 4) then resize os fuel t w else some (t, w))
      ≡ some (t1, w1)
    → put_internal fuel t1 (entry (b ∷ key) value) false ≡ some t2
    → put os fuel t (b ∷ key) value w ≡ some (true, t2, w1)
unfolding put
put_after os fuel t t1 t2 b key value w w1 e e' = rw (e, put) (rw (e', put) refl)

module _ {k : ℕ} {t : HashTable} (os : Os) (fuel : ℕ) (w : World) (v : IsTable k t) (small : k ≤ 62)
    (free : t.count < t.capacity) (enough : 2 ^ (k + 1) < fuel) where
  before_put :
      (k1 : ℕ) × (t1 : HashTable) × (w1 : World) × ((if leb (t.capacity * 3) (t.count * 4)
          then resize os fuel t w
          else some (t, w))
        ≡ some (t1, w1))
      × Resized k t k1 t1
  before_put = elim (Bool-cases (leb (t.capacity * 3) (t.count * 4))) [
    | inl loaded ↦
        let (k1, t1, w1, ran, r) = resize_lem os fuel w v small (omega arith) in
        (k1, t1, w1, rw loaded ran, r)
    | inr room ↦ (
      k,
      t,
      w,
      rw room refl,
      record {
        table = v;
        size = inl (refl, refl);
        count = refl;
        same = record { there = λ key x h. h; back = λ key x h. h };
      },
    )
  ]

  pub put-Updates :
      (b : ℕ) (key : List ℕ) (value : ℕ)
      → (k' : ℕ) × (t' : HashTable) × (w' : World) × (put os fuel t (b ∷ key) value w
          ≡ some (true, t', w'))
        × (k' ≤ k + 1)
        × Updates k t k' t' (b ∷ key) value
  put-Updates b key value =
      let (k1, t1, w1, ran, r) = before_put in
      let (t2, ran', u) =
        put_internal-Updates fuel (b ∷ key) value r.table (roomy k1 t1 r) (below k1 t1 r) in
      (
        k1,
        t2,
        w1,
        put_after os fuel t t1 t2 b key value w w1 ran ran',
        size k1 t1 r,
        SameMap-Updates k k1 k1 t t1 t2 (b ∷ key) value r.same u,
      )
    where
      size : (k1 : ℕ) (t1 : HashTable) → Resized k t k1 t1 → k1 ≤ k + 1
      size k1 t1 r = elim r.size [ inl (e, e') ↦ omega arith | inr e ↦ omega arith ]

      below : (k1 : ℕ) (t1 : HashTable) → Resized k t k1 t1 → 2 ^ k1 ≤ fuel
      below k1 t1 r = omega (arith, grows k1 (k + 1) (size k1 t1 r), enough)

      roomy : (k1 : ℕ) (t1 : HashTable) → Resized k t k1 t1 → t1.count < t1.capacity
      roomy k1 t1 r = elim r.size [
        | inl (e, e') ↦ subst (λ x. x.count < x.capacity) (sym e') free
        | inr e ↦
            omega
              (arith, r.count, r.table.capacity, ap (λ x. 2 ^ x) e, pow2-suc k, free, v.capacity)
      ]
