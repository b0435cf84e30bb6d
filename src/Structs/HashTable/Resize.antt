-- ===== src/Structs/HashTable/Resize.antt =====
-- A resize keeps the map of the hash table, whether there is memory for it or not.
use libnumakit.Prelude.{
  ℕ, zero, suc, ◌+◌, ◌-◌, ◌*◌, ◌%◌, ◌^◌, ◌≤◌, ◌<◌, ◌≡◌, ◌⊎◌, inl, inr, refl, ap, sym, ◌∙◌, Option,
  none, some, List, [], ◌∷◌, length, get_or, replicate, length-replicate, arith, mul64, sub64,
  one-le-pow2, two-pow-add,
}
use mathlib.Core.Path.{subst}
use native.Mathlib.Nat.{mod-lt, mod-eq_of_lt, pow-le-pow_right}
use libnumakit.Memory.Os.{Os, World}
use libnumakit.Memory.Arena
use libnumakit.Memory.Arena.{Arena}
use libnumakit.Structs.HashTable.{
  Bucket, HashTable, blank, fnv1a, rehash, make_buckets, resize_into, resize,
}
use libnumakit.Structs.HashTable.Lookup.{at}
use libnumakit.Structs.HashTable.Tidy.{Live, IsTidy}
use libnumakit.Structs.HashTable.Round.{occupied}
use libnumakit.Structs.HashTable.Content.{IsTable, Holds}
use libnumakit.Structs.HashTable.Insert.{Holds-moved}
use libnumakit.Structs.HashTable.Grow.{Keyed, Rehashed, rehash_lem}

Keyed-of_index :
    (bs : List Bucket)
    → ((i : ℕ)
        → i < length bs
        → Live (get_or bs i blank)
        → (get_or bs i blank).hash ≡ fnv1a (get_or bs i blank).key)
    → ((i j : ℕ)
        → i < length bs
        → j < length bs
        → Live (get_or bs i blank)
        → Live (get_or bs j blank)
        → (get_or bs i blank).key ≡ (get_or bs j blank).key
        → i ≡ j)
    → Keyed bs
Keyed-of_index [] own once = tt
Keyed-of_index (b ∷ bs) own once = (
  (λ l. (
    own 0 (omega arith) l,
    λ i lt l' e. absurd (omega (arith, once (suc i) 0 (omega arith) (omega arith) l' l e)),
  )),
  Keyed-of_index bs (λ i lt. own (suc i) (omega arith))
      (λ i j li lj l l' e. omega (arith, once (suc i) (suc j) (omega arith) (omega arith) l l' e)),
)

IsTidy-Keyed : (k : ℕ) (bs : List Bucket) → IsTidy k bs → Keyed bs
IsTidy-Keyed k bs v =
    Keyed-of_index bs
      (λ i lt.
        subst
          (λ s. Live (get_or bs s blank) → (get_or bs s blank).hash ≡ fnv1a (get_or bs s blank).key)
          (slot i lt) (v.hashed i))
      (λ i j li lj l l' e.
        sym (slot i li)
        ∙ v.unique i j (subst (λ s. Live (get_or bs s blank)) (sym (slot i li)) l)
            (subst (λ s. Live (get_or bs s blank)) (sym (slot j lj)) l')
            (ap (λ s. (get_or bs s blank).key) (slot i li)
              ∙ e
              ∙ ap (λ s. (get_or bs s blank).key) (sym (slot j lj)))
        ∙ slot j lj)
  where
    slot : (i : ℕ) → i < length bs → i % 2 ^ k ≡ i
    slot i lt = mod-eq_of_lt (omega (arith, lt, v.whole))

blank_everywhere : (n i : ℕ) → get_or (replicate n blank) i blank ≡ blank
blank_everywhere zero i = refl
blank_everywhere (suc n) zero = refl
blank_everywhere (suc n) (suc i) = blank_everywhere n i

nothing_there : (k n p : ℕ) → Live (at k (replicate n blank) p) → ⊥
nothing_there k n p l = l (ap (λ c. c.hash) (blank_everywhere n (p % 2 ^ k)))

pub occupied-blank : (n : ℕ) → occupied (replicate n blank) ≡ 0
occupied-blank zero = refl
occupied-blank (suc n) = occupied-blank n

pub blank-IsTidy : (k : ℕ) → IsTidy k (replicate (2 ^ k) blank)
blank-IsTidy k = record {
  whole = length-replicate (2 ^ k) blank;
  robin = λ p l pos. absurd (nothing_there k (2 ^ k) (p + 1) l);
  hashed = λ p l. absurd (nothing_there k (2 ^ k) p l);
  unique = λ p q l l' e. absurd (nothing_there k (2 ^ k) p l);
}

pub occupied-le : (bs : List Bucket) → occupied bs ≤ length bs
occupied-le [] = omega arith
occupied-le (b ∷ bs) = ground (arith, occupied-le bs)

pub pow2-suc : (k : ℕ) → 2 ^ (k + 1) ≡ 2 ^ k * 2
pow2-suc k = two-pow-add k 1

pub grows : (i j : ℕ) → i ≤ j → 2 ^ i ≤ 2 ^ j
grows i j le = pow-le-pow_right {n = 2} (omega arith) le

-- The doubled capacity does not wrap round.
doubled :
    (k : ℕ) → k ≤ 62 → (mul64 (2 ^ k) 2 ≡ 2 ^ (k + 1)) × (sub64 (2 ^ (k + 1)) 1 ≡ 2 ^ (k + 1) - 1)
doubled k small =
    let bound : 2 ^ (k + 1) ≤ 2 ^ 63 = grows (k + 1) 63 (omega arith) in
    (
      ap (λ x. x % 18446744073709551616) (sym (pow2-suc k)) ∙ mod-eq_of_lt (omega arith),
      omega (arith, one-le-pow2 (k + 1)),
    )

-- Two tables, which may differ in size, have the same map.
pub record SameMap (k : ℕ) (t : HashTable) (k' : ℕ) (t' : HashTable) : Type 0 where
  pub there : (key : List ℕ) (v : ℕ) → Holds k t key v → Holds k' t' key v
  pub back : (key : List ℕ) (v : ℕ) → Holds k' t' key v → Holds k t key v

-- The table behind a resize: the same, or one of twice the size, with the same map.
pub record Resized (k : ℕ) (t : HashTable) (k' : ℕ) (t' : HashTable) : Type 0 where
  pub table : IsTable k' t'
  pub size : ((k' ≡ k) × (t' ≡ t)) ⊎ (k' ≡ k + 1)
  pub count : t'.count ≡ t.count
  pub same : SameMap k t k' t'

resize_into-some :
    (fuel : ℕ) (t t' : HashTable) (capacity : ℕ) (arena : Arena) (w : World)
    → rehash fuel t.buckets (record t {
      buckets = replicate capacity blank;
      capacity = capacity;
      mask = sub64 capacity 1;
    })
      ≡ some t'
    → resize_into fuel t capacity (some arena, w)
      ≡ some (record t' { arena = arena }, Arena.destroy t.arena w)
unfolding resize_into
resize_into-some fuel t t' capacity arena w e = rw (e, resize_into) refl

-- After a rehash into the doubled buckets.
Rehashed-Resized :
    {k : ℕ} {t : HashTable} (new : List Bucket) (arena : Arena)
    → IsTable k t
    → k ≤ 62
    → Rehashed (k + 1) (replicate (2 ^ (k + 1)) blank) t.buckets new
    → Resized k t
        (k + 1)
        (record t { buckets = new; capacity = 2 ^ (k + 1); mask = 2 ^ (k + 1) - 1; arena = arena })
Rehashed-Resized {k} {t} new arena v small r = record {
  table = record {
    narrow = omega arith;
    capacity = refl;
    mask = refl;
    tidy = r.tidy;
    counted = omega (arith, v.counted, r.all, occupied-blank (2 ^ (k + 1)));
  };
  size = inr refl;
  count = refl;
  same = record {
    there = λ key x (p, l, ek, ev).
        let (q, e) =
          r.from_list (p % 2 ^ k) (omega (arith, mod-lt p (one-le-pow2 k), v.tidy.whole)) l in
        Holds-moved (k + 1) after q (at k t.buckets p) key x e l ek ev;
    back = λ key x (q, l, ek, ev). elim (r.origin q l) [
      | inl (p, e) ↦ absurd (nothing_there (k + 1) (2 ^ (k + 1)) p (subst Live (sym e) l))
      | inr (i, lt, e) ↦
          Holds-moved k t i (at (k + 1) new q) key x
            (ap (λ s. get_or t.buckets s blank)
                (mod-eq_of_lt {n = i} {m = 2 ^ k} (omega (arith, lt, v.tidy.whole)))
              ∙ e)
            l ek ev
    ];
  };
}
  where
    after : HashTable
    after = record t {
      buckets = new;
      capacity = 2 ^ (k + 1);
      mask = 2 ^ (k + 1) - 1;
      arena = arena;
    }

resize_into_lem :
    {k : ℕ} {t : HashTable} (fuel : ℕ) (made : Option Arena) (w : World)
    → IsTable k t
    → k ≤ 62
    → 2 ^ (k + 1) ≤ fuel
    → (k' : ℕ) × (t' : HashTable) × (w' : World) × (resize_into fuel t
          (mul64 t.capacity 2)
          (made, w)
        ≡ some (t', w'))
      × Resized k t k' t'
unfolding resize_into
resize_into_lem {k} {t} fuel none w v small enough = (
  k,
  t,
  w,
  refl,
  record {
    table = v;
    size = inl (refl, refl);
    count = refl;
    same = record { there = λ key x h. h; back = λ key x h. h };
  },
)
resize_into_lem {k} {t} fuel (some arena) w v small enough =
    let (twice, ones) = doubled k small in
    let fresh : HashTable = record t {
      buckets = replicate (2 ^ (k + 1)) blank;
      capacity = 2 ^ (k + 1);
      mask = 2 ^ (k + 1) - 1;
    } in
    let (new, ran, r) =
      rehash_lem (k + 1) fuel t.buckets fresh (omega arith) enough refl (blank-IsTidy (k + 1))
        (IsTidy-Keyed k t.buckets v.tidy)
        (λ i lt l q lq. absurd (nothing_there (k + 1) (2 ^ (k + 1)) q lq))
        (omega
          (arith, occupied-blank (2 ^ (k + 1)), occupied-le t.buckets, v.tidy.whole, pow2-suc k)) in
    let after : HashTable = record fresh { buckets = new } in
    let ran' : rehash fuel t.buckets (record t {
      buckets = replicate (mul64 t.capacity 2) blank;
      capacity = mul64 t.capacity 2;
      mask = sub64 (mul64 t.capacity 2) 1;
    })
        ≡ some after =
      subst
        (λ c.
          rehash fuel t.buckets
            (record t { buckets = replicate c blank; capacity = c; mask = sub64 c 1 })
          ≡ some after)
        (sym (ap (λ c. mul64 c 2) v.capacity ∙ twice))
        (subst
          (λ m.
            rehash fuel t.buckets (record t {
              buckets = replicate (2 ^ (k + 1)) blank;
              capacity = 2 ^ (k + 1);
              mask = m;
            })
            ≡ some after)
          (sym ones) ran) in
    (
      k + 1,
      record after { arena = arena },
      Arena.destroy t.arena w,
      resize_into-some fuel t after (mul64 t.capacity 2) arena w ran',
      Rehashed-Resized new arena v small r,
    )

-- A resize of a valid table of `2 ^ k` buckets, with `k` at most 62 and enough fuel, always
-- returns: the same table, or a valid one of twice the size with the same count that holds the same
-- values at the same keys.
pub resize_lem :
    {k : ℕ} {t : HashTable} (os : Os) (fuel : ℕ) (w : World)
    → IsTable k t
    → k ≤ 62
    → 2 ^ (k + 1) ≤ fuel
    → (k' : ℕ) × (t' : HashTable) × (w' : World) × (resize os fuel t w ≡ some (t', w'))
      × Resized k t k' t'
unfolding resize
resize_lem {t = t} os fuel w v small enough =
    let (made, w1) = make_buckets os t.node_id (mul64 t.capacity 2) w in
    resize_into_lem fuel made w1 v small enough
