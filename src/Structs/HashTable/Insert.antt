-- ===== src/Structs/HashTable/Insert.antt =====
-- What an insertion does to the map of a hash table that has room.
use libnumakit.Prelude.{
  ℕ, suc, ◌+◌, ◌-◌, ◌%◌, ◌^◌, ◌≤◌, ◌<◌, ◌≡◌, ◌≢◌, inl, inr, refl, ap, ap₂, sym, ◌∙◌, Bool, true,
  false, ◌&&◌, ◌||◌, some, List, [], ◌∷◌, length, get_or, if◌then◌else◌, bit_and, bit_and-ones,
  one-le-pow2, arith, ℕ_discrete,
}
use mathlib.Core.Path.{subst}
use native.Mathlib.Nat.{mod-lt, mod-eq_of_lt, add-mod-mod, mod-add-mod, add-mod_right}
use libnumakit.Structs.HashTable.{Bucket, HashTable, blank, fnv1a, put_loop, put_internal, entry}
use libnumakit.Structs.HashTable.Lookup.{at, fnv1a_nonzero}
use libnumakit.Structs.HashTable.Tidy.{Live, away, IsTidy, away_is}
use libnumakit.Structs.HashTable.Place.{place}
use libnumakit.Structs.HashTable.Round.{occupied, Placed}
use libnumakit.Structs.HashTable.Content.{IsTable, Holds}

pub vacant_slot :
    (bs : List Bucket)
    → occupied bs < length bs
    → (i : ℕ) × (i < length bs) × ((get_or bs i blank).hash ≡ 0)
vacant_slot [] lt = elim lt [ ]
vacant_slot (b ∷ bs) lt = elim (ℕ_discrete b.hash 0) [
  | yes z ↦ (0, omega arith, z)
  | no l ↦ let (i, small, z) = vacant_slot bs (ground arith) in (suc i, omega arith, z)
]

-- The way from a position to a slot.
pub way : (n p i : ℕ) → i < n → (m : ℕ) × (m < n) × ((p + m) % n ≡ i)
way n p i lt = (
  (i + (n - p % n)) % n,
  mod-lt (i + (n - p % n)) {m = n} (omega arith),
  add-mod-mod p (i + (n - p % n)) n
      ∙ sym (mod-add-mod p n (i + (n - p % n)))
      ∙ ap (λ x. x % n) {x = p % n + (i + (n - p % n))} {y = i + n}
          (omega (arith, mod-lt p {m = n} (omega arith)))
      ∙ add-mod_right i n
      ∙ mod-eq_of_lt lt,
)

-- An insertion into a table with an empty bucket returns, whether it is part of a rehash or not.
pub put_internal_lem :
    (k fuel : ℕ) (t : HashTable) (cur : Bucket) (is_rehash : Bool)
    → k ≤ 64
    → t.mask ≡ 2 ^ k - 1
    → IsTidy k t.buckets
    → Live cur
    → cur.hash ≡ fnv1a cur.key
    → (is_rehash ≡ true → (q : ℕ) → Live (at k t.buckets q) → (at k t.buckets q).key ≢ cur.key)
    → occupied t.buckets < 2 ^ k
    → 2 ^ k ≤ fuel
    → (bs : List Bucket) × (counts : Bool) × (put_internal fuel t cur is_rehash
        ≡ some (record t { buckets = bs; count = if counts then t.count + 1 else t.count }))
      × Placed k t.buckets cur bs
      × (occupied bs
          ≡ (if counts || is_rehash then suc (occupied t.buckets) else occupied t.buckets))
      × ((counts && is_rehash) ≡ false)
unfolding put_internal
put_internal_lem k fuel t cur is_rehash narrow em tidy l own new free enough =
    let (i, small, z) = vacant_slot t.buckets (omega (arith, free, tidy.whole)) in
    let (m, near, there) = way (2 ^ k) cur.hash i (omega (arith, small, tidy.whole)) in
    let at_home : away k cur cur.hash ≡ 0 = away_is k narrow cur cur.hash 0 (one-le-pow2 k) (
      mod-add-mod cur.hash (2 ^ k) 0
      ∙ ap (λ x. x % 2 ^ k) {x = cur.hash + 0} {y = cur.hash} (omega arith)) in
    let (bs, counts, ran, placed, grown, kind) =
      place k narrow fuel m cur.hash t.buckets cur is_rehash tidy
        (record {
          live = l;
          own = own;
          follows = λ pos. absurd (omega (arith, at_home, pos));
          passed = λ q lq e. omega (arith, at_home);
          new = new;
        })
        (ap (λ s. (get_or t.buckets s blank).hash) there ∙ z) (omega arith) in
    let run : put_loop fuel t.buckets t.mask is_rehash cur (bit_and cur.hash t.mask) 0
        ≡ some (bs, counts) =
      subst
        (λ m'. put_loop fuel t.buckets m' is_rehash cur (bit_and cur.hash m') 0 ≡ some (bs, counts))
        (sym em)
        (ap₂ (put_loop fuel t.buckets (2 ^ k - 1) is_rehash cur) (bit_and-ones k cur.hash)
            (sym at_home)
          ∙ ran) in
    (bs, counts, rw (run, put_internal) refl, placed, grown, kind)

-- The map of `t'` is that of `t` with the value at the key; the tables may differ in size.
pub record Updates (k : ℕ) (t : HashTable) (k' : ℕ) (t' : HashTable) (key : List ℕ) (value : ℕ)
    : Type 0 where
  pub table : IsTable k' t'
  pub holds : Holds k' t' key value
  pub kept : (key' : List ℕ) (v : ℕ) → key' ≢ key → Holds k t key' v → Holds k' t' key' v
  pub back : (key' : List ℕ) (v : ℕ) → key' ≢ key → Holds k' t' key' v → Holds k t key' v

Holds-at :
    (k : ℕ) (t : HashTable) (q : ℕ) (b : Bucket)
    → at k t.buckets q ≡ b
    → Live b
    → Holds k t b.key b.value
Holds-at k t q b e l =
    let (l', ek, ev) =
      subst (λ c. Live c × (c.key ≡ b.key) × (c.value ≡ b.value)) (sym e) (l, refl, refl) in
    (q, l', ek, ev)

-- The same entry in another bucket of another table.
pub Holds-moved :
    (k : ℕ) (t : HashTable) (q : ℕ) (b : Bucket) (key : List ℕ) (v : ℕ)
    → at k t.buckets q ≡ b
    → Live b
    → b.key ≡ key
    → b.value ≡ v
    → Holds k t key v
Holds-moved k t q b key v e l ek ev =
    subst (Holds k t key) ev (subst (λ x. Holds k t x b.value) ek (Holds-at k t q b e l))

Placed-Updates :
    (k : ℕ) (t t' : HashTable) (key : List ℕ) (value : ℕ)
    → IsTable k t'
    → Placed k t.buckets (entry key value) t'.buckets
    → Updates k t k t' key value
Placed-Updates k t t' key value table w = record {
  table = table;
  holds = let (s, e) = w.stored in Holds-at k t' s (entry key value) e (fnv1a_nonzero key);
  kept = λ key' v ne (p, l, ek, ev).
      let (q, e) = w.kept p l (λ z. ne (sym ek ∙ z)) in
      Holds-moved k t' q (at k t.buckets p) key' v e l ek ev;
  back = λ key' v ne (q, l, ek, ev). elim (w.origin q l) [
    | inl e ↦ absurd (ne (sym ek ∙ ap (λ c. c.key) e))
    | inr (p, e) ↦ Holds-moved k t p (at k t'.buckets q) key' v e l ek ev
  ];
}

-- An insertion into a table with a free bucket returns a table with the value at the key.
pub put_internal-Updates :
    {k : ℕ} {t : HashTable} (fuel : ℕ) (key : List ℕ) (value : ℕ)
    → IsTable k t
    → t.count < t.capacity
    → 2 ^ k ≤ fuel
    → (t' : HashTable) × (put_internal fuel t (entry key value) false ≡ some t')
      × Updates k t k t' key value
put_internal-Updates {k} {t} fuel key value v free enough =
    let (bs, counts, ran, placed, grown, kind) =
      put_internal_lem k fuel t (entry key value) false v.narrow v.mask v.tidy (fnv1a_nonzero key)
        refl (λ e. cc) (omega (arith, v.counted, v.capacity, free)) enough in
    (
      record t { buckets = bs; count = if counts then t.count + 1 else t.count },
      ran,
      Placed-Updates k t
          (record t { buckets = bs; count = if counts then t.count + 1 else t.count }) key value
          (record {
            narrow = v.narrow;
            capacity = v.capacity;
            mask = v.mask;
            tidy = placed.tidy;
            counted = counts_eq counts t.count (occupied t.buckets) (occupied bs) v.counted grown;
          })
          placed,
    )
  where
    counts_eq :
        (b : Bool) (c o o' : ℕ)
        → c ≡ o
        → o' ≡ (if b || false then suc o else o)
        → (if b then c + 1 else c) ≡ o'
    counts_eq b c o o' e e' = ground arith
