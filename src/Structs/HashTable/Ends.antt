-- ===== src/Structs/HashTable/Ends.antt =====
-- Every lookup in the hash table ends.
use libnumakit.Prelude.{
  ℕ, zero, suc, ◌+◌, ◌-◌, ◌^◌, ◌≤◌, ◌<◌, ◌≡◌, refl, sym, Bool, false, ◌&&◌, Option, none, some,
  List, [], ◌∷◌, ltb, ◌==◌, if◌then◌else◌, get_or, bit_and, bit_and-ones, one-le-pow2, sub64, arith,
  Bool-cases, inl, inr,
}
use mathlib.Core.Path.{subst}
use native.Mathlib.Nat.{mod-lt}
use libnumakit.Structs.HashTable.{
  Bucket, HashTable, blank, fnv1a, probe_distance, keys_equal, find, find_key, get,
}

-- With a mask of `k` ones, distances are below the capacity.
pub distance_lt : (k hash slot : ℕ) → probe_distance hash slot (2 ^ k - 1) < 2 ^ k
unfolding probe_distance
distance_lt k hash slot = omega (
  arith,
  bit_and-ones k (sub64 slot (bit_and hash (2 ^ k - 1))),
  mod-lt (sub64 slot (bit_and hash (2 ^ k - 1))) (one-le-pow2 k),
)

pub find_ends :
    (k fuel : ℕ) (buckets : List Bucket) (hash : ℕ) (key : List ℕ) (slot dist : ℕ)
    → dist ≤ 2 ^ k
    → 2 ^ k < fuel + dist
    → (o : Option ℕ) × (find fuel buckets (2 ^ k - 1) hash key slot dist ≡ some o)
unfolding find
find_ends k zero buckets hash key slot dist near enough = absurd (omega arith)
find_ends k (suc fuel) buckets hash key slot dist near enough =
    look (get_or buckets slot blank).hash
      (probe_distance (get_or buckets slot blank).hash slot (2 ^ k - 1))
      ((get_or buckets slot blank).hash == hash && keys_equal (get_or buckets slot blank).key key)
      (distance_lt k (get_or buckets slot blank).hash slot)
      (λ small.
        find_ends k fuel buckets hash key (bit_and (slot + 1) (2 ^ k - 1)) (dist + 1) small
          (omega arith))
  where
    rest : Option (Option ℕ)
    rest = find fuel buckets (2 ^ k - 1) hash key (bit_and (slot + 1) (2 ^ k - 1)) (dist + 1)

    look :
        (h d : ℕ) (found : Bool)
        → d < 2 ^ k
        → (dist + 1 ≤ 2 ^ k → (o : Option ℕ) × (rest ≡ some o))
        → (o : Option ℕ) × ((if h == 0
              then some none
              else if ltb d dist
              then some none
              else if found
              then some (some slot)
              else rest)
            ≡ some o)
    look h d found lt ih = elim (Bool-cases (h == 0)) [
      | inl vacant ↦ (none, rw vacant refl)
      | inr taken ↦ elim (Bool-cases (ltb d dist)) [
        | inl closer ↦ (none, rw (taken, closer) refl)
        | inr further ↦ elim (Bool-cases found) [
          | inl here ↦ (some slot, rw (taken, further, here) refl)
          | inr away ↦ let (o, e) = ih (le_of h d further lt) in (o, rw (taken, further, away) e)
        ]
      ]
    ]
      where
        le_of : (h d : ℕ) → ltb d dist ≡ false → d < 2 ^ k → dist + 1 ≤ 2 ^ k
        le_of h d f lt = ground arith

-- A lookup with more fuel than there are buckets ends, also in a table without an empty bucket.
pub get_ends :
    (k fuel : ℕ) (t : HashTable) (key : List ℕ)
    → t.mask ≡ 2 ^ k - 1
    → 2 ^ k < fuel
    → (o : Option ℕ) × (get fuel t key ≡ some o)
unfolding get
get_ends k fuel t [] e enough = (none, refl)
get_ends k fuel t (b ∷ key) e enough =
    let (o, ran) =
      subst
        (λ m.
          (o : Option ℕ) × (find fuel t.buckets m (fnv1a (b ∷ key)) (b ∷ key)
              (bit_and (fnv1a (b ∷ key)) m) 0
            ≡ some o))
        (sym e)
        (find_ends k fuel t.buckets (fnv1a (b ∷ key)) (b ∷ key)
          (bit_and (fnv1a (b ∷ key)) (2 ^ k - 1)) 0 (omega arith) (omega arith)) in
    finish o ran
  where
    finish :
        (o : Option ℕ)
        → find_key fuel t (b ∷ key) ≡ some o
        → (r : Option ℕ) × (elim (find_key fuel t (b ∷ key)) [
          | none ↦ none
          | some none ↦ some none
          | some (some slot) ↦ some (some (get_or t.buckets slot blank).value)
        ]
            ≡ some r)
    finish none ran = (none, rw ran refl)
    finish (some slot) ran = (some (get_or t.buckets slot blank).value, rw ran refl)
