-- ===== src/Structs/HashTable/Lookup.antt =====
-- A lookup in the hash table finds whatever probing from home leads to.
use libnumakit.Prelude.{
  ℕ, zero, suc, ◌+◌, ◌-◌, ◌*◌, ◌%◌, ◌^◌, ◌≤◌, ◌<◌, ◌≡◌, ◌≢◌, refl, ap, ap₂, sym, ◌∙◌, Bool, true,
  false, ◌&&◌, some, List, ◌∷◌, ltb, ◌==◌, get_or, bit_and, bit_and-ones, one-le-pow2, sub64, arith,
  Bool-cases, inl, inr, dec_le, two-pow-add,
}
use mathlib.Core.Path.{subst}
use native.Mathlib.Nat.{
  pow-le-pow_right, add-mod-mod, add-mul-mod_self_left, mod-lt, mod-add-mod, mod-eq_of_lt,
}
use libnumakit.Structs.HashTable.{
  Bucket, HashTable, blank, fnv1a, probe_distance, keys_equal, find, find_key, get,
}
use libnumakit.Structs.HashTable.Ends.{distance_lt}

-- The bucket of position `p`, of the positions that are counted without end.
abbrev pub at : ℕ → List Bucket → ℕ → Bucket
at k t p = get_or t (p % 2 ^ k) blank

abbrev pub distance_at : ℕ → List Bucket → ℕ → ℕ
distance_at k t p = probe_distance (at k t p).hash (p % 2 ^ k) (2 ^ k - 1)

-- The Robin Hood invariant: before a bucket that is away from its home stands one that is not empty
-- and hardly nearer to its own home.
abbrev pub RobinHood : ℕ → List Bucket → Type 0
RobinHood k t =
    (p : ℕ)
    → (at k t (p + 1)).hash ≢ 0
    → 0 < distance_at k t (p + 1)
    → ((at k t p).hash ≢ 0) × (distance_at k t (p + 1) ≤ distance_at k t p + 1)

-- Walking back from a bucket to its home.
pub walk_back :
    (k : ℕ) (t : List Bucket) (home d e : ℕ)
    → RobinHood k t
    → (at k t (home + (e + d))).hash ≢ 0
    → e + d ≤ distance_at k t (home + (e + d))
    → ((at k t (home + e)).hash ≢ 0) × (e ≤ distance_at k t (home + e))
walk_back k t home zero e r full far =
    subst (λ x. ((at k t (home + x)).hash ≢ 0) × (e ≤ distance_at k t (home + x))) {x = e + 0}
      {y = e} (omega arith) (full, omega (arith, far))
walk_back k t home (suc d) e r full far =
    let full' : (at k t (home + (e + d) + 1)).hash ≢ 0 =
      subst (λ x. (at k t x).hash ≢ 0) {x = home + (e + suc d)} {y = home + (e + d) + 1}
        (omega arith) full in
    let far' : e + suc d ≤ distance_at k t (home + (e + d) + 1) =
      subst (λ x. e + suc d ≤ distance_at k t x) {x = home + (e + suc d)} {y = home + (e + d) + 1}
        (omega arith) far in
    let (full'', near) = r (home + (e + d)) full' (omega (arith, far')) in
    walk_back k t home d e r full'' (omega (arith, far', near))

-- A lookup of these bytes stops at position `p`.
abbrev pub Matches : ℕ → List Bucket → ℕ → List ℕ → ℕ → Type 0
Matches k t hash key p = ((at k t p).hash == hash && keys_equal (at k t p).key key) ≡ true

pub next_slot : (k p : ℕ) → bit_and (p % 2 ^ k + 1) (2 ^ k - 1) ≡ (p + 1) % 2 ^ k
next_slot k p = bit_and-ones k (p % 2 ^ k + 1) ∙ mod-add-mod p (2 ^ k) 1

-- What the loop sees on its way: buckets that are not empty and no nearer to their homes.
abbrev pub Passable : ℕ → List Bucket → ℕ → ℕ → ℕ → Type 0
Passable k t home e n =
    (j : ℕ)
    → j ≤ n
    → ((at k t (home + (e + j))).hash ≢ 0) × (e + j ≤ distance_at k t (home + (e + j)))

Passable-first :
    (k : ℕ) (t : List Bucket) (home e n : ℕ)
    → Passable k t home e n
    → (((at k t (home + e)).hash == 0) ≡ false) × (ltb (distance_at k t (home + e)) e ≡ false)
Passable-first k t home e n walk =
    let (full, far) =
      subst (λ x. ((at k t (home + x)).hash ≢ 0) × (x ≤ distance_at k t (home + x))) {x = e + 0}
        {y = e} (omega arith) (walk 0 (omega arith)) in
    (nonzero (at k t (home + e)).hash full, not_less (distance_at k t (home + e)) e far)
  where
    nonzero : (h : ℕ) → h ≢ 0 → (h == 0) ≡ false
    nonzero h ne = ground arith

    not_less : (a b : ℕ) → b ≤ a → ltb a b ≡ false
    not_less a b h = ground arith

Passable-rest :
    (k : ℕ) (t : List Bucket) (home e n : ℕ)
    → Passable k t home e (suc n)
    → Passable k t home (e + 1) n
Passable-rest k t home e n walk j le =
    subst (λ x. ((at k t (home + x)).hash ≢ 0) × (x ≤ distance_at k t (home + x))) {x = e + suc j}
      {y = e + 1 + j} (omega arith) (walk (suc j) (omega arith))

find_walk :
    (k : ℕ) (t : List Bucket) (hash : ℕ) (key : List ℕ) (home n e fuel : ℕ)
    → Passable k t home e n
    → Matches k t hash key (home + (e + n))
    → ((p q : ℕ) → Matches k t hash key p → Matches k t hash key q → p % 2 ^ k ≡ q % 2 ^ k)
    → n < fuel
    → find fuel t (2 ^ k - 1) hash key ((home + e) % 2 ^ k) e
      ≡ some (some ((home + (e + n)) % 2 ^ k))
unfolding find
find_walk k t hash key home n e zero walk arrived unique enough = absurd (omega arith)
find_walk k t hash key home zero e (suc fuel) walk arrived unique enough =
    let (taken, further) = Passable-first k t home e zero walk in
    let found : Matches k t hash key (home + e) =
      subst (λ x. Matches k t hash key (home + x)) {x = e + 0} {y = e} (omega arith) arrived in
    rw (taken, further, found)
      (ap (λ x. some (some x)) (unique (home + e) (home + (e + 0)) found arrived))
find_walk k t hash key home (suc n) e (suc fuel) walk arrived unique enough =
    let (taken, further) = Passable-first k t home e (suc n) walk in
    elim (Bool-cases ((at k t (home + e)).hash == hash && keys_equal (at k t (home + e)).key key)) [
      | inl found ↦
          rw (taken, further, found)
            (ap (λ x. some (some x)) (unique (home + e) (home + (e + suc n)) found arrived))
      | inr other ↦
          let next : bit_and ((home + e) % 2 ^ k + 1) (2 ^ k - 1) ≡ (home + (e + 1)) % 2 ^ k =
            next_slot k (home + e)
            ∙ ap (λ x. x % 2 ^ k) {x = home + e + 1} {y = home + (e + 1)} (omega arith) in
          let same : e + 1 + n ≡ e + suc n = omega arith in
          rw (taken, further, other, next)
            (find_walk k t hash key home n (e + 1) fuel (Passable-rest k t home e n walk)
                (subst (λ x. Matches k t hash key (home + x)) (sym same) arrived) unique
                (omega arith)
              ∙ ap (λ x. some (some ((home + x) % 2 ^ k))) same)
    ]

-- The distance leads from home to the slot.
pub distance_home :
    (k hash slot : ℕ)
    → k ≤ 64
    → slot < 2 ^ k
    → (hash % 2 ^ k + probe_distance hash slot (2 ^ k - 1)) % 2 ^ k ≡ slot
unfolding probe_distance
distance_home k hash slot narrow lt =
    rw
      (
        bit_and-ones k hash,
        bit_and-ones k (sub64 slot (hash % 2 ^ k)),
        add-mod-mod (hash % 2 ^ k) (sub64 slot (hash % 2 ^ k)) (2 ^ k),
      )
      (around (2 ^ k) (2 ^ (64 - k)) (hash % 2 ^ k) (pow-le-pow_right {n = 2} (omega arith) narrow)
        lt (mod-lt hash (one-le-pow2 k)) whole)
  where
    whole : 2 ^ k * 2 ^ (64 - k) ≡ 18446744073709551616
    whole = sym (two-pow-add k (64 - k)) ∙ ap (λ x. 2 ^ x) {x = k + (64 - k)} {y = 64} (omega arith)

    around :
        (n c home : ℕ)
        → n ≤ 18446744073709551616
        → slot < n
        → home < n
        → n * c ≡ 18446744073709551616
        → (home + (slot + 18446744073709551616 - home) % 18446744073709551616) % n ≡ slot
    around n c home fits lt lt' e = elim (dec_le home slot) [
      | yes up ↦
          ap (λ x. x % n) {x = home + (slot + 18446744073709551616 - home) % 18446744073709551616}
            {y = slot} (omega (arith, fits, lt, lt'))
          ∙ mod-eq_of_lt lt
      | no down ↦
          ap (λ x. x % n) {x = home + (slot + 18446744073709551616 - home) % 18446744073709551616}
            {y = slot + n * c} (omega (arith, e, fits, lt, lt'))
          ∙ add-mul-mod_self_left slot n c
          ∙ mod-eq_of_lt lt
    ]

-- 0 is left to the empty buckets.
pub fnv1a_nonzero : (key : List ℕ) → fnv1a key ≢ 0
unfolding fnv1a
fnv1a_nonzero key e = ground arith

pub same_slot :
    (k : ℕ) (t : List Bucket) (p q : ℕ)
    → p % 2 ^ k ≡ q % 2 ^ k
    → (at k t p ≡ at k t q) × (distance_at k t p ≡ distance_at k t q)
same_slot k t p q e =
    (ap (λ s. get_or t s blank) e, ap (λ s. probe_distance (get_or t s blank).hash s (2 ^ k - 1)) e)

find_in :
    (k fuel : ℕ) (t : List Bucket) (hash : ℕ) (key : List ℕ) (slot : ℕ)
    → hash ≢ 0
    → k ≤ 64
    → RobinHood k t
    → ((p q : ℕ) → Matches k t hash key p → Matches k t hash key q → p % 2 ^ k ≡ q % 2 ^ k)
    → slot < 2 ^ k
    → Matches k t hash key slot
    → 2 ^ k < fuel
    → find fuel t (2 ^ k - 1) hash key (bit_and hash (2 ^ k - 1)) 0 ≡ some (some slot)
find_in k fuel t hash key slot nz narrow robin unique lt found enough =
    let home = hash % 2 ^ k in
    let d = distance_at k t slot in
    let own : (at k t slot).hash ≡ hash =
      own_hash (at k t slot).hash (keys_equal (at k t slot).key key) found in
    let in_place : slot % 2 ^ k ≡ slot = mod-eq_of_lt lt in
    let arrives : (home + d) % 2 ^ k ≡ slot =
      ap (λ x. (home + x) % 2 ^ k) (ap₂ (λ h s. probe_distance h s (2 ^ k - 1)) own in_place)
      ∙ distance_home k hash slot narrow lt in
    let (same, far) = same_slot k t (home + d) slot (arrives ∙ sym in_place) in
    let full : (at k t (home + d)).hash ≢ 0 = λ z. nz (sym own ∙ ap (λ b. b.hash) (sym same) ∙ z) in
    let walk : Passable k t home 0 d = λ j le.
      let whole : j + (d - j) ≡ d = omega arith in
      subst (λ x. ((at k t (home + x)).hash ≢ 0) × (x ≤ distance_at k t (home + x))) {x = j}
        {y = 0 + j} (omega arith)
        (walk_back k t home (d - j) j robin
          (subst (λ x. (at k t (home + x)).hash ≢ 0) (sym whole) full)
          (subst (λ x. x ≤ distance_at k t (home + x)) (sym whole) (omega (arith, far)))) in
    let arrived : Matches k t hash key (home + (0 + d)) =
      subst (λ x. Matches k t hash key (home + x)) {x = d} {y = 0 + d} (omega arith)
        (subst (λ b. (b.hash == hash && keys_equal b.key key) ≡ true) (sym same) found) in
    ap (λ s. find fuel t (2 ^ k - 1) hash key s 0)
      (bit_and-ones k hash
        ∙ sym (mod-eq_of_lt (mod-lt hash (one-le-pow2 k)))
        ∙ ap (λ x. x % 2 ^ k) {x = home} {y = home + 0} (omega arith))
    ∙ find_walk k t hash key home d 0 fuel walk arrived unique
        (omega (arith, distance_lt k (at k t slot).hash (slot % 2 ^ k)))
    ∙ ap (λ x. some (some x))
        (ap (λ x. (home + x) % 2 ^ k) {x = 0 + d} {y = d} (omega arith) ∙ arrives)
  where
    own_hash : (h : ℕ) (b : Bool) → (h == hash && b) ≡ true → h ≡ hash
    own_hash h b e = ground arith

-- In a table of `2 ^ k` buckets that keeps the Robin Hood invariant and in which the key stands in
-- at most one bucket, `get` of a key that stands in a bucket returns the value there.
pub get_finds :
    (k fuel : ℕ) (t : HashTable) (b : ℕ) (key : List ℕ) (slot : ℕ)
    → t.mask ≡ 2 ^ k - 1
    → k ≤ 64
    → RobinHood k t.buckets
    → ((p q : ℕ)
        → Matches k t.buckets (fnv1a (b ∷ key)) (b ∷ key) p
        → Matches k t.buckets (fnv1a (b ∷ key)) (b ∷ key) q
        → p % 2 ^ k ≡ q % 2 ^ k)
    → slot < 2 ^ k
    → Matches k t.buckets (fnv1a (b ∷ key)) (b ∷ key) slot
    → 2 ^ k < fuel
    → get fuel t (b ∷ key) ≡ some (some (get_or t.buckets slot blank).value)
unfolding get
get_finds k fuel t b key slot em narrow robin unique lt found enough =
    let key_found : find_key fuel t (b ∷ key) ≡ some (some slot) =
      subst
        (λ m.
          find fuel t.buckets m (fnv1a (b ∷ key)) (b ∷ key) (bit_and (fnv1a (b ∷ key)) m) 0
          ≡ some (some slot))
        (sym em)
        (find_in k fuel t.buckets (fnv1a (b ∷ key)) (b ∷ key) slot (fnv1a_nonzero (b ∷ key)) narrow
          robin unique lt found enough) in
    rw (key_found, get) refl
