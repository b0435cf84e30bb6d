-- ===== src/Structs/HashTable/Content.antt =====
-- The finite map that a hash table stands for, and `get` as its lookup.
use libnumakit.Prelude.{
  ℕ, zero, suc, ◌+◌, ◌-◌, ◌%◌, ◌^◌, ◌≤◌, ◌<◌, ◌≡◌, ◌≢◌, ◌⊎◌, inl, inr, refl, ap, sym, ◌∙◌, Bool,
  true, false, ◌&&◌, Option, none, some, List, ◌∷◌, ltb, ◌==◌, if◌then◌else◌, bit_and, bit_and-ones,
  one-le-pow2, arith,
}
use mathlib.Core.Path.{subst}
use native.Mathlib.Nat.{mod-lt, mod-mod}
use libnumakit.Structs.HashTable.{
  Bucket, HashTable, fnv1a, probe_distance, keys_equal, find, find_key, get,
}
use libnumakit.Structs.HashTable.Lookup.{
  at, Matches, same_slot, next_slot, fnv1a_nonzero, get_finds,
}
use libnumakit.Structs.HashTable.Ends.{find_ends}
use libnumakit.Structs.HashTable.Tidy.{Live, IsTidy, keys_equal_eq, keys_equal_self}
use libnumakit.Structs.HashTable.Round.{occupied}

-- A table of `2 ^ k` buckets as its operations keep it.
pub record IsTable (k : ℕ) (t : HashTable) : Type 0 where
  pub narrow : k ≤ 64
  pub capacity : t.capacity ≡ 2 ^ k
  pub mask : t.mask ≡ 2 ^ k - 1
  pub tidy : IsTidy k t.buckets
  pub counted : t.count ≡ occupied t.buckets

-- The map has the value at the key; it has nothing at the key.
abbrev pub Holds : ℕ → HashTable → List ℕ → ℕ → Type 0
Holds k t key value =
    (p : ℕ) × Live (at k t.buckets p)
    × ((at k t.buckets p).key ≡ key)
    × ((at k t.buckets p).value ≡ value)

abbrev pub Lacks : ℕ → HashTable → List ℕ → Type 0
Lacks k t key = (p : ℕ) → Live (at k t.buckets p) → (at k t.buckets p).key ≢ key

pub picked :
    (vacant nearer found : Bool) (rest : Option (Option ℕ)) (here slot : ℕ)
    → (if vacant
        then some none
        else if nearer
        then some none
        else if found
        then some (some here)
        else rest)
      ≡ some (some slot)
    → ((found ≡ true) × (here ≡ slot)) ⊎ (rest ≡ some (some slot))
picked true nearer found rest here slot e = cc
picked false true found rest here slot e = cc
picked false false true rest here slot e = inl (refl, cc)
picked false false false rest here slot e = inr e

-- A slot that a lookup returns matches.
pub find-Matches :
    (k fuel : ℕ) (bs : List Bucket) (hash : ℕ) (key : List ℕ) (p dist slot : ℕ)
    → find fuel bs (2 ^ k - 1) hash key (p % 2 ^ k) dist ≡ some (some slot)
    → Matches k bs hash key slot
unfolding find
find-Matches k zero bs hash key p dist slot e = cc
find-Matches k (suc fuel) bs hash key p dist slot e =
    elim (picked ((at k bs p).hash == 0)
      (ltb (probe_distance (at k bs p).hash (p % 2 ^ k) (2 ^ k - 1)) dist)
      ((at k bs p).hash == hash && keys_equal (at k bs p).key key)
      (find fuel bs (2 ^ k - 1) hash key (bit_and (p % 2 ^ k + 1) (2 ^ k - 1)) (dist + 1))
      (p % 2 ^ k) slot e) [
        | inl (found, here) ↦ subst (Matches k bs hash key) here (
            subst (λ c. (c.hash == hash && keys_equal c.key key) ≡ true)
              (sym (same_slot k bs (p % 2 ^ k) p (mod-mod p (2 ^ k))).0) found)
        | inr later ↦ find-Matches k fuel bs hash key (p + 1) (dist + 1) slot (
            subst (λ s. find fuel bs (2 ^ k - 1) hash key s (dist + 1) ≡ some (some slot))
              (next_slot k p) later)
      ]

pub find-lt :
    (k fuel : ℕ) (bs : List Bucket) (hash : ℕ) (key : List ℕ) (p dist slot : ℕ)
    → find fuel bs (2 ^ k - 1) hash key (p % 2 ^ k) dist ≡ some (some slot)
    → slot < 2 ^ k
unfolding find
find-lt k zero bs hash key p dist slot e = cc
find-lt k (suc fuel) bs hash key p dist slot e =
    elim (picked ((at k bs p).hash == 0)
      (ltb (probe_distance (at k bs p).hash (p % 2 ^ k) (2 ^ k - 1)) dist)
      ((at k bs p).hash == hash && keys_equal (at k bs p).key key)
      (find fuel bs (2 ^ k - 1) hash key (bit_and (p % 2 ^ k + 1) (2 ^ k - 1)) (dist + 1))
      (p % 2 ^ k) slot e) [
        | inl (found, here) ↦ omega (arith, here, mod-lt p (one-le-pow2 k))
        | inr later ↦ find-lt k fuel bs hash key (p + 1) (dist + 1) slot (
            subst (λ s. find fuel bs (2 ^ k - 1) hash key s (dist + 1) ≡ some (some slot))
              (next_slot k p) later)
      ]

module _ {k : ℕ} {t : HashTable} (v : IsTable k t) (fuel b : ℕ) (key : List ℕ)
    (enough : 2 ^ k < fuel) where
  pub Matches-key :
      (p : ℕ)
      → Matches k t.buckets (fnv1a (b ∷ key)) (b ∷ key) p
      → Live (at k t.buckets p) × ((at k t.buckets p).key ≡ b ∷ key)
  Matches-key p m =
      let (eh, ek) =
        parts (at k t.buckets p).hash (keys_equal (at k t.buckets p).key (b ∷ key)) m in
      (
        (λ z. fnv1a_nonzero (b ∷ key) (sym eh ∙ z)),
        keys_equal_eq (at k t.buckets p).key (b ∷ key) ek,
      )
    where
      parts :
          (h : ℕ) (e : Bool)
          → (h == fnv1a (b ∷ key) && e) ≡ true
          → (h ≡ fnv1a (b ∷ key)) × (e ≡ true)
      parts h e m = ground arith

  pub get-Holds : (value : ℕ) → Holds k t (b ∷ key) value → get fuel t (b ∷ key) ≡ some (some value)
  get-Holds value (p, l, ek, ev) =
      get_finds k fuel t b key (p % 2 ^ k) v.mask v.narrow v.tidy.robin
        (λ x y mx my.
          let (lx, ex) = Matches-key x mx in
          let (ly, ey) = Matches-key y my in v.tidy.unique x y lx ly (ex ∙ sym ey))
        (mod-lt p (one-le-pow2 k))
        (subst (λ c. (c.hash == fnv1a (b ∷ key) && keys_equal c.key (b ∷ key)) ≡ true)
          (sym (same_slot k t.buckets (p % 2 ^ k) p (mod-mod p (2 ^ k))).0)
          (match (at k t.buckets p).hash (at k t.buckets p).key (v.tidy.hashed p l ∙ ap fnv1a ek)
            ek))
        enough
      ∙ ap (λ x. some (some x)) ev
    where
      match :
          (h : ℕ) (key' : List ℕ)
          → h ≡ fnv1a (b ∷ key)
          → key' ≡ b ∷ key
          → (h == fnv1a (b ∷ key) && keys_equal key' (b ∷ key)) ≡ true
      match h key' eh ek = rw (eh, ek) (ground (arith, keys_equal_self (b ∷ key)))

  -- What the search for a slot comes to.
  pub find_key_lem :
      (find_key fuel t (b ∷ key) ≡ some none)
      ⊎ ((slot : ℕ) × (find_key fuel t (b ∷ key) ≡ some (some slot))
          × (slot < 2 ^ k)
          × Live (at k t.buckets slot)
          × ((at k t.buckets slot).key ≡ b ∷ key))
  find_key_lem = decide (
      subst
        (λ m.
          (o : Option ℕ) × (find fuel t.buckets m (fnv1a (b ∷ key)) (b ∷ key)
              (bit_and (fnv1a (b ∷ key)) m) 0
            ≡ some o))
        (sym v.mask)
        (find_ends k fuel t.buckets (fnv1a (b ∷ key)) (b ∷ key)
          (bit_and (fnv1a (b ∷ key)) (2 ^ k - 1)) 0 (omega arith) (omega arith)))
    where
      decide :
          (o : Option ℕ) × (find_key fuel t (b ∷ key) ≡ some o)
          → (find_key fuel t (b ∷ key) ≡ some none)
            ⊎ ((slot : ℕ) × (find_key fuel t (b ∷ key) ≡ some (some slot))
                × (slot < 2 ^ k)
                × Live (at k t.buckets slot)
                × ((at k t.buckets slot).key ≡ b ∷ key))
      decide (none, e) = inl e
      decide (some slot, e) =
          let run =
            subst
              (λ s.
                find fuel t.buckets (2 ^ k - 1) (fnv1a (b ∷ key)) (b ∷ key) s 0 ≡ some (some slot))
              (bit_and-ones k (fnv1a (b ∷ key)))
              (subst
                (λ m.
                  find fuel t.buckets m (fnv1a (b ∷ key)) (b ∷ key) (bit_and (fnv1a (b ∷ key)) m) 0
                  ≡ some (some slot))
                v.mask e) in
          let (l, ek) = Matches-key slot (
            find-Matches k fuel t.buckets (fnv1a (b ∷ key)) (b ∷ key) (fnv1a (b ∷ key)) 0 slot
              run) in
          inr (
            slot,
            e,
            find-lt k fuel t.buckets (fnv1a (b ∷ key)) (b ∷ key) (fnv1a (b ∷ key)) 0 slot run,
            l,
            ek,
          )

  pub get-none : find_key fuel t (b ∷ key) ≡ some none → get fuel t (b ∷ key) ≡ some none
  unfolding get
  get-none e = rw (e, get) refl

  -- A lookup is that of the map.
  pub get_content :
      ((value : ℕ) × Holds k t (b ∷ key) value × (get fuel t (b ∷ key) ≡ some (some value)))
      ⊎ (Lacks k t (b ∷ key) × (get fuel t (b ∷ key) ≡ some none))
  get_content = elim find_key_lem [
    | inl e ↦
        let nothing = get-none e in
        inr (
          (λ p l ek. cc (sym nothing ∙ get-Holds (at k t.buckets p).value (p, l, ek, refl))),
          nothing,
        )
    | inr (slot, e, lt, l, ek) ↦
        let here : Holds k t (b ∷ key) (at k t.buckets slot).value = (slot, l, ek, refl) in
        inl ((at k t.buckets slot).value, here, get-Holds (at k t.buckets slot).value here)
  ]
