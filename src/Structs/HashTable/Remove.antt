-- ===== src/Structs/HashTable/Remove.antt =====
-- `nkit_hash_remove` takes one key off the map.
use libnumakit.Prelude.{
  ℕ, sub64, ◌+◌, ◌-◌, ◌%◌, ◌^◌, ◌<◌, ◌≡◌, ◌≢◌, inl, inr, refl, ap, sym, ◌∙◌, Bool, true, false,
  Option, none, some, List, ◌∷◌, set, if◌then◌else◌, one-le-pow2, arith, Bool-cases,
}
use mathlib.Core.Path.{subst}
use native.Mathlib.Nat.{mod-lt, mod-eq_of_lt, pow-le-pow_right}
use libnumakit.Structs.HashTable.{
  Bucket, HashTable, blank, keys_equal, find_key, get, shift, remove,
}
use libnumakit.Structs.HashTable.Lookup.{at, same_slot}
use libnumakit.Structs.HashTable.Tidy.{Live, at-set, at-set_ne, keys_equal_eq, keys_equal_self}
use libnumakit.Structs.HashTable.Content.{
  IsTable, Holds, Lacks, get-Holds, get-none, get_content, find_key_lem,
}
use libnumakit.Structs.HashTable.Insert.{Holds-moved}
use libnumakit.Structs.HashTable.Shift.{Shifted, occupied-clear}
use libnumakit.Structs.HashTable.Put.{get-same}
use libnumakit.Structs.HashTable.Clear.{shift-Shifted}

remove-absent :
    (fuel : ℕ) (t : HashTable) (b : ℕ) (key : List ℕ)
    → find_key fuel t (b ∷ key) ≡ some none
    → remove fuel t (b ∷ key) ≡ some (false, t)
unfolding remove
remove-absent fuel t b key e = rw (e, remove) refl

remove-present :
    (fuel : ℕ) (t : HashTable) (b : ℕ) (key : List ℕ) (slot : ℕ) (new : List Bucket)
    → find_key fuel t (b ∷ key) ≡ some (some slot)
    → shift fuel t.buckets t.mask slot ≡ some new
    → remove fuel t (b ∷ key) ≡ some (true, record t { buckets = new; count = sub64 t.count 1 })
unfolding remove
remove-present fuel t b key slot new e e' = rw (e, remove) (rw (e', remove) refl)

-- The map of `t'` is that of `t` without the key.
pub record Drops (k : ℕ) (t t' : HashTable) (key : List ℕ) : Type 0 where
  pub table : IsTable k t'
  pub lacks : Lacks k t' key
  pub kept : (key' : List ℕ) (v : ℕ) → key' ≢ key → Holds k t key' v → Holds k t' key' v
  pub back : (key' : List ℕ) (v : ℕ) → Holds k t' key' v → Holds k t key' v

module _ {k : ℕ} {t : HashTable} (v : IsTable k t) (p : ℕ) (key : List ℕ)
    (l : Live (at k t.buckets p)) (ek : (at k t.buckets p).key ≡ key)
    (free : t.count < t.capacity) where
  abbrev left : List Bucket → HashTable
  left new = record t { buckets = new; count = sub64 t.count 1 }

  -- Where an entry that is left stood before.
  before_shift :
      (new : List Bucket)
      → Shifted k (set t.buckets (p % 2 ^ k) blank) new
      → (q : ℕ) → Live (at k new q)
      → (q' : ℕ) × (at k t.buckets q' ≡ at k new q) × (q' % 2 ^ k ≢ p % 2 ^ k)
  before_shift new w q lq =
      let (q', e) = w.back q lq in
      at-set k t.buckets blank v.tidy.whole p
        (λ c.
          c ≡ at k new q → (q' : ℕ) × (at k t.buckets q' ≡ at k new q) × (q' % 2 ^ k ≢ p % 2 ^ k))
        q' (λ here e'. absurd (lq (ap (λ c. c.hash) (sym e')))) (λ off e'. (q', e', off)) e

  -- The counter stays far from its wrap-around.
  small : t.count < 2 ^ 64
  small =
      omega
        (arith, free, v.capacity, pow-le-pow_right {n = 2} (omega arith) {i = k} {j = 64} v.narrow)

  Shifted-Drops :
      (new : List Bucket)
      → Shifted k (set t.buckets (p % 2 ^ k) blank) new
      → Drops k t (left new) key
  Shifted-Drops new w = record {
    table = record {
      narrow = v.narrow;
      capacity = v.capacity;
      mask = v.mask;
      tidy = w.tidy;
      counted = omega (
        arith,
        v.counted,
        small,
        w.all,
        occupied-clear t.buckets (p % 2 ^ k) (omega (arith, mod-lt p (one-le-pow2 k), v.tidy.whole))
            l,
      );
    };
    lacks = λ q lq e.
        let (q', e', off) = before_shift new w q lq in
        off (v.tidy.unique q' p (subst Live (sym e') lq) l (ap (λ c. c.key) e' ∙ e ∙ sym ek));
    kept = λ key' x ne (q, lq, eq, ex).
        let off : q % 2 ^ k ≢ p % 2 ^ k =
          λ z. ne (sym eq ∙ ap (λ c. c.key) (same_slot k t.buckets q p z).0 ∙ ek) in
        let same = at-set_ne k t.buckets blank v.tidy.whole p q off in
        let (q', e) = w.there q (subst Live (sym same) lq) in
        Holds-moved k (left new) q' (at k t.buckets q) key' x (e ∙ same) lq eq ex;
    back = λ key' x (q, lq, eq, ex).
        let (q', e, _) = before_shift new w q lq in
        Holds-moved k t q' (at k new q) key' x e lq eq ex;
  }

-- Whether a lookup finds the key.
abbrev pub present : Option (Option ℕ) → Bool
present (some (some x)) = true
present _ = false

module _ {k : ℕ} {t : HashTable} (fuel : ℕ) (v : IsTable k t) (enough : 2 ^ k < fuel) (b : ℕ)
    (key : List ℕ) where
  Lacks-get :
      {t' : HashTable} (v' : IsTable k t') (c : ℕ) (key' : List ℕ)
      → Lacks k t' (c ∷ key')
      → get fuel t' (c ∷ key') ≡ some none
  Lacks-get v' c key' gone = elim (get_content v' fuel c key' enough) [
    | inl (x, (p, l, ek, ev), e) ↦ absurd (gone p l ek)
    | inr (gone', e) ↦ e
  ]

  get-Drops :
      {t' : HashTable} (c : ℕ) (key' : List ℕ)
      → Drops k t t' (b ∷ key)
      → get fuel t' (c ∷ key')
        ≡ (if keys_equal (c ∷ key') (b ∷ key) then some none else get fuel t (c ∷ key'))
  get-Drops {t'} c key' d = elim (Bool-cases (keys_equal (c ∷ key') (b ∷ key))) [
    | inl same ↦ rw same (
        Lacks-get d.table c key'
          (subst (Lacks k t') (sym (keys_equal_eq (c ∷ key') (b ∷ key) same)) d.lacks))
    | inr other ↦ rw other (
        get-same fuel v enough enough c key' d.table
          (λ x.
            d.kept (c ∷ key') x (λ e.
              cc (sym other ∙ ap (λ l. keys_equal l (b ∷ key)) e ∙ keys_equal_self (b ∷ key))))
          (λ x. d.back (c ∷ key') x))
  ]

  Lacks-Drops : Lacks k t (b ∷ key) → Drops k t t (b ∷ key)
  Lacks-Drops gone = record {
    table = v;
    lacks = gone;
    kept = λ key' x ne h. h;
    back = λ key' x h. h;
  }

  -- `remove` on a valid table of `2 ^ k` buckets with fewer keys than buckets and with enough fuel
  -- always returns: 0 exactly when a lookup of the key finds it. The table is valid again, its
  -- count is one less in that case, a lookup of the key finds nothing, and of any other key what it
  -- found before.
  pub get-remove :
      t.count < t.capacity
      → (t' : HashTable) × (remove fuel t (b ∷ key) ≡ some (present (get fuel t (b ∷ key)), t'))
        × IsTable k t'
        × (t'.count + (if present (get fuel t (b ∷ key)) then 1 else 0) ≡ t.count)
        × ((c : ℕ) (key' : List ℕ)
            → get fuel t' (c ∷ key')
              ≡ (if keys_equal (c ∷ key') (b ∷ key) then some none else get fuel t (c ∷ key')))
  get-remove free = elim (find_key_lem v fuel b key enough) [
    | inl e ↦
        let nothing = get-none v fuel b key enough e in
        let gone : Lacks k t (b ∷ key) = λ p l ek.
          cc (
            sym nothing
            ∙ get-Holds v fuel b key enough (at k t.buckets p).value (p, l, ek, refl)) in
        (
          t,
          rw nothing (remove-absent fuel t b key e),
          v,
          rw nothing (omega arith),
          λ c key'. get-Drops c key' (Lacks-Drops gone),
        )
    | inr (slot, e, lt, l, ek) ↦
        let found = get-Holds v fuel b key enough (at k t.buckets slot).value (slot, l, ek, refl) in
        let (new, ran, w) =
          shift-Shifted k fuel slot v.narrow v.tidy l (omega (arith, v.counted, v.capacity, free))
            (omega arith) in
        let d = Shifted-Drops v slot (b ∷ key) l ek free new w in
        let one_less : 0 < t.count = omega (
          arith,
          v.counted,
          occupied-clear t.buckets (slot % 2 ^ k)
              (omega (arith, mod-lt slot (one-le-pow2 k), v.tidy.whole)) l,
        ) in
        (
          left v slot (b ∷ key) l ek free new,
          rw found (
              remove-present fuel t b key slot new e (
                subst (λ m. shift fuel t.buckets m slot ≡ some new) (sym v.mask)
                  (subst (λ s. shift fuel t.buckets (2 ^ k - 1) s ≡ some new) (mod-eq_of_lt lt)
                    ran))),
          d.table,
          rw found (omega (arith, one_less, small v slot (b ∷ key) l ek free)),
          λ c key'. get-Drops c key' d,
        )
  ]
