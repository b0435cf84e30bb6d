-- ===== src/Structs/HashTable/Place.antt =====
-- The loop of a put places its entry, and every other entry stays in the table.
use libnumakit.Prelude.{
  ℕ, zero, suc, ◌+◌, ◌-◌, ◌%◌, ◌^◌, ◌≤◌, ◌<◌, ◌≡◌, ◌≢◌, inl, inr, refl, ap, ap₂, sym, ◌∙◌, Bool,
  true, false, not, ◌&&◌, ◌||◌, Option, some, List, length, set, ◌==◌, if◌then◌else◌, one-le-pow2,
  arith, ℕ_discrete, dec_lt, Bool-cases,
}
use mathlib.Core.Path.{subst}
use native.Mathlib.Nat.{mod-lt}
use libnumakit.Structs.HashTable.{
  Bucket, fnv1a, probe_distance, keys_equal, placed, onward, put_round, put_loop,
}
use libnumakit.Structs.HashTable.Lookup.{at, distance_at, same_slot, next_slot}
use libnumakit.Structs.HashTable.Tidy.{
  Live, away, IsTidy, set-IsTidy, at-set, keys_equal_eq, keys_equal_self,
}
use libnumakit.Structs.HashTable.Pending.{
  Pending, vacant_new, nearer_new, onward-Pending, swap-Pending,
}
use libnumakit.Structs.HashTable.Round.{
  occupied, occupied-set, Placed, write-Placed, swap-Placed, round_vacant, round_same, round_swap,
  round_on,
}

-- The loop ends, places the entry, and says by how much the table has grown.
abbrev pub Ends : ℕ → List Bucket → Bucket → Bool → Option (List Bucket × Bool) → Type 0
Ends k bs cur is_rehash o =
    (bs' : List Bucket) × (counts : Bool) × (o ≡ some (bs', counts))
    × Placed k bs cur bs'
    × (occupied bs' ≡ (if counts || is_rehash then suc (occupied bs) else occupied bs))
    × ((counts && is_rehash) ≡ false)

loop_placed :
    (fuel : ℕ) (bs : List Bucket) (mask : ℕ) (is_rehash : Bool) (cur : Bucket) (slot dist : ℕ)
    {bs' : List Bucket} {counts : Bool}
    → put_round bs mask is_rehash cur slot dist ≡ placed bs' counts
    → put_loop (suc fuel) bs mask is_rehash cur slot dist ≡ some (bs', counts)
unfolding put_loop
loop_placed fuel bs mask is_rehash cur slot dist e = rw (e, put_loop) refl

loop_onward :
    (k fuel : ℕ) (bs : List Bucket) (is_rehash : Bool) (cur : Bucket) (p dist dist' : ℕ)
    {bs' : List Bucket} {cur' : Bucket} (d : ℕ)
    → put_round bs (2 ^ k - 1) is_rehash cur (p % 2 ^ k) dist ≡ onward bs' cur' dist'
    → d ≡ dist' + 1
    → put_loop (suc fuel) bs (2 ^ k - 1) is_rehash cur (p % 2 ^ k) dist
      ≡ put_loop fuel bs' (2 ^ k - 1) is_rehash cur' ((p + 1) % 2 ^ k) d
unfolding put_loop
loop_onward k fuel bs is_rehash cur p dist dist' {bs'} {cur'} d e ed =
    rw (e, put_loop) (ap₂ (put_loop fuel bs' (2 ^ k - 1) is_rehash cur') (next_slot k p) (sym ed))

swap-IsTidy :
    (k : ℕ) (narrow : k ≤ 64) {bs : List Bucket} (v : IsTidy k bs) {cur : Bucket} {p : ℕ}
    {is_rehash : Bool}
    → (w : Pending k bs cur p is_rehash) → distance_at k bs p < away k cur p
    → IsTidy k (set bs (p % 2 ^ k) cur)
swap-IsTidy k narrow v {cur} {p} w lt =
    set-IsTidy k v cur p w.live w.own w.follows (λ l pos. omega (arith, lt, (v.robin p l pos).1))
      (λ q l e. absurd (nearer_new k narrow v w lt q l e))

module _ (k : ℕ) (narrow : k ≤ 64) where
  module _ (fuel p : ℕ) {bs : List Bucket} {cur : Bucket} {is_rehash : Bool} (v : IsTidy k bs)
      (w : Pending k bs cur p is_rehash) where
    slot_lt : p % 2 ^ k < length bs
    slot_lt = omega (arith, mod-lt p (one-le-pow2 k), v.whole)

    abbrev Loop : Type 0
    Loop =
        Ends k bs cur is_rehash
          (put_loop (suc fuel) bs (2 ^ k - 1) is_rehash cur (p % 2 ^ k) (away k cur p))

    place_vacant : (at k bs p).hash ≡ 0 → Loop
    place_vacant z = (
      set bs (p % 2 ^ k) cur,
      not is_rehash,
      loop_placed fuel bs (2 ^ k - 1) is_rehash cur (p % 2 ^ k) (away k cur p)
          (round_vacant k bs is_rehash cur p (away k cur p) z),
      write-Placed k v cur p
          (set-IsTidy k v cur p w.live w.own w.follows (λ l pos. absurd ((v.robin p l pos).0 z))
            (λ q l e. absurd (vacant_new k narrow v w z q l e)))
          (λ l. absurd (l z)),
      occupied-set bs (p % 2 ^ k) cur slot_lt w.live
          ∙ grown (at k bs p).hash is_rehash (occupied bs) z,
      kind is_rehash,
    )
      where
        grown :
            (h : ℕ) (b : Bool) (o : ℕ)
            → h ≡ 0
            → (if h == 0 then suc o else o) ≡ (if not b || b then suc o else o)
        grown h true o e = ground arith
        grown h false o e = ground arith

        kind : (b : Bool) → (not b && b) ≡ false
        kind true = refl
        kind false = refl

    place_same : Live (at k bs p) → is_rehash ≡ false → (at k bs p).key ≡ cur.key → Loop
    place_same l er ek =
        let eh : (at k bs p).hash ≡ cur.hash = v.hashed p l ∙ ap fnv1a ek ∙ sym w.own in
        let same_away : away k (at k bs p) p ≡ away k cur p =
          ap (λ h. probe_distance h (p % 2 ^ k) (2 ^ k - 1)) eh in
        (
          set bs (p % 2 ^ k) cur,
          false,
          loop_placed fuel bs (2 ^ k - 1) is_rehash cur (p % 2 ^ k) (away k cur p)
              (round_same k bs is_rehash cur p (away k cur p) l er eh ek),
          write-Placed k v cur p
              (set-IsTidy k v cur p w.live w.own w.follows
                (λ l' pos. omega (arith, same_away, (v.robin p l' pos).1))
                (λ q lq e. v.unique q p lq l (e ∙ sym ek)))
              (λ l'. ek),
          occupied-set bs (p % 2 ^ k) cur slot_lt w.live
              ∙ equal (at k bs p).hash is_rehash (occupied bs) l er,
          refl,
        )
      where
        equal :
            (h : ℕ) (b : Bool) (o : ℕ)
            → h ≢ 0
            → b ≡ false
            → (if h == 0 then suc o else o) ≡ (if false || b then suc o else o)
        equal h b o ne e = ground arith

    -- The rest of the loop, on the table with the entry written over the bucket that is nearer.
    place_swap :
        (l : Live (at k bs p)) (lt : distance_at k bs p < away k cur p)
        → (not is_rehash && keys_equal (at k bs p).key cur.key) ≡ false
        → Ends k (set bs (p % 2 ^ k) cur) (at k bs p) is_rehash (
            put_loop fuel
              (set bs (p % 2 ^ k) cur)
              (2 ^ k - 1)
              is_rehash
              (at k bs p)
              ((p + 1) % 2 ^ k)
              (away k (at k bs p) (p + 1)))
        → Loop
    place_swap l lt other (bs', counts, ran, w', grown, kind) = (
      bs',
      counts,
      loop_onward k fuel bs is_rehash cur p (away k cur p) (distance_at k bs p)
            (away k (at k bs p) (p + 1)) (round_swap k bs is_rehash cur p (away k cur p) l other lt)
            (swap-Pending k narrow v w lt l).0
          ∙ ran,
      swap-Placed k v cur p w.live l (nearer_new k narrow v w lt) w',
      grown
          ∙ ap (λ o. if counts || is_rehash then suc o else o)
              (occupied-set bs (p % 2 ^ k) cur slot_lt w.live
                ∙ equal (at k bs p).hash (occupied bs) l),
      kind,
    )
      where
        equal : (h o : ℕ) → h ≢ 0 → (if h == 0 then suc o else o) ≡ o
        equal h o ne = ground arith

  pub place :
      (fuel m p : ℕ) (bs : List Bucket) (cur : Bucket) (is_rehash : Bool)
      → IsTidy k bs
      → Pending k bs cur p is_rehash
      → (at k bs (p + m)).hash ≡ 0
      → m < fuel
      → Ends k bs cur is_rehash
          (put_loop fuel bs (2 ^ k - 1) is_rehash cur (p % 2 ^ k) (away k cur p))
  place zero m p bs cur is_rehash v w e enough = absurd (omega arith)
  place (suc fuel) zero p bs cur is_rehash v w e enough =
      place_vacant fuel p v w
        (subst (λ x. (at k bs x).hash ≡ 0) {x = p + 0} {y = p} (omega arith) e)
  place (suc fuel) (suc m) p bs cur is_rehash v w e enough = elim (ℕ_discrete (at k bs p).hash 0) [
    | yes z ↦ place_vacant fuel p v w z
    | no l ↦ elim (Bool-cases (not is_rehash && keys_equal (at k bs p).key cur.key)) [
      | inl same ↦
          let (first, equal) = both is_rehash (keys_equal (at k bs p).key cur.key) same in
          place_same fuel p v w l first (keys_equal_eq (at k bs p).key cur.key equal)
      | inr other ↦ elim (dec_lt (distance_at k bs p) (away k cur p)) [
        | yes lt ↦ place_swap fuel p v w l lt other (
            place fuel m (p + 1) (set bs (p % 2 ^ k) cur) (at k bs p) is_rehash
              (swap-IsTidy k narrow v w lt) (swap-Pending k narrow v w lt l).1
              (at-set k bs cur v.whole p (λ c. c.hash ≡ 0) (p + 1 + m)
                (λ here.
                  absurd (l (ap (λ c. c.hash) (sym (same_slot k bs (p + 1 + m) p here).0) ∙ e')))
                (λ off. e'))
              (omega arith))
        | no ge ↦
            let (further, w') =
              onward-Pending k narrow v w (p + suc m) e l (omega arith)
                (λ er. differs is_rehash (at k bs p).key er other) in
            let (bs', counts, ran, placed', grown, kind) =
              place fuel m (p + 1) bs cur is_rehash v w' e' (omega arith) in
            (
              bs',
              counts,
              loop_onward k fuel bs is_rehash cur p (away k cur p) (away k cur p)
                    (away k cur (p + 1))
                    (round_on k bs is_rehash cur p (away k cur p) l other (omega arith)) further
                  ∙ ran,
              placed',
              grown,
              kind,
            )
      ]
    ]
  ]
    where
      e' : (at k bs (p + 1 + m)).hash ≡ 0
      e' = subst (λ x. (at k bs x).hash ≡ 0) {x = p + suc m} {y = p + 1 + m} (omega arith) e

      both : (a b : Bool) → (not a && b) ≡ true → (a ≡ false) × (b ≡ true)
      both a b h = ground arith

      differs :
          (a : Bool) (key : List ℕ)
          → a ≡ false
          → (not a && keys_equal key cur.key) ≡ false
          → key ≢ cur.key
      differs a key er h same = ground (arith, keys_equal_self cur.key)
