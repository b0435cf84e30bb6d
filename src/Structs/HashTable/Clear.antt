-- ===== src/Structs/HashTable/Clear.antt =====
-- A bucket is blanked, and the entries behind it are shifted back.
use libnumakit.Prelude.{
  ℕ, zero, suc, ◌+◌, ◌-◌, ◌%◌, ◌^◌, ◌≤◌, ◌<◌, ◌≡◌, ◌≢◌, refl, ap, sym, ◌∙◌, some, List, length-set,
  set, get_or, arith,
}
use mathlib.Core.Path.{subst}
use libnumakit.Structs.HashTable.{Bucket, blank, fnv1a, probe_distance, shift}
use libnumakit.Structs.HashTable.Lookup.{at, distance_at, same_slot}
use libnumakit.Structs.HashTable.Tidy.{Live, IsTidy, Neighbours, at-set, at-set_self, at-set_ne}
use libnumakit.Structs.HashTable.Round.{occupied}
use libnumakit.Structs.HashTable.Insert.{vacant_slot, way}
use libnumakit.Structs.HashTable.Hole.{Hole}
use libnumakit.Structs.HashTable.Shift.{Shifted, apart, shift_lem}

-- Clearing a bucket of a tidy table makes a hole.
pub clear-Hole :
    (k p : ℕ) {bs : List Bucket}
    → IsTidy k bs
    → Live (at k bs p)
    → 1 < 2 ^ k
    → Hole k (set bs (p % 2 ^ k) blank) p
clear-Hole k p {bs} v l wide = record {
  whole = length-set bs (p % 2 ^ k) blank ∙ v.whole;
  empty = ap (λ c. c.hash) (at-set_self k bs blank v.whole p p refl);
  robin = λ x ne.
      subst (λ c. Neighbours k c (at k (set bs (p % 2 ^ k) blank) (x + 1)) x)
        (sym (at-set_ne k bs blank v.whole p x ne))
        (at-set k bs blank v.whole p (λ c. Neighbours k (at k bs x) c x) (x + 1)
          (λ here l' pos. absurd (l' refl)) (λ off. v.robin x));
  follows = λ x e.
      subst (Before x) (sym (at-set_ne k bs blank v.whole p (p + 1) (apart k p wide))) (before x e);
  hashed = λ q.
      at-set k bs blank v.whole p (λ c. Live c → c.hash ≡ fnv1a c.key) q
        (λ here l'. absurd (l' refl)) (λ off. v.hashed q);
  unique = λ q r.
      at-set k bs blank v.whole p (λ c. Same c (at k (set bs (p % 2 ^ k) blank) r) q r) q
        (λ here l'. absurd (l' refl))
        (λ off.
          at-set k bs blank v.whole p (λ c. Same (at k bs q) c q r) r
            (λ here l' l''. absurd (l'' refl)) (λ off'. v.unique q r));
}
  where
    Same : Bucket → Bucket → ℕ → ℕ → Type 0
    Same c c' q r = Live c → Live c' → c.key ≡ c'.key → q % 2 ^ k ≡ r % 2 ^ k

    Before : ℕ → Bucket → Type 0
    Before x c =
        Live c
        → 1 < probe_distance c.hash ((p + 1) % 2 ^ k) (2 ^ k - 1)
        → Live (at k (set bs (p % 2 ^ k) blank) x)
          × (probe_distance c.hash ((p + 1) % 2 ^ k) (2 ^ k - 1)
              ≤ distance_at k (set bs (p % 2 ^ k) blank) x + 2)

    before : (x : ℕ) → (x + 1) % 2 ^ k ≡ p % 2 ^ k → Before x (at k bs (p + 1))
    before x e l' far =
        let (_, near) = v.robin p l' (omega arith) in
        let (same, away_same) = same_slot k bs (x + 1) p e in
        let (lx, near') =
          v.robin x (λ z. l (ap (λ c. c.hash) (sym same) ∙ z))
            (omega (arith, near, away_same, far)) in
        let other : x % 2 ^ k ≢ p % 2 ^ k = λ z. apart k x wide (e ∙ sym z) in
        subst
          (λ c.
            Live c × (distance_at k bs (p + 1) ≤ probe_distance c.hash (x % 2 ^ k) (2 ^ k - 1) + 2))
          (sym (at-set_ne k bs blank v.whole p x other)) (lx, omega (arith, near, near', away_same))

-- The shift of a removal from a table with an empty bucket returns.
pub shift-Shifted :
    (k fuel p : ℕ) {bs : List Bucket}
    → k ≤ 64
    → IsTidy k bs
    → Live (at k bs p)
    → occupied bs < 2 ^ k
    → 2 ^ k ≤ fuel
    → (new : List Bucket) × (shift fuel bs (2 ^ k - 1) (p % 2 ^ k) ≡ some new)
      × Shifted k (set bs (p % 2 ^ k) blank) new
shift-Shifted k fuel p {bs} narrow v l free enough =
    let (i, small, z) = vacant_slot bs (omega (arith, free, v.whole)) in
    let (m, near, there) = way (2 ^ k) p i (omega (arith, small, v.whole)) in
    let dead : (at k bs (p + m)).hash ≡ 0 = ap (λ s. (get_or bs s blank).hash) there ∙ z in
    run m near dead
  where
    run :
        (m : ℕ)
        → m < 2 ^ k
        → (at k bs (p + m)).hash ≡ 0
        → (new : List Bucket) × (shift fuel bs (2 ^ k - 1) (p % 2 ^ k) ≡ some new)
          × Shifted k (set bs (p % 2 ^ k) blank) new
    run zero near dead =
        absurd (l (ap (λ x. (at k bs x).hash) {x = p} {y = p + 0} (omega arith) ∙ dead))
    run (suc m) near dead =
        shift_lem k narrow fuel m p bs v.whole l (clear-Hole k p v l (omega arith)) (omega arith)
          (at-set k bs blank v.whole p (λ c. c.hash ≡ 0) (p + 1 + m) (λ here. refl)
            (λ off.
              ap (λ x. (at k bs x).hash) {x = p + 1 + m} {y = p + suc m} (omega arith) ∙ dead))
          (omega arith)
