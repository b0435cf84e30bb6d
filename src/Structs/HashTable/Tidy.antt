-- ===== src/Structs/HashTable/Tidy.antt =====
-- What the hash table keeps: the Robin Hood invariant, the hashes of the keys, each key once; and how
-- a write of one bucket keeps it.
use libnumakit.Prelude.{
  ℕ, ◌+◌, ◌-◌, ◌%◌, ◌^◌, ◌≤◌, ◌<◌, ◌≡◌, ◌≢◌, refl, ap, sym, ◌∙◌, true, List, [], ◌∷◌, length,
  length-set, get_or, set, get_or-set_self, get_or-set_ne, one-le-pow2, arith, ℕ_discrete, dec_lt,
}
use mathlib.Core.Path.{subst}
use native.Mathlib.Nat.{mod-lt, mod-add-mod, add-mod_right}
use libnumakit.Structs.Ring.Invariant.{slots-ne}
use libnumakit.Structs.HashTable.{Bucket, blank, fnv1a, probe_distance, keys_equal}
use libnumakit.Structs.HashTable.Ends.{distance_lt}
use libnumakit.Structs.HashTable.Lookup.{at, distance_at, RobinHood, distance_home, same_slot}

abbrev pub Live : Bucket → Type 0
Live b = b.hash ≢ 0

-- How far the bucket is from home at position `p`.
abbrev pub away : ℕ → Bucket → ℕ → ℕ
away k b p = probe_distance b.hash (p % 2 ^ k) (2 ^ k - 1)

pub record IsTidy (k : ℕ) (bs : List Bucket) : Type 0 where
  pub whole : length bs ≡ 2 ^ k
  pub robin : RobinHood k bs
  pub hashed : (p : ℕ) → Live (at k bs p) → (at k bs p).hash ≡ fnv1a (at k bs p).key
  pub unique :
      (p q : ℕ)
      → Live (at k bs p)
      → Live (at k bs q)
      → (at k bs p).key ≡ (at k bs q).key
      → p % 2 ^ k ≡ q % 2 ^ k

pub keys_equal_eq : (xs ys : List ℕ) → keys_equal xs ys ≡ true → xs ≡ ys
unfolding keys_equal
keys_equal_eq [] [] e = refl
keys_equal_eq [] (y ∷ ys) e = cc
keys_equal_eq (x ∷ xs) [] e = cc
keys_equal_eq (x ∷ xs) (y ∷ ys) e = ground (arith, keys_equal_eq xs ys)

pub keys_equal_self : (xs : List ℕ) → keys_equal xs xs ≡ true
unfolding keys_equal
keys_equal_self [] = refl
keys_equal_self (x ∷ xs) = ground (arith, keys_equal_self xs)

-- Of two positions less than a turn behind the same place, equal slots mean equal positions.
turn_cancel : (n a d e : ℕ) → 0 < n → d < n → e < n → (a + d) % n ≡ (a + e) % n → d ≡ e
turn_cancel n a d e pos ld le h = elim (dec_lt d e) [
  | yes less ↦ absurd (slots-ne n (a + d) (a + e) (omega arith) (omega arith) h)
  | no more ↦ elim (dec_lt e d) [
    | yes less ↦ absurd (slots-ne n (a + e) (a + d) (omega arith) (omega arith) (sym h))
    | no same ↦ omega arith
  ]
]

pub suc_cancel : (n p q : ℕ) → 0 < n → (p + 1) % n ≡ (q + 1) % n → p % n ≡ q % n
suc_cancel n p q pos h = turn_back p ∙ ap (λ x. (x + (n - 1)) % n) h ∙ sym (turn_back q)
  where
    turn_back : (x : ℕ) → x % n ≡ ((x + 1) % n + (n - 1)) % n
    turn_back x =
        sym (add-mod_right x n)
        ∙ ap (λ y. y % n) {x = x + n} {y = x + 1 + (n - 1)} (omega arith)
        ∙ sym (mod-add-mod (x + 1) n (n - 1))

module _ (k : ℕ) (narrow : k ≤ 64) where
  -- A distance below the capacity that leads to a slot is the distance of the slot.
  pub away_is :
      (b : Bucket) (p d : ℕ) → d < 2 ^ k → (b.hash % 2 ^ k + d) % 2 ^ k ≡ p % 2 ^ k → away k b p ≡ d
  away_is b p d lt e =
      turn_cancel (2 ^ k) (b.hash % 2 ^ k) (away k b p) d (one-le-pow2 k)
        (distance_lt k b.hash (p % 2 ^ k)) lt
        (distance_home k b.hash (p % 2 ^ k) narrow (mod-lt p (one-le-pow2 k)) ∙ sym e)

  pub away_home : (b : Bucket) (p : ℕ) → (b.hash % 2 ^ k + away k b p) % 2 ^ k ≡ p % 2 ^ k
  away_home b p = distance_home k b.hash (p % 2 ^ k) narrow (mod-lt p (one-le-pow2 k))

  pub away-suc : (b : Bucket) (p : ℕ) → away k b p + 1 < 2 ^ k → away k b (p + 1) ≡ away k b p + 1
  away-suc b p lt = away_is b (p + 1) (away k b p + 1) lt (
      ap (λ x. x % 2 ^ k) {x = b.hash % 2 ^ k + (away k b p + 1)}
        {y = b.hash % 2 ^ k + away k b p + 1} (omega arith)
      ∙ sym (mod-add-mod (b.hash % 2 ^ k + away k b p) (2 ^ k) 1)
      ∙ ap (λ x. (x + 1) % 2 ^ k) (away_home b p)
      ∙ mod-add-mod p (2 ^ k) 1)

module _ (k : ℕ) (bs : List Bucket) (b : Bucket) (whole : length bs ≡ 2 ^ k) (p : ℕ) where
  pub at-set_self : (q : ℕ) → q % 2 ^ k ≡ p % 2 ^ k → at k (set bs (p % 2 ^ k) b) q ≡ b
  at-set_self q e =
      ap (λ x. get_or (set bs (p % 2 ^ k) b) x blank) e
      ∙ get_or-set_self bs (p % 2 ^ k) b blank (omega (arith, mod-lt p (one-le-pow2 k), whole))

  pub at-set_ne : (q : ℕ) → q % 2 ^ k ≢ p % 2 ^ k → at k (set bs (p % 2 ^ k) b) q ≡ at k bs q
  at-set_ne q ne = get_or-set_ne bs (p % 2 ^ k) (q % 2 ^ k) b blank (λ e. ne (sym e))

  -- What holds of the written bucket in its slot, and of the old ones in the others.
  pub at-set {ℓ} :
      (P : Bucket → Type ℓ) (q : ℕ)
      → (q % 2 ^ k ≡ p % 2 ^ k → P b)
      → (q % 2 ^ k ≢ p % 2 ^ k → P (at k bs q))
      → P (at k (set bs (p % 2 ^ k) b) q)
  at-set P q here off = elim (ℕ_discrete (q % 2 ^ k) (p % 2 ^ k)) [
    | yes e ↦ subst P (sym (at-set_self q e)) (here e)
    | no ne ↦ subst P (sym (at-set_ne q ne)) (off ne)
  ]

-- Away from its home, a bucket may stand at `p` when the bucket before it is hardly nearer to its own.
abbrev pub Follows : ℕ → List Bucket → ℕ → ℕ → Type 0
Follows k bs d p =
    0 < d → (p' : ℕ) × (p ≡ p' + 1) × Live (at k bs p') × (d ≤ distance_at k bs p' + 1)

-- What the Robin Hood invariant asks of the buckets at positions `x` and `x + 1`.
abbrev pub Neighbours : ℕ → Bucket → Bucket → ℕ → Type 0
Neighbours k c c' x =
    Live c' → 0 < away k c' (x + 1) → Live c × (away k c' (x + 1) ≤ away k c x + 1)

pub away-slot : (k : ℕ) (b : Bucket) (p q : ℕ) → p % 2 ^ k ≡ q % 2 ^ k → away k b p ≡ away k b q
away-slot k b p q e = ap (λ s. probe_distance b.hash s (2 ^ k - 1)) e

pub slot-suc : (k p q : ℕ) → p % 2 ^ k ≡ q % 2 ^ k → (p + 1) % 2 ^ k ≡ (q + 1) % 2 ^ k
slot-suc k p q e =
    sym (mod-add-mod p (2 ^ k) 1) ∙ ap (λ s. (s + 1) % 2 ^ k) e ∙ mod-add-mod q (2 ^ k) 1

-- The write of a bucket that may stand at `p`, with a key that stands nowhere else.
module _ (k : ℕ) {bs : List Bucket} (v : IsTidy k bs) (b : Bucket) (p : ℕ) where
  pub set-RobinHood :
      Live b
      → Follows k bs (away k b p) p
      → (Live (at k bs (p + 1))
          → 0 < distance_at k bs (p + 1)
          → distance_at k bs (p + 1) ≤ away k b p + 1)
      → RobinHood k (set bs (p % 2 ^ k) b)
  set-RobinHood live before after x full far = pair full far
    where
      follows : (x + 1) % 2 ^ k ≡ p % 2 ^ k → Neighbours k (at k bs x) b x
      follows e l pos =
          let (p', at_p, live', near) =
            before (subst (λ d. 0 < d) (away-slot k b (x + 1) p e) pos) in
          let same : x % 2 ^ k ≡ p' % 2 ^ k =
            suc_cancel (2 ^ k) x p' (one-le-pow2 k) (e ∙ ap (λ y. y % 2 ^ k) at_p) in
          let (same_bucket, same_distance) = same_slot k bs x p' same in
          (
            (λ z. live' (ap (λ c. c.hash) (sym same_bucket) ∙ z)),
            omega (arith, near, same_distance, away-slot k b (x + 1) p e),
          )

      leads : x % 2 ^ k ≡ p % 2 ^ k → Neighbours k b (at k bs (x + 1)) x
      leads e l pos =
          let (same_bucket, same_distance) = same_slot k bs (x + 1) (p + 1) (slot-suc k x p e) in
          (
            live,
            omega (
              arith,
              same_distance,
              away-slot k b x p e,
              after (λ z. l (ap (λ c. c.hash) same_bucket ∙ z)) (omega (arith, same_distance, pos)),
            ),
          )

      pair : Neighbours k (at k (set bs (p % 2 ^ k) b) x) (at k (set bs (p % 2 ^ k) b) (x + 1)) x
      pair =
          at-set k bs b v.whole p (λ c. Neighbours k c (at k (set bs (p % 2 ^ k) b) (x + 1)) x) x
            (λ here.
              at-set k bs b v.whole p (λ c. Neighbours k b c x) (x + 1)
                (λ there l pos. (live, omega (arith, away-slot k b (x + 1) x (there ∙ sym here))))
                (λ off. leads here))
            (λ off.
              at-set k bs b v.whole p (λ c. Neighbours k (at k bs x) c x) (x + 1) follows
                (λ off'. v.robin x))

  pub set-IsTidy :
      Live b
      → b.hash ≡ fnv1a b.key
      → Follows k bs (away k b p) p
      → (Live (at k bs (p + 1))
          → 0 < distance_at k bs (p + 1)
          → distance_at k bs (p + 1) ≤ away k b p + 1)
      → ((q : ℕ) → Live (at k bs q) → (at k bs q).key ≡ b.key → q % 2 ^ k ≡ p % 2 ^ k)
      → IsTidy k (set bs (p % 2 ^ k) b)
  set-IsTidy live own before after alone = record {
    whole = length-set bs (p % 2 ^ k) b ∙ v.whole;
    robin = set-RobinHood live before after;
    hashed = λ q.
        at-set k bs b v.whole p (λ c. Live c → c.hash ≡ fnv1a c.key) q (λ here l. own)
          (λ off. v.hashed q);
    unique = λ q r.
        at-set k bs b v.whole p (λ c. Same c (at k (set bs (p % 2 ^ k) b) r) q r) q
          (λ here.
            at-set k bs b v.whole p (λ c. Same b c q r) r (λ there lq lr e. here ∙ sym there)
              (λ off lq lr e. here ∙ sym (alone r lr (sym e))))
          (λ off.
            at-set k bs b v.whole p (λ c. Same (at k bs q) c q r) r
              (λ there lq lr e. alone q lq e ∙ sym there) (λ off'. v.unique q r));
  }
    where
      Same : Bucket → Bucket → ℕ → ℕ → Type 0
      Same c c' q r = Live c → Live c' → c.key ≡ c'.key → q % 2 ^ k ≡ r % 2 ^ k
