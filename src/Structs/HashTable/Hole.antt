-- ===== src/Structs/HashTable/Hole.antt =====
-- A table with a hole, which the backward shift moves to the end of the cluster.
use libnumakit.Prelude.{
  ℕ, ◌+◌, ◌-◌, ◌%◌, ◌^◌, ◌≤◌, ◌<◌, ◌≡◌, ◌≢◌, ◌⊎◌, inl, inr, refl, ap, sym, ◌∙◌, List, length,
  one-le-pow2, arith, ℕ_discrete,
}
use mathlib.Core.Path.{subst}
use libnumakit.Structs.HashTable.{Bucket, blank, fnv1a}
use libnumakit.Structs.HashTable.Ends.{distance_lt}
use libnumakit.Structs.HashTable.Lookup.{at, distance_at, same_slot}
use libnumakit.Structs.HashTable.Tidy.{
  Live, away, IsTidy, Neighbours, away_is, away_home, away-slot, slot-suc, suc_cancel,
}

-- Position `p` is empty; the buckets behind it may be one nearer to home than they stand.
pub record Hole (k : ℕ) (bs : List Bucket) (p : ℕ) : Type 0 where
  pub whole : length bs ≡ 2 ^ k
  pub empty : (at k bs p).hash ≡ 0
  pub robin : (x : ℕ) → x % 2 ^ k ≢ p % 2 ^ k → Neighbours k (at k bs x) (at k bs (x + 1)) x
  pub follows :
      (x : ℕ)
      → (x + 1) % 2 ^ k ≡ p % 2 ^ k
      → Live (at k bs (p + 1))
      → 1 < distance_at k bs (p + 1)
      → Live (at k bs x) × (distance_at k bs (p + 1) ≤ distance_at k bs x + 2)
  pub hashed : (q : ℕ) → Live (at k bs q) → (at k bs q).hash ≡ fnv1a (at k bs q).key
  pub unique :
      (q r : ℕ)
      → Live (at k bs q)
      → Live (at k bs r)
      → (at k bs q).key ≡ (at k bs r).key
      → q % 2 ^ k ≡ r % 2 ^ k

-- The hole is closed where no bucket behind it is away from home.
pub Hole-IsTidy :
    (k : ℕ) {bs : List Bucket} (p : ℕ)
    → Hole k bs p
    → (Live (at k bs (p + 1)) → distance_at k bs (p + 1) ≡ 0)
    → IsTidy k bs
Hole-IsTidy k {bs} p h ends = record {
  whole = h.whole;
  robin = λ x l pos. elim (ℕ_discrete (x % 2 ^ k) (p % 2 ^ k)) [
    | yes here ↦
        let (same, far) = same_slot k bs (x + 1) (p + 1) (slot-suc k x p here) in
        absurd (omega (arith, pos, far, ends (λ z. l (ap (λ c. c.hash) same ∙ z))))
    | no off ↦ h.robin x off l pos
  ];
  hashed = h.hashed;
  unique = h.unique;
}

-- `bs'` is `bs` with the bucket behind the hole moved into it.
pub record Moved (k : ℕ) (bs bs' : List Bucket) (p : ℕ) : Type 0 where
  pub whole : length bs' ≡ 2 ^ k
  pub gone : (x : ℕ) → x % 2 ^ k ≡ (p + 1) % 2 ^ k → at k bs' x ≡ blank
  pub here : (x : ℕ) → x % 2 ^ k ≡ p % 2 ^ k → at k bs' x ≡ at k bs (p + 1)
  pub off : (x : ℕ) → x % 2 ^ k ≢ p % 2 ^ k → x % 2 ^ k ≢ (p + 1) % 2 ^ k → at k bs' x ≡ at k bs x

module _ (k : ℕ) (narrow : k ≤ 64) {bs : List Bucket} (p : ℕ) (h : Hole k bs p) where
  -- One place back is one nearer to home.
  nearer : 0 < distance_at k bs (p + 1) → away k (at k bs (p + 1)) p + 1 ≡ distance_at k bs (p + 1)
  nearer pos =
      let b = at k bs (p + 1) in
      let d = distance_at k bs (p + 1) in
      let lt = distance_lt k b.hash ((p + 1) % 2 ^ k) in
      let lands : (b.hash % 2 ^ k + (d - 1) + 1) % 2 ^ k ≡ (p + 1) % 2 ^ k =
        ap (λ x. x % 2 ^ k) {x = b.hash % 2 ^ k + (d - 1) + 1} {y = b.hash % 2 ^ k + d}
          (omega arith)
        ∙ away_home k narrow b (p + 1) in
      omega (
        arith,
        away_is k narrow b p (d - 1) (omega (arith, lt))
            (suc_cancel (2 ^ k) (b.hash % 2 ^ k + (d - 1)) p (one-le-pow2 k) lands),
      )

  module _ {bs' : List Bucket} (m : Moved k bs bs' p) (apart : (p + 1) % 2 ^ k ≢ p % 2 ^ k)
      (apart' : (p + 1 + 1) % 2 ^ k ≢ p % 2 ^ k) (l : Live (at k bs (p + 1)))
      (pos : 0 < distance_at k bs (p + 1)) where
    -- Where a bucket of the new table was.
    pub source :
        (q : ℕ)
        → Live (at k bs' q)
        → (q' : ℕ) × (at k bs' q ≡ at k bs q')
          × (((q % 2 ^ k ≡ p % 2 ^ k) × (q' ≡ p + 1)) ⊎ ((q % 2 ^ k ≢ (p + 1) % 2 ^ k) × (q' ≡ q)))
    source q lq = elim (ℕ_discrete (q % 2 ^ k) (p % 2 ^ k)) [
      | yes e ↦ (p + 1, m.here q e, inl (e, refl))
      | no ne ↦ elim (ℕ_discrete (q % 2 ^ k) ((p + 1) % 2 ^ k)) [
        | yes e ↦ absurd (lq (ap (λ c. c.hash) (m.gone q e)))
        | no ne' ↦ (q, m.off q ne ne', inr (ne', refl))
      ]
    ]

    pub target : (q : ℕ) → Live (at k bs q) → (q' : ℕ) × (at k bs' q' ≡ at k bs q)
    target q lq = elim (ℕ_discrete (q % 2 ^ k) (p % 2 ^ k)) [
      | yes e ↦ absurd (lq (ap (λ c. c.hash) (same_slot k bs q p e).0 ∙ h.empty))
      | no ne ↦ elim (ℕ_discrete (q % 2 ^ k) ((p + 1) % 2 ^ k)) [
        | yes e ↦ (p, m.here p refl ∙ sym (same_slot k bs q (p + 1) e).0)
        | no ne' ↦ (q, m.off q ne ne')
      ]
    ]

    moved-robin :
        (x : ℕ) → x % 2 ^ k ≢ (p + 1) % 2 ^ k → Neighbours k (at k bs' x) (at k bs' (x + 1)) x
    moved-robin x ne = elim (ℕ_discrete (x % 2 ^ k) (p % 2 ^ k)) [
      | yes e ↦ λ l' far. absurd (l' (ap (λ c. c.hash) (m.gone (x + 1) (slot-suc k x p e))))
      | no off ↦ elim (ℕ_discrete ((x + 1) % 2 ^ k) (p % 2 ^ k)) [
        | yes e ↦
            subst (λ c. Neighbours k c (at k bs' (x + 1)) x) (sym (m.off x off ne))
              (subst (λ c. Neighbours k (at k bs x) c x) (sym (m.here (x + 1) e)) (into x e))
        | no off' ↦
            subst (λ c. Neighbours k c (at k bs' (x + 1)) x) (sym (m.off x off ne))
              (subst (λ c. Neighbours k (at k bs x) c x)
                (sym (m.off (x + 1) off' (λ e. off (suc_cancel (2 ^ k) x p (one-le-pow2 k) e))))
                (h.robin x off))
      ]
    ]
      where
        into : (x : ℕ) → (x + 1) % 2 ^ k ≡ p % 2 ^ k → Neighbours k (at k bs x) (at k bs (p + 1)) x
        into x e l' far =
            let same = away-slot k (at k bs (p + 1)) (x + 1) p e in
            let (live, near) = h.follows x e l (omega (arith, far, same, nearer pos)) in
            (live, omega (arith, same, near, nearer pos))

    moved-follows :
        (x : ℕ)
        → (x + 1) % 2 ^ k ≡ (p + 1) % 2 ^ k
        → Live (at k bs' (p + 1 + 1))
        → 1 < distance_at k bs' (p + 1 + 1)
        → Live (at k bs' x) × (distance_at k bs' (p + 1 + 1) ≤ distance_at k bs' x + 2)
    moved-follows x e =
        let here : x % 2 ^ k ≡ p % 2 ^ k = suc_cancel (2 ^ k) x p (one-le-pow2 k) e in
        subst
          (λ c.
            Live (at k bs' (p + 1 + 1))
            → 1 < distance_at k bs' (p + 1 + 1)
            → Live c × (distance_at k bs' (p + 1 + 1) ≤ away k c x + 2))
          (sym (m.here x here))
          (subst
            (λ c.
              Live c
              → 1 < away k c (p + 1 + 1)
              → Live (at k bs (p + 1)) × (away k c (p + 1 + 1) ≤ away k (at k bs (p + 1)) x + 2))
            (sym (
              m.off (p + 1 + 1) apart'
                (λ z. apart (suc_cancel (2 ^ k) (p + 1) p (one-le-pow2 k) z))))
            (λ l' far. (
              l,
              omega (
                arith,
                far,
                nearer pos,
                away-slot k (at k bs (p + 1)) x p here,
                (h.robin (p + 1) apart l' (omega (arith, far))).1,
              ),
            )))

    pub moved-Hole : Hole k bs' (p + 1)
    moved-Hole = record {
      whole = m.whole;
      empty = ap (λ c. c.hash) (m.gone (p + 1) refl);
      robin = moved-robin;
      follows = moved-follows;
      hashed = λ q lq.
          let (q', e, _) = source q lq in
          subst (λ c. Live c → c.hash ≡ fnv1a c.key) (sym e) (h.hashed q') lq;
      unique = λ q r lq lr e.
          let (q', eq, wq) = source q lq in
          let (r', er, wr) = source r lr in
          back q r q' r' wq wr (
            h.unique q' r' (subst Live eq lq) (subst Live er lr)
              (ap (λ c. c.key) (sym eq) ∙ e ∙ ap (λ c. c.key) er));
    }
      where
        From : ℕ → ℕ → Type 0
        From q q' =
            ((q % 2 ^ k ≡ p % 2 ^ k) × (q' ≡ p + 1)) ⊎ ((q % 2 ^ k ≢ (p + 1) % 2 ^ k) × (q' ≡ q))

        back :
            (q r q' r' : ℕ)
            → From q q'
            → From r r'
            → q' % 2 ^ k ≡ r' % 2 ^ k
            → q % 2 ^ k ≡ r % 2 ^ k
        back q r q' r' (inl (a, _)) (inl (b, _)) e = a ∙ sym b
        back q r q' r' (inl (a, ea)) (inr (b, eb)) e =
            absurd (b (ap (λ x. x % 2 ^ k) (sym eb) ∙ sym e ∙ ap (λ x. x % 2 ^ k) ea))
        back q r q' r' (inr (a, ea)) (inl (b, eb)) e =
            absurd (a (ap (λ x. x % 2 ^ k) (sym ea) ∙ e ∙ ap (λ x. x % 2 ^ k) eb))
        back q r q' r' (inr (a, ea)) (inr (b, eb)) e =
            ap (λ x. x % 2 ^ k) (sym ea) ∙ e ∙ ap (λ x. x % 2 ^ k) eb
