-- ===== src/Structs/HashTable/Round.antt =====
-- One round of the loop of an insertion: what it does to the table.
use libnumakit.Prelude.{
  ℕ, zero, suc, ◌-◌, ◌%◌, ◌^◌, ◌≤◌, ◌<◌, ◌≡◌, ◌≢◌, ◌⊎◌, inl, inr, refl, ap, sym, ◌∙◌, Bool, false,
  not, ◌&&◌, List, [], ◌∷◌, length, set, get_or, ◌==◌, if◌then◌else◌, arith, ℕ_discrete,
}
use mathlib.Core.Path.{subst}
use libnumakit.Structs.HashTable.{Bucket, blank, keys_equal, placed, onward, put_round}
use libnumakit.Structs.HashTable.Lookup.{at, distance_at, same_slot}
use libnumakit.Structs.HashTable.Tidy.{
  Live, IsTidy, at-set, at-set_self, at-set_ne, keys_equal_self,
}

-- The number of entries in the buckets.
abbrev pub occupied : List Bucket → ℕ
occupied [] = 0
occupied (b ∷ bs) = if b.hash == 0 then occupied bs else suc (occupied bs)

pub occupied-set :
    (bs : List Bucket) (i : ℕ) (b : Bucket)
    → i < length bs
    → Live b
    → occupied (set bs i b)
      ≡ (if (get_or bs i blank).hash == 0 then suc (occupied bs) else occupied bs)
occupied-set [] i b lt l = elim lt [ ]
occupied-set (c ∷ bs) zero b lt l = ground arith
occupied-set (c ∷ bs) (suc i) b lt l = ground (arith, occupied-set bs i b)

-- The table `bs'` has `cur` and the entries of `bs` with other keys, and nothing else.
pub record Placed (k : ℕ) (bs : List Bucket) (cur : Bucket) (bs' : List Bucket) : Type 0 where
  pub tidy : IsTidy k bs'
  pub stored : (s : ℕ) × (at k bs' s ≡ cur)
  pub kept :
      (q : ℕ) → Live (at k bs q) → (at k bs q).key ≢ cur.key → (q' : ℕ) × (at k bs' q' ≡ at k bs q)
  pub origin :
      (q : ℕ) → Live (at k bs' q) → (at k bs' q ≡ cur) ⊎ ((q' : ℕ) × (at k bs q' ≡ at k bs' q))

module _ (k : ℕ) {bs : List Bucket} (v : IsTidy k bs) (cur : Bucket) (p : ℕ) where
  -- The last write, into an empty bucket or over the same key.
  pub write-Placed :
      IsTidy k (set bs (p % 2 ^ k) cur)
      → (Live (at k bs p) → (at k bs p).key ≡ cur.key)
      → Placed k bs cur (set bs (p % 2 ^ k) cur)
  write-Placed tidy over = record {
    tidy = tidy;
    stored = (p, at-set_self k bs cur v.whole p p refl);
    kept = λ q l ne. elim (ℕ_discrete (q % 2 ^ k) (p % 2 ^ k)) [
      | yes e ↦
          let (same, _) = same_slot k bs q p e in
          absurd (ne (ap (λ c. c.key) same ∙ over (λ z. l (ap (λ c. c.hash) same ∙ z))))
      | no off ↦ (q, at-set_ne k bs cur v.whole p q off)
    ];
    origin = λ q.
        at-set k bs cur v.whole p (λ c. Live c → (c ≡ cur) ⊎ ((q' : ℕ) × (at k bs q' ≡ c))) q
          (λ here l. inl refl) (λ off l. inr (q, refl));
  }

  -- A write over an entry that is placed in its turn.
  pub swap-Placed :
      {bs' : List Bucket}
      → Live cur
      → Live (at k bs p)
      → ((q : ℕ) → Live (at k bs q) → (at k bs q).key ≢ cur.key)
      → Placed k (set bs (p % 2 ^ k) cur) (at k bs p) bs'
      → Placed k bs cur bs'
  swap-Placed {bs'} lc l new w =
      let here = at-set_self k bs cur v.whole p p refl in
      let (s, at_s) =
        w.kept p (subst Live (sym here) lc) (λ e. new p l (sym (ap (λ c. c.key) (sym here) ∙ e))) in
      record {
        tidy = w.tidy;
        stored = (s, at_s ∙ here);
        kept = λ q lq ne. elim (ℕ_discrete (q % 2 ^ k) (p % 2 ^ k)) [
          | yes e ↦ (w.stored.0, w.stored.1 ∙ sym (same_slot k bs q p e).0)
          | no off ↦
              let same = at-set_ne k bs cur v.whole p q off in
              let (q', at_q') =
                w.kept q (subst Live (sym same) lq)
                  (λ e. off (v.unique q p lq l (ap (λ c. c.key) (sym same) ∙ e))) in
              (q', at_q' ∙ same)
        ];
        origin = λ q lq. elim (w.origin q lq) [
          | inl e ↦ inr (p, sym e)
          | inr (q', e) ↦
              at-set k bs cur v.whole p
                (λ c. c ≡ at k bs' q → (at k bs' q ≡ cur) ⊎ ((q' : ℕ) × (at k bs q' ≡ at k bs' q)))
                q' (λ there e'. inl (sym e')) (λ off e'. inr (q', e')) e
        ];
      }

-- What each kind of round does.
module _ (k : ℕ) (bs : List Bucket) (is_rehash : Bool) (cur : Bucket) (p dist : ℕ) where
  pub round_vacant :
      (at k bs p).hash ≡ 0
      → put_round bs (2 ^ k - 1) is_rehash cur (p % 2 ^ k) dist
        ≡ placed (set bs (p % 2 ^ k) cur) (not is_rehash)
  unfolding put_round
  round_vacant e = ground arith

  pub round_same :
      Live (at k bs p)
      → is_rehash ≡ false
      → (at k bs p).hash ≡ cur.hash
      → (at k bs p).key ≡ cur.key
      → put_round bs (2 ^ k - 1) is_rehash cur (p % 2 ^ k) dist
        ≡ placed (set bs (p % 2 ^ k) cur) false
  unfolding put_round
  round_same l er eh ek = ground (arith, keys_equal_self cur.key)

  pub round_swap :
      Live (at k bs p)
      → (not is_rehash && keys_equal (at k bs p).key cur.key) ≡ false
      → distance_at k bs p < dist
      → put_round bs (2 ^ k - 1) is_rehash cur (p % 2 ^ k) dist
        ≡ onward (set bs (p % 2 ^ k) cur) (at k bs p) (distance_at k bs p)
  unfolding put_round
  round_swap l other lt = ground arith

  pub round_on :
      Live (at k bs p)
      → (not is_rehash && keys_equal (at k bs p).key cur.key) ≡ false
      → dist ≤ distance_at k bs p
      → put_round bs (2 ^ k - 1) is_rehash cur (p % 2 ^ k) dist ≡ onward bs cur dist
  unfolding put_round
  round_on l other le = ground arith
