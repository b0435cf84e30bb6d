-- ===== src/Structs/HashTable/Grow.antt =====
-- A rehash moves every entry into the new buckets; a resize keeps the map.
use libnumakit.Prelude.{
  ℕ, zero, suc, ◌+◌, ◌-◌, ◌^◌, ◌≤◌, ◌<◌, ◌≡◌, ◌≢◌, ◌⊎◌, inl, inr, refl, ap, sym, ◌∙◌, true, false,
  some, List, [], ◌∷◌, length, get_or, if◌then◌else◌, arith, ℕ_discrete,
}
use mathlib.Core.Path.{subst}
use libnumakit.Structs.HashTable.{Bucket, HashTable, blank, fnv1a, put_internal, rehash}
use libnumakit.Structs.HashTable.Lookup.{at}
use libnumakit.Structs.HashTable.Tidy.{Live, IsTidy}
use libnumakit.Structs.HashTable.Round.{occupied, Placed}
use libnumakit.Structs.HashTable.Insert.{put_internal_lem}

-- The entries of a list have the hashes of their keys, and no two have the same key.
abbrev pub Keyed : List Bucket → Type 0
Keyed [] = Unit
Keyed (b ∷ bs) =
    (Live b
      → (b.hash ≡ fnv1a b.key)
        × ((i : ℕ) → i < length bs → Live (get_or bs i blank) → (get_or bs i blank).key ≢ b.key))
    × Keyed bs

-- None of them has a key of the table.
abbrev pub Apart : ℕ → List Bucket → List Bucket → Type 0
Apart k bs table =
    (i : ℕ)
    → i < length bs
    → Live (get_or bs i blank)
    → (q : ℕ) → Live (at k table q)
    → (at k table q).key ≢ (get_or bs i blank).key

-- The new buckets hold what the table held and the entries of the list, and nothing else.
pub record Rehashed (k : ℕ) (table bs new : List Bucket) : Type 0 where
  pub tidy : IsTidy k new
  pub all : occupied new ≡ occupied table + occupied bs
  pub from_table : (p : ℕ) → Live (at k table p) → (q : ℕ) × (at k new q ≡ at k table p)
  pub from_list :
      (i : ℕ)
      → i < length bs
      → Live (get_or bs i blank)
      → (q : ℕ) × (at k new q ≡ get_or bs i blank)
  pub origin :
      (q : ℕ)
      → Live (at k new q)
      → ((p : ℕ) × (at k table p ≡ at k new q))
        ⊎ ((i : ℕ) × (i < length bs) × (get_or bs i blank ≡ at k new q))

module _ (k : ℕ) (b : Bucket) (bs table : List Bucket) where
  Rehashed-skip :
      {new : List Bucket} → b.hash ≡ 0 → Rehashed k table bs new → Rehashed k table (b ∷ bs) new
  Rehashed-skip {new} z w = record {
    tidy = w.tidy;
    all = ground (arith, w.all);
    from_table = w.from_table;
    from_list = list;
    origin = λ q l. elim (w.origin q l) [
      | inl there ↦ inl there
      | inr (i, lt, e) ↦ inr (suc i, omega arith, e)
    ];
  }
    where
      list :
          (i : ℕ)
          → i < suc (length bs)
          → Live (get_or (b ∷ bs) i blank)
          → (q : ℕ) × (at k new q ≡ get_or (b ∷ bs) i blank)
      list zero lt l = absurd (l z)
      list (suc i) lt l = w.from_list i (omega arith) l

  Rehashed-put :
      {next new : List Bucket}
      → Live b
      → Apart k (b ∷ bs) table
      → Placed k table b next
      → occupied next ≡ suc (occupied table)
      → Rehashed k next bs new
      → Rehashed k table (b ∷ bs) new
  Rehashed-put {next} {new} lb apart w grown r = record {
    tidy = r.tidy;
    all = ground (arith, r.all);
    from_table = λ p l.
        let (q, e) = w.kept p l (apart 0 (omega arith) lb p l) in
        let (q', e') = r.from_table q (subst Live (sym e) l) in (q', e' ∙ e);
    from_list = list;
    origin = λ q l. elim (r.origin q l) [
      | inl (p, e) ↦ elim (w.origin p (subst Live (sym e) l)) [
        | inl eb ↦ inr (0, omega arith, sym eb ∙ e)
        | inr (p', e') ↦ inl (p', e' ∙ e)
      ]
      | inr (i, lt, e) ↦ inr (suc i, omega arith, e)
    ];
  }
    where
      list :
          (i : ℕ)
          → i < suc (length bs)
          → Live (get_or (b ∷ bs) i blank)
          → (q : ℕ) × (at k new q ≡ get_or (b ∷ bs) i blank)
      list zero lt l =
          let (s, e) = w.stored in
          let (q, e') = r.from_table s (subst Live (sym e) lb) in (q, e' ∙ e)
      list (suc i) lt l = r.from_list i (omega arith) l

  Apart-put :
      {next : List Bucket}
      → Live b
      → Keyed (b ∷ bs)
      → Apart k (b ∷ bs) table
      → Placed k table b next
      → Apart k bs next
  Apart-put {next} lb keyed apart w i lt l q lq e = elim (w.origin q lq) [
    | inl eb ↦ (keyed.0 lb).1 i lt l (sym e ∙ ap (λ c. c.key) eb)
    | inr (p, ep) ↦
        apart (suc i) (omega arith) l p (subst Live (sym ep) lq) (ap (λ c. c.key) ep ∙ e)
  ]

rehash-dead :
    (fuel : ℕ) (b : Bucket) (bs : List Bucket) (t : HashTable)
    → b.hash ≡ 0
    → rehash fuel (b ∷ bs) t ≡ rehash fuel bs t
unfolding rehash
rehash-dead fuel b bs t z = ground arith

rehash-live :
    (fuel : ℕ) (b : Bucket) (bs : List Bucket) (t t' : HashTable)
    → Live b
    → put_internal fuel t b true ≡ some t'
    → rehash fuel (b ∷ bs) t ≡ rehash fuel bs t'
unfolding rehash
rehash-live fuel b bs t t' l e = ground arith

-- With a place for each entry, the rehash returns.
pub rehash_lem :
    (k fuel : ℕ) (bs : List Bucket) (t : HashTable)
    → k ≤ 64
    → 2 ^ k ≤ fuel
    → t.mask ≡ 2 ^ k - 1
    → IsTidy k t.buckets
    → Keyed bs
    → Apart k bs t.buckets
    → occupied t.buckets + occupied bs ≤ 2 ^ k
    → (new : List Bucket) × (rehash fuel bs t ≡ some (record t { buckets = new }))
      × Rehashed k t.buckets bs new
unfolding rehash
rehash_lem k fuel [] t narrow enough em tidy keyed apart fits = (
  t.buckets,
  refl,
  record {
    tidy = tidy;
    all = omega arith;
    from_table = λ p l. (p, refl);
    from_list = λ i lt l. elim lt [ ];
    origin = λ q l. inl (q, refl);
  },
)
rehash_lem k fuel (b ∷ bs) t narrow enough em tidy keyed apart fits = elim (ℕ_discrete b.hash 0) [
  | yes z ↦
      let (new, ran, r) =
        rehash_lem k fuel bs t narrow enough em tidy keyed.1
          (λ i lt l. apart (suc i) (omega arith) l) (ground arith) in
      (new, rehash-dead fuel b bs t z ∙ ran, Rehashed-skip k b bs t.buckets z r)
  | no l ↦
      let (next, counts, ran, w, grown, kind) =
        put_internal_lem k fuel t b true narrow em tidy l (keyed.0 l).0
          (λ e q lq. apart 0 (omega arith) l q lq) (ground arith) enough in
      let (new, ran', r) =
        rehash_lem k fuel bs (record t { buckets = next }) narrow enough em w.tidy keyed.1
          (Apart-put k b bs t.buckets l keyed apart w) (ground arith) in
      (
        new,
        rehash-live fuel b bs t (record t { buckets = next }) l
              (subst
                (λ c.
                  put_internal fuel t b true
                  ≡ some (record t { buckets = next; count = if c then t.count + 1 else t.count }))
                {x = counts} {y = false} (ground arith) ran)
            ∙ ran',
        Rehashed-put k b bs t.buckets l apart w (ground arith) r,
      )
]
