-- ===== src/Structs/HashTable/Pending.antt =====
-- An entry on its way to a bucket: what the loop of a put keeps from round to round.
use libnumakit.Prelude.{
  ℕ, ◌+◌, ◌-◌, ◌%◌, ◌^◌, ◌≤◌, ◌<◌, ◌≡◌, ◌≢◌, refl, ap, sym, ◌∙◌, Bool, true, false, List, set,
  arith, dec_lt,
}
use mathlib.Core.Path.{subst}
use libnumakit.Structs.HashTable.{Bucket, fnv1a, probe_distance}
use libnumakit.Structs.HashTable.Ends.{distance_lt}
use libnumakit.Structs.HashTable.Lookup.{at, distance_at, same_slot, walk_back}
use libnumakit.Structs.HashTable.Tidy.{
  Live, away, IsTidy, Follows, away_home, away-suc, at-set, at-set_self,
}

-- `cur` is to be placed at position `p` or behind it; when rehashing, no key comes twice.
pub record Pending (k : ℕ) (bs : List Bucket) (cur : Bucket) (p : ℕ) (is_rehash : Bool)
    : Type 0 where
  pub live : Live cur
  pub own : cur.hash ≡ fnv1a cur.key
  pub follows : Follows k bs (away k cur p) p
  pub passed :
      (q : ℕ) → Live (at k bs q) → (at k bs q).key ≡ cur.key → away k cur p ≤ distance_at k bs q
  pub new : is_rehash ≡ true → (q : ℕ) → Live (at k bs q) → (at k bs q).key ≢ cur.key

module _ (k : ℕ) (narrow : k ≤ 64) {bs : List Bucket} (v : IsTidy k bs) where
  -- Between a bucket and its home all buckets are taken and no nearer to their homes.
  pub on_the_way :
      (q x : ℕ)
      → Live (at k bs q)
      → away k (at k bs q) x ≤ distance_at k bs q
      → Live (at k bs x) × (away k (at k bs q) x ≤ distance_at k bs x)
  on_the_way q x l le =
      let home = (at k bs q).hash % 2 ^ k in
      let d = away k (at k bs q) x in
      let e = distance_at k bs q - d in
      let whole : d + e ≡ distance_at k bs q = omega arith in
      let (same_q, far_q) =
        same_slot k bs (home + (d + e)) q
          (ap (λ y. (home + y) % 2 ^ k) whole ∙ away_home k narrow (at k bs q) q) in
      let (same_x, far_x) = same_slot k bs (home + d) x (away_home k narrow (at k bs q) x) in
      let (l', far) =
        walk_back k bs home e d v.robin (λ z. l (ap (λ c. c.hash) (sym same_q) ∙ z))
          (omega (arith, far_q)) in
      ((λ z. l' (ap (λ c. c.hash) same_x ∙ z)), omega (arith, far_x, far))

  module _ {cur : Bucket} {p : ℕ} {is_rehash : Bool} (w : Pending k bs cur p is_rehash) where
    -- A bucket with the key of `cur` is not behind: at `p` the loop is still on its way to it.
    reached :
        (q : ℕ)
        → Live (at k bs q)
        → (at k bs q).key ≡ cur.key
        → Live (at k bs p) × (away k cur p ≤ distance_at k bs p)
    reached q l e =
        let same_hash : (at k bs q).hash ≡ cur.hash = v.hashed q l ∙ ap fnv1a e ∙ sym w.own in
        let same_away : away k (at k bs q) p ≡ away k cur p =
          ap (λ h. probe_distance h (p % 2 ^ k) (2 ^ k - 1)) same_hash in
        let (l', far) = on_the_way q p l (omega (arith, same_away, w.passed q l e)) in
        (l', omega (arith, same_away, far))

    pub vacant_new : (at k bs p).hash ≡ 0 → (q : ℕ) → Live (at k bs q) → (at k bs q).key ≢ cur.key
    vacant_new z q l e = (reached q l e).0 z

    pub nearer_new :
        distance_at k bs p < away k cur p → (q : ℕ) → Live (at k bs q) → (at k bs q).key ≢ cur.key
    nearer_new lt q l e = omega (arith, lt, (reached q l e).1)

    -- While there is an empty bucket, the distance stays below the capacity.
    room :
        (z : ℕ)
        → (at k bs z).hash ≡ 0
        → Live (at k bs p)
        → away k cur p ≤ distance_at k bs p
        → away k cur p + 1 < 2 ^ k
    room z e l le = elim (dec_lt (away k cur p + 1) (2 ^ k)) [
      | yes lt ↦ lt
      | no ge ↦ absurd (
          (on_the_way p z l (omega (arith, ge, le, distance_lt k (at k bs p).hash (z % 2 ^ k)))).0
            e)
    ]

    -- The loop goes on with the same entry.
    pub onward-Pending :
        (z : ℕ)
        → (at k bs z).hash ≡ 0
        → Live (at k bs p)
        → away k cur p ≤ distance_at k bs p
        → (is_rehash ≡ false → (at k bs p).key ≢ cur.key)
        → (away k cur (p + 1) ≡ away k cur p + 1) × Pending k bs cur (p + 1) is_rehash
    onward-Pending z e l le other =
        let further = away-suc k narrow cur p (room z e l le) in
        (
          further,
          record {
            live = w.live;
            own = w.own;
            follows = λ pos. (p, refl, l, omega (arith, further, le));
            passed = λ q lq same. omega (arith, further, w.passed q lq same, not_here q lq same);
            new = w.new;
          },
        )
      where
        fresh_key : (b : Bool) → is_rehash ≡ b → (at k bs p).key ≢ cur.key
        fresh_key true er = w.new er p l
        fresh_key false er = other er

        not_here :
            (q : ℕ)
            → Live (at k bs q)
            → (at k bs q).key ≡ cur.key
            → distance_at k bs q ≢ away k cur p
        not_here q lq same eq =
            let same_hash : (at k bs q).hash ≡ cur.hash =
              v.hashed q lq ∙ ap fnv1a same ∙ sym w.own in
            let same_away : away k cur q ≡ away k cur p =
              ap (λ h. probe_distance h (q % 2 ^ k) (2 ^ k - 1)) (sym same_hash) ∙ eq in
            let slot : q % 2 ^ k ≡ p % 2 ^ k =
              sym (away_home k narrow cur q)
              ∙ ap (λ d. (cur.hash % 2 ^ k + d) % 2 ^ k) same_away
              ∙ away_home k narrow cur p in
            fresh_key is_rehash refl (ap (λ c. c.key) (sym (same_slot k bs q p slot).0) ∙ same)

    -- The loop takes the bucket at `p` out and goes on with it.
    pub swap-Pending :
        distance_at k bs p < away k cur p
        → Live (at k bs p)
        → (away k (at k bs p) (p + 1) ≡ distance_at k bs p + 1)
          × Pending k (set bs (p % 2 ^ k) cur) (at k bs p) (p + 1) is_rehash
    swap-Pending lt l =
        let further =
          away-suc k narrow (at k bs p) p (omega (arith, lt, distance_lt k cur.hash (p % 2 ^ k))) in
        (
          further,
          record {
            live = l;
            own = v.hashed p l;
            follows = λ pos. (
              p,
              refl,
              subst Live (sym (at-set_self k bs cur v.whole p p refl)) w.live,
              subst (λ c. away k (at k bs p) (p + 1) ≤ away k c p + 1)
                  (sym (at-set_self k bs cur v.whole p p refl)) (omega (arith, lt, further)),
            );
            passed = λ q lq same. absurd (taken q lq same);
            new = λ er. taken;
          },
        )
      where
        taken :
            (q : ℕ)
            → Live (at k (set bs (p % 2 ^ k) cur) q)
            → (at k (set bs (p % 2 ^ k) cur) q).key ≢ (at k bs p).key
        taken q =
            at-set k bs cur v.whole p (λ c. Live c → c.key ≢ (at k bs p).key) q
              (λ here lc e. nearer_new lt p l (sym e)) (λ off lq e. off (v.unique q p lq l e))
