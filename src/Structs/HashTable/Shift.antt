-- ===== src/Structs/HashTable/Shift.antt =====
-- The backward shift closes the hole that a removal leaves, and every entry stays in the table.
use libnumakit.Prelude.{
  ℕ, zero, suc, ◌+◌, ◌-◌, ◌%◌, ◌^◌, ◌≤◌, ◌<◌, ◌≡◌, ◌≢◌, inl, inr, refl, ap, sym, ◌∙◌, true, false,
  ◌||◌, some, List, [], ◌∷◌, length, length-set, set, get_or, ◌==◌, one-le-pow2, arith, Bool-cases,
}
use mathlib.Core.Path.{subst}
use native.Mathlib.Nat.{mod-lt}
use libnumakit.Structs.Ring.Invariant.{slots-ne}
use libnumakit.Structs.HashTable.{Bucket, blank, probe_distance, shift}
use libnumakit.Structs.HashTable.Lookup.{at, distance_at, next_slot}
use libnumakit.Structs.HashTable.Tidy.{Live, IsTidy, at-set_self, at-set_ne}
use libnumakit.Structs.HashTable.Round.{occupied, occupied-set}
use libnumakit.Structs.HashTable.Hole.{Hole, Moved, Hole-IsTidy, moved-Hole, target, source}

pub occupied-clear :
    (bs : List Bucket) (i : ℕ)
    → i < length bs
    → Live (get_or bs i blank)
    → suc (occupied (set bs i blank)) ≡ occupied bs
occupied-clear [] i lt l = elim lt [ ]
occupied-clear (b ∷ bs) zero lt l = ground arith
occupied-clear (b ∷ bs) (suc i) lt l = ground (arith, occupied-clear bs i)

-- `new` has the entries of `bs`, in order.
pub record Shifted (k : ℕ) (bs new : List Bucket) : Type 0 where
  pub tidy : IsTidy k new
  pub all : occupied new ≡ occupied bs
  pub there : (q : ℕ) → Live (at k bs q) → (q' : ℕ) × (at k new q' ≡ at k bs q)
  pub back : (q : ℕ) → Live (at k new q) → (q' : ℕ) × (at k bs q' ≡ at k new q)

module _ (k fuel p : ℕ) (bs : List Bucket) where
  shift-stop :
      ((at k bs (p + 1)).hash == 0 || distance_at k bs (p + 1) == 0) ≡ true
      → shift (suc fuel) bs (2 ^ k - 1) (p % 2 ^ k) ≡ some (set bs (p % 2 ^ k) blank)
  unfolding shift
  shift-stop e = rw (next_slot k p, e) refl

  shift-on :
      ((at k bs (p + 1)).hash == 0 || distance_at k bs (p + 1) == 0) ≡ false
      → shift (suc fuel) bs (2 ^ k - 1) (p % 2 ^ k)
        ≡ shift fuel (set bs (p % 2 ^ k) (at k bs (p + 1))) (2 ^ k - 1) ((p + 1) % 2 ^ k)
  unfolding shift
  shift-on e = rw (next_slot k p, e) refl

pub apart : (k p : ℕ) → 1 < 2 ^ k → (p + 1) % 2 ^ k ≢ p % 2 ^ k
apart k p wide e = slots-ne (2 ^ k) p (p + 1) (omega arith) (omega arith) (sym e)

module _ (k p : ℕ) (bs : List Bucket) (whole : length bs ≡ 2 ^ k) (wide : 1 < 2 ^ k) where
  moved :
      Moved k
        (set bs (p % 2 ^ k) blank)
        (set (set bs (p % 2 ^ k) (at k bs (p + 1))) ((p + 1) % 2 ^ k) blank)
        p
  moved =
      let b = at k bs (p + 1) in
      let bs' = set bs (p % 2 ^ k) b in
      let whole' : length bs' ≡ 2 ^ k = length-set bs (p % 2 ^ k) b ∙ whole in
      record {
        whole = length-set bs' ((p + 1) % 2 ^ k) blank ∙ whole';
        gone = at-set_self k bs' blank whole' (p + 1);
        here = λ x e.
            at-set_ne k bs' blank whole' (p + 1) x (λ z. apart k p wide (sym z ∙ e))
            ∙ at-set_self k bs b whole p x e
            ∙ sym (at-set_ne k bs blank whole p (p + 1) (apart k p wide));
        off = λ x ne ne'.
            at-set_ne k bs' blank whole' (p + 1) x ne'
            ∙ at-set_ne k bs b whole p x ne
            ∙ sym (at-set_ne k bs blank whole p x ne);
      }

Shifted-Moved :
    (k : ℕ) (narrow : k ≤ 64) (p : ℕ) (bs bs' new : List Bucket)
    → (h : Hole k bs p) → Moved k bs bs' p
    → (p + 1) % 2 ^ k ≢ p % 2 ^ k
    → (p + 1 + 1) % 2 ^ k ≢ p % 2 ^ k
    → Live (at k bs (p + 1))
    → 0 < distance_at k bs (p + 1)
    → occupied bs' ≡ occupied bs
    → Shifted k bs' new
    → Shifted k bs new
Shifted-Moved k narrow p bs bs' new h m ne ne' l pos all w = record {
  tidy = w.tidy;
  all = w.all ∙ all;
  there = λ q lq.
      let (q', e) = target k narrow p h m ne ne' l pos q lq in
      let (q'', e') = w.there q' (subst Live (sym e) lq) in (q'', e' ∙ e);
  back = λ q lq.
      let (q', e) = w.back q lq in
      let (q'', e', _) = source k narrow p h m ne ne' l pos q' (subst Live (sym e) lq) in
      (q'', sym e' ∙ e);
}

module _ (k : ℕ) (narrow : k ≤ 64) where
  module _ (fuel p : ℕ) (bs : List Bucket) (whole : length bs ≡ 2 ^ k) (wide : 1 < 2 ^ k)
      (h : Hole k (set bs (p % 2 ^ k) blank) p) where
    behind : at k (set bs (p % 2 ^ k) blank) (p + 1) ≡ at k bs (p + 1)
    behind = at-set_ne k bs blank whole p (p + 1) (apart k p wide)

    shift-stops :
        ((at k bs (p + 1)).hash == 0 || distance_at k bs (p + 1) == 0) ≡ true
        → (new : List Bucket) × (shift (suc fuel) bs (2 ^ k - 1) (p % 2 ^ k) ≡ some new)
          × Shifted k (set bs (p % 2 ^ k) blank) new
    shift-stops stop = (
      set bs (p % 2 ^ k) blank,
      shift-stop k fuel p bs stop,
      record {
        tidy = Hole-IsTidy k p h (
            subst (λ c. Live c → probe_distance c.hash ((p + 1) % 2 ^ k) (2 ^ k - 1) ≡ 0)
              (sym behind) (λ l. ground (arith, stop)));
        all = refl;
        there = λ q l. (q, refl);
        back = λ q l. (q, refl);
      },
    )

  pub shift_lem :
      (fuel m p : ℕ) (bs : List Bucket)
      → length bs ≡ 2 ^ k
      → Live (at k bs p)
      → Hole k (set bs (p % 2 ^ k) blank) p
      → m + 1 < 2 ^ k
      → (at k (set bs (p % 2 ^ k) blank) (p + 1 + m)).hash ≡ 0
      → m < fuel
      → (new : List Bucket) × (shift fuel bs (2 ^ k - 1) (p % 2 ^ k) ≡ some new)
        × Shifted k (set bs (p % 2 ^ k) blank) new
  shift_lem zero m p bs whole l h wide e enough = absurd (omega arith)
  shift_lem (suc fuel) zero p bs whole l h wide e enough =
      let dead : (at k bs (p + 1)).hash ≡ 0 =
        ap (λ c. c.hash) (sym (behind fuel p bs whole (omega arith) h))
        ∙ ap (λ x. (at k (set bs (p % 2 ^ k) blank) x).hash) {x = p + 1} {y = p + 1 + 0}
            (omega arith)
        ∙ e in
      shift-stops fuel p bs whole (omega arith) h (ground arith)
  shift_lem (suc fuel) (suc m) p bs whole l h wide e enough =
      elim (Bool-cases ((at k bs (p + 1)).hash == 0 || distance_at k bs (p + 1) == 0)) [
        | inl stop ↦ shift-stops fuel p bs whole (omega arith) h stop
        | inr on ↦
            let (live, pos) = both (at k bs (p + 1)).hash (distance_at k bs (p + 1)) on in
            let same = behind fuel p bs whole (omega arith) h in
            let live' : Live (at k (set bs (p % 2 ^ k) blank) (p + 1)) =
              subst Live (sym same) live in
            let pos' : 0 < distance_at k (set bs (p % 2 ^ k) blank) (p + 1) =
              subst (λ c. 0 < probe_distance c.hash ((p + 1) % 2 ^ k) (2 ^ k - 1)) (sym same) pos in
            let ne = apart k p (omega arith) in
            let mv = moved k p bs whole (omega arith) in
            let bs' = set bs (p % 2 ^ k) (at k bs (p + 1)) in
            let whole' : length bs' ≡ 2 ^ k = length-set bs (p % 2 ^ k) (at k bs (p + 1)) ∙ whole in
            let stale : Live (at k bs' (p + 1)) =
              subst Live (sym (at-set_ne k bs (at k bs (p + 1)) whole p (p + 1) ne)) live in
            let h' = moved-Hole k narrow p h mv ne two live' pos' in
            let (new, ran, w) =
              shift_lem fuel m (p + 1) bs' whole' stale h' (omega arith)
                (ap (λ c. c.hash)
                    (mv.off (p + 1 + 1 + m)
                      (far p (suc (suc m)) (omega arith) (omega arith) (omega arith))
                      (far (p + 1) (suc m) (omega arith) (omega arith) (omega arith)))
                  ∙ ap (λ x. (at k (set bs (p % 2 ^ k) blank) x).hash) {x = p + 1 + 1 + m}
                      {y = p + 1 + suc m} (omega arith)
                  ∙ e)
                (omega arith) in
            (
              new,
              shift-on k fuel p bs on ∙ ran,
              Shifted-Moved k narrow p (set bs (p % 2 ^ k) blank) (set bs' ((p + 1) % 2 ^ k) blank)
                  new h mv ne two live' pos'
                  (omega (
                    arith,
                    occupied-clear bs (p % 2 ^ k) (in_range bs p whole) l,
                    occupied-clear bs' ((p + 1) % 2 ^ k) (in_range bs' (p + 1) whole') stale,
                    unchanged bs (p % 2 ^ k) (at k bs (p + 1)) (in_range bs p whole) live l,
                  ))
                  w,
            )
      ]
    where
      both : (a b : ℕ) → (a == 0 || b == 0) ≡ false → (a ≢ 0) × (0 < b)
      both a b f = (ground arith, ground arith)

      far :
          (x d : ℕ)
          → 0 < d
          → d < 2 ^ k
          → p + 1 + 1 + m ≡ x + d
          → (p + 1 + 1 + m) % 2 ^ k ≢ x % 2 ^ k
      far x d pos lt e z = slots-ne (2 ^ k) x (p + 1 + 1 + m) (omega arith) (omega arith) (sym z)

      two : (p + 1 + 1) % 2 ^ k ≢ p % 2 ^ k
      two z = slots-ne (2 ^ k) p (p + 1 + 1) (omega arith) (omega arith) (sym z)

      in_range : (l : List Bucket) (x : ℕ) → length l ≡ 2 ^ k → x % 2 ^ k < length l
      in_range l x e = omega (arith, mod-lt x (one-le-pow2 k))

      unchanged :
          (l : List Bucket) (i : ℕ) (b : Bucket)
          → i < length l
          → Live b
          → Live (get_or l i blank)
          → occupied (set l i b) ≡ occupied l
      unchanged l i b lt lb lo = ground (arith, occupied-set l i b lt lb)
