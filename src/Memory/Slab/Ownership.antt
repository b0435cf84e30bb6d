-- ===== src/Memory/Slab/Ownership.antt =====
-- nkit_slab_alloc and nkit_slab_free: who owns which block.
use libnumakit.Prelude.{
  ℕ, ◌+◌, ◌^◌, ◌≡◌, ◌≢◌, suc, Option, none, some, List, [], ◌∷◌, ◌++◌, length, length-append, arith,
  ◌∙◌, ap, sym, refl,
}
use mathlib.Core.List as List
use mathlib.Core.List.{Perm, Nodup, perm_middle, append_assoc, Nodup-append}
use mathlib.Core.Path.{subst}
use native.Mathlib.Bridge.{from_ℕ}
use mathlib.Core.List.Perm
use libnumakit.Structs.Ring.{first_try}
use libnumakit.Structs.Ring.Queue.{Holds, push_room, pop_empty, pop_cons}
use libnumakit.Memory.Slab.{Slab, alloc, free}

-- The slab's free list and the blocks that its clients hold are together the blocks `all`, each once.
pub record Owned (k : ℕ) (all out : List ℕ) (s : Slab) : Type 0 where
  pub free_list : List ℕ
  pub holds : Holds k free_list s.freelist
  pub all_there : Perm (free_list ++ out) all
  pub enough : length all ≡ 2 ^ k

from-length {ℓ} : {A : Type ℓ} (xs : List A) → from_ℕ (List.length xs) ≡ length xs
from-length [] = refl
from-length (x ∷ xs) = ap suc (from-length xs)

length-perm : {xs ys : List ℕ} → Perm xs ys → length xs ≡ length ys
length-perm {xs} {ys} p = sym (from-length xs) ∙ ap from_ℕ (Perm.length-eq p) ∙ from-length ys

counts :
    {k : ℕ} {all out : List ℕ} {s : Slab} (o : Owned k all out s)
    → length o.free_list + length out ≡ 2 ^ k
counts {out = out} o = sym (length-append o.free_list out) ∙ length-perm o.all_there ∙ o.enough

-- What `alloc` may come to: a block that passes to the client, or NULL with every block handed out.
abbrev pub Allocated : ℕ → List ℕ → List ℕ → Option ℕ → Slab → Type 0
Allocated k all out none s' = Owned k all out s' × (length out ≡ 2 ^ k)
Allocated k all out (some p) s' = Owned k all (p ∷ out) s'

alloc_from :
    (k : ℕ) (all out free_list : List ℕ) (s : Slab)
    → Holds k free_list s.freelist
    → Perm (free_list ++ out) all
    → length all ≡ 2 ^ k
    → (o : Option ℕ) × (s' : Slab) × (alloc s ≡ some (o, s')) × Allocated k all out o s'
unfolding alloc
alloc_from k all out [] s holds there enough =
    let (ring, ran, holds', place) = pop_empty first_try refl holds in
    (
      none,
      record s { freelist = ring },
      ground arith,
      (
        record { free_list = []; holds = holds'; all_there = there; enough = enough },
        length-perm there ∙ enough,
      ),
    )
alloc_from k all out (p ∷ q) s holds there enough =
    let (ring, ran, holds', place) = pop_cons first_try refl p q holds in
    (
      some p,
      record s { freelist = ring },
      ground arith,
      record {
        free_list = q;
        holds = holds';
        all_there = Perm.trans (perm_middle q out) there;
        enough = enough;
      },
    )

-- `alloc` on a slab whose free list and whose held blocks make up all its blocks always returns:
-- with a block that passes from the free list to the held ones, or with NULL when all `2 ^ k`
-- blocks are held.
pub alloc-Allocated :
    {k : ℕ} {all out : List ℕ} {s : Slab}
    → Owned k all out s
    → (o : Option ℕ) × (s' : Slab) × (alloc s ≡ some (o, s')) × Allocated k all out o s'
alloc-Allocated {k} {all} {out} {s} o =
    alloc_from k all out o.free_list s o.holds o.all_there o.enough

-- `free` of a block that the caller holds, other than NULL, always returns, and the block passes
-- from the held ones back to the free list.
pub free-Owned :
    {k : ℕ} {all out : List ℕ} {s : Slab} (p : ℕ)
    → p ≢ 0
    → Owned k all (p ∷ out) s
    → (s' : Slab) × (free s p ≡ some s') × Owned k all out s'
unfolding free
free-Owned {k} {all} {out} {s} p nonzero o =
    let (ring, ran, holds', place) =
      push_room first_try refl o.free_list p o.holds (omega (arith, counts o)) in
    (
      record s { freelist = ring },
      ground arith,
      record {
        free_list = o.free_list ++ p ∷ [];
        holds = holds';
        all_there = rw append_assoc o.all_there;
        enough = o.enough;
      },
    )

Owned-Nodup : {k : ℕ} {all out : List ℕ} {s : Slab} → Owned k all out s → Nodup all → Nodup out
Owned-Nodup o distinct = (Nodup-append.0 ((Perm.Nodup-iff o.all_there).1 distinct)).1

Allocated-Nodup :
    (k : ℕ) (all out : List ℕ) (o : Option ℕ) (s' : Slab) (p : ℕ)
    → Allocated k all out o s'
    → Nodup all
    → o ≡ some p
    → Nodup (p ∷ out)
Allocated-Nodup k all out none s' p a distinct e = cc
Allocated-Nodup k all out (some q) s' p a distinct e =
    let same : q ≡ p = cc in subst (λ t. Nodup (t ∷ out)) same (Owned-Nodup a distinct)

-- When the blocks of a slab are distinct, a block that `alloc` returns is none of those that are
-- held, which are distinct themselves.
pub alloc-Nodup :
    {k : ℕ} {all out : List ℕ} {s s' : Slab} {p : ℕ}
    → Owned k all out s
    → Nodup all
    → alloc s ≡ some (some p, s')
    → Nodup (p ∷ out)
alloc-Nodup {k} {all} {out} {s} {s'} {p} o distinct e =
    let (b, s'', ran, a) = alloc-Allocated o in
    let same : b ≡ some p = cc (sym ran ∙ e) in Allocated-Nodup k all out b s'' p a distinct same
