-- ===== src/Memory/Arena/Lifetime.antt =====
-- nkit_arena_create and nkit_arena_destroy: what is acquired and given back.
use libnumakit.Prelude.{
  ℕ, ◌+◌, ◌≤◌, ◌<◌, ◌^◌, ◌%◌, ◌≡◌, ◌≢◌, Bool, Option, none, some, ◌∷◌, arith, align_up,
  align_up_huge,
}
use mathlib.Core.Path.{subst, sym, ◌∙◌}
use libnumakit.Memory.Os.{Os, World, heap, mapping, release, same_self, map_failed}
use libnumakit.Memory.Arena.{Arena, sizeof_arena, huge_page_size, create, destroy}

-- What a call of `create` may leave behind.
abbrev pub Created : Os → ℕ → World → Option Arena × World → Type 0
Created os size w (none, w') = w' ≡ w
Created os size w (some a, w') =
    (w' ≡ mapping a.base a.size ∷ heap a.addr sizeof_arena ∷ w)
    × (a.base ≢ map_failed)
    × (a.used ≡ 0)
    × (a.size ≡ align_up size huge_page_size)
    × (a.base ≡ os.mmap (heap a.addr sizeof_arena ∷ w) a.size a.use_huge)

pub create-Created :
    (os : Os) (node size : ℕ) (w : World) → Created os size w (create os node size w)
unfolding create
create-Created os node size w = ground arith

release_self : (r : _) (w : World) → release r (r ∷ w) ≡ w
release_self r w = rw (same_self r)

-- For sizes below 2^64 - 2^21, an arena has at least the size asked for, less than a huge page
-- more, and a whole number of huge pages.
pub create-size :
    (os : Os) (node size : ℕ) (w w' : World) (a : Arena)
    → size + 2097151 < 2 ^ 64
    → create os node size w ≡ (some a, w')
    → (size ≤ a.size) × (a.size < size + 2097152) × (a.size % 2097152 ≡ 0)
create-size os node size w w' a fits e =
    let c : Created os size w (some a, w') =
      subst (Created os size w) e (create-Created os node size w) in
    omega (arith, c.3, align_up_huge size fits)

pub destroy_lem :
    (a : Arena) (w : World)
    → a.base ≢ 0
    → a.base ≢ map_failed
    → destroy a (mapping a.base a.size ∷ heap a.addr sizeof_arena ∷ w) ≡ w
unfolding destroy
destroy_lem a w nonzero mapped = ground arith

-- When the kernel maps nothing at 0, `destroy` of an arena gives back what `create` acquired, and
-- nothing else.
pub destroy-create :
    (os : Os) (node size : ℕ) (w w' : World) (a : Arena)
    → ((w : World) (n : ℕ) (h : Bool) → os.mmap w n h ≢ 0)
    → create os node size w ≡ (some a, w')
    → destroy a w' ≡ w
destroy-create os node size w w' a mapped e =
    let c : Created os size w (some a, w') =
      subst (Created os size w) e (create-Created os node size w) in
    rw c.0 (
      destroy_lem a w (λ z. mapped (heap a.addr sizeof_arena ∷ w) a.size a.use_huge (sym c.4 ∙ z))
        c.1)
