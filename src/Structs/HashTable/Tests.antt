-- ===== src/Structs/HashTable/Tests.antt =====
-- A hash table built by the code, and its theorems there.
use libnumakit.Prelude.{
  align_up, Bool, ℕ, zero, suc, ap, sym, ◌∙◌, ◌==◌, ◌&&◌, if◌then◌else◌, ◌⊎◌, inl, inr, ◌+◌, ◌%◌,
  ◌<◌, ◌≡◌, ◌≢◌, refl, true, false, Option, none, some, List, [], ◌∷◌, arith, replicate, get_or,
}
use libnumakit.Memory.Os.{Os, World}
use libnumakit.Memory.Arena
use libnumakit.Memory.Arena.{Arena}
use libnumakit.Structs.HashTable.{
  Bucket, HashTable, blank, fnv1a, fnv1a_loop, probe_distance, keys_equal, put_internal, put_loop,
  put_round, entry, find, get, remove, shift, put, resize, resize_into, rehash, make_buckets,
  next_power_of_2, create, destroy,
}
use libnumakit.Structs.HashTable.Lookup.{RobinHood, Matches}
use libnumakit.Structs.HashTable.Content.{IsTable}
use libnumakit.Structs.HashTable.Resize.{Resized, resize_lem}
use libnumakit.Structs.HashTable.Remove.{present, get-remove}

abbrev roomy : Os
roomy = record {
  malloc = λ _ _. 64;
  mmap = λ _ _ _. 4194304;
  numa_alloc = λ _ _ _. 8192;
  mbind = λ _ _ _. true;
  madvise = λ _ _. true;
  page_size = 4096;
  numa_available = true;
}

abbrev some_arena : Arena
some_arena = record {
  addr = 64;
  base = 4096;
  size = 2097152;
  used = 0;
  node_id = 0;
  use_huge = true;
  policy = none;
}

abbrev table : List Bucket → ℕ → HashTable
table buckets count = record {
  addr = 64;
  buckets = buckets;
  capacity = 4;
  mask = 3;
  count = count;
  arena = some_arena;
  node_id = 0;
}

abbrev put_two : Option HashTable → Option HashTable
put_two none = none
put_two (some t) = put_internal 4 t (entry (98 ∷ []) 8) false

abbrev two_keys : Option HashTable
two_keys = put_two (put_internal 4 (table (replicate 4 blank) 0) (entry (97 ∷ []) 7) false)

abbrev lookups : Option HashTable → Option (Option ℕ) × Option (Option ℕ) × Option (Option ℕ)
lookups none = (none, none, none)
lookups (some t) = (get 5 t (97 ∷ []), get 5 t (98 ∷ []), get 5 t (99 ∷ []))

two_lookups : lookups two_keys ≡ (some (some 7), some (some 8), some none)
unfolding get find put_internal put_loop put_round fnv1a fnv1a_loop probe_distance keys_equal
two_lookups = refl

-- Two keys with the same home, bucket 0: the second is one bucket away from it.
abbrev two_buckets : List Bucket
two_buckets =
    record { hash = 12638187200555641996; key = 97 ∷ []; value = 7 }
    ∷ record { hash = 12638182802509129152; key = 101 ∷ []; value = 8 }
    ∷ blank
    ∷ blank
    ∷ []

abbrev collided : HashTable
collided = table two_buckets 2

abbrev put_other : Option HashTable → Option HashTable
put_other none = none
put_other (some t) = put_internal 4 t (entry (101 ∷ []) 8) false

collided_put :
    put_other (put_internal 4 (table (replicate 4 blank) 0) (entry (97 ∷ []) 7) false)
    ≡ some collided
unfolding put_internal put_loop put_round fnv1a fnv1a_loop probe_distance keys_equal
collided_put = refl

at_slots :
    (s : ℕ)
    → s < 4
    → (get_or two_buckets s blank).hash ≢ 0
    → ((s ≡ 0) × (probe_distance (get_or two_buckets s blank).hash s 3 ≡ 0))
      ⊎ ((s ≡ 1) × (probe_distance (get_or two_buckets s blank).hash s 3 ≡ 1))
unfolding probe_distance
at_slots zero lt h = inl (refl, refl)
at_slots (suc zero) lt h = inr (refl, refl)
at_slots (suc (suc zero)) lt h = absurd (h refl)
at_slots (suc (suc (suc zero))) lt h = absurd (h refl)
at_slots (suc (suc (suc (suc s)))) lt h = absurd (omega arith)

collided-RobinHood : RobinHood 2 two_buckets
unfolding probe_distance
collided-RobinHood p h pos = elim (at_slots ((p + 1) % 4) (omega arith) h) [
  | inl home ↦ absurd (omega (arith, home.1, pos))
  | inr away ↦
      let before : p % 4 ≡ 0 = omega (arith, away.0) in
      (
        (λ z. full (sym (ap (λ s. (get_or two_buckets s blank).hash) before) ∙ z)),
        omega (arith, away.1),
      )
]
  where
    full : ◌≢◌ {A = ℕ} 12638187200555641996 0
    full z = omega (arith, z)

match_slots :
    (s : ℕ)
    → s < 4
    → ((get_or two_buckets s blank).hash == fnv1a (101 ∷ [])
        && keys_equal (get_or two_buckets s blank).key (101 ∷ []))
      ≡ true
    → s ≡ 1
unfolding keys_equal fnv1a fnv1a_loop
match_slots zero lt h = cc
match_slots (suc zero) lt h = refl
match_slots (suc (suc zero)) lt h = cc
match_slots (suc (suc (suc zero))) lt h = cc
match_slots (suc (suc (suc (suc s)))) lt h = absurd (omega arith)

found_101 : Matches 2 two_buckets (fnv1a (101 ∷ [])) (101 ∷ []) 1
unfolding keys_equal fnv1a fnv1a_loop
found_101 = refl

hashes :
    (s : ℕ)
    → s < 4
    → (get_or two_buckets s blank).hash ≢ 0
    → (get_or two_buckets s blank).hash ≡ fnv1a (get_or two_buckets s blank).key
unfolding fnv1a fnv1a_loop
hashes zero lt h = refl
hashes (suc zero) lt h = refl
hashes (suc (suc zero)) lt h = absurd (h refl)
hashes (suc (suc (suc zero))) lt h = absurd (h refl)
hashes (suc (suc (suc (suc s)))) lt h = absurd (omega arith)

abbrev first : List ℕ → ℕ
first [] = 0
first (b ∷ key) = b

one_key :
    (s r : ℕ)
    → (s ≡ 0) ⊎ (s ≡ 1)
    → (r ≡ 0) ⊎ (r ≡ 1)
    → (get_or two_buckets s blank).key ≡ (get_or two_buckets r blank).key
    → s ≡ r
one_key s r (inl es) (inl er) e = es ∙ sym er
one_key s r (inr es) (inr er) e = es ∙ sym er
one_key s r (inl es) (inr er) e =
    let clash : ◌≡◌ {A = List ℕ} (97 ∷ []) (101 ∷ []) =
      sym (ap (λ x. (get_or two_buckets x blank).key) es)
      ∙ e
      ∙ ap (λ x. (get_or two_buckets x blank).key) er in
    absurd (omega (arith, ap first clash))
one_key s r (inr es) (inl er) e =
    let clash : ◌≡◌ {A = List ℕ} (101 ∷ []) (97 ∷ []) =
      sym (ap (λ x. (get_or two_buckets x blank).key) es)
      ∙ e
      ∙ ap (λ x. (get_or two_buckets x blank).key) er in
    absurd (omega (arith, ap first clash))

taken_slots : (s : ℕ) → s < 4 → (get_or two_buckets s blank).hash ≢ 0 → (s ≡ 0) ⊎ (s ≡ 1)
taken_slots s lt h = elim (at_slots s lt h) [ inl e ↦ inl e.0 | inr e ↦ inr e.0 ]

collided-IsTable : IsTable 2 collided
collided-IsTable = record {
  narrow = omega arith;
  capacity = refl;
  mask = refl;
  tidy = record {
    whole = refl;
    robin = collided-RobinHood;
    hashed = λ p. hashes (p % 4) (omega arith);
    unique = λ p q lp lq.
        one_key (p % 4) (q % 4) (taken_slots (p % 4) (omega arith) lp)
          (taken_slots (q % 4) (omega arith) lq);
  };
  counted = refl;
}

get-remove_example :
    (t' : HashTable) × (remove 9 collided (97 ∷ []) ≡ some (present (get 9 collided (97 ∷ [])), t'))
    × IsTable 2 t'
    × (t'.count + (if present (get 9 collided (97 ∷ [])) then 1 else 0) ≡ 2)
    × ((c : ℕ) (key' : List ℕ)
        → get 9 t' (c ∷ key')
          ≡ (if keys_equal (c ∷ key') (97 ∷ []) then some none else get 9 collided (c ∷ key')))
get-remove_example = get-remove 9 collided-IsTable (omega arith) 97 [] (omega arith)

resize_lem_example :
    (k' : ℕ) × (t' : HashTable) × (w' : World) × (resize roomy 9 collided [] ≡ some (t', w'))
    × Resized 2 collided k' t'
resize_lem_example = resize_lem roomy 9 [] collided-IsTable (omega arith) (omega arith)

-- Removing the first of the two moves the second back to its home.
abbrev value_after : Option (Bool × HashTable) → Option (Option ℕ)
value_after none = none
value_after (some (b, t)) = get 5 t (101 ∷ [])

remove-get : value_after (remove 5 collided (97 ∷ [])) ≡ some (some 8)
unfolding get find fnv1a fnv1a_loop probe_distance keys_equal remove shift
remove-get = refl

-- A full table grows before it takes a key.
abbrev capacity_after : Option (Bool × HashTable × World) → ℕ
capacity_after none = 0
capacity_after (some (b, t, w)) = t.capacity

put-resize : capacity_after (put roomy 9 (record collided { count = 3 }) (98 ∷ []) 9 []) ≡ 8
unfolding put resize resize_into rehash make_buckets put_internal put_loop put_round fnv1a
    fnv1a_loop probe_distance keys_equal Arena.create Arena.alloc Arena.destroy align_up
put-resize = refl

powers : (next_power_of_2 17 ≡ 32) × (next_power_of_2 64 ≡ 64)
unfolding next_power_of_2
powers = (refl, refl)

abbrev left_over : Option HashTable × World → World
left_over (none, w) = w
left_over (some t, w) = destroy t w

create-destroy : left_over (create roomy 1 3 []) ≡ []
unfolding create destroy make_buckets next_power_of_2 Arena.create Arena.alloc Arena.destroy
    align_up
create-destroy = refl
