-- ===== src/Sync/Rws/Exclusion.antt =====
-- What the reader-writer lock promises: a writer is alone, and a lock that nobody holds can be had.
use libnumakit.Prelude.{
  ℕ, zero, suc, ◌*◌, ◌^◌, ◌<◌, ◌≡◌, ◌⊎◌, inl, inr, true, false, List, [], ◌∷◌, length, arith,
  Option, none, some, refl, ap, ◌∙◌,
}
use libnumakit.Sync.Threads.{member}
use libnumakit.Sync.Rws.{reading, writing, write_swap, write_look, State, Reach}
use libnumakit.Sync.Rws.Holders.{is_reading, is_writing, is_writer, active}
use libnumakit.Sync.Rws.Moves.{Reach-Held}

-- In every state that fewer than 2^30 threads reach, a thread that holds the reader-writer lock to
-- write is the only one that holds it, to read or to write.
pub write_exclusion :
    {n : ℕ} {s : State}
    → n < 2 ^ 30
    → Reach n s
    → (i j : ℕ) → s.pc i ≡ writing
    → (s.pc j ≡ reading) ⊎ (s.pc j ≡ writing)
    → i ≡ j
write_exclusion {s = s} few r i j hi hj =
    let (q, o, v) = Reach-Held few r in
    exclusive q o v.alone (v.writes i ∙ ap is_writing hi) (roles q o (v.reads j) (v.writes j) hj)
  where
    roles :
        (q : List ℕ) (o : Option ℕ)
        → member j q ≡ is_reading (s.pc j)
        → is_writer j o ≡ is_writing (s.pc j)
        → (s.pc j ≡ reading) ⊎ (s.pc j ≡ writing)
        → (member j q ≡ true) ⊎ (is_writer j o ≡ true)
    roles q o er ew (inl h) = inl (er ∙ ap is_reading h)
    roles q o er ew (inr h) = inr (ew ∙ ap is_writing h)

    exclusive :
        (q : List ℕ) (o : Option ℕ)
        → (o ≡ none) ⊎ (q ≡ [])
        → is_writer i o ≡ true
        → (member j q ≡ true) ⊎ (is_writer j o ≡ true)
        → i ≡ j
    exclusive q none alone hi hj = cc
    exclusive q (some k) alone hi hj = ground arith

-- In every state that fewer than 2^30 threads reach and in which nobody reads or writes, the next
-- look of a waiting writer lets it go on to its swap.
pub free_lock :
    {n : ℕ} {s : State}
    → n < 2 ^ 30
    → Reach n s
    → ((i : ℕ) → is_reading (s.pc i) ≡ false)
    → ((i : ℕ) → is_writing (s.pc i) ≡ false)
    → write_look s.word ≡ write_swap s.word
unfolding write_look
free_lock {s = s} few r no_readers no_writers =
    let (q, o, v) = Reach-Held few r in
    looks s.word v.waiting v.one_bit (
      omega (
        arith,
        v.layout,
        nobody_in q (λ i. v.reads i ∙ no_readers i),
        nobody o (λ i. v.writes i ∙ no_writers i),
      ))
  where
    nobody_in : (q : List ℕ) → ((i : ℕ) → member i q ≡ false) → length q ≡ 0
    nobody_in [] h = refl
    nobody_in (k ∷ q) h = let out = h k in ground arith

    nobody : (o : Option ℕ) → ((i : ℕ) → is_writer i o ≡ false) → active o ≡ 0
    nobody none h = refl
    nobody (some k) h = let out = h k in ground arith

    looks : (w b : ℕ) → b < 2 → w ≡ 2 * b → write_look w ≡ write_swap w
    looks w zero lt e = rw e refl
    looks w (suc zero) lt e = rw e refl
    looks w (suc (suc b)) lt e = absurd (omega arith)
