-- ===== src/Sync/Rws/Moves.antt =====
-- Every access of every thread keeps the account of readers and writer.
use libnumakit.Prelude.{
  ℕ, ◌%◌, ◌^◌, ◌<◌, ◌≡◌, ◌⊎◌, inl, inr, true, false, List, [], ◌∷◌, length, arith, Option, none,
  some, refl, ap, ◌∙◌, sym, bit_or-two,
}
use mathlib.Core.Path.{subst}
use libnumakit.Sync.Threads.{
  update, member, erase, length-erase, member-erase_ne, member-erase_self, erase-Distinct,
  erase-Below, length-le_of_Below,
}
use libnumakit.Sync.Rws.{
  Pc, idle, read_load, read_swap, reading, write_load, write_swap, writing, read_look, read_locked,
  read_unlock, announce, write_look, write_locked, write_unlock, State, start, Step, call_read,
  look_read, win_read, lose_read, leave_read, call_write, look_write, win_write, lose_write,
  leave_write, Reach, begin, next,
}
use libnumakit.Sync.Rws.Holders.{
  is_reading, is_writing, is_writer, active, Checked, Held, mask_active, read_look-Checked,
  write_look-Checked, read_look_roles, write_look_roles,
}

module _ {n : ℕ} (few : n < 2 ^ 30) {s : State} {readers : List ℕ} {writer : Option ℕ}
    (v : Held n s readers writer) where
  active-le : (w : Option ℕ) → active w < 2
  active-le none = omega arith
  active-le (some _) = omega arith

  word_bound : s.word < 2 ^ 32
  word_bound = omega (
    arith,
    v.layout,
    v.one_bit,
    length-le_of_Below n readers v.distinct v.below,
    active-le writer,
    few,
  )

  -- A step that changes neither who reads nor who writes.
  moved :
      (i : ℕ) (p : Pc)
      → is_reading (s.pc i) ≡ is_reading p
      → is_writing (s.pc i) ≡ is_writing p
      → Checked p
      → Held n (record s { pc = update s.pc i p }) readers writer
  moved i p er ew c = record {
    distinct = v.distinct;
    below = v.below;
    waiting = v.waiting;
    one_bit = v.one_bit;
    layout = v.layout;
    alone = v.alone;
    reads = λ j. ground (arith, v.reads j);
    writes = λ j. ground (arith, v.writes j);
    checked = λ j. ground (arith, v.checked j);
  }

  announced :
      (i : ℕ)
      → s.pc i ≡ idle
      → Held n (record { word = announce s.word; pc = update s.pc i write_load }) readers writer
  unfolding announce
  announced i e = record {
    distinct = v.distinct;
    below = v.below;
    waiting = 1;
    one_bit = omega arith;
    layout = omega (arith, v.layout, v.one_bit, active-le writer, bit_or-two s.word);
    alone = v.alone;
    reads = λ j. ground (arith, v.reads j);
    writes = λ j. ground (arith, v.writes j);
    checked = λ j. ground (arith, v.checked j);
  }

  locked_to_read :
      (i word : ℕ)
      → i < n
      → s.pc i ≡ read_swap word
      → s.word ≡ word
      → Held n (record { word = read_locked word; pc = update s.pc i reading }) (i ∷ readers) writer
  unfolding read_locked
  locked_to_read i word lt e now = record {
    distinct = (not_reading, v.distinct);
    below = (lt, v.below);
    waiting = v.waiting;
    one_bit = v.one_bit;
    layout = omega (
      arith,
      v.layout,
      now,
      word_bound,
      free,
      v.one_bit,
      active-le writer,
      few,
      length-le_of_Below n (i ∷ readers) (not_reading, v.distinct) (lt, v.below),
    );
    alone = inl (nobody writer (omega (arith, v.layout, now, free, v.one_bit, active-le writer)));
    reads = λ j. ground (arith, v.reads j);
    writes = λ j. ground (arith, v.writes j);
    checked = λ j. ground (arith, v.checked j);
  }
    where
      nobody : (o : Option ℕ) → active o ≡ 0 → o ≡ none
      nobody none h = refl
      nobody (some k) h = absurd (omega (arith, h))

      free : word % 4 ≡ 0
      free = subst Checked e (v.checked i)

      not_reading : member i readers ≡ false
      not_reading = v.reads i ∙ ap is_reading e

  unlocked_reader :
      (i : ℕ)
      → s.pc i ≡ reading
      → Held n
          (record { word = read_unlock s.word; pc = update s.pc i idle })
          (erase i readers)
          writer
  unfolding read_unlock
  unlocked_reader i e = record {
    distinct = erase-Distinct i readers v.distinct;
    below = erase-Below n i readers v.below;
    waiting = v.waiting;
    one_bit = v.one_bit;
    layout =
        omega
          (arith, v.layout, word_bound, length-erase i readers there, v.one_bit, active-le writer);
    alone = inl (elim v.alone [
      | inl none_writes ↦ none_writes
      | inr no_readers ↦ absurd (nonempty readers there no_readers)
    ]);
    reads = λ j.
        ground
          (arith, v.reads j, member-erase_ne i j readers, member-erase_self i readers v.distinct);
    writes = λ j. ground (arith, v.writes j);
    checked = λ j. ground (arith, v.checked j);
  }
    where
      there : member i readers ≡ true
      there = v.reads i ∙ ap is_reading e

      nonempty : (q : List ℕ) → member i q ≡ true → q ≡ [] → ⊥
      nonempty q h z = cc

  locked_to_write :
      (i word : ℕ)
      → s.pc i ≡ write_swap word
      → s.word ≡ word
      → Held n (record { word = write_locked word; pc = update s.pc i writing }) readers (some i)
  unfolding write_locked
  locked_to_write i word e now = record {
    distinct = v.distinct;
    below = v.below;
    waiting = 0;
    one_bit = omega arith;
    layout = elim free [
      | inl zero_word ↦ rw (zero_word, no_readers) refl
      | inr only_waiting ↦ rw (only_waiting, no_readers) refl
    ];
    alone = inr no_readers;
    reads = λ j. ground (arith, v.reads j);
    writes = λ j. ground (arith, no_writer, v.writes j);
    checked = λ j. ground (arith, v.checked j);
  }
    where
      free : (word ≡ 0) ⊎ (word ≡ 2)
      free = subst Checked e (v.checked i)

      few_bits : (w : ℕ) → (w ≡ 0) ⊎ (w ≡ 2) → w < 4
      few_bits w (inl h) = omega arith
      few_bits w (inr h) = omega arith

      empty : (q : List ℕ) → length q ≡ 0 → q ≡ []
      empty [] h = refl
      empty (k ∷ q) h = absurd (omega (arith, h))

      nobody : (o : Option ℕ) → active o ≡ 0 → o ≡ none
      nobody none h = refl
      nobody (some k) h = absurd (omega (arith, h))

      even : (w : ℕ) → (w ≡ 0) ⊎ (w ≡ 2) → w % 2 ≡ 0
      even w (inl h) = omega arith
      even w (inr h) = omega arith

      no_readers : readers ≡ []
      no_readers = empty readers (omega (arith, v.layout, now, few_bits word free))

      no_writer : writer ≡ none
      no_writer = nobody writer (omega (arith, v.layout, now, even word free, active-le writer))

  unlocked_writer :
      (i : ℕ)
      → s.pc i ≡ writing
      → Held n (record { word = write_unlock s.word; pc = update s.pc i idle }) readers none
  unfolding write_unlock
  unlocked_writer i e = record {
    distinct = v.distinct;
    below = v.below;
    waiting = v.waiting;
    one_bit = v.one_bit;
    layout = omega (arith, mask_active s.word word_bound, v.layout, v.one_bit, active-le writer);
    alone = inl refl;
    reads = λ j. ground (arith, v.reads j);
    writes = λ j. ground (arith, itself writer, v.writes i, v.writes j);
    checked = λ j. ground (arith, v.checked j);
  }
    where
      itself : (o : Option ℕ) → is_writer i o ≡ true → o ≡ some i
      itself none h = cc
      itself (some k) h = ground arith

pub Step-Held :
    {n : ℕ} {s t : State} {readers : List ℕ} {writer : Option ℕ}
    → n < 2 ^ 30
    → Held n s readers writer
    → Step n s t
    → (readers' : List ℕ) × (writer' : Option ℕ) × Held n t readers' writer'
Step-Held {readers = q} {writer = o} few v (call_read i lt e) =
    (q, o, moved few v i read_load (ap is_reading e) (ap is_writing e) tt)
Step-Held {s = s} {readers = q} {writer = o} few v (look_read i lt e) = (
  q,
  o,
  moved few v i (read_look s.word) (ap is_reading e ∙ sym (read_look_roles s.word).0)
      (ap is_writing e ∙ sym (read_look_roles s.word).1) (read_look-Checked s.word),
)
Step-Held {readers = q} {writer = o} few v (win_read i word lt e now) =
    (i ∷ q, o, locked_to_read few v i word lt e now)
Step-Held {readers = q} {writer = o} few v (lose_read i word lt e) =
    (q, o, moved few v i read_load (ap is_reading e) (ap is_writing e) tt)
Step-Held {readers = q} {writer = o} few v (leave_read i lt e) =
    (erase i q, o, unlocked_reader few v i e)
Step-Held {readers = q} {writer = o} few v (call_write i lt e) = (q, o, announced few v i e)
Step-Held {s = s} {readers = q} {writer = o} few v (look_write i lt e) = (
  q,
  o,
  moved few v i (write_look s.word) (ap is_reading e ∙ sym (write_look_roles s.word).0)
      (ap is_writing e ∙ sym (write_look_roles s.word).1)
      (write_look-Checked s.word (word_bound few v)),
)
Step-Held {readers = q} {writer = o} few v (win_write i word lt e now) =
    (q, some i, locked_to_write few v i word e now)
Step-Held {readers = q} {writer = o} few v (lose_write i word lt e) =
    (q, o, moved few v i write_load (ap is_reading e) (ap is_writing e) tt)
Step-Held {readers = q} {writer = o} few v (leave_write i lt e) =
    (q, none, unlocked_writer few v i e)

start-Held : (n : ℕ) → Held n start [] none
start-Held n = record {
  distinct = tt;
  below = tt;
  waiting = 0;
  one_bit = omega arith;
  layout = refl;
  alone = inl refl;
  reads = λ i. refl;
  writes = λ i. refl;
  checked = λ i. tt;
}

pub Reach-Held :
    {n : ℕ} {s : State}
    → n < 2 ^ 30
    → Reach n s
    → (readers : List ℕ) × (writer : Option ℕ) × Held n s readers writer
Reach-Held {n} few begin = ([], none, start-Held n)
Reach-Held few (next r st) = let (_, _, v) = Reach-Held few r in Step-Held few v st
