-- ===== src/Sync/Rws/Holders.antt =====
-- Who holds the reader-writer lock, read off its word.
use libnumakit.Prelude.{
  ℕ, ◌+◌, ◌*◌, ◌/◌, ◌%◌, ◌^◌, ◌<◌, ◌≡◌, ◌≢◌, ◌⊎◌, inl, inr, Bool, true, false, List, [], length,
  arith, ◌==◌, Option, none, some, Bool-cases, bit_and, bit_and-ones, bit_and-clear,
}
use libnumakit.Sync.Threads.{member, Distinct, Below}
use libnumakit.Sync.Rws.{Pc, read_swap, reading, write_swap, writing, read_look, write_look, State}

abbrev pub is_reading : Pc → Bool
is_reading reading = true
is_reading _ = false

abbrev pub is_writing : Pc → Bool
is_writing writing = true
is_writing _ = false

abbrev pub is_writer : ℕ → Option ℕ → Bool
is_writer i none = false
is_writer i (some j) = i == j

abbrev pub active : Option ℕ → ℕ
active none = 0
active (some _) = 1

-- What a thread has checked of the word it is about to swap.
abbrev pub Checked : Pc → Type 0
Checked (read_swap word) = word % 4 ≡ 0
Checked (write_swap word) = (word ≡ 0) ⊎ (word ≡ 2)
Checked _ = Unit

-- The readers and the writer, and the word that goes with them.
pub record Held (n : ℕ) (s : State) (readers : List ℕ) (writer : Option ℕ) : Type 0 where
  pub distinct : Distinct readers
  pub below : Below n readers
  pub waiting : ℕ
  pub one_bit : waiting < 2
  pub layout : s.word ≡ 4 * length readers + 2 * waiting + active writer
  pub alone : (writer ≡ none) ⊎ (readers ≡ [])
  pub reads : (i : ℕ) → member i readers ≡ is_reading (s.pc i)
  pub writes : (i : ℕ) → is_writer i writer ≡ is_writing (s.pc i)
  pub checked : (i : ℕ) → Checked (s.pc i)

-- The masks.
pub mask_readers : (a : ℕ) → a < 2 ^ 32 → bit_and a 4294967292 ≡ a / 4 * 4
mask_readers a h = bit_and-clear 32 2 30 a (omega arith) h

pub mask_active : (a : ℕ) → a < 2 ^ 32 → bit_and a 4294967294 ≡ a / 2 * 2
mask_active a h = bit_and-clear 32 1 31 a (omega arith) h

pub read_look-Checked : (word : ℕ) → Checked (read_look word)
unfolding read_look
read_look-Checked word = elim (Bool-cases (bit_and word 3 == 0)) [
  | inl free ↦ rw free (omega (arith, bit_and-ones 2 word, zero_of free))
  | inr taken ↦ rw taken tt
]
  where
    zero_of : (bit_and word 3 == 0) ≡ true → bit_and word 3 ≡ 0
    zero_of h = ground arith

pub write_look-Checked : (word : ℕ) → word < 2 ^ 32 → Checked (write_look word)
unfolding write_look
write_look-Checked word h = elim (Bool-cases (bit_and word 4294967292 == 0)) [
  | inr readers ↦ rw readers tt
  | inl no_readers ↦ elim (Bool-cases (bit_and word 1 == 0)) [
    | inr another ↦ rw (no_readers, another) tt
    | inl no_writer ↦
        rw (no_readers, no_writer)
          (two_words word (mask_readers word h) (bit_and-ones 1 word)
            (zero_of (bit_and word 4294967292) no_readers) (zero_of (bit_and word 1) no_writer))
  ]
]
  where
    zero_of : (a : ℕ) → (a == 0) ≡ true → a ≡ 0
    zero_of a h = ground arith

    two_words : (w : ℕ) {m k : ℕ} → m ≡ w / 4 * 4 → k ≡ w % 2 → m ≡ 0 → k ≡ 0 → (w ≡ 0) ⊎ (w ≡ 2)
    two_words w em ek zm zk = elim (Bool-cases (w == 0)) [
      | inl h ↦ inl (zero_of w h)
      | inr h ↦ let ne : w ≢ 0 = ground arith in inr (omega arith)
    ]

pub read_look_roles :
    (word : ℕ) → (is_reading (read_look word) ≡ false) × (is_writing (read_look word) ≡ false)
unfolding read_look
read_look_roles word = ground arith

pub write_look_roles :
    (word : ℕ) → (is_reading (write_look word) ≡ false) × (is_writing (write_look word) ≡ false)
unfolding write_look
write_look_roles word = ground arith
