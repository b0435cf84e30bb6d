-- ===== src/Sync/Rws.antt =====
-- src/sync/rws_lock.c: `n` threads that take the lock to read or to write, one atomic access at a time.
pub mod Holders
pub mod Moves
pub mod Exclusion
use libnumakit.Prelude.{
  ℕ, ◌+◌, ◌-◌, ◌%◌, ◌^◌, ◌<◌, ◌≡◌, Bool, true, false, ◌&&◌, ◌==◌, if◌then◌else◌, bit_and, bit_or,
}
use libnumakit.Sync.Threads.{update}

abbrev pub writer_active : ℕ
writer_active = 1

abbrev pub writer_waiting : ℕ
writer_waiting = 2

abbrev pub reader_incr : ℕ
reader_incr = 4

-- `~` in 32 bits.
abbrev pub not32 : ℕ → ℕ
not32 a = 2 ^ 32 - 1 - a

abbrev pub reader_mask : ℕ
reader_mask = not32 3

-- Where a thread stands: outside; in front of the load or of the compare-and-swap of the loop of
-- `nkit_rws_read_lock`, the latter with what it loaded; between `read_lock` and `read_unlock`; and
-- the same for writing.
pub data Pc : Type 0 where
  idle : Pc
  read_load : Pc
  read_swap : ℕ → Pc
  reading : Pc
  write_load : Pc
  write_swap : ℕ → Pc
  writing : Pc

-- After the load: on to the swap, or round the loop.
pub read_look : ℕ → Pc
read_look word =
    if bit_and word (bit_or writer_active writer_waiting) == 0 then read_swap word else read_load

pub read_locked : ℕ → ℕ
read_locked word = (word + reader_incr) % 2 ^ 32

pub read_unlock : ℕ → ℕ
read_unlock word = (word + 2 ^ 32 - reader_incr) % 2 ^ 32

unfoldable pub announce : ℕ → ℕ
announce word = bit_or word writer_waiting

unfoldable pub write_look : ℕ → Pc
write_look word =
    if bit_and word reader_mask == 0 && bit_and word writer_active == 0
    then write_swap word
    else write_load

unfoldable pub write_locked : ℕ → ℕ
write_locked word = bit_or (bit_and word (not32 writer_waiting)) writer_active

pub write_unlock : ℕ → ℕ
write_unlock word = bit_and word (not32 writer_active)

pub record State : Type 0 where
  pub word : ℕ
  pub pc : ℕ → Pc

abbrev pub start : State
start = record { word = 0; pc = λ _. idle }

-- One access of one thread. A weak compare-and-swap may fail whatever the word is.
pub data Step (n : ℕ) (s : State) : State → Type 0 where
  call_read : (i : ℕ) → i < n → s.pc i ≡ idle → Step n s (record s { pc = update s.pc i read_load })
  look_read :
      (i : ℕ)
      → i < n
      → s.pc i ≡ read_load
      → Step n s (record s { pc = update s.pc i (read_look s.word) })
  win_read :
      (i word : ℕ)
      → i < n
      → s.pc i ≡ read_swap word
      → s.word ≡ word
      → Step n s (record { word = read_locked word; pc = update s.pc i reading })
  lose_read :
      (i word : ℕ)
      → i < n
      → s.pc i ≡ read_swap word
      → Step n s (record s { pc = update s.pc i read_load })
  leave_read :
      (i : ℕ)
      → i < n
      → s.pc i ≡ reading
      → Step n s (record { word = read_unlock s.word; pc = update s.pc i idle })
  call_write :
      (i : ℕ)
      → i < n
      → s.pc i ≡ idle
      → Step n s (record { word = announce s.word; pc = update s.pc i write_load })
  look_write :
      (i : ℕ)
      → i < n
      → s.pc i ≡ write_load
      → Step n s (record s { pc = update s.pc i (write_look s.word) })
  win_write :
      (i word : ℕ)
      → i < n
      → s.pc i ≡ write_swap word
      → s.word ≡ word
      → Step n s (record { word = write_locked word; pc = update s.pc i writing })
  lose_write :
      (i word : ℕ)
      → i < n
      → s.pc i ≡ write_swap word
      → Step n s (record s { pc = update s.pc i write_load })
  leave_write :
      (i : ℕ)
      → i < n
      → s.pc i ≡ writing
      → Step n s (record { word = write_unlock s.word; pc = update s.pc i idle })

pub data Reach (n : ℕ) : State → Type 0 where
  begin : Reach n start
  next : {s t : State} → Reach n s → Step n s t → Reach n t
