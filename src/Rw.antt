-- ===== src/Rw.antt =====
-- EX03-07_rw and EX03-08_sem: processes that each write a byte into one file and read it back, with no
-- lock and under a semaphore. A process that ends gives back what it holds of the semaphore (SEM_UNDO).
pub mod Invariant
pub mod Unlocked
use edge_embedded_linux.Common.{
  ℕ, zero, suc, ◌≡◌, ◌≢◌, ◌+◌, ◌-◌, ◌%◌, ◌<◌, Bool, true, false, Option, none, some, ◌==◌,
  if◌then◌else◌,
}

abbrev pub loop_count : ℕ
loop_count = 50

-- 'A'
abbrev pub first_byte : ℕ
first_byte = 65

-- Where a process stands in its loop.
pub data Pc : Type 0 where
  idle : Pc  -- at the test of the loop
  entered : Pc  -- before the byte is written
  wrote : Pc  -- before it is read back
  same : Pc  -- the comparison has passed
  differs : Pc  -- "not same" is printed
  ended : Pc

pub record Process : Type 0 where
  pub pc : Pc
  pub i : ℕ
  pub c1 : ℕ

-- The semaphore and the first byte of the file, `none` while there is none.
pub record Shared : Type 0 where
  pub sem : ℕ
  pub byte : Option ℕ

abbrev pub to : Process → Pc → Process
to p pc = record p { pc = pc }

-- `c1++` and `i++`.
abbrev pub next_round : Process → Process
next_round p = record { pc = idle; i = p.i + 1; c1 = (p.c1 + 1) % 256 }

-- What both programs do from the first open() to the comparison. open() never truncates, so that the
-- byte is replaced.
pub data Work (m : Shared) (p : Process) : Shared → Process → Type 0 where
  write : p.pc ≡ entered → Work m p (record m { byte = some p.c1 }) (to p wrote)
  read_same : p.pc ≡ wrote → m.byte ≡ some p.c1 → Work m p m (to p same)
  read_other : {c2 : ℕ} → p.pc ≡ wrote → m.byte ≡ some c2 → c2 ≢ p.c1 → Work m p m (to p differs)

-- EX03-08_sem. A call that fails, or the comparison, ends the process.
pub data Locked (m : Shared) (p : Process) : Shared → Process → Type 0 where
  take :
      p.pc ≡ idle
      → p.i < loop_count
      → 0 < m.sem
      → Locked m p (record m { sem = m.sem - 1 }) (to p entered)
  no_semop : p.pc ≡ idle → Locked m p m (to p ended)
  leave : p.pc ≡ idle → p.i ≡ loop_count → Locked m p m (to p ended)
  work : {m' : Shared} {p' : Process} → Work m p m' p' → Locked m p m' p'
  no_write : p.pc ≡ entered → Locked m p (record m { sem = m.sem + 1 }) (to p ended)
  no_read : p.pc ≡ wrote → Locked m p (record m { sem = m.sem + 1 }) (to p ended)
  not_same : p.pc ≡ differs → Locked m p (record m { sem = m.sem + 1 }) (to p ended)
  give : p.pc ≡ same → Locked m p (record m { sem = m.sem + 1 }) (next_round p)
  no_give : p.pc ≡ same → Locked m p (record m { sem = m.sem + 1 }) (to p ended)

-- EX03-07_rw.
pub data Free (m : Shared) (p : Process) : Shared → Process → Type 0 where
  enter : p.pc ≡ idle → p.i < loop_count → Free m p m (to p entered)
  leave : p.pc ≡ idle → p.i ≡ loop_count → Free m p m (to p ended)
  work : {m' : Shared} {p' : Process} → Work m p m' p' → Free m p m' p'
  no_write : p.pc ≡ entered → Free m p m (to p ended)
  no_read : p.pc ≡ wrote → Free m p m (to p ended)
  not_same : p.pc ≡ differs → Free m p m (to p ended)
  again : p.pc ≡ same → Free m p m (next_round p)

-- Any number of processes.
pub record System : Type 0 where
  pub mem : Shared
  pub processes : ℕ → Process

abbrev pub put : (ℕ → Process) → ℕ → Process → ℕ → Process
put ps i p j = if j == i then p else ps j

abbrev pub Moves : Type 1
Moves = Shared → Process → Shared → Process → Type 0

pub data Step (Move : Moves) (s : System) : System → Type 0 where
  step :
      (i : ℕ) {m : Shared} {p : Process}
      → Move s.mem (s.processes i) m p
      → Step Move s (record { mem = m; processes = put s.processes i p })

abbrev pub begin : Process
begin = record { pc = idle; i = 0; c1 = first_byte }

-- semctl() has set the semaphore to 1, and a file may be there.
abbrev pub start : Option ℕ → System
start byte = record { mem = record { sem = 1; byte = byte }; processes = λ _. begin }

pub data Reach (Move : Moves) (byte : Option ℕ) : System → Type 0 where
  here : Reach Move byte (start byte)
  later : {s t : System} → Reach Move byte s → Step Move s t → Reach Move byte t
