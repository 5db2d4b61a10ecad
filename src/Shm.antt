-- ===== src/Shm.antt =====
-- EX03-10_shm_sem: shmput writes the time into shared memory, shmget reads it and checks the sum over
-- it, each under a semaphore. A process that ends gives back what it holds of the semaphore (SEM_UNDO).
pub mod Invariant
pub mod Unlocked
use edge_embedded_linux.Common.{
  ℕ, zero, suc, ◌≡◌, ◌≢◌, ◌+◌, ◌-◌, ◌/◌, ◌%◌, ◌^◌, ◌<◌, Bool, true, false, List, [], ◌∷◌, length,
}

abbrev pub status_invalid : ℕ
status_invalid = 0

-- 0xbeafbeaf
abbrev pub status_valid : ℕ
status_valid = 3199188655

abbrev pub max_buf : ℕ
max_buf = 64

-- struct shm_buf, with the four bytes between `buf` and `cs` that align the latter.
pub record ShmBuf : Type 0 where
  pub status : ℕ
  pub buf : List ℕ
  pub pad : List ℕ
  pub cs : ℕ

abbrev pub sum : List ℕ → ℕ
sum [] = 0
sum (x ∷ b) = x + sum b

-- The sum of the bytes of an int.
abbrev pub sum_word : ℕ → ℕ
sum_word w = w % 256 + w / 2 ^ 8 % 256 + w / 2 ^ 16 % 256 + w / 2 ^ 24 % 256

-- The loop over all bytes of the structure but those of `cs`.
abbrev pub checksum : ShmBuf → ℕ
checksum m = sum_word m.status + (sum m.buf + sum m.pad)

-- sprintf() into `buf`: a text and a zero in front of what was there.
abbrev pub print : List ℕ → List ℕ → List ℕ
print t [] = []
print [] (y ∷ b) = 0 ∷ b
print (x ∷ t) (y ∷ b) = x ∷ print t b

pub record Shared : Type 0 where
  pub sem : ℕ
  pub shm : ShmBuf

pub data PutPc : Type 0 where
  idle : (first : Bool) → PutPc  -- before semop
  entered : (first : Bool) → PutPc  -- before gettimeofday
  timed : PutPc  -- before sprintf
  printed : PutPc  -- before the store to `status`
  marked : PutPc  -- before the sum
  summed : PutPc  -- before the second semop
  invalidated : PutPc  -- the timeout has passed
  failed : PutPc  -- gettimeofday has failed
  ended : PutPc

-- main() of shmput from its loop on; the second semop does not fail.
pub data Put (m : Shared) : PutPc → Shared → PutPc → Type 0 where
  take :
      {first : Bool} → 0 < m.sem → Put m (idle first) (record m { sem = m.sem - 1 }) (entered first)
  no_semop : {first : Bool} → Put m (idle first) m ended
  no_time : {first : Bool} → Put m (entered first) m failed
  in_time : {first : Bool} → Put m (entered first) m timed
  timeout :
      Put m
        (entered false)
        (record m { shm = record m.shm { status = status_invalid } })
        invalidated
  print_time :
      (t : List ℕ)
      → length t < max_buf
      → Put m timed (record m { shm = record m.shm { buf = print t m.shm.buf } }) printed
  mark : Put m printed (record m { shm = record m.shm { status = status_valid } }) marked
  add : Put m marked (record m { shm = record m.shm { cs = checksum m.shm } }) summed
  give : Put m summed (record m { sem = m.sem + 1 }) (idle false)
  leave : Put m invalidated (record m { sem = m.sem + 1 }) ended
  fail : Put m failed (record m { sem = m.sem + 1 }) ended

pub data GetPc : Type 0 where
  idle : GetPc  -- before semop
  entered : GetPc  -- before the test of `status`
  valid : GetPc  -- before the sum
  agreed : GetPc  -- the sum is `cs`
  disagreed : GetPc  -- "invalid checksum" is printed
  not_valid : GetPc
  ended : GetPc

-- main() of shmget from its loop on; the second semop does not fail.
pub data Get (m : Shared) : GetPc → Shared → GetPc → Type 0 where
  take : 0 < m.sem → Get m idle (record m { sem = m.sem - 1 }) entered
  no_semop : Get m idle m ended
  stop : m.shm.status ≢ status_valid → Get m entered m not_valid
  go_on : m.shm.status ≡ status_valid → Get m entered m valid
  agree : m.shm.cs ≡ checksum m.shm → Get m valid m agreed
  disagree : m.shm.cs ≢ checksum m.shm → Get m valid m disagreed
  give : Get m agreed (record m { sem = m.sem + 1 }) idle
  leave : Get m not_valid (record m { sem = m.sem + 1 }) ended
  leave_wrong : Get m disagreed (record m { sem = m.sem + 1 }) ended

pub record System : Type 0 where
  pub mem : Shared
  pub put : PutPc
  pub get : GetPc

pub data Step (s : System) : System → Type 0 where
  puts :
      {m : Shared} {p : PutPc}
      → Put s.mem s.put m p
      → Step s (record { mem = m; put = p; get = s.get })
  gets :
      {m : Shared} {p : GetPc}
      → Get s.mem s.get m p
      → Step s (record { mem = m; put = s.put; get = p })

-- The semaphore has been set to 1, and both processes are at their loops.
abbrev pub start : ShmBuf → System
start shm = record { mem = record { sem = 1; shm = shm }; put = PutPc.idle true; get = GetPc.idle }

pub data Reach (shm : ShmBuf) : System → Type 0 where
  here : Reach shm (start shm)
  later : {s t : System} → Reach shm s → Step s t → Reach shm t
