-- ===== src/Shm/Unlocked.antt =====
-- EX03-09_shm, the same programs before the semaphore was added.
use edge_embedded_linux.Common.{ℕ, ◌≡◌, ◌≢◌, refl, ◌<◌, Bool, true, false, List, length}
use edge_embedded_linux.Shm.{
  ShmBuf, status_invalid, status_valid, max_buf, checksum, print, PutPc, GetPc,
}

-- main() of shmput from its loop on.
pub data Put (m : ShmBuf) : PutPc → ShmBuf → PutPc → Type 0 where
  no_time : {first : Bool} → Put m (PutPc.entered first) m PutPc.ended
  in_time : {first : Bool} → Put m (PutPc.entered first) m PutPc.timed
  timeout : Put m (PutPc.entered false) (record m { status = status_invalid }) PutPc.ended
  print_time :
      (t : List ℕ)
      → length t < max_buf
      → Put m PutPc.timed (record m { buf = print t m.buf }) PutPc.printed
  mark : Put m PutPc.printed (record m { status = status_valid }) PutPc.marked
  add : Put m PutPc.marked (record m { cs = checksum m }) (PutPc.entered false)

-- main() of shmget from its loop on.
pub data Get (m : ShmBuf) : GetPc → GetPc → Type 0 where
  stop : m.status ≢ status_valid → Get m GetPc.entered GetPc.ended
  go_on : m.status ≡ status_valid → Get m GetPc.entered GetPc.valid
  agree : m.cs ≡ checksum m → Get m GetPc.valid GetPc.entered
  disagree : m.cs ≢ checksum m → Get m GetPc.valid GetPc.disagreed
  leave : Get m GetPc.disagreed GetPc.ended

pub record System : Type 0 where
  pub shm : ShmBuf
  pub put : PutPc
  pub get : GetPc

pub data Step (s : System) : System → Type 0 where
  puts :
      {m : ShmBuf} {p : PutPc}
      → Put s.shm s.put m p
      → Step s (record { shm = m; put = p; get = s.get })
  gets : {p : GetPc} → Get s.shm s.get p → Step s (record { shm = s.shm; put = s.put; get = p })

-- Both processes are at their loops.
abbrev pub start : ShmBuf → System
start shm = record { shm = shm; put = PutPc.entered true; get = GetPc.entered }

pub data Reach (shm : ShmBuf) : System → Type 0 where
  here : Reach shm (start shm)
  later : {s t : System} → Reach shm s → Step s t → Reach shm t

-- One time written, its sum included, and a second one without its sum.
abbrev pub written : ShmBuf → List ℕ → ShmBuf
written m t =
    let m' = record m { buf = print t m.buf; status = status_valid } in
    record m' { cs = checksum m' }

abbrev pub overwritten : ShmBuf → List ℕ → List ℕ → ShmBuf
overwritten m t u = record (written m t) { buf = print u (written m t).buf }

-- With no semaphore, when two times of different sums are written one after the other, whatever the
-- memory held before, shmget can report an invalid checksum.
pub shm_disagrees :
    (m : ShmBuf) (t u : List ℕ)
    → length t < max_buf
    → length u < max_buf
    → checksum (written m t) ≢ checksum (overwritten m t u)
    → (s : System) × Reach m s × (s.get ≡ GetPc.disagreed)
shm_disagrees m t u lt lu ne =
    let r1 = later here (puts in_time) in
    let r2 = later r1 (puts (print_time t lt)) in
    let r3 = later r2 (puts mark) in
    let r4 = later r3 (puts add) in
    let r5 = later r4 (puts in_time) in
    let r6 = later r5 (puts (print_time u lu)) in
    let r7 = later r6 (gets (go_on refl)) in (_, later r7 (gets (disagree ne)), refl)
