-- ===== src/Threads/Semaphore/Main.antt =====
-- main() of EX04-05_pthread_sem with its two threads.
use edge_embedded_linux.Common.{ℕ, zero, suc, ◌≡◌, refl, ◌≢◌, inl, inr, ◌+◌, ◌*◌, ◌≤◌, ◌<◌, arith}
use edge_embedded_linux.Threads.Process.{Group, Process, Reach}
use edge_embedded_linux.Threads.Process.Ends.{Laws, EndsWith, process_bound, process_ends}
use edge_embedded_linux.Threads.Semaphore.{
  signal_at, Pc, waiting, idle, entered, loaded, stored, posted, leaving, finished, Thread, Shared,
  Move1, Move2, System, Step, first, second, start,
}
use edge_embedded_linux.Threads.Semaphore
use edge_embedded_linux.Threads.Semaphore.Progress.{progress, semaphore_ends, semaphore_totals}
use edge_embedded_linux.Threads.Semaphore.Invariant.{Reach-Inv}

abbrev pub thread : ℕ → System → Thread
thread zero s = s.t1
thread (suc i) s = s.t2

abbrev pub turn : {max : ℕ} {s t : System} → Step max s t → ℕ
turn (first mv) = 0
turn (second mv) = 1

-- The two threads that main creates.
abbrev pub group : ℕ → Group
group max = record {
  State = System;
  number = 2;
  begin = start;
  Step = Step max;
  turn = turn;
  IsDone = λ i s. (thread i s).pc ≡ finished;
}

no-Move :
    {max i : ℕ} {m m' : Shared} {t t' : Thread} → Semaphore.Move max i m t m' t' → t.pc ≢ finished
no-Move (Semaphore.lock e) = λ p. cc
no-Move (Semaphore.full e) = λ p. cc
no-Move (Semaphore.load e) = λ p. cc
no-Move Semaphore.store = λ p. cc
no-Move Semaphore.unlock = λ p. cc
no-Move Semaphore.leave = λ p. cc

no-Move1 : {max : ℕ} {m m' : Shared} {t t' : Thread} → Move1 max m t m' t' → t.pc ≢ finished
no-Move1 (Move1.common mv) = no-Move mv
no-Move1 (Move1.post e) = λ p. cc
no-Move1 (Move1.pass e) = λ p. cc

no-Move2 : {max : ℕ} {m m' : Shared} {t t' : Thread} → Move2 max m t m' t' → t.pc ≢ finished
no-Move2 (Move2.common mv) = no-Move mv
no-Move2 (Move2.wake e) = λ p. cc
no-Move2 Move2.pass = λ p. cc

stays :
    {max : ℕ} {s t : System} (i : ℕ)
    → Step max s t
    → (thread i s).pc ≡ finished
    → (thread i t).pc ≡ finished
stays zero (first mv) d = absurd (no-Move1 mv d)
stays zero (second mv) d = d
stays (suc i) (first mv) d = d
stays (suc i) (second mv) d = absurd (no-Move2 mv d)

is_finished : (pc : Pc) → Dec (pc ≡ finished)
is_finished waiting = no (λ p. cc)
is_finished idle = no (λ p. cc)
is_finished entered = no (λ p. cc)
is_finished (loaded temp) = no (λ p. cc)
is_finished stored = no (λ p. cc)
is_finished posted = no (λ p. cc)
is_finished leaving = no (λ p. cc)
is_finished finished = yes refl

turn_lt : {max : ℕ} {s t : System} (st : Step max s t) → turn st < 2
turn_lt (first mv) = omega arith
turn_lt (second mv) = omega arith

both :
    (s : System)
    → (s.t1.pc ≡ finished) × (s.t2.pc ≡ finished)
    → (i : ℕ) → i < 2
    → (thread i s).pc ≡ finished
both s d zero lt = d.0
both s d (suc i) lt = d.1

abbrev laws : (max : ℕ) → signal_at ≤ max → Laws (group max)
laws max enough = record {
  Reaches = Semaphore.Reach max;
  at_first = Semaphore.here;
  next = λ r st. Semaphore.later r st;
  turn_lt = turn_lt;
  stays = stays;
  is_done = λ i s. is_finished (thread i s).pc;
  progress = λ s r. elim (progress s (Reach-Inv r) enough) [
    | inl d ↦ inl (both s d)
    | inr more ↦ inr more
  ];
}

-- For a maximum of 100 or more: no run of the program is longer than 6 steps for each count and 16
-- besides, whatever the scheduler does, and in each of its states main or a thread can make a step that
-- is not a failure, or a call of main has failed, or main has joined both threads and the counter that it
-- prints stands at the maximum, as does the sum of what the threads print.
pub semaphore_main :
    {max k : ℕ} (p : Process (group max))
    → signal_at ≤ max
    → Reach (group max) k p
    → (k ≤ 6 * max + 16)
      × EndsWith
          (group max)
          p
          ((p.threads.mem.g_count ≡ max) × (p.threads.t1.count + p.threads.t2.count ≡ max))
semaphore_main {max} p enough r =
    let (n, reached, bound) = process_bound (group max) (laws max enough) p r in
    (
      omega (arith, semaphore_ends p.threads reached),
      process_ends (group max) (laws max enough) p _ r (λ n reached d.
          semaphore_totals p.threads reached (d 0 (omega arith)) (d 1 (omega arith))),
    )
