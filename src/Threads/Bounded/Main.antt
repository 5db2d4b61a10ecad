-- ===== src/Threads/Bounded/Main.antt =====
-- main() of EX04-04_pthread_mutex2 with its two threads.
use edge_embedded_linux.Common.{ℕ, zero, suc, ◌≡◌, refl, ◌≢◌, inl, inr, ◌+◌, ◌*◌, ◌≤◌, ◌<◌, arith}
use edge_embedded_linux.Threads.Process.{Group, Process, Reach}
use edge_embedded_linux.Threads.Process.Ends.{Laws, EndsWith, process_bound, process_ends}
use edge_embedded_linux.Threads.Bounded.{
  Pc, idle, entered, loaded, stored, leaving, finished, Thread, Shared, lock, full, load, store,
  unlock, leave, System, Step, first, second, start,
}
use edge_embedded_linux.Threads.Bounded
use edge_embedded_linux.Threads.Bounded.Progress.{progress, bounded_ends, bounded_totals}
use edge_embedded_linux.Threads.Bounded.Invariant.{Reach-Inv}

abbrev pub thread : ℕ → System → Thread
thread zero s = s.t1
thread (suc i) s = s.t2

abbrev pub turn : {max : ℕ} {s t : System} → Step max s t → ℕ
turn (first mv) = 0
turn (second mv) = 1

-- The two threads that main creates.
abbrev pub group : ℕ → Group
group max = record {
  State = System;
  number = 2;
  begin = start;
  Step = Step max;
  turn = turn;
  IsDone = λ i s. (thread i s).pc ≡ finished;
}

no-Move :
    {max i : ℕ} {m m' : Shared} {t t' : Thread} → Bounded.Move max i m t m' t' → t.pc ≢ finished
no-Move (lock e) = λ p. cc
no-Move (full e) = λ p. cc
no-Move (load e) = λ p. cc
no-Move store = λ p. cc
no-Move unlock = λ p. cc
no-Move leave = λ p. cc

stays :
    {max : ℕ} {s t : System} (i : ℕ)
    → Step max s t
    → (thread i s).pc ≡ finished
    → (thread i t).pc ≡ finished
stays zero (first mv) d = absurd (no-Move mv d)
stays zero (second mv) d = d
stays (suc i) (first mv) d = d
stays (suc i) (second mv) d = absurd (no-Move mv d)

is_finished : (pc : Pc) → Dec (pc ≡ finished)
is_finished idle = no (λ p. cc)
is_finished entered = no (λ p. cc)
is_finished (loaded temp) = no (λ p. cc)
is_finished stored = no (λ p. cc)
is_finished leaving = no (λ p. cc)
is_finished finished = yes refl

turn_lt : {max : ℕ} {s t : System} (st : Step max s t) → turn st < 2
turn_lt (first mv) = omega arith
turn_lt (second mv) = omega arith

both :
    (s : System)
    → s.t1.pc ≡ finished
    → s.t2.pc ≡ finished
    → (i : ℕ) → i < 2
    → (thread i s).pc ≡ finished
both s d e zero lt = d
both s d e (suc i) lt = e

abbrev laws : (max : ℕ) → Laws (group max)
laws max = record {
  Reaches = Bounded.Reach max;
  at_first = Bounded.here;
  next = λ r st. Bounded.later r st;
  turn_lt = turn_lt;
  stays = stays;
  is_done = λ i s. is_finished (thread i s).pc;
  progress =
      λ s r. elim (progress s (Reach-Inv r)) [ inl d ↦ inl (both s d.0 d.1) | inr more ↦ inr more ];
}

-- No run of the program is longer than 5 steps for each count and 13 besides, whatever the scheduler
-- does, and in each of its states main or a thread can make a step that is not a failure, or a call of
-- main has failed, or main has joined both threads and the counter that it prints stands at the maximum,
-- as does the sum of what the threads print: no update is lost.
pub bounded_main :
    {max k : ℕ} (p : Process (group max))
    → Reach (group max) k p
    → (k ≤ 5 * max + 13)
      × EndsWith
          (group max)
          p
          ((p.threads.mem.g_count ≡ max) × (p.threads.t1.count + p.threads.t2.count ≡ max))
bounded_main {max} p r =
    let (n, reached, bound) = process_bound (group max) (laws max) p r in
    (
      omega (arith, bounded_ends p.threads reached),
      process_ends (group max) (laws max) p _ r
          (λ n reached d. bounded_totals p.threads reached (d 0 (omega arith)) (d 1 (omega arith))),
    )
