-- ===== src/Threads/Bread/Main.antt =====
-- main() of EX04-06_pthread_bread with its three threads.
use edge_embedded_linux.Common.{ℕ, zero, suc, ◌≡◌, refl, ◌≢◌, inl, inr, ◌+◌, ◌*◌, ◌≤◌, ◌<◌, arith}
use edge_embedded_linux.Threads.Process.{Group, Process, Reach}
use edge_embedded_linux.Threads.Process.Ends.{Laws, EndsWith, process_bound, process_ends}
use edge_embedded_linux.Threads.Bread.{
  num_of_bread, Pc, idle, entered, worked, unlocked, finished, Shop, Make, Box, System, Step, make1,
  make2, box, start,
}
use edge_embedded_linux.Threads.Bread
use edge_embedded_linux.Threads.Bread.Progress.{Done, bread_progress, bread_totals, bread_safety}
use edge_embedded_linux.Threads.Bread.Invariant.{holds}

abbrev pub thread : ℕ → System → Pc
thread zero s = s.maker1
thread (suc zero) s = s.maker2
thread (suc (suc i)) s = s.boxer

abbrev pub turn : {s t : System} → Step s t → ℕ
turn (make1 mv) = 0
turn (make2 mv) = 1
turn (box mv) = 2

-- The three threads that main creates.
abbrev pub group : Group
group = record {
  State = System;
  number = 3;
  begin = start;
  Step = Step;
  turn = turn;
  IsDone = λ i s. thread i s ≡ finished;
}

no-Make : {i : ℕ} {m m' : Shop} {p p' : Pc} → Make i m p m' p' → p ≢ finished
no-Make (Make.lock e) = λ p. cc
no-Make (Make.bake e) = λ p. cc
no-Make (Make.enough e) = λ p. cc
no-Make Make.unlock = λ p. cc
no-Make (Make.again e) = λ p. cc
no-Make (Make.stop e) = λ p. cc

no-Box : {i : ℕ} {m m' : Shop} {p p' : Pc} → Box i m p m' p' → p ≢ finished
no-Box (Box.lock e) = λ p. cc
no-Box (Box.pack e) = λ p. cc
no-Box (Box.too_few e) = λ p. cc
no-Box Box.unlock = λ p. cc
no-Box (Box.again e) = λ p. cc
no-Box (Box.stop e) = λ p. cc

stays : {s t : System} (i : ℕ) → Step s t → thread i s ≡ finished → thread i t ≡ finished
stays zero (make1 mv) d = absurd (no-Make mv d)
stays zero (make2 mv) d = d
stays zero (box mv) d = d
stays (suc zero) (make1 mv) d = d
stays (suc zero) (make2 mv) d = absurd (no-Make mv d)
stays (suc zero) (box mv) d = d
stays (suc (suc i)) (make1 mv) d = d
stays (suc (suc i)) (make2 mv) d = d
stays (suc (suc i)) (box mv) d = absurd (no-Box mv d)

is_finished : (pc : Pc) → Dec (pc ≡ finished)
is_finished idle = no (λ p. cc)
is_finished entered = no (λ p. cc)
is_finished worked = no (λ p. cc)
is_finished unlocked = no (λ p. cc)
is_finished finished = yes refl

turn_lt : {s t : System} (st : Step s t) → turn st < 3
turn_lt (make1 mv) = omega arith
turn_lt (make2 mv) = omega arith
turn_lt (box mv) = omega arith

all_of : (s : System) → Done s → (i : ℕ) → i < 3 → thread i s ≡ finished
all_of s d zero lt = d.0
all_of s d (suc zero) lt = d.1
all_of s d (suc (suc i)) lt = d.2

abbrev laws : Laws group
laws = record {
  Reaches = λ n s. Bread.Reach s;
  at_first = Bread.here;
  next = λ r st. Bread.later r st;
  turn_lt = turn_lt;
  stays = stays;
  is_done = λ i s. is_finished (thread i s);
  progress = λ s r. elim (bread_progress s r) [ inl d ↦ inl (all_of s d.0) | inr more ↦ inr more ];
}

-- In every state of the program there are at most 100 loaves, no box without its ten loaves, so at most
-- 10 boxes, and no two threads between lock and unlock; and main or a thread can make a step that is not
-- a failure, or a call of main has failed, or main has joined all three threads, 100 loaves are baked and
-- 10 boxes packed.
pub bread_main :
    {k : ℕ} (p : Process group)
    → Reach group k p
    → ((p.threads.shop.bread_count ≤ num_of_bread)
        × (p.threads.shop.box_count * 10 ≤ p.threads.shop.bread_count)
        × (p.threads.shop.box_count ≤ 10)
        × (holds p.threads.maker1 + holds p.threads.maker2 + holds p.threads.boxer ≤ 1))
      × EndsWith group p
          ((p.threads.shop.bread_count ≡ num_of_bread) × (p.threads.shop.box_count ≡ 10))
bread_main p r =
    let (n, reached, bound) = process_bound group laws p r in
    (
      bread_safety p.threads reached,
      process_ends group laws p _ r (λ n reached d.
          bread_totals p.threads reached (d 0 (omega arith), d 1 (omega arith), d 2 (omega arith))),
    )
