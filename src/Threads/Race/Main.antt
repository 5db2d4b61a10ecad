-- ===== src/Threads/Race/Main.antt =====
-- main() of EX04-02_pthread_multi with its two threads.
use edge_embedded_linux.Common.{
  ℕ, zero, suc, ◌≡◌, refl, ◌⊎◌, inl, inr, ◌+◌, ◌-◌, ◌*◌, ◌≤◌, ◌<◌, arith,
}
use native.Mathlib.Decide.{ℕ_discrete}
use edge_embedded_linux.Threads.Process.{
  Group, joining, Process, create, all_created, join, runs, Step, moves, Reach,
}
use edge_embedded_linux.Threads.Process
use edge_embedded_linux.Threads.Process.Ends.{Laws, EndsWith, process_bound, process_ends}
use edge_embedded_linux.Threads.Race.{
  Pc, ready, loaded, Thread, at, load, store, System, first, second, start, Loaded, Reach-Inv, Inv,
  race_bound, level, Reach-level,
}
use edge_embedded_linux.Threads.Race

abbrev pub thread : ℕ → System → Thread
thread zero s = s.t1
thread (suc i) s = s.t2

abbrev pub turn : {rounds : ℕ} {s t : System} → Race.Step rounds s t → ℕ
turn (first mv) = 0
turn (second mv) = 1

abbrev pub IsDone : ℕ → Thread → Type 0
IsDone rounds t = (t.pc ≡ ready) × (t.count ≡ rounds)

-- The two threads that main creates.
abbrev pub group : ℕ → Group
group rounds = record {
  State = System;
  number = 2;
  begin = start;
  Step = Race.Step rounds;
  turn = turn;
  IsDone = λ i s. IsDone rounds (thread i s);
}

no-Move :
    {rounds g g' : ℕ} {t t' : Thread} {A : Type 0}
    → Race.Move rounds g t g' t'
    → IsDone rounds t
    → A
no-Move (load lt) d = absurd (omega (arith, d.1))
no-Move store d = absurd (ground (arith, d.0))

stays :
    {rounds : ℕ} {s t : System} (i : ℕ)
    → Race.Step rounds s t
    → IsDone rounds (thread i s)
    → IsDone rounds (thread i t)
stays zero (first mv) d = no-Move mv d
stays zero (second mv) d = d
stays (suc i) (first mv) d = d
stays (suc i) (second mv) d = no-Move mv d

is_done : (rounds : ℕ) (pc : Pc) (c : ℕ) → Dec (IsDone rounds (at pc c))
is_done rounds ready c = elim (ℕ_discrete c rounds) [
  | yes e ↦ yes (refl, e)
  | no ne ↦ no (λ d. ne d.1)
]
is_done rounds (loaded temp) c = no (λ d. ground (arith, d.0))

turn_lt : {rounds : ℕ} {s t : System} (st : Race.Step rounds s t) → turn st < 2
turn_lt (first mv) = omega arith
turn_lt (second mv) = omega arith

both :
    (rounds : ℕ) (s : System)
    → IsDone rounds s.t1
    → IsDone rounds s.t2
    → (i : ℕ) → i < 2
    → IsDone rounds (thread i s)
both rounds s d e zero lt = d
both rounds s d e (suc i) lt = e

CanMove : ℕ → ℕ → Thread → Type 0
CanMove rounds g t = (g' : ℕ) × (t' : Thread) × Race.Move rounds g t g' t'

-- A thread that is not done can move.
can_move :
    (rounds n g : ℕ) (pc : Pc) (c : ℕ)
    → Loaded rounds n c pc
    → IsDone rounds (at pc c) ⊎ CanMove rounds g (at pc c)
unfolding CanMove
can_move rounds n g ready c h = elim (ℕ_discrete c rounds) [
  | yes e ↦ inl (refl, e)
  | no ne ↦ inr (_, _, load (omega arith))
]
can_move rounds n g (loaded temp) c h = inr (_, _, store)

progress :
    {rounds : ℕ} (s : System)
    → Inv rounds s
    → ((i : ℕ) → i < 2 → IsDone rounds (thread i s)) ⊎ ((t : System) × Race.Step rounds s t)
unfolding CanMove
progress {rounds} s v = elim (can_move rounds _ s.g_count s.t1.pc s.t1.count v.held1) [
  | inr more ↦ inr (_, first more.2)
  | inl d ↦ elim (can_move rounds _ s.g_count s.t2.pc s.t2.count v.held2) [
    | inr more ↦ inr (_, second more.2)
    | inl e ↦ inl (both rounds s d e)
  ]
]

-- How many steps a thread can still make.
abbrev left : ℕ → Pc → ℕ → ℕ
left rounds ready c = 2 * (rounds - c)
left rounds (loaded temp) c = 2 * (rounds - c) - 1

abbrev measure : ℕ → System → ℕ
measure rounds s = left rounds s.t1.pc s.t1.count + left rounds s.t2.pc s.t2.count

Move-left :
    {rounds g g' : ℕ} {t t' : Thread} (n : ℕ)
    → Race.Move rounds g t g' t'
    → Loaded rounds n t.count t.pc
    → left rounds t'.pc t'.count + 1 ≤ left rounds t.pc t.count
Move-left n (load lt) h = omega arith
Move-left n store h = omega arith

Step-measure :
    {rounds : ℕ} {s t : System}
    → Race.Step rounds s t
    → Inv rounds s
    → measure rounds t + 1 ≤ measure rounds s
Step-measure (first mv) v = omega (arith, Move-left _ mv v.held1)
Step-measure (second mv) v = omega (arith, Move-left _ mv v.held2)

abbrev laws : (rounds : ℕ) → Laws (group rounds)
laws rounds = record {
  Reaches = λ n s. Race.Reach rounds s × (measure rounds s + n ≤ 4 * rounds);
  at_first = (Race.here, omega arith);
  next = λ r st. (Race.later r.0 st, omega (arith, r.1, Step-measure st (Reach-Inv r.0)));
  turn_lt = turn_lt;
  stays = stays;
  is_done = λ i s. is_done rounds (thread i s).pc (thread i s).count;
  progress = λ s r. progress s (Reach-Inv r.0);
}

-- No run of the program is longer than 2 steps for each round of a thread and 5 besides, and in each of
-- its states main or a thread can make a step that is not a failure, or a call of main has failed, or
-- main has joined both threads, each of them has made all its rounds, and the counter that main prints
-- is at most their sum.
pub race_main :
    {rounds k : ℕ} (p : Process (group rounds))
    → Reach (group rounds) k p
    → (k ≤ 4 * rounds + 5)
      × EndsWith (group rounds) p (
          (p.threads.t1.count ≡ rounds)
          × (p.threads.t2.count ≡ rounds)
          × (p.threads.g_count ≤ 2 * rounds))
race_main {rounds} p r =
    let (n, reached, bound) = process_bound (group rounds) (laws rounds) p r in
    (
      omega (arith, reached.1),
      process_ends (group rounds) (laws rounds) p _ r (λ n reached d.
          let one = (d 0 (omega arith)).1 in
          let two = (d 1 (omega arith)).1 in
          let b = race_bound p.threads reached.0 in (one, two, omega (arith, b.0))),
    )

-- Once both threads are there, what they can do main lets them do.
lifted :
    {rounds : ℕ} {s : System}
    → Race.Reach rounds s
    → (k : ℕ) × Reach (group rounds) k (record { main = joining 0; threads = s })
lifted Race.here =
    let r = Process.later Process.here (moves (create refl (omega arith))) in
    let r' = Process.later r (moves (create refl (omega arith))) in
    (_, Process.later r' (moves (all_created refl)))
lifted (Race.later r st) =
    let (k, r') = lifted r in (_, Process.later r' (moves (runs st (turn_lt st))))

-- Updates are lost: for every number of rounds there is a run in which main joins both threads, each of
-- which has made all its rounds, and prints half of what they counted together.
pub race_main_loses :
    (rounds : ℕ)
    → (k : ℕ) × (p : Process (group rounds)) × Reach (group rounds) k p
      × (p.main ≡ joining 2)
      × (p.threads.t1.count ≡ rounds)
      × (p.threads.t2.count ≡ rounds)
      × (2 * p.threads.g_count ≡ p.threads.t1.count + p.threads.t2.count)
race_main_loses rounds =
    let (k, r) = lifted (Reach-level rounds rounds (omega arith)) in
    let r' = Process.later r (moves (join refl (omega arith) (refl, refl))) in
    let r'' = Process.later r' (moves (join refl (omega arith) (refl, refl))) in
    (_, _, r'', refl, refl, refl, omega arith)
