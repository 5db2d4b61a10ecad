-- ===== src/Threads/Mutex/Progress.antt =====
-- The ends of the threads under the mutex and of main, EX04-03_pthread_mutex.
use edge_embedded_linux.Common.{ℕ, ◌≡◌, refl, ap, ◌≢◌, ◌⊎◌, inl, inr, ◌+◌, ◌-◌, ◌*◌, ◌≤◌, arith}
use native.Mathlib.Decide.{ℕ_discrete}
use edge_embedded_linux.Threads.Mutex.{
  Pc, absent, idle, entered, loaded, stored, finished, Thread, Shared, at, Move, lock, load, store,
  unlock, finish, MainPc, creating1, creating2, joining1, joining2, joined, System, Step, create1,
  create2, join1, join2, first, second, Reach, here, later,
}
use edge_embedded_linux.Threads.Mutex.Invariant.{holds, Knows, stage, Inv, Main-at, Reach-Inv}

-- A thread that is not created or done, that waits for the mutex, or that can move.
data CanMove (n i : ℕ) (m : Shared) (t : Thread) : Type 0 where
  away : stage t.pc ≡ 0 → CanMove n i m t
  done : t.pc ≡ finished → CanMove n i m t
  waits : holds t.pc ≡ 0 → m.owner ≢ 0 → CanMove n i m t
  moves : {m' : Shared} {t' : Thread} → Move n i m t m' t' → CanMove n i m t

can_move : (n i : ℕ) (m : Shared) (pc : Pc) (c : ℕ) → Knows n m pc c → CanMove n i m (at pc c)
can_move n i m absent c k = away refl
can_move n i m idle c k = elim (ℕ_discrete c n) [
  | yes e ↦ moves (finish e)
  | no ne ↦ elim (ℕ_discrete m.owner 0) [
    | yes e ↦ moves (lock (omega arith) e)
    | no e ↦ waits refl e
  ]
]
can_move n i m entered c k = moves load
can_move n i m (loaded temp) c k = moves store
can_move n i m stored c k = moves unlock
can_move n i m finished c k = done refl

-- Of two created threads, one can move unless both are done.
next_turn :
    {n : ℕ} (s : System)
    → Inv n s
    → 1 ≤ stage s.t1.pc
    → 1 ≤ stage s.t2.pc
    → (s.t1.pc ≢ finished → (t : System) × Step n s t)
      × (s.t2.pc ≢ finished → (t : System) × Step n s t)
next_turn {n} s v b1 b2 =
    go (can_move n 1 s.mem s.t1.pc s.t1.count v.counts.knows1)
      (can_move n 2 s.mem s.t2.pc s.t2.count v.counts.knows2)
  where
    go :
        CanMove n 1 s.mem s.t1
        → CanMove n 2 s.mem s.t2
        → (s.t1.pc ≢ finished → (t : System) × Step n s t)
          × (s.t2.pc ≢ finished → (t : System) × Step n s t)
    go (moves mv) _ = (λ _. (_, first mv), λ _. (_, first mv))
    go _ (moves mv) = (λ _. (_, second mv), λ _. (_, second mv))
    go (away e) _ = absurd (omega arith)
    go _ (away e) = absurd (omega arith)
    go (done d) (done e) = (λ f. absurd (f d), λ f. absurd (f e))
    go (done d) (waits e o) = absurd (o (omega (arith, v.counts.owned, ap holds d)))
    go (waits d o) (done e) = absurd (o (omega (arith, v.counts.owned, ap holds e)))
    go (waits d o) (waits e p) = absurd (o (omega (arith, v.counts.owned)))

is_finished : (pc : Pc) → (pc ≡ finished) ⊎ (pc ≢ finished)
is_finished absent = inr (λ e. absurd (omega (arith, ap stage e)))
is_finished idle = inr (λ e. absurd (omega (arith, ap stage e)))
is_finished entered = inr (λ e. absurd (omega (arith, ap stage e)))
is_finished (loaded temp) = inr (λ e. absurd (omega (arith, ap stage e)))
is_finished stored = inr (λ e. absurd (omega (arith, ap stage e)))
is_finished finished = inl refl

CanStep : ℕ → System → Type 0
CanStep n s = (t : System) × Step n s t

-- main is done, or something can move.
progress : {n : ℕ} (s : System) → Inv n s → CanStep n s ⊎ (s.main ≡ joined)
unfolding CanStep
progress {n} s v = go s.main refl
  where
    go : (k : MainPc) → s.main ≡ k → ((t : System) × Step n s t) ⊎ (s.main ≡ joined)
    go creating1 e = inl (_, create1 e)
    go creating2 e = inl (_, create2 e)
    go joining1 e =
        let h = Main-at (stage s.t1.pc) (stage s.t2.pc) e v.main in
        elim (is_finished s.t1.pc) [
          | inl f ↦ inl (_, join1 e f)
          | inr f ↦ inl ((next_turn s v h.0 h.1).0 f)
        ]
    go joining2 e =
        let h = Main-at (stage s.t1.pc) (stage s.t2.pc) e v.main in
        elim (is_finished s.t2.pc) [
          | inl f ↦ inl (_, join2 e f)
          | inr f ↦ inl ((next_turn s v (omega arith) h.1).1 f)
        ]
    go joined e = inr e

stage_two : (n : ℕ) (m : Shared) (pc : Pc) (c : ℕ) → stage pc ≡ 2 → Knows n m pc c → c ≡ n
stage_two n m absent c e k = absurd (omega arith)
stage_two n m idle c e k = absurd (omega arith)
stage_two n m entered c e k = absurd (omega arith)
stage_two n m (loaded temp) c e k = absurd (omega arith)
stage_two n m stored c e k = absurd (omega arith)
stage_two n m finished c e k = k

-- How many steps a thread can still make, and main.
abbrev left : ℕ → Pc → ℕ → ℕ
left n absent c = 4 * (n - c) + 1
left n idle c = 4 * (n - c) + 1
left n entered c = 4 * (n - c)
left n (loaded temp) c = 4 * (n - c) - 1
left n stored c = 4 * (n - c) + 2
left n finished c = 0

abbrev main_left : MainPc → ℕ
main_left creating1 = 4
main_left creating2 = 3
main_left joining1 = 2
main_left joining2 = 1
main_left joined = 0

abbrev measure : ℕ → System → ℕ
measure n s = main_left s.main + left n s.t1.pc s.t1.count + left n s.t2.pc s.t2.count

Move-left :
    {n i : ℕ} {m m' : Shared} {t t' : Thread}
    → Move n i m t m' t'
    → Knows n m t.pc t.count
    → left n t'.pc t'.count + 1 ≤ left n t.pc t.count
Move-left (lock lt e) k = omega arith
Move-left load k = omega arith
Move-left store k = omega arith
Move-left unlock k = omega arith
Move-left (finish e) k = omega arith

created-left : (n : ℕ) (pc : Pc) (c : ℕ) → stage pc ≡ 0 → left n idle c ≡ left n pc c
created-left n absent c e = refl
created-left n idle c e = absurd (omega arith)
created-left n entered c e = absurd (omega arith)
created-left n (loaded temp) c e = absurd (omega arith)
created-left n stored c e = absurd (omega arith)
created-left n finished c e = absurd (omega arith)

Step-left : {n : ℕ} {s t : System} → Step n s t → Inv n s → measure n t + 1 ≤ measure n s
Step-left {n} {s} (create1 e) v =
    let h = Main-at (stage s.t1.pc) (stage s.t2.pc) e v.main in
    omega (arith, ap main_left e, created-left n s.t1.pc s.t1.count h.0)
Step-left {n} {s} (create2 e) v =
    let h = Main-at (stage s.t1.pc) (stage s.t2.pc) e v.main in
    omega (arith, ap main_left e, created-left n s.t2.pc s.t2.count h.1)
Step-left (join1 e f) v = omega (arith, ap main_left e)
Step-left (join2 e f) v = omega (arith, ap main_left e)
Step-left (first mv) v = omega (arith, Move-left mv v.counts.knows1)
Step-left (second mv) v = omega (arith, Move-left mv v.counts.knows2)

Reach-left : {n k : ℕ} {s : System} → Reach n k s → k + measure n s ≤ 8 * n + 6
Reach-left here = omega arith
Reach-left (later r st) = omega (arith, Reach-left r, Step-left st (Reach-Inv r))

-- No run of the program is longer than 8 steps for each round and 6 besides, and in each of its states
-- main or a thread can make a step, or main has joined both threads, each has counted all its rounds,
-- and the counter that is printed is their sum: no update is lost.
pub mutex_result :
    {n k : ℕ} (s : System)
    → Reach n k s
    → (k ≤ 8 * n + 6)
      × (((t : System) × Step n s t)
          ⊎ ((s.main ≡ joined) × (s.t1.count ≡ n) × (s.t2.count ≡ n) × (s.mem.g_count ≡ 2 * n)))
unfolding CanStep
mutex_result {n} s r =
    let v = Reach-Inv r in
    (
      omega (arith, Reach-left r),
      elim (progress s v) [
        | inl step ↦ inl step
        | inr e ↦
            let h = Main-at (stage s.t1.pc) (stage s.t2.pc) e v.main in
            let c1 = stage_two n s.mem s.t1.pc s.t1.count h.0 v.counts.knows1 in
            let c2 = stage_two n s.mem s.t2.pc s.t2.count h.1 v.counts.knows2 in
            inr (e, c1, c2, omega (arith, v.counts.total))
      ],
    )
