-- ===== src/Threads/Bounded/Progress.antt =====
-- What the two threads of EX04-04_pthread_mutex2 can do next, and for how long.
use edge_embedded_linux.Common.{ℕ, ◌≡◌, refl, ◌≢◌, ◌⊎◌, inl, inr, ◌+◌, ◌*◌, ◌≤◌, arith}
use native.Mathlib.Decide.{ℕ_discrete}
use edge_embedded_linux.Threads.Bounded.{
  Pc, idle, entered, loaded, stored, leaving, finished, Thread, Shared, at, Move, lock, full, load,
  store, unlock, leave, System, Step, first, second, Reach, here, later,
}
use edge_embedded_linux.Threads.Bounded.Invariant.{Inv, measure, Reach-Inv, Step-measure}

-- A thread that is done, that waits for the mutex, or that can move.
data CanMove (max i : ℕ) (m : Shared) (t : Thread) : Type 0 where
  done : t.pc ≡ finished → CanMove max i m t
  waits : t.pc ≡ idle → m.owner ≢ 0 → CanMove max i m t
  moves : {m' : Shared} {t' : Thread} → Move max i m t m' t' → CanMove max i m t

can_move : (max i : ℕ) (m : Shared) (pc : Pc) (c : ℕ) → CanMove max i m (at pc c)
can_move max i m idle c = elim (ℕ_discrete m.owner 0) [
  | yes e ↦ moves (lock e)
  | no e ↦ waits refl e
]
can_move max i m entered c = elim (ℕ_discrete m.g_count max) [
  | yes e ↦ moves (full e)
  | no e ↦ moves (load e)
]
can_move max i m (loaded temp) c = moves store
can_move max i m stored c = moves unlock
can_move max i m leaving c = moves leave
can_move max i m finished c = done refl

-- Some thread can move, unless both are done.
pub progress :
    {max : ℕ} (s : System)
    → Inv max s
    → ((s.t1.pc ≡ finished) × (s.t2.pc ≡ finished)) ⊎ ((t : System) × Step max s t)
progress {max} s v =
    go (can_move max 1 s.mem s.t1.pc s.t1.count) (can_move max 2 s.mem s.t2.pc s.t2.count)
  where
    go :
        CanMove max 1 s.mem s.t1
        → CanMove max 2 s.mem s.t2
        → ((s.t1.pc ≡ finished) × (s.t2.pc ≡ finished)) ⊎ ((t : System) × Step max s t)
    go (moves mv) _ = inr (_, first mv)
    go _ (moves mv) = inr (_, second mv)
    go (done d) (done e) = inl (d, e)
    go (done d) (waits e o) = absurd (ground arith)
    go (waits d o) (done e) = absurd (ground arith)
    go (waits d o) (waits e p) = absurd (ground arith)

-- Where both threads are done the counter stands at the maximum, and the numbers that the threads print
-- add up to it.
pub bounded_totals :
    {max n : ℕ} (s : System)
    → Reach max n s
    → s.t1.pc ≡ finished
    → s.t2.pc ≡ finished
    → (s.mem.g_count ≡ max) × (s.t1.count + s.t2.count ≡ max)
bounded_totals s r d e = let v = Reach-Inv r in (ground arith, ground arith)

-- When neither thread can move any more, both are done, the counter stands at the maximum, and the
-- numbers that the threads print add up to it: no update is lost.
pub bounded_result :
    {max n : ℕ} (s : System)
    → Reach max n s
    → ((t : System) → ¬ Step max s t)
    → (s.mem.g_count ≡ max)
      × (s.t1.count + s.t2.count ≡ max)
      × (s.t1.pc ≡ finished)
      × (s.t2.pc ≡ finished)
bounded_result s r stuck = elim (progress s (Reach-Inv r)) [
  | inl d ↦ let h = bounded_totals s r d.0 d.1 in (h.0, h.1, d.0, d.1)
  | inr more ↦ absurd (stuck more.0 more.1)
]

-- No run takes more than 5 steps for each count and 8 besides, whatever the scheduler does.
pub bounded_ends : {max n : ℕ} (s : System) → Reach max n s → measure max s + n ≤ 5 * max + 8
bounded_ends s here = omega arith
bounded_ends s (later r st) = omega (arith, Step-measure st (Reach-Inv r), bounded_ends _ r)
