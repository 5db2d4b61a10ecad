-- ===== src/Threads/Semaphore/Progress.antt =====
-- What the two threads of EX04-05_pthread_sem can do next, and for how long.
use edge_embedded_linux.Common.{ℕ, ◌≡◌, refl, ◌≢◌, ◌⊎◌, inl, inr, ◌+◌, ◌*◌, ◌≤◌, ◌<◌, arith}
use native.Mathlib.Decide.{ℕ_discrete, dec_lt}
use edge_embedded_linux.Threads.Semaphore.{
  signal_at, Pc, waiting, idle, entered, loaded, stored, posted, leaving, finished, Thread, Shared,
  at, lock, full, load, store, unlock, leave, Move1, Move2, System, Step, first, second, Reach,
  here, later,
}
use edge_embedded_linux.Threads.Semaphore.Invariant.{asleep, Inv, measure, Reach-Inv, Step-measure}

-- A thread that is done, that waits for the mutex or the semaphore, or that can move.
data CanMove (M : Shared → Thread → Type 0) (m : Shared) (t : Thread) : Type 0 where
  done : t.pc ≡ finished → CanMove M m t
  waits : t.pc ≡ idle → m.owner ≢ 0 → CanMove M m t
  sleeps : t.pc ≡ waiting → m.sem ≡ 0 → CanMove M m t
  moves : {m' : Shared} {t' : Thread} → M m' t' → CanMove M m t

can-Move1 :
    (max : ℕ) (m : Shared) (pc : Pc) (c : ℕ)
    → asleep pc ≡ 0
    → CanMove (Move1 max m (at pc c)) m (at pc c)
can-Move1 max m waiting c a = absurd (omega arith)
can-Move1 max m idle c a = elim (ℕ_discrete m.owner 0) [
  | yes e ↦ moves (Move1.common (lock e))
  | no e ↦ waits refl e
]
can-Move1 max m entered c a = elim (ℕ_discrete m.g_count max) [
  | yes e ↦ moves (Move1.common (full e))
  | no e ↦ moves (Move1.common (load e))
]
can-Move1 max m (loaded temp) c a = moves (Move1.common store)
can-Move1 max m stored c a = elim (ℕ_discrete m.g_count signal_at) [
  | yes e ↦ moves (Move1.post e)
  | no e ↦ moves (Move1.pass e)
]
can-Move1 max m posted c a = moves (Move1.common unlock)
can-Move1 max m leaving c a = moves (Move1.common leave)
can-Move1 max m finished c a = done refl

can-Move2 : (max : ℕ) (m : Shared) (pc : Pc) (c : ℕ) → CanMove (Move2 max m (at pc c)) m (at pc c)
can-Move2 max m waiting c = elim (dec_lt 0 m.sem) [
  | yes p ↦ moves (Move2.wake p)
  | no p ↦ sleeps refl (omega arith)
]
can-Move2 max m idle c = elim (ℕ_discrete m.owner 0) [
  | yes e ↦ moves (Move2.common (lock e))
  | no e ↦ waits refl e
]
can-Move2 max m entered c = elim (ℕ_discrete m.g_count max) [
  | yes e ↦ moves (Move2.common (full e))
  | no e ↦ moves (Move2.common (load e))
]
can-Move2 max m (loaded temp) c = moves (Move2.common store)
can-Move2 max m stored c = moves Move2.pass
can-Move2 max m posted c = moves (Move2.common unlock)
can-Move2 max m leaving c = moves (Move2.common leave)
can-Move2 max m finished c = done refl

abbrev pub Done : System → Type 0
Done s = (s.t1.pc ≡ finished) × (s.t2.pc ≡ finished)

module _ {max : ℕ} (s : System) (v : Inv max s) (enough : signal_at ≤ max) where
  -- Two threads that cannot move are both done.
  stuck-Done :
      CanMove (Move1 max s.mem s.t1) s.mem s.t1
      → CanMove (Move2 max s.mem s.t2) s.mem s.t2
      → Done s ⊎ ((t : System) × Step max s t)
  stuck-Done (moves mv) _ = inr (_, first mv)
  stuck-Done _ (moves mv) = inr (_, second mv)
  stuck-Done (done d) (done e) = inl (d, e)
  stuck-Done (sleeps d z) _ = absurd (ground arith)
  stuck-Done (done d) (waits e o) = absurd (ground arith)
  stuck-Done (done d) (sleeps e z) = absurd (ground arith)
  stuck-Done (waits d o) (done e) = absurd (ground arith)
  stuck-Done (waits d o) (waits e p) = absurd (ground arith)
  stuck-Done (waits d o) (sleeps e z) = absurd (ground arith)

  pub progress : Done s ⊎ ((t : System) × Step max s t)
  progress =
      stuck-Done (can-Move1 max s.mem s.t1.pc s.t1.count v.awake1)
        (can-Move2 max s.mem s.t2.pc s.t2.count)

-- Where both threads are done the counter stands at the maximum, and the numbers that the threads print
-- add up to it.
pub semaphore_totals :
    {max n : ℕ} (s : System)
    → Reach max n s
    → s.t1.pc ≡ finished
    → s.t2.pc ≡ finished
    → (s.mem.g_count ≡ max) × (s.t1.count + s.t2.count ≡ max)
semaphore_totals s r d e = let v = Reach-Inv r in (ground arith, ground arith)

-- For a maximum of 100 or more: when neither thread can move any more, both are done, the counter
-- stands at the maximum, and the numbers that the threads print add up to it.
pub semaphore_result :
    {max n : ℕ} (s : System)
    → signal_at ≤ max
    → Reach max n s
    → ((t : System) → ¬ Step max s t)
    → Done s × (s.mem.g_count ≡ max) × (s.t1.count + s.t2.count ≡ max)
semaphore_result s enough r stuck = elim (progress s (Reach-Inv r) enough) [
  | inl d ↦ let h = semaphore_totals s r d.0 d.1 in (d, h.0, h.1)
  | inr more ↦ absurd (stuck more.0 more.1)
]

-- No run takes more than 6 steps for each count and 11 besides.
pub semaphore_ends : {max n : ℕ} (s : System) → Reach max n s → measure max s + n ≤ 6 * max + 11
semaphore_ends s here = omega arith
semaphore_ends s (later r st) = omega (arith, Step-measure st (Reach-Inv r), semaphore_ends _ r)

-- The semaphore orders the two: once the second thread is past sem_wait, the first has counted at
-- least to 100; and before that the second has counted nothing.
pub semaphore_orders :
    {max n : ℕ} (s : System)
    → Reach max n s
    → (asleep s.t2.pc ≡ 0 → signal_at ≤ s.t1.count) × (asleep s.t2.pc ≡ 1 → s.t2.count ≡ 0)
semaphore_orders s r = let v = Reach-Inv r in (v.led, v.unstarted)

-- With a maximum below 100 the second thread never gets past sem_wait.
pub semaphore_starves :
    {max n : ℕ} (s : System) → max < signal_at → Reach max n s → asleep s.t2.pc ≡ 1
semaphore_starves s short r = let v = Reach-Inv r in ground arith
