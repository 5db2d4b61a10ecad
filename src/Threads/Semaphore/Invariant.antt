-- ===== src/Threads/Semaphore/Invariant.antt =====
-- States of the two threads of EX04-05_pthread_sem.
use edge_embedded_linux.Common.{ℕ, ◌≡◌, ◌⊎◌, ◌+◌, ◌*◌, ◌-◌, ◌≤◌, ◌<◌, arith}
use edge_embedded_linux.Threads.Semaphore.{
  signal_at, Pc, waiting, idle, entered, loaded, stored, posted, leaving, finished, Thread, Shared,
  Move, lock, full, load, store, unlock, leave, Move1, Move2, System, Step, first, second, Reach,
  here, later,
}

abbrev pub holds : Pc → ℕ
holds waiting = 0
holds idle = 0
holds finished = 0
holds _ = 1

-- The second thread has not been woken.
abbrev pub asleep : Pc → ℕ
asleep waiting = 1
asleep _ = 0

abbrev pub ahead : Pc → ℕ
ahead waiting = 6
ahead idle = 5
ahead entered = 4
ahead (loaded temp) = 3
ahead stored = 7
ahead posted = 6
ahead leaving = 1
ahead finished = 0

abbrev pub Knows : ℕ → Shared → Pc → Type 0
Knows max m (loaded temp) = (m.g_count ≡ temp) × (m.g_count < max)
Knows max m leaving = m.g_count ≡ max
Knows max m finished = m.g_count ≡ max
Knows max m _ = Unit

-- Until the counter has passed 100, and its step with it, the semaphore is down; afterwards it has
-- been posted once and the second thread may have taken it.
abbrev pub Sleeps : Shared → Pc → Pc → Type 0
Sleeps m stored pc2 =
    (asleep pc2 ≡ 1) × (m.sem ≡ 0) × (m.g_count ≤ signal_at)
    ⊎ (signal_at < m.g_count) × (m.sem ≡ asleep pc2)
Sleeps m pc1 pc2 =
    (asleep pc2 ≡ 1) × (m.sem ≡ 0) × (m.g_count < signal_at)
    ⊎ (signal_at ≤ m.g_count) × (m.sem ≡ asleep pc2)

pub record Inv (max : ℕ) (s : System) : Type 0 where
  pub total : s.t1.count + s.t2.count ≡ s.mem.g_count
  pub bound : s.mem.g_count ≤ max
  pub owned : s.mem.owner ≡ holds s.t1.pc + 2 * holds s.t2.pc
  pub alone : holds s.t1.pc + holds s.t2.pc ≤ 1
  pub knows1 : Knows max s.mem s.t1.pc
  pub knows2 : Knows max s.mem s.t2.pc
  pub order : Sleeps s.mem s.t1.pc s.t2.pc
  pub unstarted : asleep s.t2.pc ≡ 1 → s.t2.count ≡ 0
  pub led : asleep s.t2.pc ≡ 0 → signal_at ≤ s.t1.count
  pub awake1 : asleep s.t1.pc ≡ 0

pub first-Inv :
    {max : ℕ} {m m' : Shared} {t t' u : Thread}
    → Move1 max m t m' t'
    → Inv max (record { mem = m; t1 = t; t2 = u })
    → Inv max (record { mem = m'; t1 = t'; t2 = u })
first-Inv (Move1.common (lock e)) v = ground arith
first-Inv (Move1.common (full e)) v = ground arith
first-Inv (Move1.common (load e)) v = ground arith
first-Inv (Move1.common store) v = ground arith
first-Inv (Move1.common unlock) v = ground arith
first-Inv (Move1.common leave) v = ground arith
first-Inv (Move1.post e) v = ground arith
first-Inv (Move1.pass e) v = ground arith

pub second-Inv :
    {max : ℕ} {m m' : Shared} {t t' u : Thread}
    → Move2 max m t m' t'
    → Inv max (record { mem = m; t1 = u; t2 = t })
    → Inv max (record { mem = m'; t1 = u; t2 = t' })
second-Inv (Move2.common (lock e)) v = ground arith
second-Inv (Move2.common (full e)) v = ground arith
second-Inv (Move2.common (load e)) v = ground arith
second-Inv (Move2.common store) v = ground arith
second-Inv (Move2.common unlock) v = ground arith
second-Inv (Move2.common leave) v = ground arith
second-Inv (Move2.wake p) v = ground arith
second-Inv Move2.pass v = ground arith

pub Step-Inv : {max : ℕ} {s t : System} → Step max s t → Inv max s → Inv max t
Step-Inv (first mv) v = first-Inv mv v
Step-Inv (second mv) v = second-Inv mv v

pub Reach-Inv : {max n : ℕ} {s : System} → Reach max n s → Inv max s
Reach-Inv here = ground arith
Reach-Inv (later r st) = Step-Inv st (Reach-Inv r)

abbrev pub measure : ℕ → System → ℕ
measure max s = 6 * (max - s.mem.g_count) + ahead s.t1.pc + ahead s.t2.pc

-- Every step brings the end nearer.
Move-measure :
    {max i : ℕ} {m m' : Shared} {t t' : Thread}
    → Move max i m t m' t'
    → Knows max m t.pc
    → 6 * (max - m'.g_count) + ahead t'.pc < 6 * (max - m.g_count) + ahead t.pc
Move-measure (lock e) v = omega arith
Move-measure (full e) v = omega arith
Move-measure (load e) v = omega arith
Move-measure store v = omega arith
Move-measure unlock v = omega arith
Move-measure leave v = omega arith

pub Step-measure :
    {max : ℕ} {s t : System} → Step max s t → Inv max s → measure max t < measure max s
Step-measure (first (Move1.common mv)) v = omega (arith, Move-measure mv v.knows1)
Step-measure (first (Move1.post e)) v = omega arith
Step-measure (first (Move1.pass e)) v = omega arith
Step-measure (second (Move2.common mv)) v = omega (arith, Move-measure mv v.knows2)
Step-measure (second (Move2.wake p)) v = omega arith
Step-measure (second Move2.pass) v = omega arith
