-- ===== src/Threads/Bounded/Invariant.antt =====
-- States of the two threads of EX04-04_pthread_mutex2.
use edge_embedded_linux.Common.{ℕ, ◌≡◌, ◌+◌, ◌*◌, ◌-◌, ◌≤◌, ◌<◌, arith}
use edge_embedded_linux.Threads.Bounded.{
  Pc, idle, entered, loaded, stored, leaving, finished, Thread, Shared, Move, lock, full, load,
  store, unlock, leave, System, Step, first, second, Reach, here, later,
}

-- Between pthread_mutex_lock and pthread_mutex_unlock.
abbrev pub holds : Pc → ℕ
holds idle = 0
holds finished = 0
holds _ = 1

-- What a thread's place says of the counter.
abbrev pub Knows : ℕ → Shared → Pc → Type 0
Knows max m (loaded temp) = (m.g_count ≡ temp) × (m.g_count < max)
Knows max m leaving = m.g_count ≡ max
Knows max m finished = m.g_count ≡ max
Knows max m _ = Unit

-- How many steps a thread is from the end of its round.
abbrev pub ahead : Pc → ℕ
ahead idle = 4
ahead entered = 3
ahead (loaded temp) = 2
ahead stored = 5
ahead leaving = 1
ahead finished = 0

abbrev pub measure : ℕ → System → ℕ
measure max s = 5 * (max - s.mem.g_count) + ahead s.t1.pc + ahead s.t2.pc

pub record Inv (max : ℕ) (s : System) : Type 0 where
  pub total : s.t1.count + s.t2.count ≡ s.mem.g_count
  pub bound : s.mem.g_count ≤ max
  pub owned : s.mem.owner ≡ holds s.t1.pc + 2 * holds s.t2.pc
  pub alone : holds s.t1.pc + holds s.t2.pc ≤ 1
  pub knows1 : Knows max s.mem s.t1.pc
  pub knows2 : Knows max s.mem s.t2.pc

first-Inv :
    {max : ℕ} {m m' : Shared} {t t' u : Thread}
    → Move max 1 m t m' t'
    → Inv max (record { mem = m; t1 = t; t2 = u })
    → Inv max (record { mem = m'; t1 = t'; t2 = u })
first-Inv (lock e) v = ground arith
first-Inv (full e) v = ground arith
first-Inv (load e) v = ground arith
first-Inv store v = ground arith
first-Inv unlock v = ground arith
first-Inv leave v = ground arith

second-Inv :
    {max : ℕ} {m m' : Shared} {t t' u : Thread}
    → Move max 2 m t m' t'
    → Inv max (record { mem = m; t1 = u; t2 = t })
    → Inv max (record { mem = m'; t1 = u; t2 = t' })
second-Inv (lock e) v = ground arith
second-Inv (full e) v = ground arith
second-Inv (load e) v = ground arith
second-Inv store v = ground arith
second-Inv unlock v = ground arith
second-Inv leave v = ground arith

pub Step-Inv : {max : ℕ} {s t : System} → Step max s t → Inv max s → Inv max t
Step-Inv (first mv) v = first-Inv mv v
Step-Inv (second mv) v = second-Inv mv v

pub Reach-Inv : {max n : ℕ} {s : System} → Reach max n s → Inv max s
Reach-Inv here = omega arith
Reach-Inv (later r st) = Step-Inv st (Reach-Inv r)

-- Every step brings the end nearer.
Move-measure :
    {max i : ℕ} {m m' : Shared} {t t' : Thread}
    → Move max i m t m' t'
    → Knows max m t.pc
    → 5 * (max - m'.g_count) + ahead t'.pc < 5 * (max - m.g_count) + ahead t.pc
Move-measure (lock e) v = omega arith
Move-measure (full e) v = omega arith
Move-measure (load e) v = omega arith
Move-measure store v = omega arith
Move-measure unlock v = omega arith
Move-measure leave v = omega arith

pub Step-measure :
    {max : ℕ} {s t : System} → Step max s t → Inv max s → measure max t < measure max s
Step-measure (first mv) v = omega (arith, Move-measure mv v.knows1)
Step-measure (second mv) v = omega (arith, Move-measure mv v.knows2)
