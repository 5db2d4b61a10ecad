-- ===== src/Threads/Bounded.antt =====
-- EX04-04_pthread_mutex2: two threads count up to a maximum under a mutex. Each step is one access
-- to what they share; the scheduler picks the thread.
pub mod Invariant
pub mod Progress
pub mod Main
use edge_embedded_linux.Common.{ℕ, ◌≡◌, ◌≢◌, ◌+◌}

-- Where a thread stands in its loop, with the live `temp`.
pub data Pc : Type 0 where
  idle : Pc  -- before pthread_mutex_lock
  entered : Pc  -- before the test of `g_count == max`
  loaded : (temp : ℕ) → Pc  -- after `temp = g_count`
  stored : Pc  -- after `g_count = ++temp; count++`
  leaving : Pc  -- the test has passed
  finished : Pc

pub record Thread : Type 0 where
  pub pc : Pc
  pub count : ℕ

-- `owner` is 0 for a mutex that is free.
pub record Shared : Type 0 where
  pub g_count : ℕ
  pub owner : ℕ

abbrev pub at : Pc → ℕ → Thread
at pc count = record { pc = pc; count = count }

-- One step of thread number `i`.
pub data Move (max i : ℕ) (m : Shared) : Thread → Shared → Thread → Type 0 where
  lock : {c : ℕ} → m.owner ≡ 0 → Move max i m (at idle c) (record m { owner = i }) (at entered c)
  full : {c : ℕ} → m.g_count ≡ max → Move max i m (at entered c) m (at leaving c)
  load : {c : ℕ} → m.g_count ≢ max → Move max i m (at entered c) m (at (loaded m.g_count) c)
  store :
      {c temp : ℕ}
      → Move max i m (at (loaded temp) c) (record m { g_count = temp + 1 }) (at stored (c + 1))
  unlock : {c : ℕ} → Move max i m (at stored c) (record m { owner = 0 }) (at idle c)
  leave : {c : ℕ} → Move max i m (at leaving c) (record m { owner = 0 }) (at finished c)

pub record System : Type 0 where
  pub mem : Shared
  pub t1 : Thread
  pub t2 : Thread

pub data Step (max : ℕ) (s : System) : System → Type 0 where
  first :
      {m : Shared} {t : Thread}
      → Move max 1 s.mem s.t1 m t
      → Step max s (record { mem = m; t1 = t; t2 = s.t2 })
  second :
      {m : Shared} {t : Thread}
      → Move max 2 s.mem s.t2 m t
      → Step max s (record { mem = m; t1 = s.t1; t2 = t })

-- No thread has made a step.
abbrev pub start : System
start = record { mem = record { g_count = 0; owner = 0 }; t1 = at idle 0; t2 = at idle 0 }

-- `n` steps lead from the start to the state.
pub data Reach (max : ℕ) : ℕ → System → Type 0 where
  here : Reach max 0 start
  later : {n : ℕ} {s t : System} → Reach max n s → Step max s t → Reach max (n + 1) t
