-- ===== src/Threads/Semaphore.antt =====
-- EX04-05_pthread_sem: two threads count to a maximum under a mutex; the second waits for a
-- semaphore that the first posts when the counter has reached 100.
pub mod Invariant
pub mod Progress
pub mod Main
use edge_embedded_linux.Common.{ℕ, ◌≡◌, ◌≢◌, ◌+◌, ◌-◌, ◌<◌}

-- `g_count == 100`
abbrev pub signal_at : ℕ
signal_at = 100

pub data Pc : Type 0 where
  waiting : Pc  -- before sem_wait, the second thread only
  idle : Pc  -- before pthread_mutex_lock
  entered : Pc  -- before the test of `g_count == max`
  loaded : (temp : ℕ) → Pc  -- after `temp = g_count`
  stored : Pc  -- after `g_count = ++temp; count++`
  posted : Pc  -- after the test of `g_count == 100` and what follows it
  leaving : Pc  -- the test of `max` has passed
  finished : Pc

pub record Thread : Type 0 where
  pub pc : Pc
  pub count : ℕ

pub record Shared : Type 0 where
  pub g_count : ℕ
  pub owner : ℕ
  pub sem : ℕ

abbrev pub at : Pc → ℕ → Thread
at pc count = record { pc = pc; count = count }

-- The steps that the loops of both threads have, for thread number `i`.
pub data Move (max i : ℕ) (m : Shared) : Thread → Shared → Thread → Type 0 where
  lock : {c : ℕ} → m.owner ≡ 0 → Move max i m (at idle c) (record m { owner = i }) (at entered c)
  full : {c : ℕ} → m.g_count ≡ max → Move max i m (at entered c) m (at leaving c)
  load : {c : ℕ} → m.g_count ≢ max → Move max i m (at entered c) m (at (loaded m.g_count) c)
  store :
      {c temp : ℕ}
      → Move max i m (at (loaded temp) c) (record m { g_count = temp + 1 }) (at stored (c + 1))
  unlock : {c : ℕ} → Move max i m (at posted c) (record m { owner = 0 }) (at idle c)
  leave : {c : ℕ} → Move max i m (at leaving c) (record m { owner = 0 }) (at finished c)

-- thread_func1 posts; thread_func2 waits first, and has no test of 100.
pub data Move1 (max : ℕ) (m : Shared) : Thread → Shared → Thread → Type 0 where
  common : {t t' : Thread} {m' : Shared} → Move max 1 m t m' t' → Move1 max m t m' t'
  post :
      {c : ℕ}
      → m.g_count ≡ signal_at
      → Move1 max m (at stored c) (record m { sem = m.sem + 1 }) (at posted c)
  pass : {c : ℕ} → m.g_count ≢ signal_at → Move1 max m (at stored c) m (at posted c)

pub data Move2 (max : ℕ) (m : Shared) : Thread → Shared → Thread → Type 0 where
  common : {t t' : Thread} {m' : Shared} → Move max 2 m t m' t' → Move2 max m t m' t'
  wake : {c : ℕ} → 0 < m.sem → Move2 max m (at waiting c) (record m { sem = m.sem - 1 }) (at idle c)
  pass : {c : ℕ} → Move2 max m (at stored c) m (at posted c)

pub record System : Type 0 where
  pub mem : Shared
  pub t1 : Thread
  pub t2 : Thread

pub data Step (max : ℕ) (s : System) : System → Type 0 where
  first :
      {m : Shared} {t : Thread}
      → Move1 max s.mem s.t1 m t
      → Step max s (record { mem = m; t1 = t; t2 = s.t2 })
  second :
      {m : Shared} {t : Thread}
      → Move2 max s.mem s.t2 m t
      → Step max s (record { mem = m; t1 = s.t1; t2 = t })

abbrev pub start : System
start = record {
  mem = record { g_count = 0; owner = 0; sem = 0 };
  t1 = at idle 0;
  t2 = at waiting 0;
}

pub data Reach (max : ℕ) : ℕ → System → Type 0 where
  here : Reach max 0 start
  later : {n : ℕ} {s t : System} → Reach max n s → Step max s t → Reach max (n + 1) t
