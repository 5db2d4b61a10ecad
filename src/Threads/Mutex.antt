-- ===== src/Threads/Mutex.antt =====
-- EX04-03_pthread_mutex: two threads that main creates count their rounds under a mutex, and main waits
-- for both.
pub mod Invariant
pub mod Progress
use edge_embedded_linux.Common.{ℕ, ◌≡◌, ◌+◌, ◌<◌}

-- Where a thread stands in its loop, with the live `temp`.
pub data Pc : Type 0 where
  absent : Pc  -- not created
  idle : Pc  -- at the test of the loop
  entered : Pc  -- before `temp = g_count`
  loaded : (temp : ℕ) → Pc  -- before `g_count = ++temp; count++`
  stored : Pc  -- before pthread_mutex_unlock
  finished : Pc

-- `i` of the loop equals `count`, the number that the thread prints.
pub record Thread : Type 0 where
  pub pc : Pc
  pub count : ℕ

-- `owner` is 0 for a mutex that is free.
pub record Shared : Type 0 where
  pub g_count : ℕ
  pub owner : ℕ

abbrev pub at : Pc → ℕ → Thread
at pc count = record { pc = pc; count = count }

-- One step of thread number `i` on its way through `n` rounds.
pub data Move (n i : ℕ) (m : Shared) : Thread → Shared → Thread → Type 0 where
  lock :
      {c : ℕ} → c < n → m.owner ≡ 0 → Move n i m (at idle c) (record m { owner = i }) (at entered c)
  load : {c : ℕ} → Move n i m (at entered c) m (at (loaded m.g_count) c)
  store :
      {c temp : ℕ}
      → Move n i m (at (loaded temp) c) (record m { g_count = temp + 1 }) (at stored (c + 1))
  unlock : {c : ℕ} → Move n i m (at stored c) (record m { owner = 0 }) (at idle c)
  finish : {c : ℕ} → c ≡ n → Move n i m (at idle c) m (at finished c)

-- Where main stands.
pub data MainPc : Type 0 where
  creating1 : MainPc
  creating2 : MainPc
  joining1 : MainPc
  joining2 : MainPc
  joined : MainPc

pub record System : Type 0 where
  pub mem : Shared
  pub main : MainPc
  pub t1 : Thread
  pub t2 : Thread

pub data Step (n : ℕ) (s : System) : System → Type 0 where
  create1 : s.main ≡ creating1 → Step n s (record s { main = creating2; t1 = at idle s.t1.count })
  create2 : s.main ≡ creating2 → Step n s (record s { main = joining1; t2 = at idle s.t2.count })
  join1 : s.main ≡ joining1 → s.t1.pc ≡ finished → Step n s (record s { main = joining2 })
  join2 : s.main ≡ joining2 → s.t2.pc ≡ finished → Step n s (record s { main = joined })
  first :
      {m : Shared} {t : Thread}
      → Move n 1 s.mem s.t1 m t
      → Step n s (record { mem = m; main = s.main; t1 = t; t2 = s.t2 })
  second :
      {m : Shared} {t : Thread}
      → Move n 2 s.mem s.t2 m t
      → Step n s (record { mem = m; main = s.main; t1 = s.t1; t2 = t })

-- The mutex has been made.
abbrev pub start : System
start = record {
  mem = record { g_count = 0; owner = 0 };
  main = creating1;
  t1 = at absent 0;
  t2 = at absent 0;
}

-- `k` steps lead from the start to the state.
pub data Reach (n : ℕ) : ℕ → System → Type 0 where
  here : Reach n 0 start
  later : {k : ℕ} {s t : System} → Reach n k s → Step n s t → Reach n (k + 1) t
