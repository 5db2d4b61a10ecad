-- ===== src/Threads/Race.antt =====
-- EX04-02_pthread_multi: two threads count to a number of rounds each with no mutex.
pub mod Main
use edge_embedded_linux.Common.{ℕ, zero, suc, ◌≡◌, refl, ◌+◌, ◌*◌, ◌≤◌, ◌<◌, arith}

pub data Pc : Type 0 where
  ready : Pc  -- at the test of the loop
  loaded : (temp : ℕ) → Pc  -- after `temp = g_count`

pub record Thread : Type 0 where
  pub pc : Pc
  pub count : ℕ

abbrev pub at : Pc → ℕ → Thread
at pc count = record { pc = pc; count = count }

-- One step of a thread: `i` of the loop equals `count`, the number that the thread prints.
pub data Move (rounds g_count : ℕ) : Thread → ℕ → Thread → Type 0 where
  load : {c : ℕ} → c < rounds → Move rounds g_count (at ready c) g_count (at (loaded g_count) c)
  store : {c temp : ℕ} → Move rounds g_count (at (loaded temp) c) (temp + 1) (at ready (c + 1))

pub record System : Type 0 where
  pub g_count : ℕ
  pub t1 : Thread
  pub t2 : Thread

pub data Step (rounds : ℕ) (s : System) : System → Type 0 where
  first :
      {g : ℕ} {t : Thread}
      → Move rounds s.g_count s.t1 g t
      → Step rounds s (record { g_count = g; t1 = t; t2 = s.t2 })
  second :
      {g : ℕ} {t : Thread}
      → Move rounds s.g_count s.t2 g t
      → Step rounds s (record { g_count = g; t1 = s.t1; t2 = t })

abbrev pub start : System
start = record { g_count = 0; t1 = at ready 0; t2 = at ready 0 }

pub data Reach (rounds : ℕ) : System → Type 0 where
  here : Reach rounds start
  later : {s t : System} → Reach rounds s → Step rounds s t → Reach rounds t

-- A thread within its rounds, that has loaded no more than was counted.
abbrev pub Loaded : ℕ → ℕ → ℕ → Pc → Type 0
Loaded rounds counted c ready = c ≤ rounds
Loaded rounds counted c (loaded temp) = (temp ≤ counted) × (c < rounds)

pub record Inv (rounds : ℕ) (s : System) : Type 0 where
  pub most : s.g_count ≤ s.t1.count + s.t2.count
  pub held1 : Loaded rounds (s.t1.count + s.t2.count) s.t1.count s.t1.pc
  pub held2 : Loaded rounds (s.t1.count + s.t2.count) s.t2.count s.t2.pc

-- A step of the other thread leaves what was loaded within what is counted.
Loaded-mono :
    (rounds m n : ℕ) (pc : Pc) (c : ℕ) → m ≤ n → Loaded rounds m c pc → Loaded rounds n c pc
Loaded-mono rounds m n ready c h l = l
Loaded-mono rounds m n (loaded temp) c h l = omega arith

Step-Inv : {rounds : ℕ} {s t : System} → Step rounds s t → Inv rounds s → Inv rounds t
Step-Inv (first (load lt)) v = record { most = v.most; held1 = omega arith; held2 = v.held2 }
Step-Inv {s = s} (first store) v = record {
  most = omega arith;
  held1 = omega arith;
  held2 = Loaded-mono _ (s.t1.count + s.t2.count) _ s.t2.pc s.t2.count (omega arith) v.held2;
}
Step-Inv (second (load lt)) v = record { most = v.most; held1 = v.held1; held2 = omega arith }
Step-Inv {s = s} (second store) v = record {
  most = omega arith;
  held1 = Loaded-mono _ (s.t1.count + s.t2.count) _ s.t1.pc s.t1.count (omega arith) v.held1;
  held2 = omega arith;
}

pub Reach-Inv : {rounds : ℕ} {s : System} → Reach rounds s → Inv rounds s
Reach-Inv here = omega arith
Reach-Inv (later r st) = Step-Inv st (Reach-Inv r)

count_le : (rounds n : ℕ) (pc : Pc) (c : ℕ) → Loaded rounds n c pc → c ≤ rounds
count_le rounds n ready c l = l
count_le rounds n (loaded temp) c l = omega arith

-- The counter never exceeds what the threads have counted, and that never exceeds their rounds.
pub race_bound :
    {rounds : ℕ} (s : System)
    → Reach rounds s
    → (s.g_count ≤ s.t1.count + s.t2.count) × (s.t1.count ≤ rounds) × (s.t2.count ≤ rounds)
race_bound {rounds} s r =
    let v = Reach-Inv r in
    (v.most, count_le _ _ s.t1.pc s.t1.count v.held1, count_le _ _ s.t2.pc s.t2.count v.held2)

-- Both threads are at the loop's test with this many rounds behind them.
abbrev pub level : ℕ → System
level n = record { g_count = n; t1 = at ready n; t2 = at ready n }

lockstep : {rounds n : ℕ} → n < rounds → Reach rounds (level n) → Reach rounds (level (n + 1))
lockstep lt r =
    later (later (later (later r (first (load lt))) (second (load lt))) (first store))
      (second store)

pub Reach-level : (rounds n : ℕ) → n ≤ rounds → Reach rounds (level n)
Reach-level rounds zero h = here
Reach-level rounds (suc n) h =
    let e : n + 1 ≡ suc n = omega arith in
    rw (← e) (lockstep h (Reach-level rounds n (omega arith)))

-- Updates are lost: for every number of rounds there is a run in which both threads make all their
-- rounds, and the counter ends at half of what they counted together.
pub race_loses :
    (rounds : ℕ)
    → (s : System) × Reach rounds s
      × (s.t1 ≡ at ready rounds)
      × (s.t2 ≡ at ready rounds)
      × (2 * s.g_count ≡ s.t1.count + s.t2.count)
race_loses rounds = (level rounds, Reach-level rounds rounds (omega arith), refl, refl, omega arith)
