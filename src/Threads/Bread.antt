-- ===== src/Threads/Bread.antt =====
-- EX04-06_pthread_bread: two makers bake 100 loaves, a boxer packs them by ten.
pub mod Invariant
pub mod Progress
pub mod Main
use edge_embedded_linux.Common.{ℕ, ◌≡◌, ◌≢◌, ◌+◌, ◌*◌, ◌≤◌, ◌<◌}

abbrev pub num_of_bread : ℕ
num_of_bread = 100

-- Where a maker or the boxer stands in its loop.
pub data Pc : Type 0 where
  idle : Pc  -- before pthread_mutex_lock
  entered : Pc  -- before the test under the mutex
  worked : Pc  -- after that test and what follows it
  unlocked : Pc  -- before the test that ends the loop, which is made without the mutex
  finished : Pc

-- `owner` is 0 for a mutex that is free, else the number of the thread.
pub record Shop : Type 0 where
  pub bread_count : ℕ
  pub box_count : ℕ
  pub owner : ℕ

-- thread_maker
pub data Make (i : ℕ) (m : Shop) : Pc → Shop → Pc → Type 0 where
  lock : m.owner ≡ 0 → Make i m idle (record m { owner = i }) entered
  bake :
      m.bread_count < num_of_bread
      → Make i m entered (record m { bread_count = m.bread_count + 1 }) worked
  enough : num_of_bread ≤ m.bread_count → Make i m entered m worked
  unlock : Make i m worked (record m { owner = 0 }) unlocked
  again : m.bread_count < num_of_bread → Make i m unlocked m idle
  stop : num_of_bread ≤ m.bread_count → Make i m unlocked m finished

-- thread_boxer. The test is on ints: `bread_count - (box_count * 10) >= 10`.
pub data Box (i : ℕ) (m : Shop) : Pc → Shop → Pc → Type 0 where
  lock : m.owner ≡ 0 → Box i m idle (record m { owner = i }) entered
  pack :
      m.box_count * 10 + 10 ≤ m.bread_count
      → Box i m entered (record m { box_count = m.box_count + 1 }) worked
  too_few : m.bread_count < m.box_count * 10 + 10 → Box i m entered m worked
  unlock : Box i m worked (record m { owner = 0 }) unlocked
  again : m.box_count ≢ 10 → Box i m unlocked m idle
  stop : m.box_count ≡ 10 → Box i m unlocked m finished

pub record System : Type 0 where
  pub shop : Shop
  pub maker1 : Pc
  pub maker2 : Pc
  pub boxer : Pc

pub data Step (s : System) : System → Type 0 where
  make1 :
      {m : Shop} {p : Pc}
      → Make 1 s.shop s.maker1 m p
      → Step s (record { shop = m; maker1 = p; maker2 = s.maker2; boxer = s.boxer })
  make2 :
      {m : Shop} {p : Pc}
      → Make 2 s.shop s.maker2 m p
      → Step s (record { shop = m; maker1 = s.maker1; maker2 = p; boxer = s.boxer })
  box :
      {m : Shop} {p : Pc}
      → Box 3 s.shop s.boxer m p
      → Step s (record { shop = m; maker1 = s.maker1; maker2 = s.maker2; boxer = p })

-- No thread has made a step.
abbrev pub start : System
start = record {
  shop = record { bread_count = 0; box_count = 0; owner = 0 };
  maker1 = idle;
  maker2 = idle;
  boxer = idle;
}

pub data Reach : System → Type 0 where
  here : Reach start
  later : {s t : System} → Reach s → Step s t → Reach t
