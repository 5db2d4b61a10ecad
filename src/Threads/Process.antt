-- ===== src/Threads/Process.antt =====
-- main() of the programs EX04: it creates its threads one after the other, then waits for each in the
-- same order. A failure of pthread_create() or pthread_join() ends the process with all its threads.
pub mod Ends
use edge_embedded_linux.Common.{ℕ, ◌≡◌, ◌+◌, ◌<◌}

-- The threads of a program. `turn` is the number, from 0, of the thread that makes a step.
pub record Group : Type 1 where
  pub State : Type 0
  pub number : ℕ
  pub begin : State
  pub Step : State → State → Type 0
  pub turn : {s t : State} → Step s t → ℕ
  pub IsDone : ℕ → State → Type 0

-- Where main stands.
pub data MainPc : Type 0 where
  creating : (i : ℕ) → MainPc  -- before the creation of thread `i`, or past the last
  joining : (i : ℕ) → MainPc  -- before the join of thread `i`, or past the last
  failed : MainPc  -- EXIT_FAILURE

pub record Process (G : Group) : Type 0 where
  pub main : MainPc
  pub threads : G.State

-- How many threads there are.
abbrev pub created : Group → MainPc → ℕ
created G (creating i) = i
created G (joining i) = G.number
created G failed = 0

pub data Move (G : Group) (p : Process G) : Process G → Type 0 where
  create :
      {i : ℕ} → p.main ≡ creating i → i < G.number → Move G p (record p { main = creating (i + 1) })
  all_created : p.main ≡ creating G.number → Move G p (record p { main = joining 0 })
  join :
      {i : ℕ}
      → p.main ≡ joining i
      → i < G.number
      → G.IsDone i p.threads
      → Move G p (record p { main = joining (i + 1) })
  runs :
      {t : G.State} (st : G.Step p.threads t)
      → G.turn st < created G p.main
      → Move G p (record p { threads = t })

pub data Step (G : Group) (p : Process G) : Process G → Type 0 where
  moves : {q : Process G} → Move G p q → Step G p q
  no_thread : {i : ℕ} → p.main ≡ creating i → i < G.number → Step G p (record p { main = failed })
  no_join : {i : ℕ} → p.main ≡ joining i → i < G.number → Step G p (record p { main = failed })

abbrev pub start : (G : Group) → Process G
start G = record { main = creating 0; threads = G.begin }

-- `k` steps lead from the start to the state.
pub data Reach (G : Group) : ℕ → Process G → Type 0 where
  here : Reach G 0 (start G)
  later : {k : ℕ} {p q : Process G} → Reach G k p → Step G p q → Reach G (k + 1) q
