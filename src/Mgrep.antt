-- ===== src/Mgrep.antt =====
-- EX02-06_mgrep: a process for each pattern, each of which becomes a grep.
pub mod Turns
pub mod Runs
use edge_embedded_linux.Common.{
  ℕ, zero, suc, ◌+◌, ◌-◌, ◌*◌, ◌%◌, ◌^◌, List, [], ◌∷◌, length, Option, none, some, ◌==◌,
  if◌then◌else◌,
}
use edge_embedded_linux.Text.{codes}
use edge_embedded_linux.Posix.{
  Call, fork, getpid, malloc, execl, waitpid, free, number, Prog, return, exit, fault, call, ◌>>=◌,
  ◌>>◌, ask, tell,
}
use edge_embedded_linux.Files.{word}

abbrev pub arg : List (List ℕ) → ℕ → List ℕ
arg [] i = []
arg (a ∷ l) zero = a
arg (a ∷ l) (suc i) = arg l i

-- malloc(sizeof(pid_t) * num_of_child), where num_of_child is argc - 2 and may be negative.
abbrev pub pids_size : ℕ → ℕ
pids_size argc = 4 * (argc + 2 ^ 64 - 2) % 2 ^ 64

abbrev pub must_malloc : ℕ → Prog ℕ
must_malloc size = call (malloc size) (λ r. elim (number r) [ none ↦ exit 2 | some a ↦ return a ])

-- getpid() does not fail.
abbrev pub own_pid : Prog ℕ
own_pid = do p ← ask getpid; return (word p)

-- fork() in the parent; the child leaves its elements of `pid_temp` as they are, which is `none`.
abbrev pub fork_child : (parent me : ℕ) → Prog (Option ℕ)
fork_child parent me =
    if me == parent then (do p ← ask fork; return (some (word p))) else return none

unfoldable pub fork_children : (left parent : ℕ) → Prog (List (Option ℕ))
fork_children zero parent = return []
fork_children (suc left) parent = do
  me ← own_pid
  p ← fork_child parent me
  rest ← fork_children left parent
  return (p ∷ rest)

-- grep takes the place of the program, and ends with a status.
abbrev pub exec : List (List ℕ) → Prog (Unit {0})
exec args =
    call (execl args) (λ r. elim (number r) [ none ↦ return tt | some status ↦ exit status ])

abbrev pub grep_args : List (List ℕ) → List (List ℕ)
grep_args argv = codes "grep" ∷ codes "-rn" ∷ arg argv 2 ∷ arg argv 1 ∷ []

-- Each element that is 0 is that of a child. An element that was never stored is not to be read.
unfoldable pub exec_children : List (List ℕ) → List (Option ℕ) → Prog (Unit {0})
exec_children argv [] = return tt
exec_children argv (none ∷ pids) = fault
exec_children argv (some p ∷ pids) = do
  (if p == 0 then exec (grep_args argv) else return tt)
  exec_children argv pids

unfoldable pub wait_children : List (Option ℕ) → Prog (Unit {0})
wait_children [] = return tt
wait_children (none ∷ pids) = fault
wait_children (some p ∷ pids) = do tell (waitpid p); wait_children pids

abbrev pub wait_in_parent : (parent me : ℕ) → List (Option ℕ) → Prog (Unit {0})
wait_in_parent parent me pids = if me == parent then wait_children pids else return tt

unfoldable pub mgrep_main : List (List ℕ) → Prog ℕ
mgrep_main argv = do
  array ← must_malloc (pids_size (length argv))
  parent ← own_pid
  pids ← fork_children (length argv - 2) parent
  exec_children argv pids
  me ← own_pid
  wait_in_parent parent me pids
  tell (free array)
  return 0
