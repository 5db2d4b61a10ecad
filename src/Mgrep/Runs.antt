-- ===== src/Mgrep/Runs.antt =====
-- The parent of mgrep and each of its children, when every fork() succeeds.
use edge_embedded_linux.Common.{
  ℕ, suc, ◌≡◌, ◌≢◌, refl, ap, ◌+◌, ◌-◌, false, List, [], ◌∷◌, ◌++◌, append-nil, replicate, length,
  Option, none, some, ◌==◌, arith,
}
use edge_embedded_linux.Posix.{
  fork, getpid, malloc, execl, free, Reply, value, Event, did, returned, exited, run, Prog, return,
  ◌>>=◌, ◌>>◌, tell,
}
use edge_embedded_linux.Posix.Safety.{bind_assoc}
use edge_embedded_linux.Mgrep.{
  pids_size, fork_children, grep_args, exec_children, wait_in_parent, own_pid, mgrep_main,
}
use edge_embedded_linux.Mgrep.Turns.{
  ArePids, forks, forked, waits, waited, own, owned, stored, eq_self, run-fork_children,
  run-fork_none, run-wait, run-exec_parents,
}

-- From the second loop on, and after it.
abbrev ending : (array parent : ℕ) → List (Option ℕ) → Unit {0} → Prog ℕ
ending array parent pids _ = do
  me ← own_pid
  wait_in_parent parent me pids
  tell (free array)
  return 0

abbrev rest : (argv : List (List ℕ)) (array parent : ℕ) → List (Option ℕ) → Prog ℕ
rest argv array parent pids = exec_children argv pids >>= ending array parent pids

module _ (argv : List (List ℕ)) (array me : ℕ) where
  abbrev after : List (Option ℕ) → Unit {0} → Prog ℕ
  after pids = ending array me pids

  ends_parent :
      (ps : List ℕ)
      → ArePids ps
      → run (rest argv array me (stored ps ++ [])) (value me ∷ waits ps (value 0 ∷ []))
        ≡ (did getpid (value me) ∷ waited ps (did (free array) (value 0) ∷ []), returned 0)
  unfolding run exec_children
  ends_parent ps h =
      rw
        (
          run-exec_parents me argv ps [] (after (stored ps ++ [])) h,
          append-nil (stored ps),
          eq_self me,
          run-wait {A = ℕ} me ps (λ _. do tell (free array); return 0) (value 0 ∷ []),
        )
        refl

  ends_child :
      (before : List ℕ) (more : ℕ) (status : ℕ)
      → ArePids before
      → run
          (rest argv array me (stored before ++ (some 0 ∷ replicate more none)))
          (value status ∷ [])
        ≡ (did (execl (grep_args argv)) (value status) ∷ [], exited status)
  unfolding run exec_children
  ends_child before more status h =
      rw
        (run-exec_parents me argv before (some 0 ∷ replicate more none)
          (after (stored before ++ (some 0 ∷ replicate more none))) h)
        refl

-- The run of the parent, whose forks give `ps`, and of the child that is forked after those of
-- `before`, with `more` turns left.
abbrev pub parent_answers : (array me : ℕ) → List ℕ → List Reply
parent_answers array me ps =
    value array ∷ value me ∷ forks me ps (value me ∷ waits ps (value 0 ∷ []))

abbrev pub parent_events : List (List ℕ) → (array me : ℕ) → List ℕ → List Event
parent_events argv array me ps =
    did (malloc (pids_size (length argv))) (value array)
    ∷ did getpid (value me)
    ∷ forked me ps (did getpid (value me) ∷ waited ps (did (free array) (value 0) ∷ []))

abbrev pub child_answers : (array me child : ℕ) → List ℕ → (more status : ℕ) → List Reply
child_answers array me child before more status =
    value array
    ∷ value me
    ∷ forks me before (value me ∷ value 0 ∷ own child more (value status ∷ []))

abbrev pub child_events :
    List (List ℕ) → (array me child : ℕ) → List ℕ → (more status : ℕ) → List Event
child_events argv array me child before more status =
    did (malloc (pids_size (length argv))) (value array)
    ∷ did getpid (value me)
    ∷ forked me before (
        did getpid (value me)
        ∷ did fork (value 0)
        ∷ owned child more (did (execl (grep_args argv)) (value status) ∷ []))

-- When no call fails and the patterns are as many as the forks, the parent of mgrep forks once for each
-- of them, waits for the children in order and returns 0.
pub run-mgrep_parent :
    (argv : List (List ℕ)) (array me : ℕ) (ps : List ℕ)
    → length argv ≡ length ps + 2
    → ArePids ps
    → run (mgrep_main argv) (parent_answers array me ps)
      ≡ (parent_events argv array me ps, returned 0)
unfolding run mgrep_main fork_children
run-mgrep_parent argv array me ps e h =
    let n : length argv - 2 ≡ length ps + 0 = omega (arith, e) in
    rw
      (
        n,
        run-fork_children me ps 0 (rest argv array me) (value me ∷ waits ps (value 0 ∷ [])),
        ends_parent argv array me ps h,
      )
      refl

turn_child :
    (argv : List (List ℕ)) (array me child : ℕ) (before : List ℕ) (more status : ℕ)
    → ArePids before
    → child ≢ me
    → run
        (fork_children (suc more) me >>= λ l. rest argv array me (stored before ++ l))
        (value me ∷ value 0 ∷ own child more (value status ∷ []))
      ≡ (
        did getpid (value me)
            ∷ did fork (value 0)
            ∷ owned child more (did (execl (grep_args argv)) (value status) ∷ []),
        exited status,
      )
unfolding run fork_children
turn_child argv array me child before more status h ne =
    let apart : (child == me) ≡ false = ground arith in
    rw
      (
        eq_self me,
        bind_assoc (fork_children more me) (λ l. return (some 0 ∷ l))
            (λ l. rest argv array me (stored before ++ l)),
        run-fork_none child more me (λ l. rest argv array me (stored before ++ (some 0 ∷ l)))
            (value status ∷ []) apart,
        ends_child argv array me before more status h,
      )
      refl

-- When no call fails, every child of mgrep, whichever pattern it is forked for, becomes a grep for the
-- first of the patterns, and ends as this does.
pub run-mgrep_child :
    (argv : List (List ℕ)) (array me child : ℕ) (before : List ℕ) (more status : ℕ)
    → length argv ≡ length before + suc more + 2
    → ArePids before
    → child ≢ me
    → run (mgrep_main argv) (child_answers array me child before more status)
      ≡ (child_events argv array me child before more status, exited status)
unfolding run mgrep_main fork_children
run-mgrep_child argv array me child before more status e h ne =
    let n : length argv - 2 ≡ length before + suc more = omega (arith, e) in
    rw
      (
        n,
        run-fork_children me before (suc more) (rest argv array me)
            (value me ∷ value 0 ∷ own child more (value status ∷ [])),
      )
      (ap
        (λ e. (
          did (malloc (pids_size (length argv))) (value array)
              ∷ did getpid (value me)
              ∷ forked me before e.0,
          e.1,
        ))
        (turn_child argv array me child before more status h ne))
