-- ===== src/Tests/Mgrep.antt =====
-- mgrep with two patterns in one directory: the second child.
use edge_embedded_linux.Common.{ℕ, ◌≡◌, refl, List, [], ◌∷◌, arith}
use edge_embedded_linux.Text.{codes}
use edge_embedded_linux.Posix.{exited, run}
use edge_embedded_linux.Mgrep.{grep_args, mgrep_main}
use edge_embedded_linux.Mgrep.Runs.{child_answers, child_events, run-mgrep_child}

abbrev args : List (List ℕ)
args = codes "mgrep" ∷ codes "src" ∷ codes "main" ∷ codes "fork" ∷ []

-- The second child, which is to look for `fork`, looks for `main`.
second_greps : grep_args args ≡ codes "grep" ∷ codes "-rn" ∷ codes "main" ∷ codes "src" ∷ []
second_greps = refl

run-mgrep_child_example :
    run (mgrep_main args) (child_answers 4096 100 102 (101 ∷ []) 0 1)
    ≡ (child_events args 4096 100 102 (101 ∷ []) 0 1, exited 1)
run-mgrep_child_example =
    run-mgrep_child args 4096 100 102 (101 ∷ []) 0 1 refl (omega arith, tt)
      (λ e. absurd (omega (arith, e)))
