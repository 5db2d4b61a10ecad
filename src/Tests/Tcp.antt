-- ===== src/Tests/Tcp.antt =====
-- The echo servers on one client that sends `hi` and closes, and then no answer from accept().
use edge_embedded_linux.Common.{ℕ, ◌≡◌, refl, List, [], ◌∷◌, arith}
use edge_embedded_linux.Text.{codes}
use edge_embedded_linux.Posix.{Reply, value, bytes, failed, returned, exited, run}
use edge_embedded_linux.Tcp.{
  echo, serve, serve_timeout, serve_fork, tcp_main, timeout_main, fork_main,
}
use edge_embedded_linux.Tcp.Rules.{Fails, Exits}
use edge_embedded_linux.Tcp.Multi.{scan, serve_multi, multi_main}
use edge_embedded_linux.Tcp.Runs.{
  IsJudged, multi_main-Judged, servers-Judged, client, conversation, run-echo,
}

-- socket(), setsockopt(), bind(), listen()
abbrev started : List Reply
started = value 3 ∷ value 0 ∷ value 0 ∷ value 0 ∷ []

abbrev one_client : List Reply
one_client =
    value 3
    ∷ value 0
    ∷ value 0
    ∷ value 0
    ∷ value 4
    ∷ bytes (codes "hi")
    ∷ value 2
    ∷ bytes []
    ∷ value 0
    ∷ failed 24
    ∷ []

-- After the client the failure of accept() is EXIT_FAILURE.
tcp_runs : (run (tcp_main 1 2 3) one_client).1 ≡ exited 1
unfolding run tcp_main serve echo
tcp_runs = refl

-- A timeout, then the client.
abbrev late_client : List Reply
late_client =
    value 3
    ∷ value 0
    ∷ value 0
    ∷ value 0
    ∷ bytes []
    ∷ bytes (3 ∷ [])
    ∷ value 4
    ∷ bytes (codes "hi")
    ∷ value 2
    ∷ bytes []
    ∷ value 0
    ∷ failed 4
    ∷ []

timeout_runs : (run (timeout_main 1 3 3) late_client).1 ≡ exited 1
unfolding run timeout_main serve_timeout echo
timeout_runs = refl

-- The child of a fork(): signal(), then as above, and 0 from fork().
abbrev child : List Reply
child =
    value 0
    ∷ value 3
    ∷ value 0
    ∷ value 0
    ∷ value 0
    ∷ value 4
    ∷ value 0
    ∷ value 0
    ∷ bytes (codes "hi")
    ∷ value 2
    ∷ bytes []
    ∷ value 0
    ∷ []

fork_runs : (run (fork_main 1 1 3) child).1 ≡ exited 0
unfolding run fork_main serve_fork echo
fork_runs = refl

-- select() marks the listening socket, then the client.
abbrev selected : List Reply
selected =
    value 3
    ∷ value 0
    ∷ value 0
    ∷ value 0
    ∷ bytes (3 ∷ [])
    ∷ value 4
    ∷ bytes (4 ∷ [])
    ∷ bytes (codes "hi")
    ∷ value 2
    ∷ failed 4
    ∷ []

multi_runs : (run (multi_main 1 3) selected).1 ≡ exited 1
unfolding run multi_main serve_multi scan
multi_runs = refl

servers-Judged_example :
    IsJudged 4096 Fails (tcp_main 1 3 3) child
    × IsJudged 1024 Fails (timeout_main 1 3 3) child
    × IsJudged 4096 Exits (fork_main 1 3 3) child
servers-Judged_example = servers-Judged 4096 3 child 1 3 1024 (omega arith)

multi_main-Judged_example : IsJudged 1024 Fails (multi_main 1 3) selected
multi_main-Judged_example = multi_main-Judged 1024 3 selected (omega arith) 1

abbrev two_blocks : List (List ℕ)
two_blocks = codes "hi" ∷ codes "there" ∷ []

run-echo_example : run (echo 3 7) (client two_blocks) ≡ (conversation 7 two_blocks, returned tt)
run-echo_example = run-echo two_blocks 3 7 (omega arith) (omega arith)
