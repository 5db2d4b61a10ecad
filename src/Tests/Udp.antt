-- ===== src/Tests/Udp.antt =====
-- The UDP servers on a few datagrams.
use edge_embedded_linux.Common.{ℕ, ◌≡◌, refl, List, [], ◌∷◌, replicate, arith}
use edge_embedded_linux.Text.{codes}
use edge_embedded_linux.Posix.{socket, bind, value, did, blocked, run}
use edge_embedded_linux.Tcp.{server_port}
use edge_embedded_linux.Udp.{udp_main, log_main}
use edge_embedded_linux.Udp.Echo.{Arrival, broken, datagram, answers, echoes, run-udp_main}
use edge_embedded_linux.Udp.Log.{datagrams, logged, run-log_main}

abbrev arrivals : List Arrival
arrivals = datagram (codes "hi") ∷ broken 4 ∷ datagram [] ∷ datagram (codes "you") ∷ []

run-udp_main_example :
    run (udp_main 1 5) (value 3 ∷ value 0 ∷ answers arrivals)
    ≡ (did socket (value 3) ∷ did (bind 3 server_port) (value 0) ∷ echoes 3 arrivals, blocked)
run-udp_main_example =
    run-udp_main arrivals 5 3 (omega arith) (omega arith, (tt, (omega arith, (omega arith, tt))))

abbrev zeros : List ℕ
zeros = replicate 256 0

abbrev two_dates : List (List ℕ)
two_dates = codes "6" ∷ codes "Jul" ∷ []

run-log_main_example :
    run (log_main 1 3 (codes "77") zeros) (value 3 ∷ value 0 ∷ datagrams (codes "77") 4 two_dates)
    ≡ (
      did socket (value 3) ∷ did (bind 3 server_port) (value 0) ∷ logged (codes "77") 3 4 two_dates,
      blocked,
    )
run-log_main_example =
    run-log_main (codes "77") 3 4 (omega arith) two_dates 3 zeros (omega arith)
      ((omega arith, omega arith), ((omega arith, omega arith), tt)) (refl, (_, refl))
