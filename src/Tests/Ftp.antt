-- ===== src/Tests/Ftp.antt =====
-- The command server on a session of three requests, and on a block that is too long.
use edge_embedded_linux.Common.{ℕ, ◌≡◌, refl, List, [], ◌∷◌, ◌++◌, replicate, arith}
use edge_embedded_linux.Text.{codes, crlf}
use edge_embedded_linux.Posix.{Reply, value, failed, returned, exited, run}
use edge_embedded_linux.Posix.Safety.{Judged}
use edge_embedded_linux.Posix.Handles.{Bounds, handles, holding}
use edge_embedded_linux.Tcp.Opening.{Fails, Never}
use edge_embedded_linux.Ftp.{get_pwd, process_command, serve_ftp, ftp_main, ok_line, ok_text}
use edge_embedded_linux.Ftp.Runs.{
  ftp_main-Judged, run-process_command, Request, ask_pwd, other, session, sent,
}

abbrev home : List ℕ
home = codes "/home/pi"

-- A session, with what comes before and after it.
abbrev one_session : List Reply
one_session =
    (value 3 ∷ value 0 ∷ value 0 ∷ value 0 ∷ value 4 ∷ [])
    ++ (session 9 home (ask_pwd ∷ []) ++ (value 0 ∷ failed 24 ∷ []))

ftp_runs : (run (ftp_main 1 2 3) one_session).1 ≡ exited 1
unfolding run ftp_main serve_ftp process_command get_pwd
ftp_runs = refl

abbrev bounds : Bounds
bounds = record { block = 255; output = 240 }

ftp_main-Judged_example :
    Judged
      (handles bounds)
      Never
      Fails
      (run (ftp_main 1 2 3) one_session).0
      (run (ftp_main 1 2 3) one_session).1
      (holding [] [])
ftp_main-Judged_example = ftp_main-Judged bounds (omega arith) (omega arith) 1 2 3 one_session

abbrev long_block : List ℕ
long_block = replicate 256 65

abbrev requests : List Request
requests = ask_pwd ∷ other (codes "HELP" ++ crlf) ∷ ask_pwd ∷ []

run-process_command_example :
    (sent (run (process_command 4 4) (session 9 home requests)).0
      ≡ ok_text home ∷ ok_text home ∷ ok_line ∷ [])
    × ((run (process_command 4 4) (session 9 home requests)).1 ≡ returned tt)
run-process_command_example =
    run-process_command 4 9 b'/' (codes "home/pi") (omega arith) (omega arith) requests 4
      (omega arith) (tt, ((omega arith, omega arith, refl, refl), (tt, tt)))
