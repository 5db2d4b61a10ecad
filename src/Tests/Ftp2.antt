-- ===== src/Tests/Ftp2.antt =====
-- myftp2 with a client on descriptor 4 that asks for the file `a`, and for a listing.
use edge_embedded_linux.Common.{◌≡◌, refl, [], ◌∷◌, arith}
use edge_embedded_linux.Text.{codes}
use edge_embedded_linux.Posix.{read, write, close, open_file, sleep, value, bytes, did, exited, run}
use edge_embedded_linux.Ftp.{max_rbuf, ok_line}
use edge_embedded_linux.Ftp2.{data_port, digits, process_command, serve_ftp2, ftp2_main}
use edge_embedded_linux.Ftp2.Data.{Attempt}
use edge_embedded_linux.Ftp2.Runs.{get_line, IsName, connecting, connected, run-get}

a_IsName : IsName (codes "a")
a_IsName = ((omega arith, tt), omega arith)

abbrev busy : Attempt
busy = record { roll = 80; socket = 5; errno = 98 }

-- The second attempt gives port 1024 + 7.
run-get_example :
    run (process_command 2 4) (
      bytes (get_line (codes "a"))
      ∷ connecting 4
          (busy ∷ [])
          7
          6
          8
          (value 9)
          (value 9 ∷ bytes (codes "xyz") ∷ value 3 ∷ value 0 ∷ value 0 ∷ value 4 ∷ value 0 ∷ []))
    ≡ (let e = run (process_command 1 4) [] in
        (
          did (read 4 max_rbuf) (bytes (get_line (codes "a")))
              ∷ connected 4 (busy ∷ []) 7 6 8 (value 9) (
                  did (open_file (codes "a")) (value 9)
                  ∷ did (read 9 1024) (bytes (codes "xyz"))
                  ∷ did (write 8 (codes "xyz")) (value 3)
                  ∷ did (sleep 100000) (value 0)
                  ∷ did (close 8) (value 0)
                  ∷ did (write 4 ok_line) (value 4)
                  ∷ did (close 6) (value 0)
                  ∷ e.0),
          e.1,
        ))
run-get_example =
    run-get 1 4 (codes "a") a_IsName (busy ∷ []) 7 6 8 (value 9) (omega arith) 9 (codes "xyz")
      (value 3) (value 0) (value 0) (value 4) (value 0) []

port_text : digits 4 (data_port 7) ≡ codes "1031"
port_text = refl

-- The child leaves after the client has closed its end.
child_exits :
    (run (ftp2_main 1 1 1) (
      value 0
      ∷ value 3
      ∷ value 0
      ∷ value 0
      ∷ value 0
      ∷ value 4
      ∷ value 0
      ∷ value 0
      ∷ value 0
      ∷ bytes []
      ∷ value 0
      ∷ [])).1
    ≡ exited 0
unfolding run ftp2_main serve_ftp2 process_command
child_exits = refl
