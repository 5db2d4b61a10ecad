-- ===== src/Tests/Fifo.antt =====
-- A FIFO that carries "hi", and a pipe that carries "hello".
use edge_embedded_linux.Common.{
  ℕ, ◌≡◌, refl, List, [], ◌∷◌, ◌++◌, Option, none, some, replicate, arith,
}
use edge_embedded_linux.Text.{codes}
use edge_embedded_linux.Posix.{
  mkfifo, open_file, read, write, close, value, bytes, failed, did, returned, exited, run,
}
use edge_embedded_linux.Fifo.{
  max_fifo_buf, path_fifo, eexist, rfifo_main, wfifo_main, read_fifo, rfifo_nb_main, pipe_fork_main,
}
use edge_embedded_linux.Fifo.Strings.{sent}
use edge_embedded_linux.Fifo.Runs.{
  fifo_answers, arrivals, reads, exit_answers, run-fifo, run-rfifo_nb,
}

abbrev old_bytes : List ℕ
old_bytes = replicate 512 120

run-fifo_example :
    ((run (wfifo_main 2 (codes "hi")) (fifo_answers 4 (value 3))).0 ≡ (
      did (mkfifo path_fifo) (value 0)
      ∷ did (open_file path_fifo) (value 4)
      ∷ did (write 4 (sent (codes "hi"))) (value 3)
      ∷ did (close 4) (value 0)
      ∷ []))
    × ((run (rfifo_main 1 old_bytes) (fifo_answers 3 (bytes (sent (codes "hi"))))).1
        ≡ returned (codes "hi"))
run-fifo_example =
    run-fifo (codes "hi") old_bytes 4 3 3 (omega arith, (omega arith, tt)) (omega arith) refl

abbrev one_string : List (Option (List ℕ))
one_string = none ∷ some (codes "hi") ∷ none ∷ []

run-rfifo_nb_example :
    run (rfifo_nb_main 1 4 old_bytes) (value 0 ∷ value 3 ∷ arrivals one_string exit_answers) ≡ (
      did (mkfifo path_fifo) (value 0)
          ∷ did (open_file path_fifo) (value 3)
          ∷ reads 3 one_string (
              did (read 3 max_fifo_buf) (bytes (sent (codes "exit")))
              ∷ did (close 3) (value 0)
              ∷ []),
      returned (codes "hi" ∷ codes "exit" ∷ []),
    )
run-rfifo_nb_example =
    run-rfifo_nb one_string 4 3 old_bytes (omega arith) refl refl
      ((omega arith, (omega arith, tt)), omega arith, refl, tt)

-- Two strings in one read: the second, "exit", is neither printed nor noticed.
two_at_once :
    (run (rfifo_nb_main 1 2 old_bytes) (
      value 0
      ∷ value 3
      ∷ bytes (sent (codes "hi") ++ sent (codes "exit"))
      ∷ value 0
      ∷ exit_answers)).1
    ≡ returned (codes "hi" ∷ codes "exit" ∷ [])
unfolding run rfifo_nb_main read_fifo
two_at_once = refl

-- A FIFO that is there is opened, another failure of mkfifo() ends the program.
fifo_is_there :
    (run
      (rfifo_main 1 old_bytes)
      (failed eexist ∷ value 3 ∷ bytes (sent (codes "hi")) ∷ value 0 ∷ [])).1
    ≡ returned (codes "hi")
unfolding run rfifo_main
fifo_is_there = refl

no_fifo :
    run (rfifo_main 1 old_bytes) (failed 13 ∷ [])
    ≡ (did (mkfifo path_fifo) (failed 13) ∷ [], exited 1)
unfolding run rfifo_main
no_fifo = refl

-- The child and the parent of pipe_fork.
pipe_child_run :
    (run
      (pipe_fork_main old_bytes)
      (bytes (3 ∷ 4 ∷ []) ∷ value 0 ∷ value 0 ∷ bytes (sent (codes "hello")) ∷ value 0 ∷ [])).1
    ≡ returned (codes "hello")
unfolding run pipe_fork_main
pipe_child_run = refl

pipe_parent_run :
    (run
      (pipe_fork_main old_bytes)
      (bytes (3 ∷ 4 ∷ []) ∷ value 99 ∷ value 0 ∷ value 6 ∷ value 0 ∷ value 99 ∷ [])).1
    ≡ returned (codes "hello")
unfolding run pipe_fork_main
pipe_parent_run = refl
