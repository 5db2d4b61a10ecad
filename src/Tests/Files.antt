-- ===== src/Tests/Files.antt =====
-- The file programs on a source file of three bytes.
use edge_embedded_linux.Common.{ℕ, ◌≡◌, refl, ◌%◌, ◌^◌, List, [], ◌∷◌, length, arith}
use edge_embedded_linux.Text.{codes}
use edge_embedded_linux.Posix.{
  Reply, value, bytes, open_file, create_file, did, returned, exited, run,
}
use edge_embedded_linux.Posix.Safety.{Judged}
use edge_embedded_linux.Files.{
  cpfile_main, copy, mkfile_main, make_bytes, cpfile_block_main, copy_blocks,
}
use edge_embedded_linux.Files.Ledger.{files, smooth_files, start}
use edge_embedded_linux.Files.Safety.{Copied, Stops}
use edge_embedded_linux.Files.Runs.{cpfile_main-Judged, run-cpfile_main, source, transfer}
use edge_embedded_linux.Files.Digits.{Made, Fails, mkfile_main-Judged}
use edge_embedded_linux.Files.Blocks.{Refuses, cpfile_block_main-Judged}

abbrev three : List ℕ
three = 7 ∷ 8 ∷ 9 ∷ []

abbrev copying : List Reply
copying = value 3 ∷ value 4 ∷ source three

copy_runs : (run (cpfile_main 3 (codes "a") (codes "b") 5) copying).1 ≡ returned 3
unfolding run cpfile_main copy
copy_runs = refl

cpfile_main-Judged_example :
    Judged files Copied Stops
      (run (cpfile_main 3 (codes "a") (codes "b") 5) copying).0
      (run (cpfile_main 3 (codes "a") (codes "b") 5) copying).1
      start
cpfile_main-Judged_example = cpfile_main-Judged 3 (codes "a") (codes "b") 5 copying

run-cpfile_main_example :
    run (cpfile_main 3 (codes "a") (codes "b") 5) (value 3 ∷ value 4 ∷ source three) ≡ (
      did (open_file (codes "a")) (value 3)
          ∷ did (create_file (codes "b")) (value 4)
          ∷ transfer 3 4 three,
      returned (length three % 2 ^ 32),
    )
run-cpfile_main_example = run-cpfile_main (codes "a") (codes "b") 3 4 three 5 (omega arith)

abbrev making_two : List Reply
making_two = value 3 ∷ value 1 ∷ value 1 ∷ value 0 ∷ []

make_runs : (run (mkfile_main 3 (codes "a") 2) making_two).1 ≡ returned tt
unfolding run mkfile_main make_bytes
make_runs = refl

mkfile_main-Judged_example :
    Judged files
      (Made 2)
      Fails
      (run (mkfile_main 3 (codes "a") 2) making_two).0
      (run (mkfile_main 3 (codes "a") 2) making_two).1
      start
mkfile_main-Judged_example = mkfile_main-Judged 3 (codes "a") 2 making_two

-- Two blocks, of 2 bytes and of 1.
abbrev by_twos : List Reply
by_twos =
    value 3
    ∷ value 4
    ∷ bytes (7 ∷ 8 ∷ [])
    ∷ value 2
    ∷ bytes (9 ∷ [])
    ∷ value 1
    ∷ bytes []
    ∷ value 0
    ∷ value 0
    ∷ value 0
    ∷ []

blocks_run : (run (cpfile_block_main 4 (codes "a") (codes "b") 2 5) by_twos).1 ≡ returned 3
unfolding run cpfile_block_main copy_blocks
blocks_run = refl

big_block_refused : (run (cpfile_block_main 4 (codes "a") (codes "b") 4097 5) by_twos).1 ≡ exited 1
unfolding run cpfile_block_main
big_block_refused = refl

-- A block size of 0 is accepted, and nothing is copied.
abbrev by_nothing : List Reply
by_nothing = value 3 ∷ value 4 ∷ bytes [] ∷ value 0 ∷ value 0 ∷ value 0 ∷ []

no_block : (run (cpfile_block_main 4 (codes "a") (codes "b") 0 5) by_nothing).1 ≡ returned 0
unfolding run cpfile_block_main copy_blocks
no_block = refl

cpfile_block_main-Judged_example :
    Judged smooth_files Copied Refuses
      (run (cpfile_block_main 4 (codes "a") (codes "b") 2 5) by_twos).0
      (run (cpfile_block_main 4 (codes "a") (codes "b") 2 5) by_twos).1
      start
cpfile_block_main-Judged_example =
    cpfile_block_main-Judged (codes "a") (codes "b") 2 5 (omega arith) 4 by_twos
