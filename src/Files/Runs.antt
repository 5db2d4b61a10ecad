-- ===== src/Files/Runs.antt =====
-- What the file programs do in every run, and in a run without failures.
use edge_embedded_linux.Common.{
  ℕ, zero, suc, ◌≡◌, ap, ◌+◌, ◌%◌, ◌^◌, ◌<◌, List, [], ◌∷◌, length, arith,
}
use edge_embedded_linux.Posix.{
  open_file, create_file, read, write, close, Reply, value, bytes, Event, did, returned, run, Prog,
  return, tell, ◌>>=◌, ◌>>◌,
}
use edge_embedded_linux.Posix.Safety.{Judged, Safe-Judged}
use edge_embedded_linux.Files.{copy, cpfile_main}
use edge_embedded_linux.Files.Ledger.{files, start}
use edge_embedded_linux.Files.Safety.{Copied, Stops, cpfile_main-Safe}

-- In every run of cpfile whose answers conform, short writes included, only open files are used, no
-- store leaves an array, a program that reaches its end has read the source file to its end, has
-- written exactly what it read, has closed both and prints the length, and EXIT_FAILURE leaves a
-- beginning of it.
pub cpfile_main-Judged :
    (argc : ℕ) (src_name dst_name : List ℕ) (n : ℕ) (rs : List Reply)
    → Judged files Copied Stops
        (run (cpfile_main argc src_name dst_name n) rs).0
        (run (cpfile_main argc src_name dst_name n) rs).1
        start
cpfile_main-Judged argc src_name dst_name n rs =
    Safe-Judged files Copied Stops (cpfile_main argc src_name dst_name n) start
      (cpfile_main-Safe argc src_name dst_name n) rs

-- A source file of these bytes, read one by one.
abbrev pub source : List ℕ → List Reply
source [] = bytes [] ∷ value 0 ∷ value 0 ∷ []
source (x ∷ l) = bytes (x ∷ []) ∷ value 1 ∷ source l

abbrev pub transfer : ℕ → ℕ → List ℕ → List Event
transfer src dst [] =
    did (read src 1) (bytes []) ∷ did (close src) (value 0) ∷ did (close dst) (value 0) ∷ []
transfer src dst (x ∷ l) =
    did (read src 1) (bytes (x ∷ [])) ∷ did (write dst (x ∷ [])) (value 1) ∷ transfer src dst l

zero_add : (n : ℕ) → 0 + n ≡ n
zero_add n = omega arith

module _ (src_name dst_name : List ℕ) (src dst : ℕ) where
  abbrev closing : ℕ → Prog ℕ
  closing copied = do tell (close src); tell (close dst); return copied

  run-copy :
      (l : List ℕ) (n copied : ℕ)
      → length l < n
      → copied < 2 ^ 32
      → run (copy n src dst copied >>= closing) (source l)
        ≡ (transfer src dst l, returned ((copied + length l) % 2 ^ 32))
  unfolding run copy
  run-copy l zero copied lt small = absurd (omega arith)
  run-copy [] (suc n) copied lt small = ap (λ c. (transfer src dst [], returned c)) (omega arith)
  run-copy (x ∷ l) (suc n) copied lt small =
      rw (run-copy l n ((copied + 1) % 2 ^ 32) (omega arith) (omega arith))
        (ap (λ c. (transfer src dst (x ∷ l), returned c)) (omega arith))

  -- With more rounds than the source file has bytes, and no failure, cpfile ends: every byte has been
  -- read and written in its order, both files are closed, and the length is printed as an unsigned
  -- int.
  pub run-cpfile_main :
      (l : List ℕ) (n : ℕ)
      → length l < n
      → run (cpfile_main 3 src_name dst_name n) (value src ∷ value dst ∷ source l) ≡ (
        did (open_file src_name) (value src)
            ∷ did (create_file dst_name) (value dst)
            ∷ transfer src dst l,
        returned (length l % 2 ^ 32),
      )
  unfolding run cpfile_main
  run-cpfile_main l n lt = rw (run-copy l n 0 lt (omega arith), zero_add (length l))
