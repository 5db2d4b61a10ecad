-- ===== src/Files/Blocks.antt =====
-- cpfile_block of EX01-08_file_copy_block, with and without failures of its calls.
use edge_embedded_linux.Common.{
  ℕ, zero, suc, ◌≡◌, ◌≢◌, inl, inr, refl, ap, ◌+◌, ◌%◌, ◌^◌, ◌≤◌, ◌<◌, true, List, [], ◌∷◌, ◌++◌,
  length, take, append-nil, Option, none, some, ◌==◌, leb, le→leb, lt→ltb, Bool-cases, arith,
}
use edge_embedded_linux.Posix.{
  open_file, open_create, read, write, close, Reply, value, bytes, failed, received, number, Prog,
  return, tell, ask, ◌>>=◌, ◌>>◌, run, faulted,
}
use edge_embedded_linux.Posix.Safety.{Safe, Safe-bind, ask-Safe, Judged, Safe-Judged}
use edge_embedded_linux.Files.{write_block, copy_blocks, cpfile_block_main, max_block_size, word}
use edge_embedded_linux.Files.Ledger.{State, smooth_files, Smooth, after, start, level}
use edge_embedded_linux.Files.Safety.{Copied, AtEnd, next_count, forget_self, forget_other}

-- EXIT_FAILURE before anything has been opened.
abbrev pub Refuses : ℕ → State → Type 0
Refuses code s = (code ≡ 1) × (s ≡ start)

take_all : (l : List ℕ) → take (length l) l ≡ l
take_all [] = refl
take_all (x ∷ l) = ap (λ t. x ∷ t) (take_all l)

module _ (src dst size : ℕ) (some_room : 0 < size) where
  module _ (rest : ℕ → Prog ℕ)
      (next : (copied : ℕ) (l : List ℕ)
        → copied ≡ length l % 2 ^ 32
        → Safe smooth_files (AtEnd src dst) Refuses (rest copied) (level src dst l))
      (copied : ℕ) (l : List ℕ) (h : copied ≡ length l % 2 ^ 32) where
    block_written :
        (x : ℕ) (b : List ℕ) (r : Reply)
        → Smooth (record (level src dst l) { inp = l ++ (x ∷ b) }) (write dst (x ∷ b)) r
        → Safe smooth_files
            (AtEnd src dst)
            Refuses
            (rest ((copied + length (x ∷ b)) % 2 ^ 32))
            (after (record (level src dst l) { inp = l ++ (x ∷ b) }) (write dst (x ∷ b)) r)
    block_written x b (value m) ok =
        rw (ok, take_all (x ∷ b))
          (next ((copied + length (x ∷ b)) % 2 ^ 32) (l ++ (x ∷ b)) (next_count copied l (x ∷ b) h))
    block_written x b (bytes c) ok = absurd ok
    block_written x b (failed e) ok = absurd ok

    -- At the end nothing is written, and write() of nothing gives 0.
    end_written :
        (r : Reply)
        → Smooth (record (level src dst l) { eof = true }) (write dst []) r
        → AtEnd src dst copied (after (record (level src dst l) { eof = true }) (write dst []) r)
    end_written (value m) ok = rw ok (l, (rw (append-nil l) refl, h))
    end_written (bytes c) ok = absurd ok
    end_written (failed e) ok = absurd ok

    write_block-Safe :
        (r : Reply)
        → Smooth (level src dst l) (read src size) r
        → Safe smooth_files
            (AtEnd src dst)
            Refuses
            (write_block dst rest copied (received r))
            (after (level src dst l) (read src size) r)
    write_block-Safe (value m) ok = absurd ok
    write_block-Safe (failed e) ok = absurd ok
    write_block-Safe (bytes []) ok = rw (lt→ltb 0 size some_room) (refl, λ r k. end_written r k)
    write_block-Safe (bytes (x ∷ b)) ok = (refl, λ r k. block_written x b r k)

  copy_blocks-Safe :
      (n copied : ℕ) (l : List ℕ)
      → copied ≡ length l % 2 ^ 32
      → Safe smooth_files
          (AtEnd src dst)
          Refuses
          (copy_blocks n size src dst copied)
          (level src dst l)
  unfolding copy_blocks
  copy_blocks-Safe zero copied l h = tt
  copy_blocks-Safe (suc n) copied l h =
      (refl, write_block-Safe (copy_blocks n size src dst) (copy_blocks-Safe n) copied l h)

module _ (src dst : ℕ) (ne : src ≢ dst) (copied : ℕ) (s : State) (h : AtEnd src dst copied s) where
  dst_first :
      Safe smooth_files Copied Refuses (tell (close dst) >> (tell (close src) >> return copied)) s
  dst_first = rw (h.1.0) (
    inr refl,
    λ r ok.
        rw (forget_self dst, forget_other dst src ne)
          (inl refl, λ r' ok'. rw (forget_self src) (refl, (refl, (h.1.1, (refl, refl))))),
  )

-- The program after the tests of its arguments, and after each open().
abbrev copies_to : ℕ → ℕ → Option ℕ → Option ℕ → Prog ℕ
copies_to size n src dst = do
  copied ← copy_blocks n size (word src) (word dst) 0
  tell (close (word dst))
  tell (close (word src))
  return copied

abbrev copies_from : List ℕ → ℕ → ℕ → Option ℕ → Prog ℕ
copies_from dst_name size n src = do dst ← ask (open_create dst_name); copies_to size n src dst

abbrev block_copy : List ℕ → List ℕ → ℕ → ℕ → Prog ℕ
block_copy src_name dst_name size n = do
  src ← ask (open_file src_name)
  copies_from dst_name size n src

module _ (size dst : ℕ) (f : ℕ → Prog ℕ) where
  at_first :
      (n e : ℕ) (rs : List Reply)
      → 0 < n
      → (run (copy_blocks n size (word none) dst 0 >>= f) (failed e ∷ rs)).1 ≡ faulted
  unfolding run copy_blocks
  at_first zero e rs h = absurd (omega arith)
  at_first (suc n) e rs h = refl

module _ (src_name dst_name : List ℕ) (size n : ℕ) (some_room : 0 < size) where
  module _ (src dst : ℕ) (ne : src ≢ dst) where
    both_opened :
        Safe smooth_files Copied Refuses
          (copy_blocks n size src dst 0 >>= λ copied.
            tell (close dst) >> (tell (close src) >> return copied))
          (level src dst [])
    both_opened =
        Safe-bind smooth_files (AtEnd src dst) Copied Refuses _ (copy_blocks n size src dst 0)
          (level src dst []) (copy_blocks-Safe src dst size some_room n 0 [] refl)
          (λ copied s h. dst_first src dst ne copied s h)

  block_copy-Safe : Safe smooth_files Copied Refuses (block_copy src_name dst_name size n) start
  block_copy-Safe =
      ask-Safe smooth_files Copied Refuses (copies_from dst_name size n) (open_file src_name) start
        tt
        (λ src _.
          ask-Safe smooth_files Copied Refuses (copies_to size n (some src)) (open_create dst_name)
            (record start { src = some src }) tt
            (λ dst ne. both_opened src dst (λ e. ne (ap some e))) (λ b no. absurd no)
            (λ e no. absurd no))
        (λ b no. absurd no) (λ e no. absurd no)

  cpfile_block_main-Safe :
      (argc : ℕ)
      → Safe smooth_files Copied Refuses (cpfile_block_main argc src_name dst_name size n) start
  unfolding cpfile_block_main
  cpfile_block_main-Safe argc = elim (Bool-cases (argc == 4)) [
    | inr e ↦ rw e (refl, refl)
    | inl e ↦ rw e (elim (Bool-cases (leb size max_block_size)) [
      | inl k ↦ rw k block_copy-Safe
      | inr k ↦ rw k (refl, refl)
    ])
  ]

  -- In every run of cpfile_block with a block size of at least 1 in which no call fails and write()
  -- writes all that it is given, only open files are used, a program that reaches its end has written exactly the source file, which
  -- it has read to its end, has closed both and prints the length, and EXIT_FAILURE comes before
  -- anything is opened.
  pub cpfile_block_main-Judged :
      (argc : ℕ) (rs : List Reply)
      → Judged smooth_files Copied Refuses
          (run (cpfile_block_main argc src_name dst_name size n) rs).0
          (run (cpfile_block_main argc src_name dst_name size n) rs).1
          start
  cpfile_block_main-Judged argc rs =
      Safe-Judged smooth_files Copied Refuses (cpfile_block_main argc src_name dst_name size n)
        start (cpfile_block_main-Safe argc) rs

module _ (src_name dst_name : List ℕ) (size n : ℕ) where
  -- When the source file cannot be opened, for a block size that is accepted, a failed read() of the
  -- descriptor -1 follows and then undefined behaviour: a write() of 2^64 - 1 bytes from `buf`.
  pub run-cpfile_block_main_missing :
      (e e' : ℕ) (dst : Reply) (rs : List Reply)
      → size ≤ max_block_size
      → 0 < n
      → (run (cpfile_block_main 4 src_name dst_name size n) (failed e ∷ dst ∷ failed e' ∷ rs)).1
        ≡ faulted
  unfolding run cpfile_block_main
  run-cpfile_block_main_missing e e' dst rs small some_rounds =
      rw (le→leb size max_block_size small)
        (at_first size (word (number dst)) _ n e' rs some_rounds)
