-- ===== src/Files/Safety.antt =====
-- cpfile of EX01-07_file_copy, whatever the system answers.
use edge_embedded_linux.Common.{
  ℕ, zero, suc, ◌≡◌, ◌≢◌, inl, inr, refl, sym, ap, ◌+◌, ◌%◌, ◌^◌, ◌≤◌, ◌<◌, true, List, [], ◌∷◌,
  ◌++◌, length, take, length-append, append-nil, none, some, ◌==◌, ==_iff, Bool-cases, arith,
}
use edge_embedded_linux.Posix.{
  open_file, create_file, read, write, close, Reply, value, bytes, failed, Prog, return, received,
  tell, ◌>>◌,
}
use edge_embedded_linux.Posix.Safety.{Safe, Safe-bind, must-Safe}
use edge_embedded_linux.Tcp.{want_args}
use edge_embedded_linux.Files.{copy_byte, copy, cpfile_main}
use edge_embedded_linux.Files.Ledger.{State, files, Conforms, after, forget, start, level}

-- EXIT_FAILURE, with a beginning of what was read in the other file.
abbrev pub Stops : ℕ → State → Type 0
Stops code s = (code ≡ 1) × ((t : List ℕ) × (s.inp ≡ s.out ++ t))

-- All of the source file, which has been read to its end, is in the other file; both are closed,
-- and the number printed is its length as an unsigned int.
abbrev pub Copied : ℕ → State → Type 0
Copied copied s =
    (s.out ≡ s.inp)
    × ((s.eof ≡ true) × ((copied ≡ length s.inp % 2 ^ 32) × ((s.src ≡ none) × (s.dst ≡ none))))

-- The loop has met the end of the file.
abbrev pub AtEnd : ℕ → ℕ → ℕ → State → Type 0
AtEnd src dst copied s =
    (l : List ℕ) × ((s ≡ record (level src dst l) { eof = true }) × (copied ≡ length l % 2 ^ 32))

pub next_count :
    (copied : ℕ) (l b : List ℕ)
    → copied ≡ length l % 2 ^ 32
    → (copied + length b) % 2 ^ 32 ≡ length (l ++ b) % 2 ^ 32
next_count copied l b h = rw (length-append l b) (omega arith)

pub forget_self : (fd : ℕ) → forget fd (some fd) ≡ none
forget_self fd = rw ((==_iff fd fd).1 refl)

pub forget_other : (fd n : ℕ) → n ≢ fd → forget fd (some n) ≡ some n
forget_other fd n h = elim (Bool-cases (n == fd)) [
  | inl e ↦ absurd (h ((==_iff n fd).0 e))
  | inr e ↦ rw e
]

module _ (src dst : ℕ) where
  module _ (rest : ℕ → Prog ℕ)
      (next : (copied : ℕ) (l : List ℕ)
        → copied ≡ length l % 2 ^ 32
        → Safe files (AtEnd src dst) Stops (rest copied) (level src dst l))
      (copied : ℕ) (l : List ℕ) (h : copied ≡ length l % 2 ^ 32) where
    -- The byte goes to the other file.
    written :
        (x m : ℕ)
        → (0 < m) × (m ≤ 1)
        → Safe files
            (AtEnd src dst)
            Stops
            (rest ((copied + 1) % 2 ^ 32))
            (record (level src dst l) { inp = l ++ (x ∷ []); out = l ++ take m (x ∷ []) })
    written x zero ok = absurd (omega arith)
    written x (suc zero) ok =
        next ((copied + 1) % 2 ^ 32) (l ++ (x ∷ [])) (next_count copied l (x ∷ []) h)
    written x (suc (suc m)) ok = absurd (omega arith)

    copy_byte-Safe :
        (r : Reply)
        → Conforms (level src dst l) (read src 1) r
        → Safe files
            (AtEnd src dst)
            Stops
            (copy_byte dst rest copied (received r))
            (after (level src dst l) (read src 1) r)
    copy_byte-Safe (value m) ok = absurd ok
    copy_byte-Safe (failed e) ok = (refl, ([], sym (append-nil l)))
    copy_byte-Safe (bytes []) ok = (l, (refl, h))
    copy_byte-Safe (bytes (x ∷ [])) ok =
        must-Safe files (AtEnd src dst) Stops _ (write dst (x ∷ [])) _ refl (λ m k. written x m k)
          (λ b no. absurd no) (λ e _. (refl, (x ∷ [], refl)))
    copy_byte-Safe (bytes (x ∷ y ∷ b)) ok = absurd (omega arith)

  copy-Safe :
      (n copied : ℕ) (l : List ℕ)
      → copied ≡ length l % 2 ^ 32
      → Safe files (AtEnd src dst) Stops (copy n src dst copied) (level src dst l)
  unfolding copy
  copy-Safe zero copied l h = tt
  copy-Safe (suc n) copied l h = (refl, copy_byte-Safe (copy n src dst) (copy-Safe n) copied l h)

-- The two close() calls of a copy, in either order.
module _ (src dst : ℕ) (ne : src ≢ dst) (copied : ℕ) (s : State) (h : AtEnd src dst copied s) where
  src_first : Safe files Copied Stops (tell (close src) >> (tell (close dst) >> return copied)) s
  src_first = rw (h.1.0) (
    inl refl,
    λ r ok.
        rw (forget_self src, forget_other src dst (λ e. ne (sym e)))
          (inr refl, λ r' ok'. rw (forget_self dst) (refl, (refl, (h.1.1, (refl, refl))))),
  )

-- A wrong number of arguments.
args-Safe :
    (n argc : ℕ) (p : Prog ℕ)
    → Safe files Copied Stops p start
    → Safe files Copied Stops (want_args n argc >> p) start
args-Safe n argc p next = elim (Bool-cases (argc == n)) [
  | inl e ↦ rw e next
  | inr e ↦ rw e (refl, ([], refl))
]

pub cpfile_main-Safe :
    (argc : ℕ) (src_name dst_name : List ℕ) (n : ℕ)
    → Safe files Copied Stops (cpfile_main argc src_name dst_name n) start
unfolding cpfile_main
cpfile_main-Safe argc src_name dst_name n = args-Safe 3 argc _ (
    must-Safe files Copied Stops _ (open_file src_name) start tt
      (λ src _.
        must-Safe files Copied Stops _ (create_file dst_name) (record start { src = some src }) tt
          (λ dst ne.
            Safe-bind files (AtEnd src dst) Copied Stops _ (copy n src dst 0) (level src dst [])
              (copy-Safe src dst n 0 [] refl)
              (λ copied s h. src_first src dst (λ e. ne (ap some e)) copied s h))
          (λ b no. absurd no) (λ e _. (refl, ([], refl))))
      (λ b no. absurd no) (λ e _. (refl, ([], refl))))
