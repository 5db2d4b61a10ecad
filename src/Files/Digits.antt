-- ===== src/Files/Digits.antt =====
-- The bytes that mkfile of EX01-07_file_copy writes.
use edge_embedded_linux.Common.{
  ℕ, zero, suc, ◌≡◌, ◌≢◌, refl, ◌+◌, ◌%◌, ◌≤◌, ◌<◌, inl, inr, false, List, [], ◌∷◌, ◌++◌, length,
  take, get_elem?, length-append, none, some, ◌==◌, ==_iff, Bool-cases, subst, arith,
}
use edge_embedded_linux.Posix.{create_file, write, Reply, must, ◌>>=◌, run, Prog}
use edge_embedded_linux.Posix.Safety.{Safe, Safe-bind, must-Safe, Judged, Safe-Judged}
use edge_embedded_linux.Files.{make_bytes, mkfile_main}
use edge_embedded_linux.Files.Ledger.{State, files, start}
use edge_embedded_linux.Files.Safety.{forget_self}

abbrev pub IsDigits : List ℕ → Type 0
IsDigits l = (i : ℕ) → i < length l → get_elem? l i ≡ some (i % 10 + 48)

-- The file has the size asked for, its byte at `i` is the digit of `i`, and it is closed.
abbrev pub Made : ℕ → Unit {0} → State → Type 0
Made size _ s = (length s.out ≡ size) × (IsDigits s.out × (s.dst ≡ none))

-- EXIT_FAILURE, with digits in what has been written.
abbrev pub Fails : ℕ → State → Type 0
Fails code s = (code ≡ 1) × IsDigits s.out

get_elem?-append :
    (l : List ℕ) (x i : ℕ) → i < length l → get_elem? (l ++ (x ∷ [])) i ≡ get_elem? l i
get_elem?-append [] x i h = absurd (omega arith)
get_elem?-append (y ∷ l) x zero h = refl
get_elem?-append (y ∷ l) x (suc i) h = get_elem?-append l x i (omega arith)

get_elem?-last : (l : List ℕ) (x : ℕ) → get_elem? (l ++ (x ∷ [])) (length l) ≡ some x
get_elem?-last [] x = refl
get_elem?-last (y ∷ l) x = get_elem?-last l x

in_front :
    (l : List ℕ) (x i : ℕ) → i < length (l ++ (x ∷ [])) → (i == length l) ≡ false → i < length l
in_front l x i lt e =
    let ne : i ≢ length l = λ same. ground arith in let n = length-append l (x ∷ []) in omega arith

append-IsDigits : (l : List ℕ) → IsDigits l → IsDigits (l ++ ((length l % 10 + 48) ∷ []))
append-IsDigits l h i lt = elim (Bool-cases (i == length l)) [
  | inl e ↦ rw ((==_iff i (length l)).0 e) (get_elem?-last l (length l % 10 + 48))
  | inr e ↦
      let small = in_front l (length l % 10 + 48) i lt e in
      rw (get_elem?-append l (length l % 10 + 48) i small) (h i small)
]

abbrev making : ℕ → List ℕ → State
making fd l = record start { dst = some fd; out = l }

abbrev Filled : ℕ → ℕ → Unit {0} → State → Type 0
Filled fd size _ s = (l : List ℕ) × ((s ≡ making fd l) × ((length l ≡ size) × IsDigits l))

module _ (fd size i : ℕ) (l : List ℕ) (e : length l ≡ i) (h : IsDigits l) (p : Prog (Unit {0}))
    (next : (l' : List ℕ)
      → length l' ≡ i + 1
      → IsDigits l'
      → Safe files (Filled fd size) Fails p (making fd l')) where
  written :
      (m : ℕ)
      → (0 < m) × (m ≤ 1)
      → Safe files (Filled fd size) Fails p (making fd (l ++ take m ((i % 10 + 48) ∷ [])))
  written zero ok = absurd (omega arith)
  written (suc zero) ok =
      let n = length-append l ((i % 10 + 48) ∷ []) in
      next (l ++ ((i % 10 + 48) ∷ [])) (omega arith)
        (subst (λ k. IsDigits (l ++ ((k % 10 + 48) ∷ []))) e (append-IsDigits l h))
  written (suc (suc m)) ok = absurd (omega arith)

  digit-Safe :
      Safe files
        (Filled fd size)
        Fails
        (must (write fd ((i % 10 + 48) ∷ [])) >>= λ _. p)
        (making fd l)
  digit-Safe =
      must-Safe files (Filled fd size) Fails (λ _. p) (write fd ((i % 10 + 48) ∷ [])) (making fd l)
        refl (λ m ok. written m ok) (λ b no. absurd no) (λ _ _. (refl, h))

make_bytes-Safe :
    (fd left i size : ℕ) (l : List ℕ)
    → length l ≡ i
    → i + left ≡ size
    → IsDigits l
    → Safe files (Filled fd size) Fails (make_bytes left fd i) (making fd l)
unfolding make_bytes
make_bytes-Safe fd zero i size l e t h = (l, (refl, (omega arith, h)))
make_bytes-Safe fd (suc left) i size l e t h =
    digit-Safe fd size i l e h (make_bytes left fd (i + 1))
      (λ l' e' h'. make_bytes-Safe fd left (i + 1) size l' e' (omega arith) h')

mkfile_main-Safe :
    (argc : ℕ) (name : List ℕ) (size : ℕ)
    → Safe files (Made size) Fails (mkfile_main argc name size) start
unfolding mkfile_main
mkfile_main-Safe argc name size = elim (Bool-cases (argc == 3)) [
  | inl e ↦ rw e (
      must-Safe files (Made size) Fails _ (create_file name) start tt
        (λ fd _.
          Safe-bind files (Filled fd size) (Made size) Fails _ (make_bytes size fd 0) (making fd [])
            (make_bytes-Safe fd size 0 size [] refl (omega arith) (λ i lt. absurd (omega arith)))
            (λ _ s h. rw h.1.0 (inr refl, λ r ok. rw (forget_self fd) (h.1.1.0, (h.1.1.1, refl)))))
        (λ b no. absurd no) (λ e _. (refl, λ i lt. absurd (omega arith))))
  | inr e ↦ rw e (refl, λ i lt. absurd (omega arith))
]

-- In every run of mkfile whose answers conform, only the open file is written, a program that
-- reaches its end has made a file of the size asked for whose byte at `i` is the digit `i % 10`, and
-- has closed it, and EXIT_FAILURE leaves a beginning of such a file.
pub mkfile_main-Judged :
    (argc : ℕ) (name : List ℕ) (size : ℕ) (rs : List Reply)
    → Judged files
        (Made size)
        Fails
        (run (mkfile_main argc name size) rs).0
        (run (mkfile_main argc name size) rs).1
        start
mkfile_main-Judged argc name size rs =
    Safe-Judged files (Made size) Fails (mkfile_main argc name size) start
      (mkfile_main-Safe argc name size) rs
