-- ===== src/Rw/Unlocked.antt =====
-- Two processes of EX03-07_rw, rw.c, which has no lock.
use edge_embedded_linux.Common.{
  ℕ, zero, suc, ◌≡◌, refl, sym, ap, subst, ◌∙◌, ◌+◌, ◌%◌, ◌≤◌, ◌<◌, Option, some, arith,
}
use edge_embedded_linux.Rw.{
  loop_count, first_byte, idle, same, differs, Process, Shared, to, next_round, write, read_same,
  read_other, Free, enter, work, again, System, put, step, begin, start, Reach, here, later,
}

abbrev memory : Option ℕ → Shared
memory byte = record { sem = 1; byte = byte }

-- The two processes of interest and the file, whatever the other processes do.
record At (s : System) (p q : Process) (byte : Option ℕ) : Type 0 where
  first : s.processes 0 ≡ p
  second : s.processes 1 ≡ q
  mem : s.mem ≡ memory byte

-- A run leads there.
abbrev Runs : Option ℕ → Process → Process → Option ℕ → Type 0
Runs byte p q b = (s : System) × (Reach Free byte s × At s p q b)

module _ {byte : Option ℕ} {b b' : Option ℕ} where
  first_moves :
      {p p' q : Process} → Free (memory b) p (memory b') p' → Runs byte p q b → Runs byte p' q b'
  first_moves {p} {p'} {q} mv (s, (r, a)) = (
    record { mem = memory b'; processes = put s.processes 0 p' },
    (
      later r (
          step 0 (
            subst (λ m. Free m (s.processes 0) (memory b') p') (sym a.mem)
              (subst (λ x. Free (memory b) x (memory b') p') (sym a.first) mv))),
      record { first = refl; second = a.second; mem = refl },
    ),
  )

  second_moves :
      {p q q' : Process} → Free (memory b) q (memory b') q' → Runs byte p q b → Runs byte p q' b'
  second_moves {p} {q} {q'} mv (s, (r, a)) = (
    record { mem = memory b'; processes = put s.processes 1 q' },
    (
      later r (
          step 1 (
            subst (λ m. Free m (s.processes 1) (memory b') q') (sym a.mem)
              (subst (λ x. Free (memory b) x (memory b') q') (sym a.second) mv))),
      record { first = a.first; second = refl; mem = refl },
    ),
  )

-- A process at the test of its loop with `i` rounds behind it.
abbrev pub waiting : ℕ → Process
waiting i = record { pc = idle; i = i; c1 = (first_byte + i) % 256 }

-- A whole round of the second process.
round :
    {byte b : Option ℕ} {p : Process} (i : ℕ)
    → i < loop_count
    → Runs byte p (waiting i) b
    → Runs byte p (next_round (to (waiting i) same)) (some (waiting i).c1)
round i lt r = second_moves (again refl) (
    second_moves (work (read_same refl refl))
      (second_moves (work (write refl)) (second_moves (enter refl lt) r)))

next_waiting : (i : ℕ) → next_round (to (waiting i) same) ≡ waiting (i + 1)
next_waiting i = ap (λ c. record { pc = idle; i = i + 1; c1 = c }) (omega arith)

-- The second process has made its rounds, the first has not begun.
ahead : (byte : Option ℕ) (i : ℕ) → i ≤ loop_count → (b : Option ℕ) × Runs byte begin (waiting i) b
ahead byte zero le =
    (byte, (start byte, (here, record { first = refl; second = refl; mem = refl })))
ahead byte (suc i) le =
    let (b, r) = ahead byte i (omega arith) in
    (
      some (waiting i).c1,
      subst (λ q. Runs byte begin q (some (waiting i).c1))
          (next_waiting i ∙ ap waiting (omega arith)) (round i (omega arith) r),
    )

-- Without the semaphore, whatever the file held: the first process can be made to read another byte
-- than it wrote, by a second one in any of the latter's rounds but the first.
pub rw_differs :
    (byte : Option ℕ) (i : ℕ)
    → 0 < i
    → i < loop_count
    → (s : System) × Reach Free byte s × ((s.processes 0).pc ≡ differs) × ((s.processes 1).i ≡ i)
rw_differs byte i pos lt =
    let (b, r) = ahead byte i (omega arith) in
    let (s, (r', a)) =
      first_moves (work (read_other {c2 = (waiting i).c1} refl refl (λ e. omega arith))) (
        second_moves (work (write refl)) (
          second_moves (enter refl lt)
            (first_moves (work (write refl)) (first_moves (enter refl (omega arith)) r)))) in
    (s, r', ap (λ p. p.pc) a.first, ap (λ p. p.i) a.second)
