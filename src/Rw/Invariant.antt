-- ===== src/Rw/Invariant.antt =====
-- The states of the processes under the semaphore of EX03-08_sem, rw.c.
use edge_embedded_linux.Common.{
  ℕ, ◌≡◌, ◌≢◌, refl, sym, ap, subst, ◌∙◌, inl, inr, ◌⊎◌, ◌+◌, ◌-◌, ◌≤◌, ◌<◌, Bool, true, false,
  Option, none, some, ◌==◌, ==_iff, Bool-cases, arith,
}
use edge_embedded_linux.Rw.{
  Pc, idle, entered, wrote, same, differs, ended, Process, Shared, write, read_same, read_other,
  Locked, take, no_semop, leave, work, no_write, no_read, not_same, give, no_give, System, put,
  step, Reach, here, later,
}

-- Between the two semops.
abbrev pub holds : Pc → Bool
holds idle = false
holds entered = true
holds wrote = true
holds same = true
holds differs = true
holds ended = false

-- What a process knows of the file at its place.
abbrev Knows : Option ℕ → ℕ → Pc → Type 0
Knows byte c1 idle = Unit
Knows byte c1 entered = Unit
Knows byte c1 wrote = byte ≡ some c1
Knows byte c1 same = Unit
Knows byte c1 differs = ⊥
Knows byte c1 ended = Unit

Knows-outside :
    (byte byte' : Option ℕ) (c1 : ℕ) (pc : Pc)
    → holds pc ≡ false
    → Knows byte c1 pc
    → Knows byte' c1 pc
Knows-outside byte byte' c1 idle e k = tt
Knows-outside byte byte' c1 entered e k = tt
Knows-outside byte byte' c1 wrote e k = absurd (ground arith)
Knows-outside byte byte' c1 same e k = tt
Knows-outside byte byte' c1 differs e k = k
Knows-outside byte byte' c1 ended e k = tt

abbrev KnowsAt : Option ℕ → Process → Type 0
KnowsAt byte p = Knows byte p.c1 p.pc

pub record Inv (s : System) : Type 0 where
  pub most : s.mem.sem ≤ 1
  pub one : (i j : ℕ) → holds (s.processes i).pc ≡ true → holds (s.processes j).pc ≡ true → i ≡ j
  pub free : 0 < s.mem.sem → (i : ℕ) → holds (s.processes i).pc ≡ false
  pub knows : (i : ℕ) → KnowsAt s.mem.byte (s.processes i)

-- A property of the process that has moved and of the others.
put_elim :
    (ps : ℕ → Process) (i : ℕ) (p : Process) (P : ℕ → Process → Type 0)
    → P i p
    → ((j : ℕ) → j ≢ i → P j (ps j))
    → (j : ℕ) → P j (put ps i p j)
put_elim ps i p P moved others j = elim (Bool-cases (j == i)) [
  | inl e ↦ rw e (subst (λ k. P k p) (sym ((==_iff j i).0 e)) moved)
  | inr e ↦ rw e (others j (λ f. ground arith))
]

zero_or : (n : ℕ) → (n ≡ 0) ⊎ (0 < n)
zero_or n = omega arith

module _ (s : System) (i : ℕ) (m : Shared) (p : Process) (v : Inv s) where
  abbrev after : System
  after = record { mem = m; processes = put s.processes i p }

  others_know :
      ((j : ℕ) → j ≢ i → holds (s.processes j).pc ≡ false)
      → KnowsAt m.byte p
      → (j : ℕ) → KnowsAt m.byte (put s.processes i p j)
  others_know out k =
      put_elim s.processes i p (λ _ q. KnowsAt m.byte q) k
        (λ j ne.
          Knows-outside s.mem.byte m.byte (s.processes j).c1 (s.processes j).pc (out j ne)
            (v.knows j))

  -- Only the process that moves can be between the semops afterwards.
  alone :
      ((j : ℕ) → j ≢ i → holds (s.processes j).pc ≡ false)
      → (j : ℕ) → holds (put s.processes i p j).pc ≡ true
      → j ≡ i
  alone out =
      put_elim s.processes i p (λ j q. holds q.pc ≡ true → j ≡ i) (λ _. refl)
        (λ j ne h. absurd (ground (arith, out j ne)))

  take-Inv : 0 < s.mem.sem → m.sem ≡ s.mem.sem - 1 → KnowsAt m.byte p → Inv after
  take-Inv lt e k =
      let out : (j : ℕ) → j ≢ i → holds (s.processes j).pc ≡ false = λ j ne. v.free lt j in
      record {
        most = omega (arith, v.most);
        one = λ j l hj hl. alone out j hj ∙ sym (alone out l hl);
        free = λ lt'. absurd (omega (arith, v.most));
        knows = others_know out k;
      }

  -- The process that moves is between the semops before.
  others_out : holds (s.processes i).pc ≡ true → (j : ℕ) → j ≢ i → holds (s.processes j).pc ≡ false
  others_out h j ne = elim (Bool-cases (holds (s.processes j).pc)) [
    | inl e ↦ absurd (ne (v.one j i e h))
    | inr e ↦ e
  ]

  work-Inv : holds (s.processes i).pc ≡ true → m.sem ≡ s.mem.sem → KnowsAt m.byte p → Inv after
  work-Inv h e k =
      let out = others_out h in
      record {
        most = omega (arith, v.most);
        one = λ j l hj hl. alone out j hj ∙ sym (alone out l hl);
        free = λ lt. absurd (ground (arith, v.free (omega arith) i));
        knows = others_know out k;
      }

  sem_taken : holds (s.processes i).pc ≡ true → s.mem.sem ≡ 0
  sem_taken h = elim (zero_or s.mem.sem) [
    | inl e ↦ e
    | inr lt ↦ absurd (ground (arith, v.free lt i))
  ]

  give-Inv :
      holds (s.processes i).pc ≡ true
      → m.sem ≡ s.mem.sem + 1
      → holds p.pc ≡ false
      → KnowsAt m.byte p
      → Inv after
  give-Inv h e gone k =
      let out = others_out h in
      record {
        most = omega (arith, sem_taken h);
        one = λ j l hj hl. alone out j hj ∙ sym (alone out l hl);
        free = λ _. put_elim s.processes i p (λ _ q. holds q.pc ≡ false) gone out;
        knows = others_know out k;
      }

  idle-Inv :
      m.sem ≡ s.mem.sem → m.byte ≡ s.mem.byte → holds p.pc ≡ false → KnowsAt m.byte p → Inv after
  idle-Inv e b gone k =
      let held : (j : ℕ)
          → holds (put s.processes i p j).pc ≡ true
          → holds (s.processes j).pc ≡ true =
        put_elim s.processes i p (λ j q. holds q.pc ≡ true → holds (s.processes j).pc ≡ true)
          (λ h. absurd (ground (arith, gone))) (λ j ne h. h) in
      record {
        most = omega (arith, v.most);
        one = λ j l hj hl. v.one j l (held j hj) (held l hl);
        free = λ lt.
            put_elim s.processes i p (λ _ q. holds q.pc ≡ false) gone
              (λ j ne. v.free (omega arith) j);
        knows =
            put_elim s.processes i p (λ _ q. KnowsAt m.byte q) k
              (λ j ne. subst (λ b. KnowsAt b (s.processes j)) (sym b) (v.knows j));
      }

holds_at : {pc pc' : Pc} → pc ≡ pc' → holds pc' ≡ true → holds pc ≡ true
holds_at e h = ap holds e ∙ h

same_some : {a b : ℕ} → some a ≡ some b → a ≡ b
same_some e = ap (λ o. elim o [ none ↦ 0 | some n ↦ n ]) e

Locked-Inv :
    (s : System) (i : ℕ) {m : Shared} {p : Process}
    → Locked s.mem (s.processes i) m p
    → Inv s
    → Inv (record { mem = m; processes = put s.processes i p })
Locked-Inv s i {m} {p} (take e lt free) v = take-Inv s i m p v free refl tt
Locked-Inv s i {m} {p} (no_semop e) v = idle-Inv s i m p v refl refl refl tt
Locked-Inv s i {m} {p} (leave e last) v = idle-Inv s i m p v refl refl refl tt
Locked-Inv s i {m} {p} (work (write e)) v = work-Inv s i m p v (holds_at e refl) refl refl
Locked-Inv s i {m} {p} (work (read_same e b)) v = work-Inv s i m p v (holds_at e refl) refl tt
Locked-Inv s i {m} {p} (work (read_other e b ne)) v =
    absurd (ne (same_some (sym b ∙ subst (Knows s.mem.byte (s.processes i).c1) e (v.knows i))))
Locked-Inv s i {m} {p} (no_write e) v = give-Inv s i m p v (holds_at e refl) refl refl tt
Locked-Inv s i {m} {p} (no_read e) v = give-Inv s i m p v (holds_at e refl) refl refl tt
Locked-Inv s i {m} {p} (not_same e) v = give-Inv s i m p v (holds_at e refl) refl refl tt
Locked-Inv s i {m} {p} (give e) v = give-Inv s i m p v (holds_at e refl) refl refl tt
Locked-Inv s i {m} {p} (no_give e) v = give-Inv s i m p v (holds_at e refl) refl refl tt

Reach-Inv : {byte : Option ℕ} {s : System} → Reach Locked byte s → Inv s
Reach-Inv here = record {
  most = omega arith;
  one = λ i j hi hj. absurd (ground arith);
  free = λ lt i. refl;
  knows = λ i. tt;
}
Reach-Inv (later {s = s} r (step i mv)) = Locked-Inv s i mv (Reach-Inv r)

-- Under the semaphore, once it is set to 1, whatever the file held and whichever calls fail: no process
-- ever finds another byte than it wrote, and never are two processes between their semops.
pub rw_same :
    {byte : Option ℕ} {s : System}
    → Reach Locked byte s
    → ((i : ℕ) → (s.processes i).pc ≢ differs)
      × ((i j : ℕ) → holds (s.processes i).pc ≡ true → holds (s.processes j).pc ≡ true → i ≡ j)
rw_same {s = s} r =
    let v = Reach-Inv r in (λ i e. subst (Knows s.mem.byte (s.processes i).c1) e (v.knows i), v.one)
