-- ===== src/Threads/Process/Ends.antt =====
-- The laws that main relies on, and how far it comes with a group of threads.
use edge_embedded_linux.Common.{ℕ, ◌≡◌, refl, sym, subst, ◌⊎◌, inl, inr, ◌+◌, ◌*◌, ◌≤◌, ◌<◌, arith}
use native.Mathlib.Decide.{ℕ_discrete}
use edge_embedded_linux.Threads.Process.{
  Group, MainPc, creating, joining, failed, Process, created, Move, create, all_created, join, runs,
  Step, moves, no_thread, no_join, Reach, here, later,
}

abbrev pub AllDone : (G : Group) → ℕ → G.State → Type 0
AllDone G n s = (i : ℕ) → i < n → G.IsDone i s

-- What main relies on: a thread that is done stays so, and where not all are done one can move.
-- `Reaches n s` says that `n` steps of the threads lead to `s`.
pub record Laws (G : Group) : Type 1 where
  pub Reaches : ℕ → G.State → Type 0
  pub at_first : Reaches 0 G.begin
  pub next : {n : ℕ} {s t : G.State} → Reaches n s → G.Step s t → Reaches (n + 1) t
  pub turn_lt : {s t : G.State} (st : G.Step s t) → G.turn st < G.number
  pub stays : {s t : G.State} (i : ℕ) → G.Step s t → G.IsDone i s → G.IsDone i t
  pub is_done : (i : ℕ) (s : G.State) → Dec (G.IsDone i s)
  pub progress :
      {n : ℕ} (s : G.State) → Reaches n s → AllDone G G.number s ⊎ ((t : G.State) × G.Step s t)

-- The process can go on, or main has failed, or main has joined every thread and this holds.
abbrev pub EndsWith : (G : Group) → Process G → Type 0 → Type 0
EndsWith G p R =
    ((q : Process G) × Move G p q) ⊎ ((p.main ≡ failed) ⊎ ((p.main ≡ joining G.number) × R))

module _ (G : Group) (L : Laws G) where
  -- What main knows.
  abbrev Knows : MainPc → G.State → Type 0
  Knows (creating i) s = i ≤ G.number
  Knows (joining i) s = (i ≤ G.number) × AllDone G i s
  Knows failed s = Unit

  abbrev passed : MainPc → ℕ
  passed (creating i) = i
  passed (joining i) = G.number + 1 + i
  passed failed = 2 * G.number + 1

  record Inv (k : ℕ) (p : Process G) : Type 0 where
    steps : ℕ
    reached : L.Reaches steps p.threads
    knows : Knows p.main p.threads
    bound : k ≤ steps + passed p.main

  Knows-next : {s t : G.State} (m : MainPc) → G.Step s t → Knows m s → Knows m t
  Knows-next (creating i) st h = h
  Knows-next (joining i) st h = (h.0, λ j lt. L.stays j st (h.1 j lt))
  Knows-next failed st h = tt

  AllDone-suc : (i : ℕ) (s : G.State) → AllDone G i s → G.IsDone i s → AllDone G (i + 1) s
  AllDone-suc i s h d j lt = elim (ℕ_discrete j i) [
    | yes e ↦ subst (λ j. G.IsDone j s) (sym e) d
    | no ne ↦ h j (omega arith)
  ]

  Knows-at : {p : Process G} {m : MainPc} {k : ℕ} → p.main ≡ m → Inv k p → Knows m p.threads
  Knows-at {p} e v = subst (λ m. Knows m p.threads) e v.knows

  bound_at :
      {p : Process G} {m : MainPc} {k : ℕ} → p.main ≡ m → (v : Inv k p) → k ≤ v.steps + passed m
  bound_at {k = k} e v = subst (λ m. k ≤ v.steps + passed m) e v.bound

  Move-Inv : {k : ℕ} {p q : Process G} → Move G p q → Inv k p → Inv (k + 1) q
  Move-Inv (create e lt) v = record {
    steps = v.steps;
    reached = v.reached;
    knows = omega arith;
    bound = omega (arith, bound_at e v);
  }
  Move-Inv (all_created e) v = record {
    steps = v.steps;
    reached = v.reached;
    knows = (omega arith, λ j lt. absurd (omega arith));
    bound = omega (arith, bound_at e v);
  }
  Move-Inv {p = p} (join {i} e lt d) v = record {
    steps = v.steps;
    reached = v.reached;
    knows = (omega arith, AllDone-suc i p.threads (Knows-at e v).1 d);
    bound = omega (arith, bound_at e v);
  }
  Move-Inv {p = p} (runs st lt) v = record {
    steps = v.steps + 1;
    reached = L.next v.reached st;
    knows = Knows-next p.main st v.knows;
    bound = omega (arith, v.bound);
  }

  Step-Inv : {k : ℕ} {p q : Process G} → Step G p q → Inv k p → Inv (k + 1) q
  Step-Inv (moves mv) v = Move-Inv mv v
  Step-Inv (no_thread e lt) v = record {
    steps = v.steps;
    reached = v.reached;
    knows = tt;
    bound = omega (arith, bound_at e v);
  }
  Step-Inv (no_join e lt) v = record {
    steps = v.steps;
    reached = v.reached;
    knows = tt;
    bound = omega (arith, bound_at e v);
  }

  Reach-Inv : {k : ℕ} {p : Process G} → Reach G k p → Inv k p
  Reach-Inv here = record {
    steps = 0;
    reached = L.at_first;
    knows = omega arith;
    bound = omega arith;
  }
  Reach-Inv (later r st) = Step-Inv st (Reach-Inv r)

  passed_le : (s : G.State) (m : MainPc) → Knows m s → passed m ≤ 2 * G.number + 1
  passed_le s (creating i) h = omega arith
  passed_le s (joining i) h = omega (arith, h.0)
  passed_le s failed h = omega arith

  -- The threads have made all the steps but those of main.
  pub process_bound :
      {k : ℕ} (p : Process G)
      → Reach G k p
      → (n : ℕ) × L.Reaches n p.threads × (k ≤ n + 2 * G.number + 1)
  process_bound p r =
      let v = Reach-Inv r in
      (v.steps, v.reached, omega (arith, v.bound, passed_le p.threads p.main v.knows))

  module _ (p : Process G) (R : Type 0) where
    turn_runs : {i : ℕ} {t : G.State} → p.main ≡ joining i → G.Step p.threads t → EndsWith G p R
    turn_runs e st = inl (_, runs st (subst (λ m. G.turn st < created G m) (sym e) (L.turn_lt st)))

    -- Main waits for thread `i`.
    join_goes_on : {k i : ℕ} → Inv k p → p.main ≡ joining i → i < G.number → EndsWith G p R
    join_goes_on {i = i} v e lt = elim (L.is_done i p.threads) [
      | yes d ↦ inl (_, join e lt d)
      | no nd ↦ elim (L.progress p.threads v.reached) [
        | inl all ↦ absurd (nd (all i lt))
        | inr more ↦ turn_runs e more.1
      ]
    ]

    -- What holds where all threads are done holds where main ends without a failure.
    pub process_ends :
        {k : ℕ}
        → Reach G k p
        → ((n : ℕ) → L.Reaches n p.threads → AllDone G G.number p.threads → R)
        → EndsWith G p R
    process_ends {k} r result = go p.main refl
      where
        v : Inv k p
        v = Reach-Inv r

        go : (m : MainPc) → p.main ≡ m → EndsWith G p R
        go (creating i) e = elim (ℕ_discrete i G.number) [
          | yes same ↦ inl (_, all_created (subst (λ n. p.main ≡ creating n) same e))
          | no ne ↦ let h = Knows-at e v in inl (_, create e (omega arith))
        ]
        go (joining i) e =
            let h = Knows-at e v in
            elim (ℕ_discrete i G.number) [
              | yes same ↦ inr (
                  inr (
                    subst (λ n. p.main ≡ joining n) same e,
                    result v.steps v.reached (subst (λ n. AllDone G n p.threads) same h.1),
                  ))
              | no ne ↦ join_goes_on v e (omega (arith, h.0))
            ]
        go failed e = inr (inl e)
