-- ===== src/Threads/Mutex/Invariant.antt =====
-- What holds in every state of the threads under the mutex and of main.
use edge_embedded_linux.Common.{ℕ, ◌≡◌, refl, ap, subst, ◌+◌, ◌*◌, ◌≤◌, ◌<◌, arith}
use edge_embedded_linux.Threads.Mutex.{
  Pc, absent, idle, entered, loaded, stored, finished, Thread, Shared, Move, lock, load, store,
  unlock, finish, MainPc, creating1, creating2, joining1, joining2, joined, System, Step, create1,
  create2, join1, join2, first, second, Reach, here, later,
}

-- Between pthread_mutex_lock and pthread_mutex_unlock.
abbrev pub holds : Pc → ℕ
holds absent = 0
holds idle = 0
holds entered = 1
holds (loaded temp) = 1
holds stored = 1
holds finished = 0

-- What a thread's place says of its rounds and of the counter.
abbrev pub Knows : ℕ → Shared → Pc → ℕ → Type 0
Knows n m absent c = c ≡ 0
Knows n m idle c = c ≤ n
Knows n m entered c = c < n
Knows n m (loaded temp) c = (m.g_count ≡ temp) × (c < n)
Knows n m stored c = c ≤ n
Knows n m finished c = c ≡ n

-- Not created, created, done.
abbrev pub stage : Pc → ℕ
stage absent = 0
stage idle = 1
stage entered = 1
stage (loaded temp) = 1
stage stored = 1
stage finished = 2

-- What main's place says of the stages of the threads.
abbrev pub Main : MainPc → ℕ → ℕ → Type 0
Main creating1 a b = (a ≡ 0) × (b ≡ 0)
Main creating2 a b = (1 ≤ a) × (b ≡ 0)
Main joining1 a b = (1 ≤ a) × (1 ≤ b)
Main joining2 a b = (a ≡ 2) × (1 ≤ b)
Main joined a b = (a ≡ 2) × (b ≡ 2)

-- The threads and the counter.
pub record Counts (n : ℕ) (m : Shared) (t u : Thread) : Type 0 where
  pub total : t.count + u.count ≡ m.g_count
  pub owned : m.owner ≡ holds t.pc + 2 * holds u.pc
  pub alone : holds t.pc + holds u.pc ≤ 1
  pub knows1 : Knows n m t.pc t.count
  pub knows2 : Knows n m u.pc u.count

first-Counts :
    {n : ℕ} {m m' : Shared} {t t' u : Thread}
    → Move n 1 m t m' t'
    → Counts n m t u
    → Counts n m' t' u
first-Counts (lock lt e) v = ground arith
first-Counts load v = ground arith
first-Counts store v = ground arith
first-Counts unlock v = ground arith
first-Counts (finish e) v = ground arith

second-Counts :
    {n : ℕ} {m m' : Shared} {t t' u : Thread}
    → Move n 2 m t m' t'
    → Counts n m u t
    → Counts n m' u t'
second-Counts (lock lt e) v = ground arith
second-Counts load v = ground arith
second-Counts store v = ground arith
second-Counts unlock v = ground arith
second-Counts (finish e) v = ground arith

pub record Inv (n : ℕ) (s : System) : Type 0 where
  pub counts : Counts n s.mem s.t1 s.t2
  pub main : Main s.main (stage s.t1.pc) (stage s.t2.pc)

-- A thread that moves is created and not done.
Move-stage :
    {n i : ℕ} {m m' : Shared} {t t' : Thread}
    → Move n i m t m' t'
    → (stage t.pc ≡ 1) × (1 ≤ stage t'.pc)
Move-stage (lock lt e) = omega arith
Move-stage load = omega arith
Move-stage store = omega arith
Move-stage unlock = omega arith
Move-stage (finish e) = omega arith

first-Main : (k : MainPc) (a a' b : ℕ) → a ≡ 1 → 1 ≤ a' → Main k a b → Main k a' b
first-Main creating1 a a' b e h m = absurd (omega arith)
first-Main creating2 a a' b e h m = omega arith
first-Main joining1 a a' b e h m = omega arith
first-Main joining2 a a' b e h m = absurd (omega arith)
first-Main joined a a' b e h m = absurd (omega arith)

second-Main : (k : MainPc) (a b b' : ℕ) → b ≡ 1 → 1 ≤ b' → Main k a b → Main k a b'
second-Main creating1 a b b' e h m = absurd (omega arith)
second-Main creating2 a b b' e h m = absurd (omega arith)
second-Main joining1 a b b' e h m = omega arith
second-Main joining2 a b b' e h m = omega arith
second-Main joined a b b' e h m = absurd (omega arith)

-- main creates a thread whose stage is 0.
created :
    (n : ℕ) (m : Shared) (pc : Pc) (c : ℕ)
    → stage pc ≡ 0
    → Knows n m pc c
    → (c ≡ 0) × (holds pc ≡ 0)
created n m absent c e k = (k, refl)
created n m idle c e k = absurd (omega arith)
created n m entered c e k = absurd (omega arith)
created n m (loaded temp) c e k = absurd (omega arith)
created n m stored c e k = absurd (omega arith)
created n m finished c e k = absurd (omega arith)

pub Main-at : {k k' : MainPc} (a b : ℕ) → k ≡ k' → Main k a b → Main k' a b
Main-at a b e h = subst (λ k. Main k a b) e h

pub Step-Inv : {n : ℕ} {s t : System} → Step n s t → Inv n s → Inv n t
Step-Inv {n} {s} (create1 e) v =
    let h = Main-at (stage s.t1.pc) (stage s.t2.pc) e v.main in
    let c = created n s.mem s.t1.pc s.t1.count h.0 v.counts.knows1 in
    let w = v.counts in
    record {
      counts = record {
        total = w.total;
        owned = omega (arith, w.owned, c.1);
        alone = omega (arith, w.alone, c.1);
        knows1 = omega (arith, c.0);
        knows2 = w.knows2;
      };
      main = (omega arith, h.1);
    }
Step-Inv {n} {s} (create2 e) v =
    let h = Main-at (stage s.t1.pc) (stage s.t2.pc) e v.main in
    let c = created n s.mem s.t2.pc s.t2.count h.1 v.counts.knows2 in
    let w = v.counts in
    record {
      counts = record {
        total = w.total;
        owned = omega (arith, w.owned, c.1);
        alone = omega (arith, w.alone, c.1);
        knows1 = w.knows1;
        knows2 = omega (arith, c.0);
      };
      main = (h.0, omega arith);
    }
Step-Inv {s = s} (join1 e f) v =
    let h = Main-at (stage s.t1.pc) (stage s.t2.pc) e v.main in
    record { counts = v.counts; main = (ap stage f, h.1) }
Step-Inv {s = s} (join2 e f) v =
    let h = Main-at (stage s.t1.pc) (stage s.t2.pc) e v.main in
    record { counts = v.counts; main = (h.0, ap stage f) }
Step-Inv {s = s} (first {t = t} mv) v =
    let g = Move-stage mv in
    record {
      counts = first-Counts mv v.counts;
      main = first-Main s.main (stage s.t1.pc) (stage t.pc) (stage s.t2.pc) g.0 g.1 v.main;
    }
Step-Inv {s = s} (second {t = t} mv) v =
    let g = Move-stage mv in
    record {
      counts = second-Counts mv v.counts;
      main = second-Main s.main (stage s.t1.pc) (stage s.t2.pc) (stage t.pc) g.0 g.1 v.main;
    }

pub Reach-Inv : {n k : ℕ} {s : System} → Reach n k s → Inv n s
Reach-Inv here = record {
  counts = record { total = refl; owned = refl; alone = omega arith; knows1 = refl; knows2 = refl };
  main = (refl, refl);
}
Reach-Inv (later r st) = Step-Inv st (Reach-Inv r)
