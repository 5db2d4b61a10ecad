-- ===== src/Posix/Safety.antt =====
-- Monitors: what a process may ask of the system in each state of a record kept beside it, for
-- whatever the system answers. `Safe` is read off the program, `Judged` off the events of a run.
use edge_embedded_linux.Common.{ℕ, ◌≡◌, refl, List, [], ◌∷◌, length, Option, none, some}
use edge_embedded_linux.Posix.{
  Call, Reply, value, bytes, failed, Prog, must, ask, return, exit, fault, spin, call, ◌>>=◌, Event,
  did, waits, End, returned, exited, faulted, spun, blocked, run, number,
}

-- `conforms` is what the manual of the call promises of its answer.
pub record Monitor : Type 1 where
  pub State : Type 0
  pub allowed : State → Call → Type 0
  pub conforms : State → Call → Reply → Type 0
  pub after : State → Call → Reply → State

module _ (m : Monitor) {A : Type 0} (Q : A → m.State → Type 0) (X : ℕ → m.State → Type 0) where
  -- Every call is allowed, no undefined behaviour is met, a result meets `Q` and an exit `X`.
  abbrev pub Safe : Prog A → m.State → Type 0
  Safe (return a) s = Q a s
  Safe (exit n) s = X n s
  Safe fault s = ⊥
  Safe spin s = Unit
  Safe (call c k) s = m.allowed s c × ((r : Reply) → m.conforms s c r → Safe (k r) (m.after s c r))

  -- The same of one run, for as long as the answers conform.
  abbrev pub Judged : List Event → End A → m.State → Type 0
  Judged [] (returned a) s = Q a s
  Judged [] (exited n) s = X n s
  Judged [] faulted s = ⊥
  Judged [] spun s = Unit
  Judged [] blocked s = Unit
  Judged (waits c ∷ t) e s = m.allowed s c × Judged t e s
  Judged (did c r ∷ t) e s = m.allowed s c × (m.conforms s c r → Judged t e (m.after s c r))

  pub Safe-Judged :
      (p : Prog A) (s : m.State) → Safe p s → (rs : List Reply) → Judged (run p rs).0 (run p rs).1 s
  unfolding run
  Safe-Judged (return a) s h rs = h
  Safe-Judged (exit n) s h rs = h
  Safe-Judged fault s h rs = h
  Safe-Judged spin s h rs = tt
  Safe-Judged (call c k) s h [] = (h.0, tt)
  Safe-Judged (call c k) s h (r ∷ rs) = (h.0, λ ok. Safe-Judged (k r) (m.after s c r) (h.1 r ok) rs)

module _ (m : Monitor) {A B : Type 0} (R : A → m.State → Type 0) (Q : B → m.State → Type 0)
    (X : ℕ → m.State → Type 0) (f : A → Prog B) where
  pub Safe-bind :
      (p : Prog A) (s : m.State)
      → Safe m R X p s
      → ((a : A) (s' : m.State) → R a s' → Safe m Q X (f a) s')
      → Safe m Q X (p >>= f) s
  Safe-bind (return a) s h rest = rest a s h
  Safe-bind (exit n) s h rest = h
  Safe-bind fault s h rest = h
  Safe-bind spin s h rest = tt
  Safe-bind (call c k) s h rest = (h.0, λ r ok. Safe-bind (k r) (m.after s c r) (h.1 r ok) rest)

module _ (m : Monitor) {B : Type 0} (Q : B → m.State → Type 0) (X : ℕ → m.State → Type 0)
    (f : ℕ → Prog B) where
  -- A call whose failure makes the program exit with EXIT_FAILURE.
  pub must-Safe :
      (c : Call) (s : m.State)
      → m.allowed s c
      → ((n : ℕ) → m.conforms s c (value n) → Safe m Q X (f n) (m.after s c (value n)))
      → ((b : List ℕ)
          → m.conforms s c (bytes b)
          → Safe m Q X (f (length b)) (m.after s c (bytes b)))
      → ((e : ℕ) → m.conforms s c (failed e) → X 1 (m.after s c (failed e)))
      → Safe m Q X (must c >>= f) s
  must-Safe c s can on_value on_bytes on_failure = (can, answer)
    where
      answer :
          (r : Reply)
          → m.conforms s c r
          → Safe m Q X (elim (number r) [ none ↦ exit 1 | some n ↦ return n ] >>= f) (m.after s c r)
      answer (value n) ok = on_value n ok
      answer (bytes b) ok = on_bytes b ok
      answer (failed e) ok = on_failure e ok

module _ (m : Monitor) {B : Type 0} (Q : B → m.State → Type 0) (X : ℕ → m.State → Type 0)
    (f : Option ℕ → Prog B) where
  -- A call whose failure is -1 to the program.
  pub ask-Safe :
      (c : Call) (s : m.State)
      → m.allowed s c
      → ((n : ℕ) → m.conforms s c (value n) → Safe m Q X (f (some n)) (m.after s c (value n)))
      → ((b : List ℕ)
          → m.conforms s c (bytes b)
          → Safe m Q X (f (some (length b))) (m.after s c (bytes b)))
      → ((e : ℕ) → m.conforms s c (failed e) → Safe m Q X (f none) (m.after s c (failed e)))
      → Safe m Q X (ask c >>= f) s
  ask-Safe c s can on_value on_bytes on_failure = (can, answer)
    where
      answer : (r : Reply) → m.conforms s c r → Safe m Q X (f (number r)) (m.after s c r)
      answer (value n) ok = on_value n ok
      answer (bytes b) ok = on_bytes b ok
      answer (failed e) ok = on_failure e ok

pub bind_assoc :
    {A B C : Type 0} (p : Prog A) (f : A → Prog B) (g : B → Prog C)
    → (p >>= f >>= g) ≡ (p >>= λ a. f a >>= g)
bind_assoc (return a) f g = refl
bind_assoc (exit n) f g = refl
bind_assoc fault f g = refl
bind_assoc spin f g = refl
bind_assoc (call c k) f g = λ i. call c (λ r. bind_assoc (k r) f g i)
