-- ===== src/Mgrep/Turns.antt =====
-- The three loops of mgrep: the forks, the search of a child for its place, the waits.
use edge_embedded_linux.Common.{
  ℕ, zero, suc, ◌≡◌, refl, ap, ◌+◌, ◌<◌, true, false, List, [], ◌∷◌, ◌++◌, map, replicate, length,
  Option, none, some, ◌==◌, ==_iff, arith,
}
use edge_embedded_linux.Posix.{
  fork, getpid, waitpid, Reply, value, Event, did, run, Prog, return, ◌>>=◌,
}
use edge_embedded_linux.Posix.Safety.{bind_assoc}
use edge_embedded_linux.Mgrep.{fork_children, exec_children, wait_children}

-- The pids that fork() gives to the parent, none of them 0.
abbrev pub ArePids : List ℕ → Type 0
ArePids [] = Unit
ArePids (p ∷ ps) = (0 < p) × ArePids ps

abbrev pub forks : ℕ → List ℕ → List Reply → List Reply
forks me [] rs = rs
forks me (p ∷ ps) rs = value me ∷ value p ∷ forks me ps rs

abbrev pub forked : ℕ → List ℕ → List Event → List Event
forked me [] t = t
forked me (p ∷ ps) t = did getpid (value me) ∷ did fork (value p) ∷ forked me ps t

abbrev pub waits : List ℕ → List Reply → List Reply
waits [] rs = rs
waits (p ∷ ps) rs = value p ∷ waits ps rs

abbrev pub waited : List ℕ → List Event → List Event
waited [] t = t
waited (p ∷ ps) t = did (waitpid p) (value p) ∷ waited ps t

-- The turns of the loop that only ask for the process number.
abbrev pub own : ℕ → ℕ → List Reply → List Reply
own me zero rs = rs
own me (suc n) rs = value me ∷ own me n rs

abbrev pub owned : ℕ → ℕ → List Event → List Event
owned me zero t = t
owned me (suc n) t = did getpid (value me) ∷ owned me n t

abbrev pub stored : List ℕ → List (Option ℕ)
stored ps = map some ps

pub eq_self : (n : ℕ) → (n == n) ≡ true
eq_self n = (==_iff n n).1 refl

module _ {A : Type 0} (me : ℕ) where
  pub run-fork_children :
      (ps : List ℕ) (left : ℕ) (k : List (Option ℕ) → Prog A) (rs : List Reply)
      → run (fork_children (length ps + left) me >>= k) (forks me ps rs) ≡ (
          let e = run (fork_children left me >>= λ l. k (stored ps ++ l)) rs in
          (forked me ps e.0, e.1))
  unfolding run fork_children
  run-fork_children [] left k rs =
      let e : 0 + left ≡ left = omega arith in ap (λ n. run (fork_children n me >>= k) rs) e
  run-fork_children (p ∷ ps) left k rs =
      let e : length (p ∷ ps) + left ≡ suc (length ps + left) = omega arith in
      let again = run-fork_children ps left (λ l. k (some p ∷ l)) rs in
      rw
        (
          e,
          eq_self me,
          bind_assoc (fork_children (length ps + left) me) (λ l. return (some p ∷ l)) k,
          again,
        )
        refl

  -- The turns of a child, which is process `me` of parent `parent`.
  pub run-fork_none :
      (left parent : ℕ) (k : List (Option ℕ) → Prog A) (rs : List Reply)
      → (me == parent) ≡ false
      → run (fork_children left parent >>= k) (own me left rs)
        ≡ (let e = run (k (replicate left none)) rs in (owned me left e.0, e.1))
  unfolding run fork_children
  run-fork_none zero parent k rs ne = refl
  run-fork_none (suc left) parent k rs ne =
      let again = run-fork_none left parent (λ l. k (none ∷ l)) rs ne in
      rw (ne, bind_assoc (fork_children left parent) (λ l. return (none ∷ l)) k, again) refl

  pub run-wait :
      (ps : List ℕ) (k : Unit {0} → Prog A) (rs : List Reply)
      → run (wait_children (stored ps) >>= k) (waits ps rs)
        ≡ (let e = run (k tt) rs in (waited ps e.0, e.1))
  unfolding run wait_children
  run-wait [] k rs = refl
  run-wait (p ∷ ps) k rs = rw (run-wait ps k rs) refl

  pub run-exec_parents :
      (argv : List (List ℕ)) (ps : List ℕ) (l : List (Option ℕ)) (k : Unit {0} → Prog A)
      → ArePids ps
      → (exec_children argv (stored ps ++ l) >>= k) ≡ (exec_children argv l >>= k)
  unfolding exec_children
  run-exec_parents argv [] l k h = refl
  run-exec_parents argv (p ∷ ps) l k h =
      let e : (p == 0) ≡ false = ground (arith, h.0) in
      rw (e, run-exec_parents argv ps l k h.1) refl
