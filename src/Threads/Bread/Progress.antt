-- ===== src/Threads/Bread/Progress.antt =====
-- What the threads of the bakery, EX04-06_pthread_bread, can do next.
use edge_embedded_linux.Common.{ℕ, ◌≡◌, refl, ◌≢◌, ◌⊎◌, inl, inr, ◌+◌, ◌*◌, ◌≤◌, arith}
use native.Mathlib.Decide.{ℕ_discrete, dec_lt}
use edge_embedded_linux.Threads.Bread.{
  num_of_bread, Pc, idle, entered, worked, unlocked, finished, Shop, Make, Box, System, Step, make1,
  make2, box, Reach,
}
use edge_embedded_linux.Threads.Bread.Invariant.{holds, Inv, Reach-Inv}

data CanMove (M : Shop → Pc → Type 0) (m : Shop) (p : Pc) : Type 0 where
  done : p ≡ finished → CanMove M m p
  waits : p ≡ idle → m.owner ≢ 0 → CanMove M m p
  moves : {m' : Shop} {p' : Pc} → M m' p' → CanMove M m p

can-Make : (i : ℕ) (m : Shop) (p : Pc) → CanMove (Make i m p) m p
can-Make i m idle = elim (ℕ_discrete m.owner 0) [
  | yes e ↦ moves (Make.lock e)
  | no e ↦ waits refl e
]
can-Make i m entered = elim (dec_lt m.bread_count num_of_bread) [
  | yes h ↦ moves (Make.bake h)
  | no h ↦ moves (Make.enough (omega arith))
]
can-Make i m worked = moves Make.unlock
can-Make i m unlocked = elim (dec_lt m.bread_count num_of_bread) [
  | yes h ↦ moves (Make.again h)
  | no h ↦ moves (Make.stop (omega arith))
]
can-Make i m finished = done refl

can-Box : (i : ℕ) (m : Shop) (p : Pc) → CanMove (Box i m p) m p
can-Box i m idle = elim (ℕ_discrete m.owner 0) [ yes e ↦ moves (Box.lock e) | no e ↦ waits refl e ]
can-Box i m entered = elim (dec_lt m.bread_count (m.box_count * 10 + 10)) [
  | yes h ↦ moves (Box.too_few h)
  | no h ↦ moves (Box.pack (omega arith))
]
can-Box i m worked = moves Box.unlock
can-Box i m unlocked = elim (ℕ_discrete m.box_count 10) [
  | yes h ↦ moves (Box.stop h)
  | no h ↦ moves (Box.again h)
]
can-Box i m finished = done refl

abbrev pub Done : System → Type 0
Done s = (s.maker1 ≡ finished) × (s.maker2 ≡ finished) × (s.boxer ≡ finished)

-- Threads that all stand still are all done: the owner of the mutex can always move.
stuck-Done :
    (s : System)
    → Inv s
    → CanMove (Make 1 s.shop s.maker1) s.shop s.maker1
    → CanMove (Make 2 s.shop s.maker2) s.shop s.maker2
    → CanMove (Box 3 s.shop s.boxer) s.shop s.boxer
    → Done s ⊎ ((t : System) × Step s t)
stuck-Done s v (moves mv) _ _ = inr (_, make1 mv)
stuck-Done s v _ (moves mv) _ = inr (_, make2 mv)
stuck-Done s v _ _ (moves mv) = inr (_, box mv)
stuck-Done s v (done a) (done b) (done c) = inl (a, b, c)
stuck-Done s v (waits a o) (done b) (done c) = absurd (ground arith)
stuck-Done s v (waits a o) (done b) (waits c p) = absurd (ground arith)
stuck-Done s v (waits a o) (waits b q) (done c) = absurd (ground arith)
stuck-Done s v (waits a o) (waits b q) (waits c p) = absurd (ground arith)
stuck-Done s v (done a) (waits b q) (done c) = absurd (ground arith)
stuck-Done s v (done a) (waits b q) (waits c p) = absurd (ground arith)
stuck-Done s v (done a) (done b) (waits c p) = absurd (ground arith)

-- Where all three are done 100 loaves are baked and packed in 10 boxes.
pub bread_totals :
    (s : System) → Reach s → Done s → (s.shop.bread_count ≡ num_of_bread) × (s.shop.box_count ≡ 10)
bread_totals s r d = let v = Reach-Inv r in (ground arith, ground arith)

-- In every state that can be reached some thread can move, or all three are done and then 100 loaves
-- are baked and packed in 10 boxes.
pub bread_progress :
    (s : System)
    → Reach s
    → Done s × (s.shop.bread_count ≡ num_of_bread) × (s.shop.box_count ≡ 10)
      ⊎ ((t : System) × Step s t)
bread_progress s r =
    let v = Reach-Inv r in
    elim (stuck-Done s v (can-Make 1 s.shop s.maker1) (can-Make 2 s.shop s.maker2)
      (can-Box 3 s.shop s.boxer)) [
        | inl d ↦ let h = bread_totals s r d in inl (d, h.0, h.1)
        | inr more ↦ inr more
      ]

-- There are never more than 100 loaves, nor a box without its ten loaves, so never more than 10 boxes,
-- and no two threads are between lock and unlock together.
pub bread_safety :
    (s : System)
    → Reach s
    → (s.shop.bread_count ≤ num_of_bread)
      × (s.shop.box_count * 10 ≤ s.shop.bread_count)
      × (s.shop.box_count ≤ 10)
      × (holds s.maker1 + holds s.maker2 + holds s.boxer ≤ 1)
bread_safety s r = let v = Reach-Inv r in (v.most, v.boxed, omega arith, v.alone)
