-- ===== src/Threads/Bread/Invariant.antt =====
-- States of the bakery, EX04-06_pthread_bread.
use edge_embedded_linux.Common.{ℕ, ◌≡◌, ◌+◌, ◌*◌, ◌≤◌, arith}
use edge_embedded_linux.Threads.Bread.{
  num_of_bread, Pc, entered, worked, finished, Shop, Make, Box, System, make1, make2, box, Reach,
  here, later,
}

abbrev pub holds : Pc → ℕ
holds entered = 1
holds worked = 1
holds _ = 0

-- A maker that is done has seen 100 loaves, a boxer that is done has packed 10 boxes.
abbrev pub Baked : Shop → Pc → Type 0
Baked m finished = m.bread_count ≡ num_of_bread
Baked m _ = Unit

abbrev pub Packed : Shop → Pc → Type 0
Packed m finished = m.box_count ≡ 10
Packed m _ = Unit

pub record Inv (s : System) : Type 0 where
  pub most : s.shop.bread_count ≤ num_of_bread
  pub boxed : s.shop.box_count * 10 ≤ s.shop.bread_count
  pub owned : s.shop.owner ≡ holds s.maker1 + 2 * holds s.maker2 + 3 * holds s.boxer
  pub alone : holds s.maker1 + holds s.maker2 + holds s.boxer ≤ 1
  pub baked1 : Baked s.shop s.maker1
  pub baked2 : Baked s.shop s.maker2
  pub packed : Packed s.shop s.boxer

make1-Inv :
    {m m' : Shop} {p p' q b : Pc}
    → Make 1 m p m' p'
    → Inv (record { shop = m; maker1 = p; maker2 = q; boxer = b })
    → Inv (record { shop = m'; maker1 = p'; maker2 = q; boxer = b })
make1-Inv (Make.lock e) v = ground arith
make1-Inv (Make.bake h) v = ground arith
make1-Inv (Make.enough h) v = ground arith
make1-Inv Make.unlock v = ground arith
make1-Inv (Make.again h) v = ground arith
make1-Inv (Make.stop h) v = ground arith

make2-Inv :
    {m m' : Shop} {p p' q b : Pc}
    → Make 2 m p m' p'
    → Inv (record { shop = m; maker1 = q; maker2 = p; boxer = b })
    → Inv (record { shop = m'; maker1 = q; maker2 = p'; boxer = b })
make2-Inv (Make.lock e) v = ground arith
make2-Inv (Make.bake h) v = ground arith
make2-Inv (Make.enough h) v = ground arith
make2-Inv Make.unlock v = ground arith
make2-Inv (Make.again h) v = ground arith
make2-Inv (Make.stop h) v = ground arith

Box-Inv :
    {m m' : Shop} {p p' q b : Pc}
    → Box 3 m p m' p'
    → Inv (record { shop = m; maker1 = q; maker2 = b; boxer = p })
    → Inv (record { shop = m'; maker1 = q; maker2 = b; boxer = p' })
Box-Inv (Box.lock e) v = ground arith
Box-Inv (Box.pack h) v = ground arith
Box-Inv (Box.too_few h) v = ground arith
Box-Inv Box.unlock v = ground arith
Box-Inv (Box.again h) v = ground arith
Box-Inv (Box.stop h) v = ground arith

pub Reach-Inv : {s : System} → Reach s → Inv s
Reach-Inv here = omega arith
Reach-Inv (later r (make1 mv)) = make1-Inv mv (Reach-Inv r)
Reach-Inv (later r (make2 mv)) = make2-Inv mv (Reach-Inv r)
Reach-Inv (later r (box mv)) = Box-Inv mv (Reach-Inv r)
