-- ===== src/Tests/Threads.antt =====
-- The counting threads and the bakery on short runs.
use edge_embedded_linux.Common.{ℕ, zero, suc, ◌≡◌, refl, ap, ◌+◌, ◌*◌, ◌≤◌, ◌<◌, arith}
use edge_embedded_linux.Threads.Process.{
  Group, creating, joining, Process, create, all_created, join, runs, Step, moves,
}
use edge_embedded_linux.Threads.Process
use edge_embedded_linux.Threads.Process.Ends.{EndsWith}
use edge_embedded_linux.Threads.Race
use edge_embedded_linux.Threads.Race.Main.{race_main, race_main_loses}
use edge_embedded_linux.Threads.Bounded
use edge_embedded_linux.Threads.Bounded.Main.{bounded_main}
use edge_embedded_linux.Threads.Semaphore
use edge_embedded_linux.Threads.Semaphore.Main.{semaphore_main}
use edge_embedded_linux.Threads.Bread
use edge_embedded_linux.Threads.Bread.Main.{bread_main}
use edge_embedded_linux.Threads.Bread.Invariant.{holds}

-- Main has created the two threads of a program.
module _ (G : Group) (two : G.number ≡ 2) where
  both_created : (k : ℕ) × Process.Reach G k (record { main = joining 0; threads = G.begin })
  both_created =
      let r = Process.later Process.here (moves (create refl (omega (arith, two)))) in
      let r' = Process.later r (moves (create refl (omega (arith, two)))) in
      (_, Process.later r' (moves (all_created (ap creating (omega (arith, two))))))

-- Thread 1 counts to 1, then both see the maximum.
abbrev counted : Bounded.System
counted = record {
  mem = record { g_count = 1; owner = 0 };
  t1 = Bounded.at Bounded.finished 1;
  t2 = Bounded.at Bounded.finished 0;
}

counted_reached : Bounded.Reach 1 10 counted
counted_reached =
    Bounded.later
      (Bounded.later
        (Bounded.later
          (Bounded.later
            (Bounded.later
              (Bounded.later
                (Bounded.later
                  (Bounded.later
                    (Bounded.later (Bounded.later Bounded.here (Bounded.first (Bounded.lock refl)))
                      (Bounded.first (Bounded.load (omega arith))))
                    (Bounded.first Bounded.store))
                  (Bounded.first Bounded.unlock))
                (Bounded.first (Bounded.lock refl)))
              (Bounded.first (Bounded.full refl)))
            (Bounded.first Bounded.leave))
          (Bounded.second (Bounded.lock refl)))
        (Bounded.second (Bounded.full refl)))
      (Bounded.second Bounded.leave)

abbrev bounded_process : Bounded.System → Process (Bounded.Main.group 1)
bounded_process s = record { main = joining 0; threads = s }

bounded_turn : {s t : Bounded.System} (st : Bounded.Step 1 s t) → Bounded.Main.turn st < 2
bounded_turn (Bounded.first mv) = omega arith
bounded_turn (Bounded.second mv) = omega arith

bounded_lifted :
    {n : ℕ} {s : Bounded.System}
    → Bounded.Reach 1 n s
    → (k : ℕ) × Process.Reach (Bounded.Main.group 1) k (bounded_process s)
bounded_lifted Bounded.here = both_created (Bounded.Main.group 1) refl
bounded_lifted (Bounded.later r st) =
    let (k, r') = bounded_lifted r in (_, Process.later r' (moves (runs st (bounded_turn st))))

-- Main has joined the first thread.
abbrev bounded_joined : Process (Bounded.Main.group 1)
bounded_joined = record { main = joining 1; threads = counted }

bounded_joined_reached : (k : ℕ) × Process.Reach (Bounded.Main.group 1) k bounded_joined
bounded_joined_reached =
    let (k, r) = bounded_lifted counted_reached in
    (_, Process.later r (moves (join refl (omega arith) refl)))

bounded_main_example :
    (bounded_joined_reached.0 ≤ 5 * 1 + 13)
    × EndsWith (Bounded.Main.group 1) bounded_joined (
        (bounded_joined.threads.mem.g_count ≡ 1)
        × (bounded_joined.threads.t1.count + bounded_joined.threads.t2.count ≡ 1))
bounded_main_example = bounded_main bounded_joined bounded_joined_reached.1

-- Both threads have read 0, and the first has written 1.
abbrev racing : Race.System
racing = record { g_count = 1; t1 = Race.at Race.ready 1; t2 = Race.at (Race.loaded 0) 0 }

abbrev racing_process : Process (Race.Main.group 3)
racing_process = record { main = joining 0; threads = racing }

racing_reached : (k : ℕ) × Process.Reach (Race.Main.group 3) k racing_process
racing_reached =
    let (k, r) = both_created (Race.Main.group 3) refl in
    let r1 = Process.later r (moves (runs (Race.first (Race.load (omega arith))) (omega arith))) in
    let r2 =
      Process.later r1 (moves (runs (Race.second (Race.load (omega arith))) (omega arith))) in
    (_, Process.later r2 (moves (runs (Race.first Race.store) (omega arith))))

race_main_example :
    (racing_reached.0 ≤ 4 * 3 + 5)
    × EndsWith (Race.Main.group 3) racing_process (
        (racing_process.threads.t1.count ≡ 3)
        × (racing_process.threads.t2.count ≡ 3)
        × (racing_process.threads.g_count ≤ 2 * 3))
race_main_example = race_main racing_process racing_reached.1

race_main_loses_example :
    (k : ℕ) × (p : Process (Race.Main.group 3)) × Process.Reach (Race.Main.group 3) k p
    × (p.main ≡ joining 2)
    × (p.threads.t1.count ≡ 3)
    × (p.threads.t2.count ≡ 3)
    × (2 * p.threads.g_count ≡ p.threads.t1.count + p.threads.t2.count)
race_main_loses_example = race_main_loses 3

-- The first thread alone has counted to `n`.
abbrev solo : ℕ → Semaphore.System
solo n = record {
  mem = record { g_count = n; owner = 0; sem = 0 };
  t1 = Semaphore.at Semaphore.idle n;
  t2 = Semaphore.at Semaphore.waiting 0;
}

solo_reached : (n : ℕ) → n < 100 → (k : ℕ) × Semaphore.Reach 100 k (solo n)
solo_reached zero h = (0, Semaphore.here)
solo_reached (suc n) h =
    let (k, r) = solo_reached n (omega arith) in
    let e : n + 1 ≡ suc n = omega arith in
    rw (← e) (
      _,
      Semaphore.later
          (Semaphore.later
            (Semaphore.later
              (Semaphore.later
                (Semaphore.later r (Semaphore.first (Semaphore.Move1.common (Semaphore.lock refl))))
                (Semaphore.first (Semaphore.Move1.common (Semaphore.load (omega arith)))))
              (Semaphore.first (Semaphore.Move1.common Semaphore.store)))
            (Semaphore.first (Semaphore.Move1.pass (omega arith))))
          (Semaphore.first (Semaphore.Move1.common Semaphore.unlock)),
    )

-- The first thread posts at 100; then both see the maximum.
abbrev signalled : Semaphore.System
signalled = record {
  mem = record { g_count = 100; owner = 0; sem = 0 };
  t1 = Semaphore.at Semaphore.finished 100;
  t2 = Semaphore.at Semaphore.finished 0;
}

signalled_reached : (k : ℕ) × Semaphore.Reach 100 k signalled
signalled_reached =
    let (k, r) = solo_reached 99 (omega arith) in
    (
      _,
      Semaphore.later
          (Semaphore.later
            (Semaphore.later
              (Semaphore.later
                (Semaphore.later
                  (Semaphore.later
                    (Semaphore.later
                      (Semaphore.later
                        (Semaphore.later
                          (Semaphore.later
                            (Semaphore.later
                              (Semaphore.later r
                                (Semaphore.first (Semaphore.Move1.common (Semaphore.lock refl))))
                              (Semaphore.first
                                (Semaphore.Move1.common (Semaphore.load (omega arith)))))
                            (Semaphore.first (Semaphore.Move1.common Semaphore.store)))
                          (Semaphore.first (Semaphore.Move1.post refl)))
                        (Semaphore.first (Semaphore.Move1.common Semaphore.unlock)))
                      (Semaphore.first (Semaphore.Move1.common (Semaphore.lock refl))))
                    (Semaphore.first (Semaphore.Move1.common (Semaphore.full refl))))
                  (Semaphore.first (Semaphore.Move1.common Semaphore.leave)))
                (Semaphore.second (Semaphore.Move2.wake (omega arith))))
              (Semaphore.second (Semaphore.Move2.common (Semaphore.lock refl))))
            (Semaphore.second (Semaphore.Move2.common (Semaphore.full refl))))
          (Semaphore.second (Semaphore.Move2.common Semaphore.leave)),
    )

abbrev semaphore_process : Semaphore.System → Process (Semaphore.Main.group 100)
semaphore_process s = record { main = joining 0; threads = s }

semaphore_turn : {s t : Semaphore.System} (st : Semaphore.Step 100 s t) → Semaphore.Main.turn st < 2
semaphore_turn (Semaphore.first mv) = omega arith
semaphore_turn (Semaphore.second mv) = omega arith

semaphore_lifted :
    {n : ℕ} {s : Semaphore.System}
    → Semaphore.Reach 100 n s
    → (k : ℕ) × Process.Reach (Semaphore.Main.group 100) k (semaphore_process s)
semaphore_lifted Semaphore.here = both_created (Semaphore.Main.group 100) refl
semaphore_lifted (Semaphore.later r st) =
    let (k, r') = semaphore_lifted r in (_, Process.later r' (moves (runs st (semaphore_turn st))))

signalled_process_reached :
    (k : ℕ) × Process.Reach (Semaphore.Main.group 100) k (semaphore_process signalled)
signalled_process_reached = semaphore_lifted signalled_reached.1

semaphore_main_example :
    (signalled_process_reached.0 ≤ 6 * 100 + 16)
    × EndsWith
        (Semaphore.Main.group 100)
        (semaphore_process signalled)
        ((signalled.mem.g_count ≡ 100) × (signalled.t1.count + signalled.t2.count ≡ 100))
semaphore_main_example =
    semaphore_main (semaphore_process signalled) (omega arith) signalled_process_reached.1

-- The first maker has baked one loaf and still has the mutex.
abbrev one_loaf : Bread.System
one_loaf = record {
  shop = record { bread_count = 1; box_count = 0; owner = 1 };
  maker1 = Bread.worked;
  maker2 = Bread.idle;
  boxer = Bread.idle;
}

-- Main has created the first maker only.
abbrev one_maker : Process Bread.Main.group
one_maker = record { main = creating 1; threads = one_loaf }

one_maker_reached : Process.Reach Bread.Main.group 3 one_maker
one_maker_reached =
    let r = Process.later Process.here (moves (create refl (omega arith))) in
    let r' = Process.later r (moves (runs (Bread.make1 (Bread.Make.lock refl)) (omega arith))) in
    Process.later r' (moves (runs (Bread.make1 (Bread.Make.bake (omega arith))) (omega arith)))

bread_main_example :
    ((one_loaf.shop.bread_count ≤ 100)
      × (one_loaf.shop.box_count * 10 ≤ one_loaf.shop.bread_count)
      × (one_loaf.shop.box_count ≤ 10)
      × (holds one_loaf.maker1 + holds one_loaf.maker2 + holds one_loaf.boxer ≤ 1))
    × EndsWith Bread.Main.group one_maker
        ((one_loaf.shop.bread_count ≡ 100) × (one_loaf.shop.box_count ≡ 10))
bread_main_example = bread_main one_maker one_maker_reached
