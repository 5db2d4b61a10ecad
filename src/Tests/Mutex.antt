-- ===== src/Tests/Mutex.antt =====
-- Two threads of one round each, from their creation to main's end.
use edge_embedded_linux.Common.{◌≡◌, refl, ◌⊎◌, ◌+◌, ◌*◌, ◌≤◌, arith}
use edge_embedded_linux.Threads.Mutex.{
  lock, load, store, unlock, finish, joined, System, Step, create1, create2, join1, join2, first,
  second, Reach, here, later,
}
use edge_embedded_linux.Threads.Mutex.Progress.{mutex_result}

-- The longest run for one round.
to_the_end : (s : System) × (Reach 1 14 s × (s.mem.g_count ≡ 2))
to_the_end =
    let r1 = later (later here (create1 refl)) (create2 refl) in
    let r2 = later (later r1 (first (lock (omega arith) refl))) (first load) in
    let r3 = later (later (later r2 (first store)) (first unlock)) (first (finish refl)) in
    let r4 = later (later r3 (second (lock (omega arith) refl))) (second load) in
    let r5 = later (later (later r4 (second store)) (second unlock)) (second (finish refl)) in
    (_, (later (later r5 (join1 refl refl)) (join2 refl refl), refl))

mutex_result_example :
    (14 ≤ 8 * 1 + 6)
    × (((t : System) × Step 1 to_the_end.0 t)
        ⊎ ((to_the_end.0.main ≡ joined)
            × (to_the_end.0.t1.count ≡ 1)
            × (to_the_end.0.t2.count ≡ 1)
            × (to_the_end.0.mem.g_count ≡ 2 * 1)))
mutex_result_example = mutex_result to_the_end.0 to_the_end.1.0
