-- ===== src/Tests/Rw.antt =====
-- Two processes and one file, under the semaphore and without it.
use edge_embedded_linux.Common.{ℕ, ◌≡◌, ◌≢◌, refl, true, none, some, arith}
use edge_embedded_linux.Rw.{
  differs, same, Free, Locked, take, work, write, read_same, System, step, Reach, here, later,
}
use edge_embedded_linux.Rw.Invariant.{holds, rw_same}
use edge_embedded_linux.Rw.Unlocked.{rw_differs}

-- The second process has read what it wrote.
read_back : (s : System) × Reach Locked none s × ((s.processes 1).pc ≡ same)
read_back =
    let r1 = later here (step 1 (take refl (omega arith) (omega arith))) in
    let r2 = later r1 (step 1 (work (write refl))) in
    (_, later r2 (step 1 (work (read_same refl refl))), refl)

rw_same_example :
    ((i : ℕ) → (read_back.0.processes i).pc ≢ differs)
    × ((i j : ℕ)
        → holds (read_back.0.processes i).pc ≡ true
        → holds (read_back.0.processes j).pc ≡ true
        → i ≡ j)
rw_same_example = rw_same read_back.1

rw_differs_example :
    (s : System) × Reach Free (some 90) s × ((s.processes 0).pc ≡ differs) × ((s.processes 1).i ≡ 1)
rw_differs_example = rw_differs (some 90) 1 (omega arith) (omega arith)
