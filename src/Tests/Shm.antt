-- ===== src/Tests/Shm.antt =====
-- shmput and shmget on new memory: the time `7.5` is written once and read.
use edge_embedded_linux.Common.{◌≡◌, refl, ◌≢◌, ◌+◌, ◌≤◌, replicate, arith}
use edge_embedded_linux.Text.{codes}
use edge_embedded_linux.Shm.{ShmBuf, GetPc, Put, Get, System, Step, Reach}
use edge_embedded_linux.Shm.Invariant.{put_holds, get_holds, shm_agrees}

abbrev zeroed : ShmBuf
zeroed = record { status = 0; buf = replicate 64 0; pad = replicate 4 0; cs = 0 }

-- The reader has found the sum that the writer stored.
read_reached : (s : System) × (Reach zeroed s × (s.get ≡ GetPc.agreed))
read_reached =
    let r1 = Reach.later Reach.here (Step.puts (Put.take (omega arith))) in
    let r2 = Reach.later r1 (Step.puts Put.in_time) in
    let r3 = Reach.later r2 (Step.puts (Put.print_time (codes "7.5") (omega arith))) in
    let r4 = Reach.later r3 (Step.puts Put.mark) in
    let r5 = Reach.later r4 (Step.puts Put.add) in
    let r6 = Reach.later r5 (Step.puts Put.give) in
    let r7 = Reach.later r6 (Step.gets (Get.take (omega arith))) in
    let r8 = Reach.later r7 (Step.gets (Get.go_on refl)) in
    (_, (Reach.later r8 (Step.gets (Get.agree refl)), refl))

shm_agrees_example :
    (read_reached.0.get ≢ GetPc.disagreed)
    × (put_holds read_reached.0.put + get_holds read_reached.0.get ≤ 1)
shm_agrees_example = shm_agrees (λ e. absurd (omega (arith, e))) read_reached.1.0
