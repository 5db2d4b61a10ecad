-- ===== src/Tests/Device.antt =====
-- The device server on a session of every kind of block.
use edge_embedded_linux.Common.{◌≡◌, refl, true, false, none, some, List, [], ◌∷◌, ◌++◌, arith}
use edge_embedded_linux.Posix.{Reply, value, exited, run}
use edge_embedded_linux.Posix.Safety.{Judged}
use edge_embedded_linux.Posix.Handles.{Bounds, handles, holding}
use edge_embedded_linux.Tcp.Opening.{Never}
use edge_embedded_linux.Gpio.{Lines}
use edge_embedded_linux.Device.{dispatch, init_gpio, process_command, serve_device, device_main}
use edge_embedded_linux.Device.Safety.{Exits}
use edge_embedded_linux.Device.Spec.{Block, led_on, led_off, key_status, unknown, noise, session}
use edge_embedded_linux.Device.Runs.{Serves, run-session}
use edge_embedded_linux.Device.Server.{device_main-Judged}

-- The LED fails once, and the key, at two levels, too.
abbrev blocks : List Block
blocks =
    led_on true
    ∷ noise (1 ∷ 2 ∷ 3 ∷ [])
    ∷ key_status (some 1)
    ∷ key_status none
    ∷ unknown 9 1
    ∷ led_off false
    ∷ key_status (some 0)
    ∷ unknown 1 3
    ∷ led_off true
    ∷ []

abbrev lines : Lines
lines = record { led = 6; key = 7 }

run-session_example : Serves 5 6 blocks (run (process_command 10 5 lines) (session 25 blocks))
run-session_example = run-session 5 lines 25 blocks 10 (omega arith) (
  tt,
  (
    (omega arith, omega arith),
    (
      omega arith,
      (
        tt,
        (
          (omega arith, omega arith, refl),
          (tt, (omega arith, ((omega arith, omega arith, refl), (tt, tt)))),
        ),
      ),
    ),
  ),
)

-- The child of the server on that session: 3 listens, 4 is the chip, 5 and 6 its lines, 7 the client.
abbrev child : List Reply
child =
    (value 0
      ∷ value 3
      ∷ value 0
      ∷ value 0
      ∷ value 0
      ∷ value 4
      ∷ value 54
      ∷ value 5
      ∷ value 6
      ∷ value 7
      ∷ value 0
      ∷ value 0
      ∷ [])
    ++ (session 25 blocks ++ (value 0 ∷ []))

device_runs : (run (device_main 1 1 10) child).1 ≡ exited 0
unfolding run device_main init_gpio serve_device process_command dispatch
device_runs = refl

abbrev bounds : Bounds
bounds = record { block = 256; output = 0 }

device_main-Judged_example :
    Judged
      (handles bounds)
      Never
      Exits
      (run (device_main 1 1 10) child).0
      (run (device_main 1 1 10) child).1
      (holding [] [])
device_main-Judged_example = device_main-Judged bounds 1 1 10 child
