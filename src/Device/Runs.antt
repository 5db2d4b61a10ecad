-- ===== src/Device/Runs.antt =====
-- Runs of the device server, EX07-08_device_control, next to Device.Spec.
use edge_embedded_linux.Common.{
  ℕ, zero, suc, ◌≡◌, refl, ◌∙◌, ap, ◌^◌, ◌<◌, ◌%◌, Bool, true, false, Option, none, some, List, [],
  ◌∷◌, ◌++◌, length, All, arith, ◌==◌,
}
use edge_embedded_linux.Posix.{
  read, write, set_line, get_line, Reply, value, bytes, Event, did, End, returned, run, ◌>>=◌, ◌>>◌,
  tell,
}
use edge_embedded_linux.Gpio.{Lines}
use edge_embedded_linux.Device.{res_error, htonl, dispatch, process_command}
use edge_embedded_linux.Device.Wire.{frame, ntohl-frame}
use edge_embedded_linux.Device.Spec.{
  dispatch-unknown, Block, led_on, led_off, key_status, unknown, noise, IsBlock, done, level_of,
  answers, of_led, of_key, session, sent_to, levels, sent, driven,
}

-- One request of eight bytes.
frame_step :
    (fd k id cmd : ℕ) (lines : Lines) (rs : List Reply)
    → id < 2 ^ 32
    → cmd < 2 ^ 32
    → run (process_command (suc k) fd lines) (bytes (frame id cmd) ∷ rs) ≡ (
        let r =
          run
            (dispatch lines id cmd >>= λ result.
              tell (write fd (htonl result)) >> process_command k fd lines)
            rs in
        (did (read fd 256) (bytes (frame id cmd)) ∷ r.0, r.1))
unfolding run process_command
frame_step fd k id cmd lines rs h1 h2 = let (e1, e2) = ntohl-frame id cmd h1 h2 in rw e1 (rw e2)

pub record Serves (fd led : ℕ) (l : List Block) (r : List Event × End (Unit {0})) : Type 0 where
  pub texts : sent r.0 ≡ sent_to fd (answers l)
  pub lights : driven r.0 ≡ levels led l
  pub ends : r.1 ≡ returned tt

module _ (fd : ℕ) (lines : Lines) (errno : ℕ) where
  noise_step :
      (k : ℕ) (b : List ℕ) (rs : List Reply)
      → IsBlock (noise b)
      → run (process_command (suc k) fd lines) (bytes b ∷ rs) ≡ (
        did (read fd 256) (bytes b) ∷ (run (process_command k fd lines) rs).0,
        (run (process_command k fd lines) rs).1,
      )
  unfolding run process_command
  noise_step k [] rs h = absurd (omega arith)
  noise_step k (x ∷ b) rs h = rw e
    where
      e : length (x ∷ b) == 8 ≡ false
      e = ground arith

  -- A request: what goes in, and the events of its own, in front of those of the rest.
  abbrev Step : ℕ → List Reply → List Event → Type 0
  Step k inputs events =
      (rs : List Reply)
      → run (process_command (suc k) fd lines) (inputs ++ rs) ≡ (
        events ++ (run (process_command k fd lines) rs).0,
        (run (process_command k fd lines) rs).1,
      )

  led_on_answered :
      (k : ℕ) (works : Bool)
      → Step k (bytes (frame 1 1) ∷ of_led errno works ∷ value 4 ∷ []) (
          did (read fd 256) (bytes (frame 1 1))
          ∷ did (set_line lines.led 1) (of_led errno works)
          ∷ did (write fd (htonl (done works))) (value 4)
          ∷ [])
  unfolding run process_command dispatch
  led_on_answered k true rs = refl
  led_on_answered k false rs = refl

  led_off_answered :
      (k : ℕ) (works : Bool)
      → Step k (bytes (frame 1 2) ∷ of_led errno works ∷ value 4 ∷ []) (
          did (read fd 256) (bytes (frame 1 2))
          ∷ did (set_line lines.led 0) (of_led errno works)
          ∷ did (write fd (htonl (done works))) (value 4)
          ∷ [])
  unfolding run process_command dispatch
  led_off_answered k true rs = refl
  led_off_answered k false rs = refl

  key_answered :
      (k : ℕ) (level : Option ℕ)
      → IsBlock (key_status level)
      → Step k (bytes (frame 2 1) ∷ of_key errno level ∷ value 4 ∷ []) (
          did (read fd 256) (bytes (frame 2 1))
          ∷ did (get_line lines.key) (of_key errno level)
          ∷ did (write fd (htonl (level_of level))) (value 4)
          ∷ [])
  unfolding run process_command dispatch
  key_answered k none h rs = refl
  key_answered k (some level) h rs =
      let e : level % 256 ≡ level = omega arith in
      ap
        (λ v. (
          did (read fd 256) (bytes (frame 2 1))
              ∷ did (get_line lines.key) (value level)
              ∷ did (write fd (htonl v)) (value 4)
              ∷ (run (process_command k fd lines) rs).0,
          (run (process_command k fd lines) rs).1,
        ))
        e

  unknown_answered :
      (k id cmd : ℕ)
      → IsBlock (unknown id cmd)
      → Step k (bytes (frame id cmd) ∷ value 4 ∷ []) (
          did (read fd 256) (bytes (frame id cmd))
          ∷ did (write fd (htonl res_error)) (value 4)
          ∷ [])
  unfolding run
  unknown_answered k id cmd h rs =
      frame_step fd k id cmd lines (value 4 ∷ rs) h.0 h.1
      ∙ ap
          (λ p.
            let r =
              run (p >>= λ result. tell (write fd (htonl result)) >> process_command k fd lines)
                (value 4 ∷ rs) in
            (did (read fd 256) (bytes (frame id cmd)) ∷ r.0, r.1))
          (dispatch-unknown lines id cmd h.2)

  end_step :
      (k : ℕ) → Serves fd lines.led [] (run (process_command (suc k) fd lines) (bytes [] ∷ []))
  unfolding run process_command
  end_step k = record { texts = refl; lights = refl; ends = refl }

  lit :
      (works : Bool) (cmd level : ℕ) (t : List Event)
      → driven (
          did (read fd 256) (bytes (frame 1 cmd))
          ∷ did (set_line lines.led level) (of_led errno works)
          ∷ did (write fd (htonl (done works))) (value 4)
          ∷ t)
        ≡ (lines.led, level, works) ∷ driven t
  lit true cmd level t = refl
  lit false cmd level t = refl

  -- When read() and write() do not fail, and given more rounds than blocks: the client gets the answers,
  -- and the line of the LED is asked for the levels, of Device.Spec, in order, whichever ioctl() fails
  -- and whatever level, a byte, the key has at each request, and the session ends when the client closes
  -- its end. A request for anything but the LED and the key is answered by RES_ERROR.
  pub run-session :
      (l : List Block) (k : ℕ)
      → length l < k
      → All IsBlock l
      → Serves fd lines.led l (run (process_command k fd lines) (session errno l))
  run-session l zero lt h = absurd (omega arith)
  run-session [] (suc k) lt h = end_step k
  run-session (led_on works ∷ l) (suc k) lt h =
      let r = run-session l k (omega arith) h.1 in
      rw (led_on_answered k works (session errno l)) (record {
        texts = ap (λ t. (fd, htonl (done works)) ∷ t) r.texts;
        lights =
            lit works 1 1 (run (process_command k fd lines) (session errno l)).0
            ∙ ap (λ t. (lines.led, 1, works) ∷ t) r.lights;
        ends = r.ends;
      })
  run-session (led_off works ∷ l) (suc k) lt h =
      let r = run-session l k (omega arith) h.1 in
      rw (led_off_answered k works (session errno l)) (record {
        texts = ap (λ t. (fd, htonl (done works)) ∷ t) r.texts;
        lights =
            lit works 2 0 (run (process_command k fd lines) (session errno l)).0
            ∙ ap (λ t. (lines.led, 0, works) ∷ t) r.lights;
        ends = r.ends;
      })
  run-session (key_status level ∷ l) (suc k) lt h =
      let r = run-session l k (omega arith) h.1 in
      rw (key_answered k level h.0 (session errno l)) (record {
        texts = ap (λ t. (fd, htonl (level_of level)) ∷ t) r.texts;
        lights = r.lights;
        ends = r.ends;
      })
  run-session (unknown id cmd ∷ l) (suc k) lt h =
      let r = run-session l k (omega arith) h.1 in
      rw (unknown_answered k id cmd h.0 (session errno l)) (record {
        texts = ap (λ t. (fd, htonl res_error) ∷ t) r.texts;
        lights = r.lights;
        ends = r.ends;
      })
  run-session (noise b ∷ l) (suc k) lt h =
      let r = run-session l k (omega arith) h.1 in
      rw (noise_step k b (session errno l) h.0)
        (record { texts = r.texts; lights = r.lights; ends = r.ends })
