-- ===== src/Gpio/Runs.antt =====
-- Runs of main of EX06-02_gpiotest.
use edge_embedded_linux.Common.{
  ℕ, zero, suc, ◌≡◌, false, refl, ap, ◌+◌, ◌<◌, List, [], ◌∷◌, length, ◌==◌, arith,
}
use edge_embedded_linux.Posix.{
  open_file, chip_info, line_info, line_handle, get_line, set_line, sleep, Reply, value, failed,
  Event, did, exited, run, Prog, ◌>>=◌,
}
use edge_embedded_linux.Gpio.{
  Lines, gpio_led, gpio_key, gpio_dev, init_gpio, request_lines, list_lines, follow, gpio_main,
}

-- The levels that are read, one in each round, and then a failure to read.
abbrev pub key_levels : List ℕ → ℕ → List Reply
key_levels [] errno = failed errno ∷ []
key_levels (level ∷ l) errno = value level ∷ value 0 ∷ value 0 ∷ key_levels l errno

-- The LED is on exactly while the key is pressed, which is level 0.
abbrev pub led_for : ℕ → ℕ
led_for zero = 1
led_for (suc level) = 0

abbrev pub followed : Lines → List ℕ → ℕ → List Event
followed lines [] errno = did (get_line lines.key) (failed errno) ∷ []
followed lines (level ∷ l) errno =
    did (get_line lines.key) (value level)
    ∷ did (set_line lines.led (led_for level)) (value 0)
    ∷ did (sleep 1000) (value 0)
    ∷ followed lines l errno

released : (level : ℕ) → (suc level == 0) ≡ false
released level = ground arith

run-follow :
    (lines : Lines) (l : List ℕ) (n errno : ℕ)
    → length l < n
    → run (follow n lines) (key_levels l errno) ≡ (followed lines l errno, exited 1)
unfolding run follow
run-follow lines l zero errno lt = absurd (omega arith)
run-follow lines [] (suc n) errno lt = refl
run-follow lines (zero ∷ l) (suc n) errno lt = rw (run-follow lines l n errno (omega arith))
run-follow lines (suc level ∷ l) (suc n) errno lt =
    rw (run, released level) (rw (run-follow lines l n errno (omega arith)))

-- What the driver says of line `i` and of those after it.
abbrev pub described : ℕ → ℕ → ℕ → List Event → List Event
described zero fd i t = t
described (suc n) fd i t = did (line_info fd i) (value 0) ∷ described n fd (i + 1) t

abbrev pub descriptions : ℕ → List Reply → List Reply
descriptions zero rs = rs
descriptions (suc n) rs = value 0 ∷ descriptions n rs

module _ {A B : Type 0} (f : Unit {0} → Prog B) (g : B → Prog A) where
  run-list_lines :
      (n fd i : ℕ) (rs : List Reply)
      → run (list_lines n fd i >>= f >>= g) (descriptions n rs)
        ≡ (let e = run (f tt >>= g) rs in (described n fd i e.0, e.1))
  unfolding run list_lines
  run-list_lines zero fd i rs = refl
  run-list_lines (suc n) fd i rs = rw (run-list_lines n fd (i + 1) rs)

run-request_lines :
    (fd led key n errno : ℕ) (l : List ℕ)
    → length l < n
    → run
        (request_lines fd >>= λ lines. follow n lines)
        (value led ∷ value key ∷ key_levels l errno)
      ≡ (
        did (line_handle fd gpio_led 1) (value led)
            ∷ did (line_handle fd gpio_key 0) (value key)
            ∷ followed (record { led = led; key = key }) l errno,
        exited 1,
      )
unfolding run
run-request_lines fd led key n errno l lt =
    ap
      (λ e. (
        did (line_handle fd gpio_led 1) (value led)
            ∷ did (line_handle fd gpio_key 0) (value key)
            ∷ e.0,
        e.1,
      ))
      (run-follow (record { led = led; key = key }) l n errno lt)

-- On a chip of `lines` lines, gpiotest describes each of them, asks for the LED's line as an output
-- and the key's as an input, and then sets the LED to what the key says in every round, until a read
-- of the key fails, which is EXIT_FAILURE.
pub run-gpio_main :
    (lines fd led key : ℕ) (l : List ℕ) (n errno : ℕ)
    → length l < n
    → run
        (gpio_main 1 n)
        (value fd ∷ value lines ∷ descriptions lines (value led ∷ value key ∷ key_levels l errno))
      ≡ (
        did (open_file gpio_dev) (value fd)
            ∷ did (chip_info fd) (value lines)
            ∷ described lines fd 0 (
                did (line_handle fd gpio_led 1) (value led)
                ∷ did (line_handle fd gpio_key 0) (value key)
                ∷ followed (record { led = led; key = key }) l errno),
        exited 1,
      )
unfolding run gpio_main init_gpio
run-gpio_main lines fd led key l n errno lt =
    rw
      (run-list_lines (λ _. request_lines fd) (λ lines. follow n lines) lines fd 0
        (value led ∷ value key ∷ key_levels l errno))
      (ap
        (λ e. (
          did (open_file gpio_dev) (value fd)
              ∷ did (chip_info fd) (value lines)
              ∷ described lines fd 0 e.0,
          e.1,
        ))
        (run-request_lines fd led key n errno l lt))
