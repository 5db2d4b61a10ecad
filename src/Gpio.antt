-- ===== src/Gpio.antt =====
-- EX06-02_gpiotest: a key is read and the LED switched.
pub mod Runs
use edge_embedded_linux.Common.{ℕ, zero, suc, ◌+◌, List, ◌==◌, if◌then◌else◌}
use edge_embedded_linux.Text.{codes}
use edge_embedded_linux.Posix.{
  open_file, chip_info, line_info, line_handle, get_line, set_line, sleep, Prog, return, spin,
  ◌>>=◌, ◌>>◌, tell, must,
}
use edge_embedded_linux.Tcp.{want_args}

abbrev pub gpio_led : ℕ
gpio_led = 12

abbrev pub gpio_key : ℕ
gpio_key = 21

abbrev pub gpio_dev : List ℕ
gpio_dev = codes "/dev/gpiochip4"

-- `handle_request_led.fd` and `handle_request_key.fd`.
pub record Lines : Type 0 where
  pub led : ℕ
  pub key : ℕ

-- The requests for the two lines, the LED as an output.
abbrev pub request_lines : ℕ → Prog Lines
request_lines fd = do
  led ← must (line_handle fd gpio_led 1)
  key ← must (line_handle fd gpio_key 0)
  return (record { led = led; key = key })

-- A failure to describe a line is printed, and the loop goes on.
unfoldable pub list_lines : ℕ → ℕ → ℕ → Prog (Unit {0})
list_lines zero fd i = return tt
list_lines (suc n) fd i = do tell (line_info fd i); list_lines n fd (i + 1)

unfoldable pub init_gpio : Prog Lines
unfolding list_lines
init_gpio = do
  fd ← must (open_file gpio_dev)
  lines ← must (chip_info fd)
  list_lines lines fd 0
  request_lines fd

abbrev pub control_led : Lines → ℕ → Prog ℕ
control_led lines on = if on == 1 then must (set_line lines.led 1) else must (set_line lines.led 0)

-- Level 0 is a key that is pressed.
unfoldable pub follow : ℕ → Lines → Prog (Unit {0})
follow zero lines = spin
follow (suc n) lines = do
  key ← must (get_line lines.key)
  (if key == 0 then control_led lines 1 else control_led lines 0)
  tell (sleep 1000)
  follow n lines

unfoldable pub gpio_main : ℕ → ℕ → Prog (Unit {0})
gpio_main argc n = do want_args 1 argc; lines ← init_gpio; follow n lines
