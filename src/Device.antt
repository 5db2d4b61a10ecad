-- ===== src/Device.antt =====
-- EX07-08_device_control: a server through which clients switch the LED and read the key.
pub mod Wire
pub mod Spec
pub mod Runs
pub mod Safety
pub mod Server
use edge_embedded_linux.Common.{
  ℕ, zero, suc, ◌+◌, ◌-◌, ◌*◌, ◌/◌, ◌%◌, ◌^◌, List, [], ◌∷◌, length, get_or, Option, none, some,
  ◌==◌, if◌then◌else◌,
}
use edge_embedded_linux.Posix.{
  accept, read, write, close, fork, signal_chld, open_file, chip_info, get_line, set_line, Prog,
  return, exit, spin, ◌>>=◌, ◌>>◌, ask, fill, tell, must,
}
use edge_embedded_linux.Tcp.{want_args, open_server, on_fork}
use edge_embedded_linux.Gpio.{Lines, gpio_dev, request_lines}

abbrev pub id_led : ℕ
id_led = 1

abbrev pub id_key : ℕ
id_key = 2

abbrev pub cmd_led_on : ℕ
cmd_led_on = 1

abbrev pub cmd_led_off : ℕ
cmd_led_off = 2

abbrev pub cmd_key_status : ℕ
cmd_key_status = 1

abbrev pub res_ok : ℕ
res_ok = 0

-- -1 as the 32 bits that are sent.
abbrev pub res_error : ℕ
res_error = 2 ^ 32 - 1

-- ntohl() of the four bytes from index `i` on, and htonl().
abbrev pub ntohl : List ℕ → ℕ → ℕ
ntohl b i =
    get_or b i 0 * 2 ^ 24
    + get_or b (i + 1) 0 * 2 ^ 16
    + get_or b (i + 2) 0 * 2 ^ 8
    + get_or b (i + 3) 0

abbrev pub htonl : ℕ → List ℕ
htonl w = (w / 2 ^ 24 % 256) ∷ (w / 2 ^ 16 % 256) ∷ (w / 2 ^ 8 % 256) ∷ (w % 256) ∷ []

-- Without the list of lines, which is compiled out.
unfoldable pub init_gpio : Prog Lines
init_gpio = do fd ← must (open_file gpio_dev); must (chip_info fd); request_lines fd

-- The level is a byte.
abbrev pub key_result : Option ℕ → ℕ
key_result none = res_error
key_result (some level) = level % 256

abbrev pub read_key : Lines → Prog ℕ
read_key lines = do r ← ask (get_line lines.key); return (key_result r)

abbrev pub led_result : Option ℕ → ℕ
led_result none = res_error
led_result (some n) = res_ok

abbrev pub control_led : Lines → ℕ → Prog ℕ
control_led lines on = do
  r ← ask (set_line lines.led (if on == 1 then 1 else 0))
  return (led_result r)

abbrev pub do_led_on : Lines → Prog ℕ
do_led_on lines = control_led lines 1

abbrev pub do_led_off : Lines → Prog ℕ
do_led_off lines = control_led lines 0

abbrev pub get_key_status : Lines → Prog ℕ
get_key_status lines = read_key lines

-- The chain of tests on `id` and `cmd`.
unfoldable pub dispatch : Lines → ℕ → ℕ → Prog ℕ
dispatch lines id cmd =
    if id == id_led
    then (if cmd == cmd_led_off
        then do_led_off lines
        else (if cmd == cmd_led_on then do_led_on lines else return res_error))
    else (if id == id_key
        then (if cmd == cmd_key_status then get_key_status lines else return res_error)
        else return res_error)

-- A block that is not eight bytes long is passed over.
abbrev pub device_block : ℕ → Lines → Prog (Unit {0}) → Option (List ℕ) → Prog (Unit {0})
device_block fd lines rest none = return tt
device_block fd lines rest (some []) = return tt
device_block fd lines rest (some (x ∷ b)) =
    if length (x ∷ b) == 8
    then (do
      result ← dispatch lines (ntohl (x ∷ b) 0) (ntohl (x ∷ b) 4)
      tell (write fd (htonl result))
      rest)
    else rest

unfoldable pub process_command : ℕ → ℕ → Lines → Prog (Unit {0})
process_command zero fd lines = spin
process_command (suc k) fd lines = do
  r ← fill (read fd 256)
  device_block fd lines (process_command k fd lines) r

unfoldable pub serve_device : ℕ → ℕ → ℕ → Lines → Prog (Unit {0})
serve_device zero k server lines = spin
serve_device (suc n) k server lines = do
  client ← must (accept server)
  pid ← must fork
  on_fork (do tell (close server); process_command k client lines; tell (close client); exit 0)
      (do tell (close client); serve_device n k server lines) pid

unfoldable pub device_main : ℕ → ℕ → ℕ → Prog (Unit {0})
device_main argc n k = do
  want_args 1 argc
  must (signal_chld 1)
  server ← open_server
  lines ← init_gpio
  serve_device n k server lines
