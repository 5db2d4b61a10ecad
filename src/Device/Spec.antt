-- ===== src/Device/Spec.antt =====
-- A session with the device server: what each request asks of the LED and what is answered.
use edge_embedded_linux.Common.{
  ℕ, ◌≡◌, ◌≢◌, ◌^◌, ◌<◌, false, true, Bool, Option, none, some, ◌&&◌, ◌||◌, List, [], ◌∷◌, length,
  arith, ◌==◌,
}
use edge_embedded_linux.Posix.{
  write, set_line, return, Reply, value, bytes, failed, Event, did, waits,
}
use edge_embedded_linux.Gpio.{Lines}
use edge_embedded_linux.Device.{res_ok, res_error, htonl, dispatch}
use edge_embedded_linux.Device.Wire.{frame}

-- What a client may ask for; anything else is an unknown device or command.
abbrev pub known : ℕ → ℕ → Bool
known id cmd = (id == 1 && (cmd == 1 || cmd == 2)) || (id == 2 && cmd == 1)

-- Any other pair of numbers is answered by RES_ERROR, and nothing is done.
pub dispatch-unknown :
    (lines : Lines) (id cmd : ℕ) → known id cmd ≡ false → dispatch lines id cmd ≡ return res_error
unfolding dispatch
dispatch-unknown lines id cmd h = ground arith

-- A block from a client, with what the system makes of it: whether the ioctl() of the LED works, the
-- level of the key or none where its ioctl() fails; a request for anything else; or a block whose
-- length is not 8.
pub data Block : Type 0 where
  led_on led_off : (works : Bool) → Block
  key_status : (level : Option ℕ) → Block
  unknown : (id cmd : ℕ) → Block
  noise : List ℕ → Block

abbrev pub IsBlock : Block → Type 0
IsBlock (key_status (some level)) = level < 256
IsBlock (unknown id cmd) = (id < 2 ^ 32) × (cmd < 2 ^ 32) × (known id cmd ≡ false)
IsBlock (noise b) = (0 < length b) × (length b ≢ 8)
IsBlock _ = Unit

-- RES_OK or RES_ERROR, or the level of the key.
abbrev pub done : Bool → ℕ
done true = res_ok
done false = res_error

abbrev pub level_of : Option ℕ → ℕ
level_of none = res_error
level_of (some level) = level

-- The answers, four bytes each. A request for anything else gets RES_ERROR, not the RES_UNKNOWN_ID or
-- RES_UNKNOWN_CMD that define.h has for it.
abbrev pub answers : List Block → List (List ℕ)
answers [] = []
answers (led_on works ∷ l) = htonl (done works) ∷ answers l
answers (led_off works ∷ l) = htonl (done works) ∷ answers l
answers (key_status level ∷ l) = htonl (level_of level) ∷ answers l
answers (unknown id cmd ∷ l) = htonl res_error ∷ answers l
answers (noise b ∷ l) = answers l

module _ (errno : ℕ) where
  abbrev pub of_led : Bool → Reply
  of_led true = value 0
  of_led false = failed errno

  abbrev pub of_key : Option ℕ → Reply
  of_key none = failed errno
  of_key (some level) = value level

  -- What the system answers when the client sends these blocks and closes its end.
  abbrev pub session : List Block → List Reply
  session [] = bytes [] ∷ []
  session (led_on works ∷ l) = bytes (frame 1 1) ∷ of_led works ∷ value 4 ∷ session l
  session (led_off works ∷ l) = bytes (frame 1 2) ∷ of_led works ∷ value 4 ∷ session l
  session (key_status level ∷ l) = bytes (frame 2 1) ∷ of_key level ∷ value 4 ∷ session l
  session (unknown id cmd ∷ l) = bytes (frame id cmd) ∷ value 4 ∷ session l
  session (noise b ∷ l) = bytes b ∷ session l

-- The levels that the line of the LED is asked for, and whether it takes them.
abbrev pub levels : (led : ℕ) → List Block → List (ℕ × ℕ × Bool)
levels led [] = []
levels led (led_on works ∷ l) = (led, 1, works) ∷ levels led l
levels led (led_off works ∷ l) = (led, 0, works) ∷ levels led l
levels led (_ ∷ l) = levels led l

-- What a run wrote to a descriptor, and the levels it asked of a line.
abbrev pub sent : List Event → List (ℕ × List ℕ)
sent [] = []
sent (did (write fd b) r ∷ t) = (fd, b) ∷ sent t
sent (did c r ∷ t) = sent t
sent (waits c ∷ t) = sent t

abbrev pub sent_to : (fd : ℕ) → List (List ℕ) → List (ℕ × List ℕ)
sent_to fd [] = []
sent_to fd (b ∷ l) = (fd, b) ∷ sent_to fd l

abbrev pub worked : Reply → Bool
worked (failed e) = false
worked r = true

abbrev pub driven : List Event → List (ℕ × ℕ × Bool)
driven [] = []
driven (did (set_line handle level) r ∷ t) = (handle, level, worked r) ∷ driven t
driven (did c r ∷ t) = driven t
driven (waits c ∷ t) = driven t
