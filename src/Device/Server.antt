-- ===== src/Device/Server.antt =====
-- The device server from its start: what it opens, and what parent and child keep after fork().
use edge_embedded_linux.Common.{
  ℕ, zero, suc, ◌≡◌, refl, ◌∙◌, ap, sym, inl, inr, true, false, List, [], ◌∷◌, length, ◌==◌, arith,
}
use edge_embedded_linux.FdSet.{
  contains, contains-head, contains-tail, remove, contains-remove, remove-head,
}
use edge_embedded_linux.Posix.{
  Reply, run, close, fork, signal_chld, open_file, chip_info, line_handle, Prog, exit, tell, ◌>>=◌,
  ◌>>◌,
}
use edge_embedded_linux.Posix.Safety.{Judged, Safe-Judged, Safe, Safe-bind, must-Safe}
use edge_embedded_linux.Posix.Handles.{State, Bounds, handles, holding}
use edge_embedded_linux.Tcp.{on_fork, open_server}
use edge_embedded_linux.Tcp.Opening.{Never, accept-Safe, args-Safe, opened-Safe}
use edge_embedded_linux.Gpio.{Lines, gpio_dev, gpio_led, gpio_key, request_lines}
use edge_embedded_linux.Device.{process_command, serve_device, init_gpio, device_main}
use edge_embedded_linux.Device.Safety.{Exits, Kept, Ready, held, process_command-Safe}

-- What the server holds between two clients.
record Base (server : ℕ) (lines : Lines) (base : List ℕ) : Type 0 where
  listens : contains base server ≡ true
  led : contains base lines.led ≡ true
  key : contains base lines.key ≡ true
  led_ne : server == lines.led ≡ false
  key_ne : server == lines.key ≡ false

module _ (bs : Bounds) (server : ℕ) (lines : Lines) (base : List ℕ)
    (b : Base server lines base) where
  module _ (fd : ℕ) (fresh : contains base fd ≡ false) where
    -- The child has closed the socket that listens, and keeps what it needs.
    child_prepared : Ready fd lines (remove server (fd ∷ base))
    child_prepared = record {
      client = ground (arith, contains-remove server fd (fd ∷ base), b.listens, fresh);
      led = ground (arith, contains-remove server lines.led (fd ∷ base), b.led, b.led_ne);
      key = ground (arith, contains-remove server lines.key (fd ∷ base), b.key, b.key_ne);
    }

    child-Safe :
        (k : ℕ) (s : State)
        → s.fds ≡ base
        → Safe
            (handles bs)
            Never
            Exits
            (tell (close server) >> (process_command k fd lines >> (tell (close fd) >> exit 0)))
            (record s { fds = fd ∷ s.fds })
    child-Safe k s e = (
      ap (λ l. contains (fd ∷ l) server) e ∙ contains-tail fd server base b.listens,
      λ r _.
          Safe-bind (handles bs) (Kept left) Never Exits (λ _. tell (close fd) >> exit 0)
            (process_command k fd lines) _
            (process_command-Safe bs left fd lines child_prepared k _
              (ap (λ l. remove server (fd ∷ l)) e))
            (λ _ s' e'. (held bs left fd s' e' child_prepared.client, λ _ _. inr refl)),
    )
      where
        left : List ℕ
        left = remove server (fd ∷ base)

    forked-Safe :
        (k : ℕ) (rest : Prog (Unit {0})) (s : State)
        → s.fds ≡ base
        → ((s' : State) → s'.fds ≡ base → Safe (handles bs) Never Exits rest s')
        → (pid : ℕ)
        → Safe
            (handles bs)
            Never
            Exits
            (on_fork
              (tell (close server) >> (process_command k fd lines >> (tell (close fd) >> exit 0)))
              (tell (close fd) >> rest)
              pid)
            (record s { fds = fd ∷ s.fds })
    forked-Safe k rest s e next zero = child-Safe k s e
    forked-Safe k rest s e next (suc pid) = (
      contains-head fd s.fds,
      λ _ _.
          next (record s { fds = remove fd (fd ∷ s.fds) })
            (ap (λ l. remove fd (fd ∷ l)) e ∙ remove-head fd base fresh),
    )

  serve_device-Safe :
      (n k : ℕ) (s : State)
      → s.fds ≡ base
      → Safe (handles bs) Never Exits (serve_device n k server lines) s
  unfolding serve_device
  serve_device-Safe zero k s e = tt
  serve_device-Safe (suc n) k s e =
      accept-Safe bs Never Exits (λ _. inl refl) _ server s
        (ap (λ l. contains l server) e ∙ b.listens)
        (λ fd fresh.
          let rest = serve_device n k server lines in
          let pids =
            forked-Safe fd (ap (λ l. contains l fd) (sym e) ∙ fresh) k rest s e
              (serve_device-Safe n k) in
          must-Safe (handles bs) Never Exits _ fork (record s { fds = fd ∷ s.fds }) tt
            (λ pid _. pids pid) (λ t _. pids (length t)) (λ _ _. inl refl))

-- The chip and the two lines are opened beside the socket.
abbrev Opened : ℕ → Lines → State → Type 0
Opened server lines s = Base server lines s.fds

Base-opened :
    (server chip led key : ℕ)
    → contains (chip ∷ server ∷ []) led ≡ false
    → contains (led ∷ chip ∷ server ∷ []) key ≡ false
    → Base server (record { led = led; key = key }) (key ∷ led ∷ chip ∷ server ∷ [])
Base-opened server chip led key new_led new_key = record {
  listens = ground arith;
  led = ground arith;
  key = ground arith;
  led_ne = ground (arith, new_led);
  key_ne = ground (arith, new_key);
}

module _ (bs : Bounds) (server : ℕ) where
  lines-Safe :
      (chip : ℕ)
      → Safe
          (handles bs)
          (Opened server)
          Exits
          (request_lines chip)
          (holding (chip ∷ server ∷ []) [])
  lines-Safe chip =
      must-Safe (handles bs) (Opened server) Exits _ (line_handle chip gpio_led 1)
        (holding (chip ∷ server ∷ []) []) (contains-head chip (server ∷ []))
        (λ led new_led.
          must-Safe (handles bs) (Opened server) Exits _ (line_handle chip gpio_key 0)
            (holding (led ∷ chip ∷ server ∷ []) [])
            (contains-tail led chip (chip ∷ server ∷ []) (contains-head chip (server ∷ [])))
            (λ key new_key. Base-opened server chip led key new_led new_key) (λ b no. absurd no)
            (λ _ _. inl refl))
        (λ b no. absurd no) (λ _ _. inl refl)

  init_gpio-Safe : Safe (handles bs) (Opened server) Exits init_gpio (holding (server ∷ []) [])
  unfolding init_gpio
  init_gpio-Safe =
      must-Safe (handles bs) (Opened server) Exits _ (open_file gpio_dev) (holding (server ∷ []) [])
        tt
        (λ chip _.
          must-Safe (handles bs) (Opened server) Exits _ (chip_info chip)
            (holding (chip ∷ server ∷ []) []) (contains-head chip (server ∷ []))
            (λ _ _. lines-Safe chip) (λ _ _. lines-Safe chip) (λ _ _. inl refl))
        (λ b no. absurd no) (λ _ _. inl refl)

pub device_main-Safe :
    (bs : Bounds) (argc n k : ℕ)
    → Safe (handles bs) Never Exits (device_main argc n k) (holding [] [])
unfolding device_main
device_main-Safe bs argc n k =
    args-Safe bs Never Exits (λ _. inl refl) 1 argc _ (holding [] [])
      (must-Safe (handles bs) Never Exits _ (signal_chld 1) (holding [] []) tt (λ _ _. served)
        (λ _ _. served) (λ _ _. inl refl))
  where
    served :
        Safe
          (handles bs)
          Never
          Exits
          (open_server >>= λ server. init_gpio >>= λ lines. serve_device n k server lines)
          (holding [] [])
    served =
        opened-Safe bs Exits (λ _. inl refl) Never _
          (λ server.
            Safe-bind (handles bs) (Opened server) Never Exits
              (λ lines. serve_device n k server lines) init_gpio (holding (server ∷ []) [])
              (init_gpio-Safe bs server)
              (λ lines s b. serve_device-Safe bs server lines s.fds b n k s refl))

pub device_main-Judged :
    (bs : Bounds) (argc n k : ℕ) (rs : List Reply)
    → Judged
        (handles bs)
        Never
        Exits
        (run (device_main argc n k) rs).0
        (run (device_main argc n k) rs).1
        (holding [] [])
device_main-Judged bs argc n k =
    Safe-Judged (handles bs) Never Exits (device_main argc n k) (holding [] [])
      (device_main-Safe bs argc n k)
