-- ===== src/Udp/Log.antt =====
-- Runs of the log server, EX07-10_udp_log.
use edge_embedded_linux.Common.{
  ℕ, zero, suc, ◌≡◌, refl, ap, ◌∙◌, ◌+◌, ◌-◌, ◌≤◌, ◌<◌, List, [], ◌∷◌, ◌++◌, length, take, drop,
  All, length-append, ltb, lt→ltb, le→leb, gt→leb, Bool-cases, inl, inr, arith,
}
use edge_embedded_linux.Text.{codes, cstr, length-cstr-le}
use edge_embedded_linux.Posix.{
  socket, bind, recv_from, send_to, popen, fwrite, pclose, Reply, value, bytes, Event, did, waits,
  blocked, faulted, run, Prog,
}
use edge_embedded_linux.Tcp.{max_buf, server_port}
use edge_embedded_linux.Udp.{
  date_size, line_size, store, has_zero, log_line, write_log, log_text, log_datagrams, log_main,
}

drop-store : (k : ℕ) (b buf : List ℕ) → length b < k → drop k (store b buf) ≡ drop k buf
drop-store zero b buf h = absurd (omega arith)
drop-store (suc k) b [] h = refl
drop-store (suc k) [] (y ∷ buf) h = refl
drop-store (suc k) (x ∷ b) (y ∷ buf) h = drop-store k b buf (omega arith)

cstr-store : (b buf : List ℕ) → length b < length buf → cstr (store b buf) ≡ cstr b
cstr-store b [] h = absurd (omega arith)
cstr-store [] (y ∷ buf) h = refl
cstr-store (zero ∷ b) (y ∷ buf) h = refl
cstr-store (suc x ∷ b) (y ∷ buf) h = ap (λ t. suc x ∷ t) (cstr-store b buf (omega arith))

length-store : (b buf : List ℕ) → length (store b buf) ≡ length buf
length-store b [] = refl
length-store [] (y ∷ buf) = refl
length-store (x ∷ b) (y ∷ buf) = ap suc (length-store b buf)

length-log_line :
    (pid date msg : List ℕ)
    → length (log_line pid date msg) ≡ 29 + length pid + length date + length msg
length-log_line pid date msg =
    let m = length-append msg (10 ∷ []) in
    let d = length-append date (codes ", msg = " ++ (msg ++ (10 ∷ []))) in
    let p =
      length-append pid
        (codes "] received: date = " ++ (date ++ (codes ", msg = " ++ (msg ++ (10 ∷ []))))) in
    omega arith

-- After recvfrom(): text that does not fit, or sendto() of too much.
overrun :
    (pid : List ℕ) (sfd len : ℕ) (next : Prog (Unit {0})) (buf : List ℕ) (fp : ℕ)
    (written closed : Reply) (rest : List Reply)
    → 3 < len
    → (run (log_text pid sfd next buf len) (value fp ∷ written ∷ closed ∷ rest)).1 ≡ faulted
unfolding run write_log
overrun pid sfd len next buf fp written closed rest long =
    elim (Bool-cases (has_zero (drop date_size buf))) [
      | inr e ↦ rw (run, e) refl
      | inl e ↦
          elim (Bool-cases
            (ltb (length (log_line pid (cstr buf) (cstr (drop date_size buf)))) line_size)) [
              | inr k ↦ rw (run, e, k) refl
              | inl k ↦ rw (run, e, k, gt→leb len 3 long) refl
            ]
    ]

-- A datagram of more than three bytes is undefined behaviour of the log server, whatever `buf` held
-- before: if its text fits into `string`, sendto() reads past the end of `sendStr`.
pub run-log_datagrams_overrun :
    (x : ℕ) (b pid buf : List ℕ) (n sfd fp : ℕ) (written closed : Reply) (rest : List Reply)
    → 3 < length (x ∷ b)
    → length (x ∷ b) < max_buf
    → (run
        (log_datagrams (suc n) pid sfd buf)
        (bytes (x ∷ b) ∷ value fp ∷ written ∷ closed ∷ rest)).1
      ≡ faulted
unfolding run log_datagrams write_log
run-log_datagrams_overrun x b pid buf n sfd fp written closed rest long lt =
    rw (run, lt→ltb (length (x ∷ b)) max_buf lt)
      (overrun pid sfd (length (x ∷ b)) _ (store (x ∷ b) buf) fp written closed rest long)

-- The message part of `buf` starts with a zero, as when nothing longer than a date has come yet.
abbrev pub IsFresh : List ℕ → Type 0
IsFresh buf = (length buf ≡ max_buf) × ((t : List ℕ) × (drop date_size buf ≡ 0 ∷ t))

store-IsFresh : (b buf : List ℕ) → length b < date_size → IsFresh buf → IsFresh (store b buf)
store-IsFresh b buf lt h =
    (rw (length-store b buf) h.0, (h.1.0, rw (drop-store date_size b buf lt) h.1.1))

abbrev pub IsShort : List ℕ → Type 0
IsShort b = (0 < length b) × (length b ≤ 3)

-- Datagrams, and the answers to the calls made for each: `fp` is the stream to `cat`, and fwrite()
-- writes the whole line.
abbrev pub datagrams : (pid : List ℕ) (fp : ℕ) → List (List ℕ) → List Reply
datagrams pid fp [] = []
datagrams pid fp (b ∷ l) =
    bytes b
    ∷ value fp
    ∷ value (length (log_line pid (cstr b) []))
    ∷ value 0
    ∷ value (length b)
    ∷ datagrams pid fp l

-- Each is logged with its date and no message, and answered by as much of OK and a zero as it is
-- long.
abbrev pub logged : (pid : List ℕ) (sfd fp : ℕ) → List (List ℕ) → List Event
logged pid sfd fp [] = waits (recv_from sfd (max_buf - 1)) ∷ []
logged pid sfd fp (b ∷ l) =
    did (recv_from sfd (max_buf - 1)) (bytes b)
    ∷ did (popen (codes "cat >> my.log")) (value fp)
    ∷ did (fwrite fp (log_line pid (cstr b) [])) (value (length (log_line pid (cstr b) [])))
    ∷ did (pclose fp) (value 0)
    ∷ did (send_to sfd (take (length b) (codes "OK" ++ (0 ∷ [])))) (value (length b))
    ∷ logged pid sfd fp l

module _ (pid : List ℕ) (sfd fp : ℕ) (pid_fits : length pid ≤ 10) where
  log_line_fits : (b : List ℕ) → length b ≤ 3 → length (log_line pid (cstr b) []) < line_size
  log_line_fits b small = rw (length-log_line pid (cstr b) []) (omega (arith, length-cstr-le b))

  run-log_text :
      (b buf : List ℕ) (next : Prog (Unit {0})) (rs : List Reply)
      → length b ≤ 3
      → IsFresh buf
      → run
          (log_text pid sfd next (store b buf) (length b))
          (value fp ∷ value (length (log_line pid (cstr b) [])) ∷ value 0 ∷ value (length b) ∷ rs)
        ≡ (let r = run next rs in
            (
              did (popen (codes "cat >> my.log")) (value fp)
                  ∷ did
                      (fwrite fp (log_line pid (cstr b) []))
                      (value (length (log_line pid (cstr b) [])))
                  ∷ did (pclose fp) (value 0)
                  ∷ did (send_to sfd (take (length b) (codes "OK" ++ (0 ∷ [])))) (value (length b))
                  ∷ r.0,
              r.1,
            ))
  unfolding run write_log
  run-log_text b buf next rs small h =
      let msg = drop-store date_size b buf (omega arith) ∙ h.1.1 in
      let date = cstr-store b buf (omega (arith, h.0)) in
      rw
        (
          run,
          msg,
          date,
          lt→ltb (length (log_line pid (cstr b) [])) line_size (log_line_fits b small),
          le→leb (length b) 3 small,
        )
        (rw (msg, date))

  run-log_datagrams :
      (l : List (List ℕ)) (n : ℕ) (buf : List ℕ)
      → length l < n
      → All IsShort l
      → IsFresh buf
      → run (log_datagrams n pid sfd buf) (datagrams pid fp l) ≡ (logged pid sfd fp l, blocked)
  unfolding run log_datagrams
  run-log_datagrams l zero buf lt h fresh = absurd (omega arith)
  run-log_datagrams [] (suc n) buf lt h fresh = refl
  run-log_datagrams ([] ∷ l) (suc n) buf lt h fresh = absurd (omega arith)
  run-log_datagrams ((x ∷ b) ∷ l) (suc n) buf lt h fresh =
      rw
        (
          run,
          lt→ltb (length (x ∷ b)) max_buf (omega arith),
          run-log_text (x ∷ b) buf (log_datagrams n pid sfd (store (x ∷ b) buf))
              (datagrams pid fp l) h.0.1 fresh,
          run-log_datagrams l n (store (x ∷ b) buf) (omega arith) h.1
              (store-IsFresh (x ∷ b) buf (omega arith) fresh),
        )
        refl

  -- When no call fails, with a process number of at most ten digits, a `buf` whose message part starts
  -- with a zero, and more rounds than datagrams, of 1 to 3 bytes each: the log server writes for each of
  -- them the whole line, with its date and no message, to `cat >> my.log`, answers it with as much of
  -- OK, in order, and waits for the next one.
  pub run-log_main :
      (l : List (List ℕ)) (n : ℕ) (buf : List ℕ)
      → length l < n
      → All IsShort l
      → IsFresh buf
      → run (log_main 1 n pid buf) (value sfd ∷ value 0 ∷ datagrams pid fp l) ≡ (
        did socket (value sfd) ∷ did (bind sfd server_port) (value 0) ∷ logged pid sfd fp l,
        blocked,
      )
  unfolding run log_main
  run-log_main l n buf lt h fresh = rw (run-log_datagrams l n buf lt h fresh)
