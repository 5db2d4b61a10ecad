-- ===== src/Udp.antt =====
-- The UDP servers EX07-09_udp (echo) and EX07-10_udp_log (a log). An answer goes to the address that
-- the recvfrom() before it has stored.
pub mod Echo
pub mod Log
use edge_embedded_linux.Common.{
  ℕ, zero, suc, ◌+◌, ◌-◌, ◌^◌, Bool, true, false, List, [], ◌∷◌, ◌++◌, length, take, drop, Option,
  none, some, leb, if◌then◌else◌,
}
use edge_embedded_linux.Text.{codes, cstr}
use edge_embedded_linux.Posix.{
  socket, bind, recv_from, send_to, popen, fwrite, pclose, Prog, return, fault, spin, ◌>>=◌, ◌>>◌,
  ask, fill, tell, must,
}
use edge_embedded_linux.Tcp.{server_port, max_buf, in_array, want_args}

-- socket() and bind(), each failure a return of EXIT_FAILURE.
abbrev pub open_datagrams : Prog ℕ
open_datagrams = do sfd ← must socket; must (bind sfd server_port); return sfd

-- A failure and an empty datagram are passed over.
abbrev pub echo_datagram : ℕ → Prog (Unit {0}) → Option (List ℕ) → Prog (Unit {0})
echo_datagram sfd rest none = rest
echo_datagram sfd rest (some []) = rest
echo_datagram sfd rest (some (x ∷ b)) = do
  in_array max_buf (length (x ∷ b))
  tell (send_to sfd (x ∷ b))
  rest

unfoldable pub echo_datagrams : ℕ → ℕ → Prog (Unit {0})
echo_datagrams zero sfd = spin
echo_datagrams (suc n) sfd = do
  r ← fill (recv_from sfd (max_buf - 1))
  echo_datagram sfd (echo_datagrams n sfd) r

unfoldable pub udp_main : ℕ → ℕ → Prog (Unit {0})
udp_main argc n = do want_args 1 argc; sfd ← open_datagrams; echo_datagrams n sfd

abbrev pub date_size : ℕ
date_size = 64

-- `char string[64]`, and `char cmd[64]` of write_log.
abbrev pub line_size : ℕ
line_size = 64

-- The bytes that recvfrom() puts in front of `buf`, and the zero behind them.
abbrev pub store : List ℕ → List ℕ → List ℕ
store b [] = []
store [] (y ∷ buf) = 0 ∷ buf
store (x ∷ b) (y ∷ buf) = x ∷ store b buf

abbrev pub has_zero : List ℕ → Bool
has_zero [] = false
has_zero (zero ∷ b) = true
has_zero (suc c ∷ b) = has_zero b

-- The text of sprintf(); `pid` is the process number in decimal digits.
abbrev pub log_line : (pid date msg : List ℕ) → List ℕ
log_line pid date msg =
    codes "["
    ++ (pid ++ (codes "] received: date = " ++ (date ++ (codes ", msg = " ++ (msg ++ (10 ∷ []))))))

abbrev pub closed_result : Option ℕ → ℕ
closed_result none = 2 ^ 32 - 1
closed_result (some n) = 0

abbrev pub log_stream : List ℕ → Option ℕ → Prog ℕ
log_stream str none = return (2 ^ 32 - 1)
log_stream str (some fp) = do tell (fwrite fp str); r ← ask (pclose fp); return (closed_result r)

-- write_log(str, filename), with -1 as 32 bits.
unfoldable pub write_log : List ℕ → List ℕ → Prog ℕ
write_log str filename = do
  in_array line_size (length (codes "cat >> " ++ filename))
  fp ← ask (popen (codes "cat >> " ++ filename))
  log_stream str fp

-- sendto() of `len` bytes of `sendStr`, which has three.
abbrev pub send_ok : ℕ → ℕ → Prog (Unit {0})
send_ok sfd len =
    if leb len 3 then tell (send_to sfd (take len (codes "OK" ++ (0 ∷ [])))) else fault

-- sprintf() reads `date` from the start of `buf` and `msg` from its 64th byte on, each up to a zero;
-- the result of write_log is not looked at.
abbrev pub log_text : List ℕ → ℕ → Prog (Unit {0}) → List ℕ → ℕ → Prog (Unit {0})
log_text pid sfd rest buf len = do
  (if has_zero (drop date_size buf) then return tt else fault)
  in_array line_size (length (log_line pid (cstr buf) (cstr (drop date_size buf))))
  write_log (log_line pid (cstr buf) (cstr (drop date_size buf))) (codes "my.log")
  send_ok sfd len
  rest

abbrev pub log_datagram :
    List ℕ → ℕ → (List ℕ → Prog (Unit {0})) → List ℕ → Option (List ℕ) → Prog (Unit {0})
log_datagram pid sfd rest buf none = rest buf
log_datagram pid sfd rest buf (some []) = rest buf
log_datagram pid sfd rest buf (some (x ∷ b)) = do
  in_array max_buf (length (x ∷ b))
  log_text pid sfd (rest (store (x ∷ b) buf)) (store (x ∷ b) buf) (length (x ∷ b))

-- `buf` keeps what earlier datagrams have left in it.
unfoldable pub log_datagrams : ℕ → List ℕ → ℕ → List ℕ → Prog (Unit {0})
log_datagrams zero pid sfd buf = spin
log_datagrams (suc n) pid sfd buf = do
  r ← fill (recv_from sfd (max_buf - 1))
  log_datagram pid sfd (log_datagrams n pid sfd) buf r

unfoldable pub log_main : ℕ → ℕ → List ℕ → List ℕ → Prog (Unit {0})
log_main argc n pid buf = do want_args 1 argc; sfd ← open_datagrams; log_datagrams n pid sfd buf
