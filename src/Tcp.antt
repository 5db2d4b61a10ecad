-- ===== src/Tcp.antt =====
-- The echo servers EX07-01_tcp, EX07-03_tcp_timeout, EX07-04_tcp_multi and EX07-05_tcp_fork. Each
-- is the list of its system calls; endless loops are given their number of rounds.
pub mod Ledger
pub mod Rules
pub mod Servers
pub mod Runs
pub mod Multi
pub mod Opening
use edge_embedded_linux.Common.{
  ℕ, zero, suc, ◌+◌, ◌-◌, Bool, List, [], ◌∷◌, length, Option, none, some, ltb, ◌==◌, if◌then◌else◌,
}
use edge_embedded_linux.FdSet.{contains, remove}
use edge_embedded_linux.Posix.{
  Call, socket, set_reuse, bind, listen, accept, select, read, write, close, fork, signal_chld,
  Prog, return, exit, fault, spin, call, number, received, ◌>>=◌, ◌>>◌, ask, fill, tell, must,
}

abbrev pub server_port : ℕ
server_port = 25000

abbrev pub max_buf : ℕ
max_buf = 256

abbrev pub listen_backlog : ℕ
listen_backlog = 5

abbrev pub fd_set_size : ℕ
fd_set_size = 1024

-- A store at index `i` of an array of `size` elements.
abbrev pub in_array : ℕ → ℕ → Prog (Unit {0})
in_array size i = if ltb i size then return tt else fault

-- `if (argc != n) return EXIT_FAILURE;`
abbrev pub want_args : ℕ → ℕ → Prog (Unit {0})
want_args n argc = if argc == n then return tt else exit 1

-- socket(), setsockopt(), bind() and listen(), each failure a return of EXIT_FAILURE.
abbrev pub open_server : Prog ℕ
open_server = do
  server ← must socket
  must (set_reuse server)
  must (bind server server_port)
  must (listen server listen_backlog)
  return server

-- One block: what follows it is `rest`, and a block of no bytes or a failure ends the session.
abbrev pub echo_block : ℕ → Prog (Unit {0}) → Option (List ℕ) → Prog (Unit {0})
echo_block fd rest none = tell (close fd)
echo_block fd rest (some []) = tell (close fd)
echo_block fd rest (some (x ∷ b)) = do
  in_array max_buf (length (x ∷ b))
  tell (write fd (x ∷ b))
  rest

-- The inner loop over one client.
unfoldable pub echo : ℕ → ℕ → Prog (Unit {0})
echo zero fd = spin
echo (suc k) fd = do r ← fill (read fd (max_buf - 1)); echo_block fd (echo k fd) r

-- `n` rounds of accept(), with `k` rounds for each client.
unfoldable pub serve : ℕ → ℕ → ℕ → Prog (Unit {0})
serve zero k server = spin
serve (suc n) k server = do client ← must (accept server); echo k client; serve n k server

unfoldable pub tcp_main : ℕ → ℕ → ℕ → Prog (Unit {0})
tcp_main argc n k = do want_args 1 argc; server ← open_server; serve n k server

-- FD_SET is a store at the index of the descriptor. A select() of three seconds in front of each accept(); 0 is a timeout.
abbrev pub on_select : Prog (Unit {0}) → Prog (Unit {0}) → Option ℕ → Prog (Unit {0})
on_select idle ready none = exit 1
on_select idle ready (some zero) = idle
on_select idle ready (some (suc m)) = ready

unfoldable pub serve_timeout : ℕ → ℕ → ℕ → Prog (Unit {0})
serve_timeout zero k server = spin
serve_timeout (suc n) k server = do
  r ← ask (select (server ∷ []))
  on_select (serve_timeout n k server)
      (do client ← must (accept server); echo k client; serve_timeout n k server) r

unfoldable pub timeout_main : ℕ → ℕ → ℕ → Prog (Unit {0})
timeout_main argc n k = do
  want_args 1 argc
  server ← open_server
  in_array fd_set_size server
  serve_timeout n k server

-- fork() returns 0 in the child, which serves the client and exits.
abbrev pub on_fork : Prog (Unit {0}) → Prog (Unit {0}) → ℕ → Prog (Unit {0})
on_fork child parent zero = child
on_fork child parent (suc pid) = parent

unfoldable pub serve_fork : ℕ → ℕ → ℕ → Prog (Unit {0})
serve_fork zero k server = spin
serve_fork (suc n) k server = do
  client ← must (accept server)
  pid ← must fork
  on_fork (do tell (close server); echo k client; exit 0)
      (do tell (close client); serve_fork n k server) pid

unfoldable pub fork_main : ℕ → ℕ → ℕ → Prog (Unit {0})
fork_main argc n k = do
  want_args 1 argc
  must (signal_chld 1)
  server ← open_server
  serve_fork n k server
