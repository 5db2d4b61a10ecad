-- ===== src/Ftp2.antt =====
-- EX07-07_tcp_myftp2: a server of the commands QUIT, PWD, LS and GET, whose data goes over a second
-- connection; a process for each client. A printf to the terminal is left out.
pub mod Data
pub mod Runs
use edge_embedded_linux.Common.{
  ℕ, zero, suc, ◌+◌, ◌-◌, ◌/◌, ◌%◌, List, [], ◌∷◌, ◌++◌, length, take, drop, Option, none, some,
  ltb, if◌then◌else◌,
}
use edge_embedded_linux.Text.{codes, crlf, cstr, str_eq, has_prefix}
use edge_embedded_linux.Posix.{
  socket, set_reuse, bind, listen, accept, read, write, close, popen, fread, pclose, open_file,
  rand, sleep, fork, signal_chld, number, Prog, return, exit, fault, spin, call, ◌>>=◌, ◌>>◌, ask,
  fill, tell, must,
}
use edge_embedded_linux.Tcp.{in_array, want_args, open_server, on_fork}
use edge_embedded_linux.Ftp.{
  max_rbuf, quit_line, pwd_line, ok_line, err_line, ok_text, get_pwd, pwd_reply, send_line,
}
use edge_embedded_linux.Files.{word}

abbrev pub max_tbuf : ℕ
max_tbuf = 256 - 16 - 64

abbrev pub ls_line : List ℕ
ls_line = codes "LS" ++ crlf

abbrev pub get_prefix : List ℕ
get_prefix = codes "GET "

-- A port as the text of `%u`, which has up to `k + 1` digits.
abbrev pub digits : ℕ → ℕ → List ℕ
digits zero n = (48 + n % 10) ∷ []
digits (suc k) n = if ltb n 10 then (48 + n) ∷ [] else digits k (n / 10) ++ ((48 + n % 10) ∷ [])

abbrev pub listen_result : ℕ → Option ℕ → Option ℕ
listen_result server none = none
listen_result server (some n) = some server

abbrev pub on_bind : ℕ → ℕ → Option ℕ → Prog (Option ℕ)
on_bind server backlog none = return none
on_bind server backlog (some n) = do
  r ← ask (listen server backlog)
  return (listen_result server r)

-- A failure of setsockopt() gives EXIT_FAILURE, which is 1, to a caller that takes it for a descriptor.
abbrev pub on_reuse : ℕ → ℕ → ℕ → Option ℕ → Prog (Option ℕ)
on_reuse server port backlog none = return (some 1)
on_reuse server port backlog (some n) = do r ← ask (bind server port); on_bind server backlog r

-- new_server(INADDR_ANY, port, backlog), with -1 as `none`.
unfoldable pub new_server : ℕ → ℕ → Prog (Option ℕ)
new_server port backlog = do
  server ← must socket
  r ← ask (set_reuse server)
  on_reuse server port backlog r

-- rand(), which does not fail.
abbrev pub roll : Prog ℕ
roll = call rand (λ r. return (elim (number r) [ none ↦ 0 | some n ↦ n ]))

abbrev pub data_port : ℕ → ℕ
data_port r = r % 64512 + 1024

-- The result is the last port tried, and the descriptor.
abbrev pub on_attempt : ℕ → Prog (ℕ × Option ℕ) → Option ℕ → Prog (ℕ × Option ℕ)
on_attempt port rest none = rest
on_attempt port rest (some server) = return (port, some server)

-- `retry` attempts, after one at `last`.
unfoldable pub choose_server : ℕ → ℕ → Prog (ℕ × Option ℕ)
choose_server zero last = return (last, none)
choose_server (suc retry) last = do
  r ← roll
  s ← new_server (data_port r) 1
  on_attempt (data_port r) (choose_server retry (data_port r)) s

-- The data connection; a failure of accept() ends the session.
abbrev pub on_data : ℕ → ℕ → (ℕ → Prog (Unit {0})) → Prog (Unit {0}) → Option ℕ → Prog (Unit {0})
on_data fd server send rest none = tell (close server)
on_data fd server send rest (some client) = do
  send client
  tell (sleep 100000)
  tell (close client)
  send_line fd ok_line
  tell (close server)
  rest

abbrev pub on_server : ℕ → (ℕ → Prog (Unit {0})) → Prog (Unit {0}) → ℕ × Option ℕ → Prog (Unit {0})
on_server fd send rest (port, none) = do send_line fd err_line; rest
on_server fd send rest (port, some server) = do
  send_line fd (ok_text (digits 4 port))
  r ← ask (accept server)
  on_data fd server send rest r

abbrev pub with_data : ℕ → (ℕ → Prog (Unit {0})) → Prog (Unit {0}) → Prog (Unit {0})
with_data fd send rest = do c ← choose_server 100 0; on_server fd send rest c

abbrev pub listing : Option (List ℕ) → List ℕ
listing none = []
listing (some b) = b

-- send_file(peer, f) and pclose(f); fread() from a null pointer is undefined.
abbrev pub send_file : ℕ → Option ℕ → Prog (Unit {0})
send_file peer none = fault
send_file peer (some fp) = do
  b ← fill (fread fp (2048 + 1))
  tell (write peer (listing b))
  tell (pclose fp)

abbrev pub send_listing : ℕ → Prog (Unit {0})
send_listing peer = do fp ← ask (popen (codes "ls -l")); send_file peer fp

-- After a failed read the length given to write() is -1.
abbrev pub send_block : ℕ → Option (List ℕ) → Prog (Unit {0})
send_block peer none = fault
send_block peer (some b) = tell (write peer b)

-- `file[strlen(file) - 2] = '\0'`; `file` stands behind the four bytes of `GET `, which a shorter name
-- has the zero put into.
abbrev pub path_name : List ℕ → List ℕ
path_name file = if ltb (length file) 2 then file else take (length file - 2) file

-- send_path(peer, file); the file stays open.
abbrev pub send_path : ℕ → List ℕ → Prog (Unit {0})
send_path peer file = do
  fd ← ask (open_file (path_name file))
  r ← fill (read (word fd) 1024)
  send_block peer r

abbrev pub command : ℕ → Prog (Unit {0}) → List ℕ → Prog (Unit {0})
command fd rest line =
    if str_eq line quit_line
    then send_line fd ok_line
    else (if str_eq line pwd_line
        then (do p ← get_pwd max_tbuf; send_line fd (pwd_reply p); rest)
        else (if str_eq line ls_line
            then with_data fd send_listing rest
            else (if has_prefix get_prefix line
                then with_data fd (λ peer. send_path peer (drop 4 line)) rest
                else rest)))

abbrev pub ftp_block : ℕ → Prog (Unit {0}) → Option (List ℕ) → Prog (Unit {0})
ftp_block fd rest none = return tt
ftp_block fd rest (some []) = return tt
ftp_block fd rest (some (x ∷ b)) = do
  in_array max_rbuf (length (x ∷ b))
  command fd rest (cstr (x ∷ b))

unfoldable pub process_command : ℕ → ℕ → Prog (Unit {0})
process_command zero fd = spin
process_command (suc k) fd = do r ← fill (read fd max_rbuf); ftp_block fd (process_command k fd) r

-- In the child, too, a failure of signal() is EXIT_FAILURE; the 0 is SIG_DFL.
unfoldable pub serve_ftp2 : ℕ → ℕ → ℕ → Prog (Unit {0})
serve_ftp2 zero k server = spin
serve_ftp2 (suc n) k server = do
  client ← must (accept server)
  pid ← must fork
  on_fork
      (do
        tell (close server)
        must (signal_chld 0)
        process_command k client
        tell (close client)
        exit 0)
      (do tell (close client); serve_ftp2 n k server) pid

unfoldable pub ftp2_main : ℕ → ℕ → ℕ → Prog (Unit {0})
ftp2_main argc n k = do
  want_args 1 argc
  must (signal_chld 1)
  server ← open_server
  serve_ftp2 n k server
