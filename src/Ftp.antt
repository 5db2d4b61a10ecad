-- ===== src/Ftp.antt =====
-- EX07-02_tcp_myftp: a server of the commands QUIT and PWD. A printf to the terminal is left out.
pub mod Safety
pub mod Runs
use edge_embedded_linux.Common.{
  ℕ, zero, suc, ◌-◌, List, [], ◌∷◌, ◌++◌, length, take, Option, none, some, if◌then◌else◌,
}
use edge_embedded_linux.Text.{codes, crlf, cstr, str_eq}
use edge_embedded_linux.Posix.{
  accept, read, write, close, popen, fread, pclose, Prog, return, spin, ◌>>=◌, ◌>>◌, ask, fill,
  tell, must,
}
use edge_embedded_linux.Tcp.{in_array, want_args, open_server}

abbrev pub max_rbuf : ℕ
max_rbuf = 256

abbrev pub max_wbuf : ℕ
max_wbuf = 256

abbrev pub max_tbuf : ℕ
max_tbuf = 256 - 16

abbrev pub quit_line : List ℕ
quit_line = codes "QUIT" ++ crlf

abbrev pub pwd_line : List ℕ
pwd_line = codes "PWD" ++ crlf

abbrev pub ok_line : List ℕ
ok_line = codes "OK" ++ crlf

abbrev pub err_line : List ℕ
err_line = codes "ERR" ++ crlf

-- sprintf(wbuf, "OK %s\r\n", tbuf)
abbrev pub ok_text : List ℕ → List ℕ
ok_text t = codes "OK " ++ (t ++ crlf)

-- The string, unless pclose() fails.
abbrev pub pwd_closed : List ℕ → Option ℕ → Prog (Option (List ℕ))
pwd_closed t none = return none
pwd_closed t (some n) = return (some t)

-- What was read from the `pwd` stream goes to a buffer of `size` bytes; its last byte, the end of
-- the line, is overwritten by the terminator. No output is -1, with the stream left open.
abbrev pub pwd_output : ℕ → ℕ → Option (List ℕ) → Prog (Option (List ℕ))
pwd_output size fp none = return none
pwd_output size fp (some []) = return none
pwd_output size fp (some (x ∷ b)) = do
  in_array size (length b)
  r ← ask (pclose fp)
  pwd_closed (cstr (take (length b) (x ∷ b))) r

abbrev pub pwd_stream : ℕ → Option ℕ → Prog (Option (List ℕ))
pwd_stream size none = return none
pwd_stream size (some fp) = do r ← fill (fread fp (max_rbuf - 1)); pwd_output size fp r

-- get_pwd(buf) with `buf` of `size` bytes; the result is the string in `buf`, or `none` for -1.
unfoldable pub get_pwd : ℕ → Prog (Option (List ℕ))
get_pwd size = do fp ← ask (popen (codes "pwd")); pwd_stream size fp

abbrev pub pwd_reply : Option (List ℕ) → List ℕ
pwd_reply none = err_line
pwd_reply (some t) = ok_text t

-- sprintf(wbuf, ...) stores the terminator at the index of the text's length.
abbrev pub send_line : ℕ → List ℕ → Prog (Unit {0})
send_line fd line = do in_array max_wbuf (length line); tell (write fd line)

abbrev pub command : ℕ → Prog (Unit {0}) → List ℕ → Prog (Unit {0})
command fd rest line =
    if str_eq line quit_line
    then send_line fd ok_line
    else (if str_eq line pwd_line
        then (do p ← get_pwd max_tbuf; send_line fd (pwd_reply p); rest)
        else rest)

-- One block from the client; `rbuf[len] = 0` comes before any test of it.
abbrev pub ftp_block : ℕ → Prog (Unit {0}) → Option (List ℕ) → Prog (Unit {0})
ftp_block fd rest none = return tt
ftp_block fd rest (some []) = return tt
ftp_block fd rest (some (x ∷ b)) = do
  in_array max_rbuf (length (x ∷ b))
  command fd rest (cstr (x ∷ b))

unfoldable pub process_command : ℕ → ℕ → Prog (Unit {0})
process_command zero fd = spin
process_command (suc k) fd = do r ← fill (read fd max_rbuf); ftp_block fd (process_command k fd) r

unfoldable pub serve_ftp : ℕ → ℕ → ℕ → Prog (Unit {0})
serve_ftp zero k server = spin
serve_ftp (suc n) k server = do
  client ← must (accept server)
  process_command k client
  tell (close client)
  serve_ftp n k server

unfoldable pub ftp_main : ℕ → ℕ → ℕ → Prog (Unit {0})
ftp_main argc n k = do want_args 1 argc; server ← open_server; serve_ftp n k server
