-- ===== src/Fifo.antt =====
-- EX03-05_fifo and EX03-06_fifo_nb, strings through a FIFO, and EX03-04_pipe_fork, one through a pipe. A
-- program gives back the strings that it prints of what it has read.
pub mod Strings
pub mod Runs
use edge_embedded_linux.Common.{
  ℕ, zero, suc, Bool, true, false, List, [], ◌∷◌, ◌++◌, Option, none, some, ◌==◌, if◌then◌else◌,
}
use edge_embedded_linux.Text.{codes, cstr, str_eq}
use edge_embedded_linux.Posix.{
  mkfifo, pipe, wait, fork, open_file, read, write, close, sleep, Reply, value, bytes, failed, Prog,
  return, exit, fault, spin, call, ◌>>=◌, ◌>>◌, fill, tell, must, must_fill, field,
}
use edge_embedded_linux.Tcp.{want_args}
use edge_embedded_linux.Udp.{has_zero}

abbrev pub max_fifo_buf : ℕ
max_fifo_buf = 512

abbrev pub path_fifo : List ℕ
path_fifo = codes "./my_fifo"

abbrev pub eexist : ℕ
eexist = 17

-- A FIFO that is there already is as good.
abbrev pub on_mkfifo : Reply → Prog (Unit {0})
on_mkfifo (value r) = return tt
on_mkfifo (bytes b) = return tt
on_mkfifo (failed e) = if e == eexist then return tt else exit 1

abbrev pub open_fifo : Prog ℕ
open_fifo = call (mkfifo path_fifo) on_mkfifo >> must (open_file path_fifo)

-- The bytes that read() puts in front of a buffer.
abbrev pub overlay : List ℕ → List ℕ → List ℕ
overlay b [] = []
overlay [] (y ∷ buf) = y ∷ buf
overlay (x ∷ b) (y ∷ buf) = x ∷ overlay b buf

-- printf("%s") of a buffer. Without a zero in it printf() reads on behind it.
abbrev pub print_string : List ℕ → Prog (List ℕ)
print_string buf = if has_zero buf then return (cstr buf) else fault

-- rfifo, with what `rbuf` holds at first.
unfoldable pub rfifo_main : ℕ → List ℕ → Prog (List ℕ)
rfifo_main argc rbuf = do
  want_args 1 argc
  fd ← open_fifo
  b ← must_fill (read fd max_fifo_buf)
  s ← print_string (overlay b rbuf)
  tell (close fd)
  return s

-- wfifo, which writes the zero of its string too.
unfoldable pub wfifo_main : ℕ → List ℕ → Prog (Unit {0})
wfifo_main argc wstr = do
  want_args 2 argc
  fd ← open_fifo
  must (write fd (wstr ++ (0 ∷ [])))
  tell (close fd)

-- Only a read of some bytes is printed.
abbrev pub print_read : List ℕ → List ℕ → Prog (List (List ℕ))
print_read [] rbuf = return []
print_read (x ∷ b) rbuf = do s ← print_string rbuf; return (s ∷ [])

-- The test for "exit" is of the whole buffer, old or new.
abbrev pub unless_exit : List ℕ → List (List ℕ) → Prog (List (List ℕ)) → Prog (List (List ℕ))
unless_exit rbuf out rest =
    if str_eq (cstr rbuf) (codes "exit")
    then return out
    else (do tell (sleep 1000000); more ← rest; return (out ++ more))

-- The loop of rfifo_nb.
unfoldable pub read_fifo : ℕ → (fd : ℕ) → List ℕ → Prog (List (List ℕ))
read_fifo zero fd rbuf = spin
read_fifo (suc n) fd rbuf = do
  b ← must_fill (read fd max_fifo_buf)
  out ← print_read b (overlay b rbuf)
  unless_exit (overlay b rbuf) out (read_fifo n fd (overlay b rbuf))

unfoldable pub rfifo_nb_main : ℕ → ℕ → List ℕ → Prog (List (List ℕ))
rfifo_nb_main argc n rbuf = do
  want_args 1 argc
  fd ← open_fifo
  out ← read_fifo n fd rbuf
  tell (close fd)
  return out

-- pipe_fork: the child prints what the parent writes, the parent waits for it.
abbrev pub pipe_child : (r w : ℕ) → List ℕ → Prog (List ℕ)
pipe_child r w rbuf = do
  tell (close w)
  b ← must_fill (read r max_fifo_buf)
  s ← print_string (overlay b rbuf)
  tell (close r)
  return s

abbrev pub pipe_parent : (r w : ℕ) → Prog (List ℕ)
pipe_parent r w = do
  tell (close r)
  must (write w (codes "hello" ++ (0 ∷ [])))
  tell (close w)
  tell wait
  return (codes "hello")

unfoldable pub pipe_fork_main : List ℕ → Prog (List ℕ)
pipe_fork_main rbuf = do
  fds ← must_fill pipe
  pid ← must fork
  (if pid == 0
      then pipe_child (field fds 0) (field fds 1) rbuf
      else pipe_parent (field fds 0) (field fds 1))
