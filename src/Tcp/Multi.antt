-- ===== src/Tcp/Multi.antt =====
-- EX07-04_tcp_multi: one process serves all clients, and select() says which descriptors are ready.
pub mod Safety
use edge_embedded_linux.Common.{
  ℕ, zero, suc, ◌+◌, ◌-◌, true, false, List, [], ◌∷◌, length, Option, none, some, ◌==◌,
  if◌then◌else◌,
}
use edge_embedded_linux.FdSet.{contains, remove}
use edge_embedded_linux.Posix.{
  accept, select, read, write, close, Prog, return, exit, spin, ◌>>=◌, ◌>>◌, fill, tell, must,
}
use edge_embedded_linux.Tcp.{max_buf, fd_set_size, in_array, want_args, open_server}

-- A block from a client that is ready; the result is `rfd` afterwards.
abbrev pub multi_block : ℕ → List ℕ → Option (List ℕ) → Prog (List ℕ)
multi_block fd rfd none = do tell (close fd); return (remove fd rfd)
multi_block fd rfd (some []) = do tell (close fd); return (remove fd rfd)
multi_block fd rfd (some (x ∷ b)) = do
  in_array max_buf (length (x ∷ b))
  tell (write fd (x ∷ b))
  return rfd

-- FD_SET is a store at the index of the descriptor.
abbrev pub on_ready : ℕ → ℕ → List ℕ → Prog (List ℕ)
on_ready fd server rfd =
    if fd == server
    then (do client ← must (accept server); in_array fd_set_size client; return (client ∷ rfd))
    else (do r ← fill (read fd (max_buf - 1)); multi_block fd rfd r)

-- The loop over the descriptors from `fd` on, `left` of them, that are set in `tfd`.
unfoldable pub scan : ℕ → ℕ → ℕ → List ℕ → List ℕ → Prog (List ℕ)
scan zero fd server tfd rfd = return rfd
scan (suc left) fd server tfd rfd = do
  rfd' ← (if contains tfd fd then on_ready fd server rfd else return rfd)
  scan left (fd + 1) server tfd rfd'

abbrev pub on_select_set :
    Prog (Unit {0}) → (List ℕ → Prog (Unit {0})) → Option (List ℕ) → Prog (Unit {0})
on_select_set idle ready none = exit 1
on_select_set idle ready (some []) = idle
on_select_set idle ready (some (x ∷ tfd)) = ready (x ∷ tfd)

unfoldable pub serve_multi : ℕ → ℕ → List ℕ → Prog (Unit {0})
serve_multi zero server rfd = spin
serve_multi (suc n) server rfd = do
  r ← fill (select rfd)
  on_select_set (serve_multi n server rfd)
      (λ tfd. do rfd' ← scan fd_set_size 0 server tfd rfd; serve_multi n server rfd') r

unfoldable pub multi_main : ℕ → ℕ → Prog (Unit {0})
multi_main argc n = do
  want_args 1 argc
  server ← open_server
  in_array fd_set_size server
  serve_multi n server (server ∷ [])
