-- ===== src/Tcp/Runs.antt =====
-- What holds of every run of the echo servers, and how a session with a client goes.
use edge_embedded_linux.Common.{
  ℕ, zero, suc, ◌≡◌, refl, ◌-◌, ◌≤◌, ◌<◌, List, [], ◌∷◌, length, All, arith, lt→ltb,
}
use edge_embedded_linux.Posix.{
  read, write, close, Reply, value, bytes, Event, did, returned, run, Prog,
}
use edge_embedded_linux.Posix.Safety.{Judged, Safe-Judged}
use edge_embedded_linux.Tcp.{max_buf, fd_set_size, echo, tcp_main, timeout_main, fork_main}
use edge_embedded_linux.Tcp.Ledger.{State, ledger, quiet}
use edge_embedded_linux.Tcp.Rules.{Never, Fails, Exits}
use edge_embedded_linux.Tcp.Servers.{tcp_main-Safe, timeout_main-Safe, fork_main-Safe}
use edge_embedded_linux.Tcp.Multi.{multi_main}
use edge_embedded_linux.Tcp.Multi.Safety.{multi_main-Safe}

-- The judgement of a run of a server that starts with nothing open.
abbrev pub IsJudged : ℕ → (ℕ → State → Type 0) → Prog (Unit {0}) → List Reply → Type 0
IsJudged limit X p rs = Judged (ledger limit) Never X (run p rs).0 (run p rs).1 (quiet [])

module _ (limit n : ℕ) (rs : List Reply) where
  tcp_main-Judged : (argc k : ℕ) → IsJudged limit Fails (tcp_main argc n k) rs
  tcp_main-Judged argc k =
      Safe-Judged (ledger limit) Never Fails (tcp_main argc n k) (quiet [])
        (tcp_main-Safe limit argc n k) rs

  fork_main-Judged : (argc k : ℕ) → IsJudged limit Exits (fork_main argc n k) rs
  fork_main-Judged argc k =
      Safe-Judged (ledger limit) Never Exits (fork_main argc n k) (quiet [])
        (fork_main-Safe limit argc n k) rs

  -- In every run whose answers conform of tcp_server_bd, of fork_server_bd, and, for a limit on
  -- descriptors of at most FD_SETSIZE, of timeout_server_bd: only open descriptors are used, each block
  -- of a client is written back unchanged before anything else is read, no store leaves an array, and
  -- the server never returns; it ends only by EXIT_FAILURE with nothing owed, but that a child of
  -- fork_server_bd ends only by EXIT_SUCCESS, with every descriptor closed and nothing owed.
  pub servers-Judged :
      (argc k small_limit : ℕ)
      → small_limit ≤ fd_set_size
      → IsJudged limit Fails (tcp_main argc n k) rs
        × IsJudged small_limit Fails (timeout_main argc n k) rs
        × IsJudged limit Exits (fork_main argc n k) rs
  servers-Judged argc k small_limit small = (
    tcp_main-Judged argc k,
    Safe-Judged (ledger small_limit) Never Fails (timeout_main argc n k) (quiet [])
        (timeout_main-Safe small_limit small argc n k) rs,
    fork_main-Judged argc k,
  )

  -- In every run of multi_server_bd whose answers conform, for a limit on descriptors of at most
  -- FD_SETSIZE: only open descriptors are used, each block of a client is written back unchanged before
  -- anything else is read, no store leaves an array, select() is given open descriptors only, none that
  -- it marked has been closed when the loop comes to it, and the server never returns and ends only by
  -- EXIT_FAILURE with nothing owed.
  pub multi_main-Judged :
      limit ≤ fd_set_size → (argc : ℕ) → IsJudged limit Fails (multi_main argc n) rs
  multi_main-Judged small argc =
      Safe-Judged (ledger limit) Never Fails (multi_main argc n) (quiet [])
        (multi_main-Safe limit small argc n) rs

-- A client that sends these blocks and then closes its end.
abbrev pub client : List (List ℕ) → List Reply
client [] = bytes [] ∷ value 0 ∷ []
client (b ∷ blocks) = bytes b ∷ value (length b) ∷ client blocks

abbrev pub conversation : ℕ → List (List ℕ) → List Event
conversation fd [] = did (read fd (max_buf - 1)) (bytes []) ∷ did (close fd) (value 0) ∷ []
conversation fd (b ∷ blocks) =
    did (read fd (max_buf - 1)) (bytes b)
    ∷ did (write fd b) (value (length b))
    ∷ conversation fd blocks

abbrev pub IsBlock : List ℕ → Type 0
IsBlock b = (0 < length b) × (length b < max_buf)

-- A client that sends blocks of 1 to 255 bytes gets each of them back, in order, and is closed when
-- it has closed its end: more rounds than blocks are enough.
pub run-echo :
    (blocks : List (List ℕ)) (k fd : ℕ)
    → length blocks < k
    → All IsBlock blocks
    → run (echo k fd) (client blocks) ≡ (conversation fd blocks, returned tt)
unfolding run echo
run-echo blocks zero fd lt h = absurd (omega arith)
run-echo [] (suc k) fd lt h = refl
run-echo ([] ∷ blocks) (suc k) fd lt h = absurd (omega arith)
run-echo ((x ∷ b) ∷ blocks) (suc k) fd lt h =
    rw (lt→ltb (length (x ∷ b)) max_buf h.0.1) (rw (run-echo blocks k fd (omega arith) h.1))
