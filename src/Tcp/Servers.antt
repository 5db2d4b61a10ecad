-- ===== src/Tcp/Servers.antt =====
-- The endless loops of the echo servers under the ledger.
use edge_embedded_linux.Common.{
  ℕ, zero, suc, ◌≡◌, refl, true, false, List, [], ◌∷◌, Option, none, some, inl, inr, ◌≤◌, lt→ltb,
  arith,
}
use edge_embedded_linux.FdSet.{
  contains, remove, contains-head, contains-tail, contains_of_one, remove-head, remove-other,
}
use edge_embedded_linux.Posix.{
  value, fork, signal_chld, close, Prog, number, exit, tell, ◌>>=◌, ◌>>◌,
}
use edge_embedded_linux.Posix.Safety.{Safe, Safe-bind, must-Safe}
use edge_embedded_linux.Tcp.{
  in_array, fd_set_size, open_server, echo, serve, tcp_main, on_select, serve_timeout, timeout_main,
  on_fork, serve_fork, fork_main,
}
use edge_embedded_linux.Tcp.Rules.{
  Never, Fails, Exits, failure, accept-Safe, args-Safe, opened-Safe, session-Safe, round-Safe,
  echo-Safe,
}
use edge_embedded_linux.Tcp.Ledger.{State, ledger, at_rest, quiet, after}

module _ (limit : ℕ) where
  serve-Safe :
      (n k server : ℕ) (l : List ℕ)
      → contains l server ≡ true
      → Safe (ledger limit) Never Fails (serve n k server) (quiet l)
  unfolding serve
  serve-Safe zero k server l h = tt
  serve-Safe (suc n) k server l h = accept-Safe limit Fails failure Never _ server l h (λ fd fresh.
      session-Safe limit Fails failure k fd l (serve n k server) fresh.0
        (serve-Safe n k server l h))

  pub tcp_main-Safe :
      (argc n k : ℕ) → Safe (ledger limit) Never Fails (tcp_main argc n k) (quiet [])
  unfolding tcp_main
  tcp_main-Safe argc n k = args-Safe limit Fails failure Never 1 argc _ (
      opened-Safe limit Fails failure Never (serve n k)
        (λ server _. serve-Safe n k server (server ∷ []) (contains-head server [])))

  on_select-Safe :
      (idle ready : Prog (Unit {0})) (s : State) (o : Option ℕ)
      → Fails 1 s
      → Safe (ledger limit) Never Fails idle s
      → Safe (ledger limit) Never Fails ready s
      → Safe (ledger limit) Never Fails (on_select idle ready o) s
  on_select-Safe idle ready s none x i r = x
  on_select-Safe idle ready s (some zero) x i r = i
  on_select-Safe idle ready s (some (suc m)) x i r = r

  serve_timeout-Safe :
      (n k server : ℕ) (l : List ℕ)
      → contains l server ≡ true
      → Safe (ledger limit) Never Fails (serve_timeout n k server) (quiet l)
  unfolding serve_timeout
  serve_timeout-Safe zero k server l h = tt
  serve_timeout-Safe (suc n) k server l h =
      let next = serve_timeout-Safe n k server l h in
      (
        (λ fd e. contains_of_one server fd l h e, refl),
        λ r ok.
            on_select-Safe (serve_timeout n k server) _ (quiet l) (number r) (failure l) next
              (round-Safe limit Fails failure k server l (serve_timeout n k server) h next),
      )

  pub timeout_main-Safe :
      limit ≤ fd_set_size
      → (argc n k : ℕ) → Safe (ledger limit) Never Fails (timeout_main argc n k) (quiet [])
  unfolding timeout_main
  timeout_main-Safe small argc n k = args-Safe limit Fails failure Never 1 argc _ (
      opened-Safe limit Fails failure Never
        (λ server. in_array fd_set_size server >> serve_timeout n k server)
        (λ server lt.
          rw (lt→ltb server fd_set_size (omega arith))
            (serve_timeout-Safe n k server (server ∷ []) (contains-head server []))))

  process_fails : (l : List ℕ) → Exits 1 (quiet l)
  process_fails l = inl (failure l)

  -- The child closes the server's descriptor and the client's, its only two, before it exits.
  child-Safe :
      (k fd server : ℕ)
      → contains (server ∷ []) fd ≡ false
      → Safe
          (ledger limit)
          Never
          Exits
          (tell (close server) >> (echo k fd >> exit 0))
          (at_rest true (fd ∷ server ∷ []))
  child-Safe k fd server fresh = (
    (contains-tail fd server (server ∷ []) (contains-head server []), refl),
    λ r ok. rw (remove-other server fd fresh) (
        Safe-bind (ledger limit) (λ _ s. s ≡ at_rest true (remove fd (fd ∷ []))) Never Exits
          (λ _. exit 0) (echo k fd) (at_rest true (fd ∷ []))
          (echo-Safe limit Exits true k fd (fd ∷ []) (contains-head fd []))
          (λ _ s e. rw (e, remove-head fd [] refl) (inr (refl, refl, refl, refl)))),
  )

  forked-Safe :
      (k fd server : ℕ) (rest : Prog (Unit {0}))
      → contains (server ∷ []) fd ≡ false
      → Safe (ledger limit) Never Exits rest (quiet (server ∷ []))
      → (pid : ℕ)
      → Safe
          (ledger limit)
          Never
          Exits
          (on_fork (tell (close server) >> (echo k fd >> exit 0)) (tell (close fd) >> rest) pid)
          (after (quiet (fd ∷ server ∷ [])) fork (value pid))
  forked-Safe k fd server rest fresh next zero = child-Safe k fd server fresh
  forked-Safe k fd server rest fresh next (suc pid) =
      ((contains-head fd (server ∷ []), refl), λ r ok. rw (remove-head fd (server ∷ []) fresh) next)

  serve_fork-Safe :
      (n k server : ℕ)
      → Safe (ledger limit) Never Exits (serve_fork n k server) (quiet (server ∷ []))
  unfolding serve_fork
  serve_fork-Safe zero k server = tt
  serve_fork-Safe (suc n) k server =
      accept-Safe limit Exits process_fails Never _ server (server ∷ []) (contains-head server [])
        (λ fd fresh.
          let child =
            forked-Safe k fd server (serve_fork n k server) fresh.0 (serve_fork-Safe n k server) in
          must-Safe (ledger limit) Never Exits _ fork (quiet (fd ∷ server ∷ [])) tt
            (λ pid _. child pid) (λ b no. absurd no) (λ e _. process_fails (fd ∷ server ∷ [])))

  pub fork_main-Safe :
      (argc n k : ℕ) → Safe (ledger limit) Never Exits (fork_main argc n k) (quiet [])
  unfolding fork_main
  fork_main-Safe argc n k = args-Safe limit Exits process_fails Never 1 argc _ (
      must-Safe (ledger limit) Never Exits _ (signal_chld 1) (quiet []) tt (λ _ _. served)
        (λ _ _. served) (λ _ _. process_fails []))
    where
      served : Safe (ledger limit) Never Exits (open_server >>= serve_fork n k) (quiet [])
      served =
          opened-Safe limit Exits process_fails Never (serve_fork n k)
            (λ server _. serve_fork-Safe n k server)
