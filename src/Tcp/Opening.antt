-- ===== src/Tcp/Opening.antt =====
-- The calls up to listen(), and accept(), under the discipline of handles: for the servers that do
-- more than echo.
use edge_embedded_linux.Common.{ℕ, ◌≡◌, refl, true, false, [], ◌∷◌, ◌==◌, Bool-cases, inl, inr}
use edge_embedded_linux.FdSet.{contains, contains-head}
use edge_embedded_linux.Posix.{
  socket, set_reuse, bind, listen, accept, Prog, return, must, ◌>>=◌, ◌>>◌,
}
use edge_embedded_linux.Posix.Safety.{Safe, Safe-bind, must-Safe}
use edge_embedded_linux.Posix.Handles.{State, Bounds, handles, holding}
use edge_embedded_linux.Tcp.{server_port, listen_backlog, want_args, open_server}

-- EXIT_FAILURE of the process itself.
abbrev pub Fails : ℕ → State → Type 0
Fails code s = code ≡ 1

abbrev pub Never : Unit {0} → State → Type 0
Never _ s = ⊥

module _ (bs : Bounds) {B : Type 0} (Q : B → State → Type 0) (X : ℕ → State → Type 0)
    (fails : (s : State) → X 1 s) where
  pub accept-Safe :
      (f : ℕ → Prog B) (server : ℕ) (s : State)
      → contains s.fds server ≡ true
      → ((fd : ℕ)
          → contains s.fds fd ≡ false
          → Safe (handles bs) Q X (f fd) (record s { fds = fd ∷ s.fds }))
      → Safe (handles bs) Q X (must (accept server) >>= f) s
  accept-Safe f server s h next =
      must-Safe (handles bs) Q X f (accept server) s h next (λ b no. absurd no) (λ e _. fails s)

  pub args-Safe :
      (n argc : ℕ) (p : Prog B) (s : State)
      → Safe (handles bs) Q X p s
      → Safe (handles bs) Q X (want_args n argc >> p) s
  args-Safe n argc p s next = elim (Bool-cases (argc == n)) [
    | inl e ↦ rw e next
    | inr e ↦ rw e (fails s)
  ]

module _ (bs : Bounds) (X : ℕ → State → Type 0) (fails : (s : State) → X 1 s) where
  abbrev Listening : ℕ → State → Type 0
  Listening server s = s ≡ holding (server ∷ []) []

  module _ (fd : ℕ) where
    abbrev opened : State
    opened = holding (fd ∷ []) []

    Listening-Safe :
        Safe
          (handles bs)
          Listening
          X
          (must (set_reuse fd) >>= λ _.
            must (bind fd server_port) >>= λ _. must (listen fd listen_backlog) >>= λ _. return fd)
          opened
    Listening-Safe =
        must-Safe (handles bs) Listening X _ (set_reuse fd) opened h (λ _ _. bound) (λ _ _. bound)
          (λ e _. fails opened)
      where
        h : contains (fd ∷ []) fd ≡ true
        h = contains-head fd []

        listens :
            Safe
              (handles bs)
              Listening
              X
              (must (listen fd listen_backlog) >>= λ _. return fd)
              opened
        listens =
            must-Safe (handles bs) Listening X (λ _. return fd) (listen fd listen_backlog) opened h
              (λ _ _. refl) (λ _ _. refl) (λ e _. fails opened)

        bound :
            Safe
              (handles bs)
              Listening
              X
              (must (bind fd server_port) >>= λ _.
                must (listen fd listen_backlog) >>= λ _. return fd)
              opened
        bound =
            must-Safe (handles bs) Listening X _ (bind fd server_port) opened h (λ _ _. listens)
              (λ _ _. listens) (λ e _. fails opened)

  open_server-Safe : Safe (handles bs) Listening X open_server (holding [] [])
  open_server-Safe =
      must-Safe (handles bs) Listening X _ socket (holding [] []) tt (λ fd _. Listening-Safe fd)
        (λ b no. absurd no) (λ e _. fails (holding [] []))

  pub opened-Safe :
      {B : Type 0} (Q : B → State → Type 0) (f : ℕ → Prog B)
      → ((server : ℕ) → Safe (handles bs) Q X (f server) (holding (server ∷ []) []))
      → Safe (handles bs) Q X (open_server >>= f) (holding [] [])
  opened-Safe Q f next =
      Safe-bind (handles bs) Listening Q X f open_server (holding [] []) open_server-Safe
        (λ server s e. rw e (next server))
