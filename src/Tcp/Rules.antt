-- ===== src/Tcp/Rules.antt =====
-- The parts of every echo server under the ledger: one client's session, accept(), and the calls up to
-- listen().
use edge_embedded_linux.Common.{
  ℕ, zero, suc, ◌≡◌, ◌<◌, refl, ◌-◌, Bool, true, false, List, [], ◌∷◌, length, none, arith, ◌==◌,
  lt→ltb, Bool-cases, inl, inr, ◌⊎◌,
}
use edge_embedded_linux.FdSet.{contains, remove, contains-head, remove-head}
use edge_embedded_linux.Posix.{
  read, socket, set_reuse, bind, listen, accept, Reply, value, bytes, failed, Prog, received, must,
  return, ◌>>=◌, ◌>>◌,
}
use edge_embedded_linux.Posix.Safety.{Safe, Safe-bind, must-Safe}
use edge_embedded_linux.Tcp.{
  max_buf, server_port, listen_backlog, want_args, open_server, echo_block, echo,
}
use edge_embedded_linux.Tcp.Ledger.{State, ledger, at_rest, quiet, Conforms, after}

-- The process itself ends with EXIT_FAILURE and nothing owed.
abbrev pub Fails : ℕ → State → Type 0
Fails code s = (s.owed ≡ none) × (s.child ≡ false) × (code ≡ 1)

-- The same, or a child ends with EXIT_SUCCESS, every descriptor closed and nothing owed.
abbrev pub Exits : ℕ → State → Type 0
Exits code s = Fails code s ⊎ ((s.owed ≡ none) × (s.child ≡ true) × (code ≡ 0) × (s.fds ≡ []))

-- A server never returns.
abbrev pub Never : Unit {0} → State → Type 0
Never _ s = ⊥

pub failure : (l : List ℕ) → Fails 1 (quiet l)
failure l = (refl, refl, refl)

-- `limit` bounds the descriptors of the process.
module _ (limit : ℕ) (X : ℕ → State → Type 0) where
  module _ (c : Bool) where
    -- The session ends with its descriptor closed and nothing owed.
    abbrev Closed : ℕ → List ℕ → Unit {0} → State → Type 0
    Closed fd l _ s = s ≡ at_rest c (remove fd l)

    module _ (fd : ℕ) (l : List ℕ) (is_open : contains l fd ≡ true) (rest : Prog (Unit {0}))
        (next : Safe (ledger limit) (Closed fd l) X rest (at_rest c l)) where
      echo_block-Safe :
          (r : Reply)
          → Conforms limit (at_rest c l) (read fd (max_buf - 1)) r
          → Safe
              (ledger limit)
              (Closed fd l)
              X
              (echo_block fd rest (received r))
              (after (at_rest c l) (read fd (max_buf - 1)) r)
      echo_block-Safe (value n) ok = ((is_open, refl), λ _ _. refl)
      echo_block-Safe (failed e) ok = ((is_open, refl), λ _ _. refl)
      echo_block-Safe (bytes []) ok = ((is_open, refl), λ _ _. refl)
      echo_block-Safe (bytes (x ∷ b)) ok =
          rw (lt→ltb (length (x ∷ b)) max_buf (omega arith)) ((is_open, refl), λ _ _. next)

    pub echo-Safe :
        (k fd : ℕ) (l : List ℕ)
        → contains l fd ≡ true
        → Safe (ledger limit) (λ _ s. s ≡ at_rest c (remove fd l)) X (echo k fd) (at_rest c l)
    unfolding echo
    echo-Safe zero fd l h = tt
    echo-Safe (suc k) fd l h = ((h, refl), echo_block-Safe fd l h (echo k fd) (echo-Safe k fd l h))

  module _ (fails : (l : List ℕ) → X 1 (quiet l)) where
    module _ {B : Type 0} (Q : B → State → Type 0) (f : ℕ → Prog B) where
      -- A call on an open descriptor that opens and closes none.
      module _ (l : List ℕ) (next : (n : ℕ) → Safe (ledger limit) Q X (f n) (quiet l)) where
        set_reuse-Safe :
            (fd : ℕ)
            → contains l fd ≡ true
            → Safe (ledger limit) Q X (must (set_reuse fd) >>= f) (quiet l)
        set_reuse-Safe fd h =
            must-Safe (ledger limit) Q X f (set_reuse fd) (quiet l) h (λ n _. next n)
              (λ b _. next (length b)) (λ e _. fails l)

        bind-Safe :
            (fd port : ℕ)
            → contains l fd ≡ true
            → Safe (ledger limit) Q X (must (bind fd port) >>= f) (quiet l)
        bind-Safe fd port h =
            must-Safe (ledger limit) Q X f (bind fd port) (quiet l) h (λ n _. next n)
              (λ b _. next (length b)) (λ e _. fails l)

        listen-Safe :
            (fd n : ℕ)
            → contains l fd ≡ true
            → Safe (ledger limit) Q X (must (listen fd n) >>= f) (quiet l)
        listen-Safe fd n h =
            must-Safe (ledger limit) Q X f (listen fd n) (quiet l) h (λ n _. next n)
              (λ b _. next (length b)) (λ e _. fails l)

      -- A new descriptor comes in front of the open ones.
      pub accept-Safe :
          (server : ℕ) (l : List ℕ)
          → contains l server ≡ true
          → ((fd : ℕ)
              → (contains l fd ≡ false) × (fd < limit)
              → Safe (ledger limit) Q X (f fd) (quiet (fd ∷ l)))
          → Safe (ledger limit) Q X (must (accept server) >>= f) (quiet l)
      accept-Safe server l h next =
          must-Safe (ledger limit) Q X f (accept server) (quiet l) (h, refl) next
            (λ b no. absurd no) (λ e _. fails l)

    -- Only the server's descriptor is open once it listens.
    abbrev Listening : ℕ → State → Type 0
    Listening server s = (server < limit) × (s ≡ quiet (server ∷ []))

    open_server-Safe : Safe (ledger limit) Listening X open_server (quiet [])
    open_server-Safe =
        must-Safe (ledger limit) Listening X _ socket (quiet []) tt (λ fd ok. opened fd ok.1)
          (λ b no. absurd no) (λ e _. fails [])
      where
        opened :
            (fd : ℕ)
            → fd < limit
            → Safe
                (ledger limit)
                Listening
                X
                (must (set_reuse fd) >>= λ _. must (bind fd server_port) >>= λ _.
                  must (listen fd listen_backlog) >>= λ _. return fd)
                (quiet (fd ∷ []))
        opened fd lt =
            let h = contains-head fd [] in
            set_reuse-Safe Listening _ (fd ∷ [])
              (λ _.
                bind-Safe Listening _ (fd ∷ [])
                  (λ _.
                    listen-Safe Listening (λ _. return fd) (fd ∷ []) (λ _. (lt, refl)) fd
                      listen_backlog h)
                  fd server_port h)
              fd h

    module _ {B : Type 0} (Q : B → State → Type 0) where
      pub args-Safe :
          (n argc : ℕ) (p : Prog B)
          → Safe (ledger limit) Q X p (quiet [])
          → Safe (ledger limit) Q X (want_args n argc >> p) (quiet [])
      args-Safe n argc p next = elim (Bool-cases (argc == n)) [
        | inl e ↦ rw e next
        | inr e ↦ rw e (fails [])
      ]

      pub opened-Safe :
          (f : ℕ → Prog B)
          → ((server : ℕ)
              → server < limit
              → Safe (ledger limit) Q X (f server) (quiet (server ∷ [])))
          → Safe (ledger limit) Q X (open_server >>= f) (quiet [])
      opened-Safe f next =
          Safe-bind (ledger limit) Listening Q X f open_server (quiet []) open_server-Safe
            (λ server s h. rw h.1 (next server h.0))

    -- A client's session between two rounds of a server.
    pub session-Safe :
        (k fd : ℕ) (l : List ℕ) (rest : Prog (Unit {0}))
        → contains l fd ≡ false
        → Safe (ledger limit) Never X rest (quiet l)
        → Safe (ledger limit) Never X (echo k fd >> rest) (quiet (fd ∷ l))
    session-Safe k fd l rest fresh next =
        Safe-bind (ledger limit) (λ _ s. s ≡ quiet (remove fd (fd ∷ l))) Never X (λ _. rest)
          (echo k fd) (quiet (fd ∷ l)) (echo-Safe false k fd (fd ∷ l) (contains-head fd l))
          (λ _ s e. rw (e, remove-head fd l fresh) next)

    -- A client that is served and closed between two rounds.
    pub round-Safe :
        (k server : ℕ) (l : List ℕ) (rest : Prog (Unit {0}))
        → contains l server ≡ true
        → Safe (ledger limit) Never X rest (quiet l)
        → Safe (ledger limit) Never X (must (accept server) >>= λ fd. echo k fd >> rest) (quiet l)
    round-Safe k server l rest h next =
        accept-Safe Never (λ fd. echo k fd >> rest) server l h
          (λ fd fresh. session-Safe k fd l rest fresh.0 next)
