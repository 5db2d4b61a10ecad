-- ===== src/Tcp/Multi/Safety.antt =====
-- The loops of the select() server, EX07-04_tcp_multi, under the ledger.
use edge_embedded_linux.Common.{
  ℕ, zero, suc, ◌≡◌, refl, sym, ◌∙◌, ◌≢◌, ◌+◌, ◌-◌, ◌≤◌, ◌<◌, true, false, List, [], ◌∷◌, length,
  none, arith, ◌==◌, lt→ltb, if◌then◌else◌, Bool-cases, inl, inr,
}
use edge_embedded_linux.FdSet.{contains, remove, contains-head, contains-remove}
use edge_embedded_linux.Posix.{
  Reply, value, bytes, failed, read, select, received, Prog, return, ◌>>=◌, ◌>>◌,
}
use edge_embedded_linux.Posix.Safety.{Safe, Safe-bind}
use edge_embedded_linux.Tcp.{max_buf, fd_set_size, in_array}
use edge_embedded_linux.Tcp.Ledger.{State, ledger, quiet, Conforms, after}
use edge_embedded_linux.Tcp.Rules.{Never, Fails, failure, accept-Safe, args-Safe, opened-Safe}
use edge_embedded_linux.Tcp.Multi.{
  multi_block, on_ready, scan, on_select_set, serve_multi, multi_main,
}

-- At descriptor `fd` of the loop: `l` is what is open.
record Tracks (server fd : ℕ) (tfd rfd l : List ℕ) : Type 0 where
  same : (x : ℕ) → contains rfd x ≡ contains l x
  ahead : (x : ℕ) → fd ≤ x → contains tfd x ≡ true → contains l x ≡ true
  listens : contains l server ≡ true

abbrev Tracked : ℕ → ℕ → List ℕ → List ℕ → State → Type 0
Tracked server fd tfd rfd s = (s.owed ≡ none) × (s.child ≡ false) × Tracks server fd tfd rfd s.fds

module _ {server fd : ℕ} {tfd rfd l : List ℕ} (t : Tracks server fd tfd rfd l) where
  open t use {same, ahead, listens}

  Tracks-skip : Tracks server (fd + 1) tfd rfd l
  Tracks-skip = record { same = same; ahead = λ x h. ahead x (omega arith); listens = listens }

  Tracks-add : (c : ℕ) → Tracks server (fd + 1) tfd (c ∷ rfd) (c ∷ l)
  Tracks-add c = record {
    same = λ x. ground (arith, same x);
    ahead = λ x h e. ground (arith, ahead x (omega arith) e);
    listens = ground (arith, listens);
  }

  Tracks-close : fd ≢ server → Tracks server (fd + 1) tfd (remove fd rfd) (remove fd l)
  Tracks-close ne = record {
    same = λ x. ground (arith, same x, contains-remove fd x rfd, contains-remove fd x l);
    ahead = λ x h e. ground (arith, ahead x (omega arith) e, contains-remove fd x l);
    listens = ground (arith, listens, contains-remove fd server l);
  }

module _ (limit : ℕ) (small : limit ≤ fd_set_size) where
  module _ {server fd : ℕ} {tfd rfd l : List ℕ} (t : Tracks server fd tfd rfd l)
      (ready : contains tfd fd ≡ true) where
    is_open : contains l fd ≡ true
    is_open = t.ahead fd (omega arith) ready

    multi_block-Safe :
        fd ≢ server
        → (r : Reply) → Conforms limit (quiet l) (read fd (max_buf - 1)) r
        → Safe
            (ledger limit)
            (Tracked server (fd + 1) tfd)
            Fails
            (multi_block fd rfd (received r))
            (after (quiet l) (read fd (max_buf - 1)) r)
    multi_block-Safe ne (value n) ok = ((is_open, refl), λ _ _. (refl, refl, Tracks-close t ne))
    multi_block-Safe ne (failed e) ok = ((is_open, refl), λ _ _. (refl, refl, Tracks-close t ne))
    multi_block-Safe ne (bytes []) ok = ((is_open, refl), λ _ _. (refl, refl, Tracks-close t ne))
    multi_block-Safe ne (bytes (x ∷ b)) ok =
        rw (lt→ltb (length (x ∷ b)) max_buf (omega arith))
          ((is_open, refl), λ _ _. (refl, refl, Tracks-skip t))

    on_ready-Safe :
        Safe (ledger limit) (Tracked server (fd + 1) tfd) Fails (on_ready fd server rfd) (quiet l)
    on_ready-Safe = elim (Bool-cases (fd == server)) [
      | inl e ↦
          rw e (
            accept-Safe limit Fails failure (Tracked server (fd + 1) tfd) _ server l t.listens
              added)
      | inr e ↦ rw e ((is_open, refl), multi_block-Safe (λ p. ground arith))
    ]
      where
        added :
            (c : ℕ)
            → (contains l c ≡ false) × (c < limit)
            → Safe
                (ledger limit)
                (Tracked server (fd + 1) tfd)
                Fails
                (in_array fd_set_size c >> return (c ∷ rfd))
                (quiet (c ∷ l))
        added c ok = rw (lt→ltb c fd_set_size (omega arith)) (refl, refl, Tracks-add t c)

  body-Safe :
      {server fd : ℕ} {tfd rfd l : List ℕ}
      → Tracks server fd tfd rfd l
      → Safe
          (ledger limit)
          (Tracked server (fd + 1) tfd)
          Fails
          (if contains tfd fd then on_ready fd server rfd else return rfd)
          (quiet l)
  body-Safe {fd = fd} {tfd = tfd} t = elim (Bool-cases (contains tfd fd)) [
    | inl e ↦ rw e (on_ready-Safe t e)
    | inr e ↦ rw e (refl, refl, Tracks-skip t)
  ]

  -- After the loop nothing is owed, and `rfd` is the set of the open descriptors.
  abbrev Settled : ℕ → List ℕ → State → Type 0
  Settled server rfd s =
      (s.owed ≡ none)
      × (s.child ≡ false)
      × ((x : ℕ) → contains rfd x ≡ contains s.fds x)
      × (contains s.fds server ≡ true)

  quiet-eq : (s : State) → s.owed ≡ none → s.child ≡ false → s ≡ quiet s.fds
  quiet-eq s e f = λ i. record { fds = s.fds; owed = e i; child = f i }

  scan-Safe :
      (left fd server : ℕ) (tfd rfd l : List ℕ)
      → Tracks server fd tfd rfd l
      → Safe (ledger limit) (Settled server) Fails (scan left fd server tfd rfd) (quiet l)
  unfolding scan
  scan-Safe zero fd server tfd rfd l t = (refl, refl, t.same, t.listens)
  scan-Safe (suc left) fd server tfd rfd l t =
      Safe-bind (ledger limit) (Tracked server (fd + 1) tfd) (Settled server) Fails
        (λ rfd'. scan left (fd + 1) server tfd rfd') _ (quiet l) (body-Safe t)
        (λ rfd' s h. rw (quiet-eq s h.0 h.1) (scan-Safe left (fd + 1) server tfd rfd' s.fds h.2))

  -- What follows a round of the loop, for every `rfd` that it can leave.
  module _ (server : ℕ) (rest : List ℕ → Prog (Unit {0}))
      (next : (rfd l : List ℕ)
        → ((x : ℕ) → contains rfd x ≡ contains l x)
        → contains l server ≡ true
        → Safe (ledger limit) Never Fails (rest rfd) (quiet l)) where
    selected-Safe :
        (rfd l : List ℕ)
        → ((x : ℕ) → contains rfd x ≡ contains l x)
        → contains l server ≡ true
        → (r : Reply) → Conforms limit (quiet l) (select rfd) r
        → Safe
            (ledger limit)
            Never
            Fails
            (on_select_set
              (rest rfd)
              (λ tfd. scan fd_set_size 0 server tfd rfd >>= rest)
              (received r))
            (after (quiet l) (select rfd) r)
    selected-Safe rfd l same h (value m) ok = next rfd l same h
    selected-Safe rfd l same h (failed e) ok = failure l
    selected-Safe rfd l same h (bytes []) ok = next rfd l same h
    selected-Safe rfd l same h (bytes (x ∷ tfd)) ok =
        Safe-bind (ledger limit) (Settled server) Never Fails rest
          (scan fd_set_size 0 server (x ∷ tfd) rfd) (quiet l)
          (scan-Safe fd_set_size 0 server (x ∷ tfd) rfd l marked)
          (λ rfd' s t. rw (quiet-eq s t.0 t.1) (next rfd' s.fds t.2 t.3))
      where
        marked : Tracks server 0 (x ∷ tfd) rfd l
        marked = record { same = same; ahead = λ y _ e. sym (same y) ∙ ok y e; listens = h }

  serve_multi-Safe :
      (n server : ℕ) (rfd l : List ℕ)
      → ((x : ℕ) → contains rfd x ≡ contains l x)
      → contains l server ≡ true
      → Safe (ledger limit) Never Fails (serve_multi n server rfd) (quiet l)
  unfolding serve_multi
  serve_multi-Safe zero server rfd l same h = tt
  serve_multi-Safe (suc n) server rfd l same h = (
    (λ fd e. sym (same fd) ∙ e, refl),
    selected-Safe server (serve_multi n server) (serve_multi-Safe n server) rfd l same h,
  )

  pub multi_main-Safe :
      (argc n : ℕ) → Safe (ledger limit) Never Fails (multi_main argc n) (quiet [])
  unfolding multi_main
  multi_main-Safe argc n =
      args-Safe limit Fails failure Never 1 argc _ (opened-Safe limit Fails failure Never _ started)
    where
      started :
          (server : ℕ)
          → server < limit
          → Safe
              (ledger limit)
              Never
              Fails
              (in_array fd_set_size server >> serve_multi n server (server ∷ []))
              (quiet (server ∷ []))
      started server lt = rw (lt→ltb server fd_set_size (omega arith)) (
          serve_multi-Safe n server (server ∷ []) (server ∷ []) (λ _. refl)
            (contains-head server []))
