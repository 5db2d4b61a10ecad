-- ===== src/Ftp/Safety.antt =====
-- The command server, EX07-02_tcp_myftp, under the discipline of handles and of its buffers.
use edge_embedded_linux.Common.{
  ℕ, zero, suc, ◌≡◌, refl, ◌∙◌, sym, ap, ◌-◌, ◌≤◌, ◌<◌, true, false, List, [], ◌∷◌, length,
  length-append, length-take, take, Option, none, some, arith, lt→ltb, Bool-cases, inl, inr,
}
use edge_embedded_linux.FdSet.{contains, contains-head, remove, remove-head}
use edge_embedded_linux.Text.{codes, crlf, cstr, str_eq, length-cstr-le}
use edge_embedded_linux.Posix.{
  Reply, value, bytes, failed, read, close, popen, fread, Prog, tell, number, received, ◌>>◌,
}
use edge_embedded_linux.Posix.Safety.{Safe, Safe-bind}
use edge_embedded_linux.Posix.Handles.{State, Bounds, handles, holding, Conforms, after}
use edge_embedded_linux.Tcp.Opening.{Fails, Never, accept-Safe, args-Safe, opened-Safe}
use edge_embedded_linux.Ftp.{
  max_rbuf, max_wbuf, max_tbuf, pwd_closed, quit_line, pwd_line, pwd_output, pwd_stream, get_pwd,
  pwd_reply, send_line, command, ftp_block, process_command, serve_ftp, ftp_main,
}

-- The text between `OK ` and the end of the line.
length-pwd_reply-lt : (t : List ℕ) → length t ≤ 250 → length (pwd_reply (some t)) < max_wbuf
length-pwd_reply-lt t h = omega (arith, length-append {0} t crlf)

module _ (bs : Bounds) (X : ℕ → State → Type 0) where
  -- get_pwd() touches no descriptor, and its answer fits into `wbuf`.
  abbrev pub Pwd : List ℕ → Option (List ℕ) → State → Type 0
  Pwd fds p s = (s.fds ≡ fds) × (length (pwd_reply p) < max_wbuf)

  module _ (size : ℕ) (fits : bs.output ≤ size) (small : size ≤ 250) where
    pwd_text :
        (x : ℕ) (b : List ℕ) → length (x ∷ b) ≤ size → length (cstr (take (length b) (x ∷ b))) ≤ 250
    pwd_text x b h =
        omega (arith, length-cstr-le (take (length b) (x ∷ b)), length-take {0} (length b) (x ∷ b))

    pwd_output-Safe :
        (fp : ℕ) (s : State)
        → contains s.pipes fp ≡ true
        → (r : Reply) → Conforms bs s (fread fp (max_rbuf - 1)) r
        → Safe (handles bs) (Pwd s.fds) X (pwd_output size fp (received r)) s
    pwd_output-Safe fp s h (value n) ok = (refl, omega arith)
    pwd_output-Safe fp s h (failed e) ok = (refl, omega arith)
    pwd_output-Safe fp s h (bytes []) ok = (refl, omega arith)
    pwd_output-Safe fp s h (bytes (x ∷ b)) ok =
        rw (lt→ltb (length b) size (omega arith)) (h, λ r _. closed (number r))
      where
        closed :
            (n : Option ℕ)
            → Safe
                (handles bs)
                (Pwd s.fds)
                X
                (pwd_closed (cstr (take (length b) (x ∷ b))) n)
                (record s { pipes = remove fp s.pipes })
        closed none = (refl, omega arith)
        closed (some n) = (refl, length-pwd_reply-lt _ (pwd_text x b (omega arith)))

    get_pwd-Safe : (s : State) → Safe (handles bs) (Pwd s.fds) X (get_pwd size) s
    unfolding get_pwd
    get_pwd-Safe s = (tt, popened)
      where
        popened :
            (r : Reply)
            → Conforms bs s (popen (codes "pwd")) r
            → Safe
                (handles bs)
                (Pwd s.fds)
                X
                (pwd_stream size (number r))
                (after s (popen (codes "pwd")) r)
        popened (value fp) ok =
            let s' : State = record s { pipes = fp ∷ s.pipes } in
            (contains-head fp s.pipes, pwd_output-Safe fp s' (contains-head fp s.pipes))
        popened (bytes b) ok = absurd ok
        popened (failed e) ok = (refl, omega arith)

  abbrev Kept : List ℕ → Unit {0} → State → Type 0
  Kept fds _ s = s.fds ≡ fds

  module _ (fd : ℕ) (fds : List ℕ) (is_open : contains fds fd ≡ true) (rest : Prog (Unit {0}))
      (next : (s : State) → s.fds ≡ fds → Safe (handles bs) (Kept fds) X rest s) where
    send_line-Safe :
        (line : List ℕ) (s : State)
        → length line < max_wbuf
        → s.fds ≡ fds
        → Safe (handles bs) (Kept fds) X (send_line fd line >> rest) s
    send_line-Safe line s h e =
        rw (lt→ltb (length line) max_wbuf h) (ap (λ l. contains l fd) e ∙ is_open, λ _ _. next s e)

    command-Safe :
        bs.output ≤ max_tbuf
        → (line : List ℕ) (s : State) → s.fds ≡ fds
        → Safe (handles bs) (Kept fds) X (command fd rest line) s
    command-Safe fits line s e = elim (Bool-cases (str_eq line quit_line)) [
      | inl q ↦ rw q (ap (λ l. contains l fd) e ∙ is_open, λ _ _. e)
      | inr q ↦ elim (Bool-cases (str_eq line pwd_line)) [
        | inl p ↦
            rw (q, p)
              (Safe-bind (handles bs) (Pwd s.fds) (Kept fds) X _ (get_pwd max_tbuf) s
                (get_pwd-Safe max_tbuf fits (omega arith) s)
                (λ p s' h. send_line-Safe (pwd_reply p) s' h.1 (h.0 ∙ e)))
        | inr p ↦ rw (q, p) (next s e)
      ]
    ]

  module _ (fd : ℕ) (fds : List ℕ) (is_open : contains fds fd ≡ true) (fits : bs.output ≤ max_tbuf)
      (short : bs.block < max_rbuf) where
    ftp_block-Safe :
        (rest : Prog (Unit {0}))
        → ((s : State) → s.fds ≡ fds → Safe (handles bs) (Kept fds) X rest s)
        → (s : State) → s.fds ≡ fds
        → (r : Reply) → Conforms bs s (read fd max_rbuf) r
        → Safe (handles bs) (Kept fds) X (ftp_block fd rest (received r)) s
    ftp_block-Safe rest next s e (value n) ok = e
    ftp_block-Safe rest next s e (failed n) ok = e
    ftp_block-Safe rest next s e (bytes []) ok = e
    ftp_block-Safe rest next s e (bytes (x ∷ b)) ok =
        rw (lt→ltb (length (x ∷ b)) max_rbuf (omega arith))
          (command-Safe fd fds is_open rest next fits (cstr (x ∷ b)) s e)

    pub process_command-Safe :
        (k : ℕ) (s : State)
        → s.fds ≡ fds
        → Safe (handles bs) (λ _ s'. s'.fds ≡ fds) X (process_command k fd) s
    unfolding process_command
    process_command-Safe zero s e = tt
    process_command-Safe (suc k) s e = (
      ap (λ l. contains l fd) e ∙ is_open,
      ftp_block-Safe (process_command k fd) (process_command-Safe k) s e,
    )

module _ (bs : Bounds) (fits : bs.output ≤ max_tbuf) (short : bs.block < max_rbuf) where
  -- A client is served, closed, and what was open before is open again.
  client-Safe :
      (k fd server : ℕ) (rest : Prog (Unit {0})) (s : State)
      → s.fds ≡ server ∷ []
      → contains s.fds fd ≡ false
      → ((s' : State) → s'.fds ≡ server ∷ [] → Safe (handles bs) Never Fails rest s')
      → Safe
          (handles bs)
          Never
          Fails
          (process_command k fd >> (tell (close fd) >> rest))
          (record s { fds = fd ∷ s.fds })
  client-Safe k fd server rest s e fresh next =
      let fds : List ℕ = fd ∷ server ∷ [] in
      let is_open : contains fds fd ≡ true = contains-head fd (server ∷ []) in
      Safe-bind (handles bs) (λ _ s'. s'.fds ≡ fds) Never Fails (λ _. tell (close fd) >> rest)
        (process_command k fd) (record s { fds = fd ∷ s.fds })
        (process_command-Safe bs Fails fd fds is_open fits short k _ (ap (λ l. fd ∷ l) e))
        (λ _ s' h. (
          ap (λ l. contains l fd) h ∙ is_open,
          λ _ _.
              next (record s' { fds = remove fd s'.fds })
                (ap (remove fd) h
                  ∙ remove-head fd (server ∷ []) (ap (λ l. contains l fd) (sym e) ∙ fresh)),
        ))

  serve_ftp-Safe :
      (n k server : ℕ) (s : State)
      → s.fds ≡ server ∷ []
      → Safe (handles bs) Never Fails (serve_ftp n k server) s
  unfolding serve_ftp
  serve_ftp-Safe zero k server s e = tt
  serve_ftp-Safe (suc n) k server s e =
      accept-Safe bs Never Fails (λ _. refl) _ server s
        (ap (λ l. contains l server) e ∙ contains-head server [])
        (λ fd fresh.
          client-Safe k fd server (serve_ftp n k server) s e fresh (serve_ftp-Safe n k server))

  pub ftp_main-Safe :
      (argc n k : ℕ) → Safe (handles bs) Never Fails (ftp_main argc n k) (holding [] [])
  unfolding ftp_main
  ftp_main-Safe argc n k =
      args-Safe bs Never Fails (λ _. refl) 1 argc _ (holding [] [])
        (opened-Safe bs Fails (λ _. refl) Never (serve_ftp n k)
          (λ server. serve_ftp-Safe n k server (holding (server ∷ []) []) refl))
