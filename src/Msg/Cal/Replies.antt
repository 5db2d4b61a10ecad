-- ===== src/Msg/Cal/Replies.antt =====
-- The multiplying server, EX03-12_cal_server, with any number of clients, and what each receives.
use edge_embedded_linux.Common.{
  ℕ, ◌≡◌, refl, ◌≢◌, ◌⊎◌, inl, inr, ◌*◌, ◌%◌, ◌^◌, List, [], ◌∷◌, none, some, ◌==◌, ==_iff,
  Bool-cases, subst, sym, arith,
}
use edge_embedded_linux.Msg.{
  Protocol, ClientPc, waiting, sent, done, ready, Request, System, update, Step, Serve, Reach,
}
use edge_embedded_linux.Msg.Queue.{first, behind}
use edge_embedded_linux.Msg.Invariant.{ClientGood, Reach-Inv}
use edge_embedded_linux.Msg.Cal.{mtype_c2s, mtype_s2c, MsgBuf, multiply, factors, cal}

-- The operands are those of some client, and an answer holds their product.
pub record IsMessage (left right : ℕ → ℕ) (m : MsgBuf) : Type 0 where
  pub client : ℕ
  pub op1 : m.op1 ≡ left client
  pub op2 : m.op2 ≡ right client
  pub way : (m.mtype ≡ mtype_c2s) ⊎ ((m.mtype ≡ mtype_s2c) × (m.result ≡ m.op1 * m.op2 % 2 ^ 32))

module _ (left right junk : ℕ → ℕ) where
  abbrev pub protocol : Protocol
  protocol = cal left right junk

  factors-IsMessage : (p : ℕ) → IsMessage left right (factors (left p) (right p) (junk p))
  factors-IsMessage p = record { client = p; op1 = refl; op2 = refl; way = inl refl }

  asked-IsMessage :
      (p : ℕ) (m : MsgBuf)
      → some (factors (left p) (right p) (junk p)) ≡ some m
      → IsMessage left right m
  asked-IsMessage p m h =
      subst (λ o. elim o [ none ↦ Unit | some m ↦ IsMessage left right m ]) h (factors-IsMessage p)

  multiply-IsMessage :
      (m : MsgBuf)
      → m.mtype ≡ mtype_c2s
      → IsMessage left right m
      → IsMessage left right (multiply m)
  multiply-IsMessage m e h = record {
    client = h.client;
    op1 = h.op1;
    op2 = h.op2;
    way = inr (refl, refl);
  }

  product_of :
      (m : MsgBuf)
      → m.mtype ≡ mtype_s2c
      → IsMessage left right m
      → (m.result ≡ m.op1 * m.op2 % 2 ^ 32) × ((i : ℕ) × ((m.op1 ≡ left i) × (m.op2 ≡ right i)))
  product_of m e h = elim h.way [
    | inl c ↦ absurd (omega (arith, e, c))
    | inr d ↦ (d.1, (h.client, (h.op1, h.op2)))
  ]

  -- In every reachable state of the multiplying server and its clients, what a client has received is
  -- the 32-bit product of the two operands in the message, and these are the operands of one of the
  -- clients.
  pub cal_reply :
      {s : System protocol} (p : ℕ) (m : MsgBuf)
      → Reach protocol s
      → s.clients p ≡ done m
      → (m.result ≡ m.op1 * m.op2 % 2 ^ 32) × ((i : ℕ) × ((m.op1 ≡ left i) × (m.op2 ≡ right i)))
  cal_reply p m r e =
      let inv = Reach-Inv protocol (IsMessage left right) asked-IsMessage multiply-IsMessage r in
      let h =
        subst (ClientGood protocol (IsMessage left right) asked-IsMessage multiply-IsMessage p) e
          (inv.clients p) in
      product_of m h.0 h.1

  -- A step of a client whose place in the program is known.
  client_moves :
      {q q' : List MsgBuf} {server : _} {f : ℕ → ClientPc protocol} (p : ℕ)
      (c c' : ClientPc protocol)
      → Reach protocol (record { queue = q; server = server; clients = f })
      → f p ≡ c
      → Request protocol p q c q' c'
      → Reach protocol (record { queue = q'; server = server; clients = update f p c' })
  client_moves {q} {q'} p c c' r e k =
      Reach.later r (Step.requests (subst (λ d. Request protocol p q d q' c') (sym e) k))

  update_self : (f : ℕ → ClientPc protocol) (p : ℕ) (c : ClientPc protocol) → update f p c p ≡ c
  update_self f p c = rw ((==_iff p p).1 refl)

  update_other :
      (f : ℕ → ClientPc protocol) (p i : ℕ) (c d : ClientPc protocol)
      → i ≢ p
      → f i ≡ d
      → update f p c i ≡ d
  update_other f p i c d ne h = elim (Bool-cases (i == p)) [
    | inl e ↦ absurd (ne ((==_iff i p).0 e))
    | inr e ↦ rw e h
  ]

  module _ (p r : ℕ) (ne : p ≢ r) where
    abbrev asks : ℕ → MsgBuf
    asks i = factors (left i) (right i) (junk i)

    abbrev opened : ℕ → (ℕ → ClientPc protocol) → ℕ → ClientPc protocol
    opened i f = update f i (ready (asks i))

    abbrev has_sent : ℕ → (ℕ → ClientPc protocol) → ℕ → ClientPc protocol
    has_sent i f = update (opened i f) i sent

    abbrev none_yet : ℕ → ClientPc protocol
    none_yet i = ClientPc.fresh

    -- Both have asked, `r` first, and the server has answered `r`.
    answered_other : Reach protocol (record {
      queue = asks p ∷ multiply (asks r) ∷ [];
      server = waiting;
      clients = has_sent p (has_sent r none_yet);
    })
    answered_other =
        let r0 = Reach.later Reach.here (Step.serves Serve.get_queue) in
        let r1 = client_moves r ClientPc.fresh (ready (asks r)) r0 refl (Request.get_queue refl) in
        let r2 = client_moves r (ready (asks r)) sent r1 (update_self none_yet r _) Request.send in
        let r3 =
          client_moves p ClientPc.fresh (ready (asks p)) r2
            (update_other (opened r none_yet) r p sent ClientPc.fresh ne
              (update_other none_yet r p (ready (asks r)) ClientPc.fresh ne refl))
            (Request.get_queue refl) in
        let r4 =
          client_moves p (ready (asks p)) sent r3 (update_self (has_sent r none_yet) p _)
            Request.send in
        let r5 = Reach.later r4 (Step.serves (Serve.receive (first refl))) in
        Reach.later r5 (Step.serves Serve.send)

    -- Any client can be given the answer to any other client's request: some reachable state has
    -- client `p` finished with the operands and the product of client `r`.
    pub cal_mixes :
        (s : System protocol) × (Reach protocol s
          × (s.clients p ≡ done (multiply (factors (left r) (right r) (junk r)))))
    cal_mixes = (
      _,
      (
        client_moves p sent (done (multiply (asks r))) answered_other
            (update_self (opened p (has_sent r none_yet)) p sent)
            (Request.receive (behind (λ e. omega arith) (first refl))),
        update_self (has_sent p (has_sent r none_yet)) p _,
      ),
    )
