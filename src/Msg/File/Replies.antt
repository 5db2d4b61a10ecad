-- ===== src/Msg/File/Replies.antt =====
-- The file server, EX03-13_file_server, with any number of clients, and what each receives.
use edge_embedded_linux.Common.{
  ℕ, ◌≡◌, refl, ◌≢◌, ◌⊎◌, inl, inr, ◌<◌, List, length, Option, none, some, ltb, ltb→lt, Bool-cases,
  subst, sym, ◌∙◌, ap,
}
use mathlib.Core.Option.{none-ne-some}
use edge_embedded_linux.Msg.{Protocol, System, done, Reach}
use edge_embedded_linux.Msg.Invariant.{Inv, ClientGood, Reach-Inv}
use edge_embedded_linux.Msg.File.{max_fname, mtype_c2s, MsgBuf, describe, file_request, file}

-- The message tells of `st`, what stat() says.
abbrev pub Describes : Option (ℕ × ℕ) → MsgBuf → Type 0
Describes none m = m.valid ≡ 0
Describes (some st) m = (m.valid ≡ 1) × ((m.size ≡ st.0) × (m.mode ≡ st.1))

module _ (stat : List ℕ → Option (ℕ × ℕ)) (names : ℕ → List ℕ) where
  -- The name is that of the client in `pid`, it fits into the array, and the message is a request or
  -- an answer.
  pub record IsMessage (m : MsgBuf) : Type 0 where
    pub name : m.fname ≡ names m.pid
    pub fits : length m.fname < max_fname
    pub way : (m.mtype ≡ mtype_c2s) ⊎ ((m.mtype ≡ m.pid) × Describes (stat m.fname) m)

  module _ (junk : ℕ → MsgBuf) where
    pub asked-IsMessage : (p : ℕ) (m : MsgBuf) → file_request names junk p ≡ some m → IsMessage m
    asked-IsMessage p m = elim (Bool-cases (ltb (length (names p)) max_fname)) [
      | inl e ↦ rw e (λ h. sent_by (ltb→lt (length (names p)) max_fname e) m h)
      | inr e ↦ rw e (λ h. absurd (none-ne-some m h))
    ]
      where
        request : MsgBuf
        request = record (junk p) { mtype = mtype_c2s; fname = names p; pid = p }

        request-IsMessage : length (names p) < max_fname → IsMessage request
        request-IsMessage lt = record { name = refl; fits = lt; way = inl refl }

        sent_by : length (names p) < max_fname → (m : MsgBuf) → some request ≡ some m → IsMessage m
        sent_by lt m h =
            subst (λ o. elim o [ none ↦ Unit | some m ↦ IsMessage m ]) h (request-IsMessage lt)

  pub describe-IsMessage :
      (st : Option (ℕ × ℕ)) (m : MsgBuf)
      → stat m.fname ≡ st
      → IsMessage m
      → IsMessage (describe st m)
  describe-IsMessage none m e h = record {
    name = h.name;
    fits = h.fits;
    way = inr (refl, rw e refl);
  }
  describe-IsMessage (some st) m e h = record {
    name = h.name;
    fits = h.fits;
    way = inr (refl, rw e (refl, (refl, refl)));
  }

  pub answer-IsMessage :
      (m : MsgBuf) → m.mtype ≡ mtype_c2s → IsMessage m → IsMessage (describe (stat m.fname) m)
  answer-IsMessage m e h = describe-IsMessage (stat m.fname) m refl h

  module _ (junk : ℕ → MsgBuf) where
    abbrev pub protocol : Protocol
    protocol = file stat names junk

    pub Reach-IsMessage :
        {s : System protocol}
        → Reach protocol s
        → Inv protocol IsMessage (asked-IsMessage junk) answer-IsMessage s
    Reach-IsMessage r = Reach-Inv protocol IsMessage (asked-IsMessage junk) answer-IsMessage r

    own_answer :
        (p : ℕ) (m : MsgBuf)
        → p ≢ mtype_c2s
        → m.mtype ≡ p
        → IsMessage m
        → (m.fname ≡ names p) × Describes (stat (names p)) m
    own_answer p m ne e h = elim h.way [
      | inl c ↦ absurd (ne (sym e ∙ c))
      | inr d ↦
          let own = h.name ∙ ap names (sym d.0 ∙ e) in
          (own, subst (λ n. Describes (stat n) m) own d.1)
    ]

    -- In every reachable state of the file server and its clients, an answer that a client other than
    -- process 1 has received is the answer to its own request: it names the client's file, and says
    -- what stat() says of that file.
    pub file_reply :
        {s : System protocol} (p : ℕ) (m : MsgBuf)
        → Reach protocol s
        → p ≢ mtype_c2s
        → s.clients p ≡ done m
        → (m.fname ≡ names p) × Describes (stat (names p)) m
    file_reply p m r ne e =
        let h =
          (subst (ClientGood protocol IsMessage (asked-IsMessage junk) answer-IsMessage p) e
            ((Reach-IsMessage r).clients p)) in
        own_answer p m ne h.0 h.1
