-- ===== src/Msg/File/Progress.antt =====
-- What the clients of the file server, EX03-13_file_server, wait for.
use edge_embedded_linux.Common.{
  ℕ, ◌≡◌, refl, ◌≢◌, ◌⊎◌, inl, inr, List, [], ◌∷◌, All, Option, none, some, ltb, length, ◌==◌,
  ==_iff, Bool-cases, subst, sym, ◌∙◌, arith,
}
use mathlib.Core.Option.{none-ne-some}
use edge_embedded_linux.Msg.{
  Protocol, ServerPc, waiting, holding, ClientPc, ready, sent, done, Serve, Request, System, update,
  Step, Reach,
}
use edge_embedded_linux.Msg.Queue.{
  Takes, Takes-All, Takes-Has, Has, Has-append, Has-last, Has-Takes,
}
use edge_embedded_linux.Msg.File.{max_fname, mtype_c2s, MsgBuf, describe, file_request, file}
use edge_embedded_linux.Msg.File.Replies.{IsMessage, Reach-IsMessage}

abbrev pub IsFor : ℕ → MsgBuf → Type 0
IsFor p m = m.pid ≡ p

pub describe-IsFor :
    (st : Option (ℕ × ℕ)) (p : ℕ) (m : MsgBuf) → IsFor p m → IsFor p (describe st m)
describe-IsFor none p m h = h
describe-IsFor (some st) p m h = h

module _ (stat : List ℕ → Option (ℕ × ℕ)) (names : ℕ → List ℕ) (junk : ℕ → MsgBuf) where
  abbrev protocol : Protocol
  protocol = file stat names junk

  abbrev Held : ℕ → ServerPc protocol → Type 0
  Held p ServerPc.fresh = ⊥
  Held p waiting = ⊥
  Held p (holding m) = IsFor p m
  Held p ServerPc.failed = Unit

  -- The request or the answer of a client that waits is in the queue or in the server's hands,
  -- unless the server has ended.
  abbrev Pending : ℕ → List MsgBuf → ServerPc protocol → ClientPc protocol → Type 0
  Pending p q c ClientPc.fresh = Unit
  Pending p q c (ready m) = IsFor p m
  Pending p q c sent = Has (IsFor p) q ⊎ Held p c
  Pending p q c (done m) = Unit
  Pending p q c ClientPc.failed = Unit

  Serve-Held :
      (p : ℕ) {q q' : List MsgBuf} {c c' : ServerPc protocol}
      → Serve protocol q c q' c'
      → Has (IsFor p) q ⊎ Held p c
      → Has (IsFor p) q' ⊎ Held p c'
  Serve-Held p Serve.get_queue h = h
  Serve-Held p Serve.no_queue h = inr tt
  Serve-Held p (Serve.receive k) (inr h) = absurd h
  Serve-Held p (Serve.receive {m = m} k) (inl h) =
      elim (Takes-Has (λ m. m.mtype) mtype_c2s (IsFor p) k h) [
        | inl e ↦ inr (describe-IsFor (stat m.fname) p m e)
        | inr e ↦ inl e
      ]
  Serve-Held p Serve.no_message h = inr tt
  Serve-Held p (Serve.send {m = m}) (inl h) = inl (Has-append (IsFor p) _ m h)
  Serve-Held p (Serve.send {m = m}) (inr h) = inl (Has-last (IsFor p) _ m h)
  Serve-Held p Serve.no_room h = inr tt

  Serve-Pending :
      (p : ℕ) (d : ClientPc protocol) {q q' : List MsgBuf} {c c' : ServerPc protocol}
      → Serve protocol q c q' c'
      → Pending p q c d
      → Pending p q' c' d
  Serve-Pending p ClientPc.fresh k h = tt
  Serve-Pending p (ready m) k h = h
  Serve-Pending p sent k h = Serve-Held p k h
  Serve-Pending p (done m) k h = tt
  Serve-Pending p ClientPc.failed k h = tt

  asked-IsFor : (p : ℕ) (m : MsgBuf) → file_request names junk p ≡ some m → IsFor p m
  asked-IsFor p m = elim (Bool-cases (ltb (length (names p)) max_fname)) [
    | inl e ↦ rw e (λ h. subst (λ o. elim o [ none ↦ Unit | some m ↦ IsFor p m ]) h refl)
    | inr e ↦ rw e (λ h. absurd (none-ne-some m h))
  ]

  Request-own :
      (p : ℕ) (s : ServerPc protocol) {q q' : List MsgBuf} {c c' : ClientPc protocol}
      → Request protocol p q c q' c'
      → Pending p q s c
      → Pending p q' s c'
  Request-own p s (Request.refuse e) h = tt
  Request-own p s (Request.get_queue {m = m} e) h = asked-IsFor p m e
  Request-own p s Request.no_queue h = tt
  Request-own p s (Request.send {m = m}) h = inl (Has-last (IsFor p) _ m h)
  Request-own p s Request.no_room h = tt
  Request-own p s (Request.receive k) h = tt
  Request-own p s Request.no_message h = tt

  -- Another client takes no message of client `p`.
  Request-Has :
      (p i : ℕ) {q q' : List MsgBuf} {c c' : ClientPc protocol}
      → Request protocol i q c q' c'
      → i ≢ p
      → i ≢ mtype_c2s
      → All (IsMessage stat names) q
      → Has (IsFor p) q
      → Has (IsFor p) q'
  Request-Has p i (Request.refuse e) np n1 g h = h
  Request-Has p i (Request.get_queue e) np n1 g h = h
  Request-Has p i Request.no_queue np n1 g h = h
  Request-Has p i (Request.send {m = m}) np n1 g h = Has-append (IsFor p) _ m h
  Request-Has p i Request.no_room np n1 g h = h
  Request-Has p i (Request.receive k) np n1 g h = elim (Takes-Has (λ m. m.mtype) i (IsFor p) k h) [
    | inl e ↦
        let t = Takes-All (λ m. m.mtype) i (IsMessage stat names) k g in
        elim t.1.0.way [
          | inl one ↦ absurd (n1 (sym t.0 ∙ one))
          | inr own ↦ absurd (np (sym t.0 ∙ own.0 ∙ e))
        ]
    | inr e ↦ e
  ]
  Request-Has p i Request.no_message np n1 g h = h

  Request-Pending :
      (p i : ℕ) (s : ServerPc protocol) (d : ClientPc protocol) {q q' : List MsgBuf}
      {c c' : ClientPc protocol}
      → Request protocol i q c q' c'
      → i ≢ p
      → i ≢ mtype_c2s
      → All (IsMessage stat names) q
      → Pending p q s d
      → Pending p q' s d
  Request-Pending p i s ClientPc.fresh k np n1 g h = tt
  Request-Pending p i s (ready m) k np n1 g h = h
  Request-Pending p i s sent k np n1 g (inl h) = inl (Request-Has p i k np n1 g h)
  Request-Pending p i s sent k np n1 g (inr h) = inr h
  Request-Pending p i s (done m) k np n1 g h = tt
  Request-Pending p i s ClientPc.failed k np n1 g h = tt

  abbrev Started : ClientPc protocol → Type 0
  Started ClientPc.fresh = ⊥
  Started (ready m) = Unit
  Started sent = Unit
  Started (done m) = Unit
  Started ClientPc.failed = Unit

  Request-Started :
      (i : ℕ) {q q' : List MsgBuf} {c c' : ClientPc protocol}
      → Request protocol i q c q' c'
      → Started c'
  Request-Started i (Request.refuse e) = tt
  Request-Started i (Request.get_queue e) = tt
  Request-Started i Request.no_queue = tt
  Request-Started i Request.send = tt
  Request-Started i Request.no_room = tt
  Request-Started i (Request.receive k) = tt
  Request-Started i Request.no_message = tt

  -- Process 1 has not been a client before a step that leaves it none.
  update_fresh :
      (f : ℕ → ClientPc protocol) (i j : ℕ) (c : ClientPc protocol)
      → Started c
      → update f i c j ≡ ClientPc.fresh
      → (i ≢ j) × (f j ≡ ClientPc.fresh)
  update_fresh f i j c h = elim (Bool-cases (j == i)) [
    | inl e ↦ rw e (λ k. absurd (subst Started k h))
    | inr e ↦ rw e (λ k. (λ same. ground arith, k))
  ]

  Reach-Pending :
      {s : System protocol}
      → Reach protocol s
      → s.clients mtype_c2s ≡ ClientPc.fresh
      → (p : ℕ) → Pending p s.queue s.server (s.clients p)
  Reach-Pending Reach.here e p = tt
  Reach-Pending (Reach.later {s = s} r (Step.serves k)) e p =
      Serve-Pending p (s.clients p) k (Reach-Pending r e p)
  Reach-Pending (Reach.later {s = s} r (Step.requests {p = i} {q = q} {c = c} k)) e p =
      let old = update_fresh s.clients i mtype_c2s c (Request-Started i k) e in
      let h = Reach-Pending r old.1 p in
      elim (Bool-cases (p == i)) [
        | inl same ↦
            rw (same, (==_iff p i).0 same) (Request-own i s.server k (Reach-Pending r old.1 i))
        | inr other ↦ rw other (
            Request-Pending p i s.server (s.clients p) k (λ same. ground arith) old.0
              (Reach-IsMessage stat names junk r).queue h)
      ]

  -- A message for `p` is a request, or an answer of the type that `p` receives.
  For-way :
      (p : ℕ) (q : List MsgBuf)
      → All (IsMessage stat names) q
      → Has (IsFor p) q
      → Has (λ m. m.mtype ≡ mtype_c2s) q ⊎ Has (λ m. m.mtype ≡ p) q
  For-way p [] g h = absurd h
  For-way p (m ∷ q) g (inl e) = elim g.0.way [ inl c ↦ inl (inl c) | inr d ↦ inr (inl (d.0 ∙ e)) ]
  For-way p (m ∷ q) g (inr h) = elim (For-way p q g.1 h) [
    | inl c ↦ inl (inr c)
    | inr d ↦ inr (inr d)
  ]

  -- While process 1 is no client, the server at msgrcv() and a client that waits for its answer are
  -- never stuck together: the queue holds a request that the server can take, or an answer that the
  -- client can.
  pub file_progress :
      {s : System protocol} (p : ℕ)
      → Reach protocol s
      → s.clients mtype_c2s ≡ ClientPc.fresh
      → s.clients p ≡ sent
      → s.server ≡ waiting
      → ((m : MsgBuf) × ((q : List MsgBuf) × Takes (λ m. m.mtype) mtype_c2s s.queue m q))
        ⊎ ((m : MsgBuf) × ((q : List MsgBuf) × Takes (λ m. m.mtype) p s.queue m q))
  file_progress {s} p r e1 ep es =
      let h = subst (Pending p s.queue s.server) ep (Reach-Pending r e1 p) in
      elim (subst (λ c. Has (IsFor p) s.queue ⊎ Held p c) es h) [
        | inl k ↦ elim (For-way p s.queue (Reach-IsMessage stat names junk r).queue k) [
          | inl a ↦ inl (Has-Takes (λ m. m.mtype) mtype_c2s s.queue a)
          | inr b ↦ inr (Has-Takes (λ m. m.mtype) p s.queue b)
        ]
        | inr k ↦ absurd k
      ]
