-- ===== src/Msg/Invariant.antt =====
-- Properties of every message in the system of EX03-12_cal_server or EX03-13_file_server.
use edge_embedded_linux.Common.{ℕ, ◌≡◌, List, All, some, ◌==◌, ==_iff, Bool-cases, inl, inr}
use edge_embedded_linux.Msg.{
  Protocol, ServerPc, holding, waiting, ClientPc, ready, sent, done, Serve, Request, System, update,
  Step, Reach,
}
use edge_embedded_linux.Msg.Queue.{Takes-All, All-append}

module _ (P : Protocol) (Good : P.Message → Type 0)
    (asked : (p : ℕ) (m : P.Message) → P.ask p ≡ some m → Good m)
    (answered : (m : P.Message) → P.mtype m ≡ P.inbox → Good m → Good (P.answer m)) where
  abbrev pub ServerGood : ServerPc P → Type 0
  ServerGood ServerPc.fresh = Unit
  ServerGood waiting = Unit
  ServerGood (holding m) = Good m
  ServerGood ServerPc.failed = Unit

  abbrev pub ClientGood : ℕ → ClientPc P → Type 0
  ClientGood p ClientPc.fresh = Unit
  ClientGood p (ready m) = Good m
  ClientGood p sent = Unit
  ClientGood p (done m) = (P.mtype m ≡ P.outbox p) × Good m
  ClientGood p ClientPc.failed = Unit

  pub record Inv (s : System P) : Type 0 where
    pub queue : All Good s.queue
    pub server : ServerGood s.server
    pub clients : (p : ℕ) → ClientGood p (s.clients p)

  Serve-Inv :
      {q q' : List P.Message} {c c' : ServerPc P}
      → Serve P q c q' c'
      → All Good q
      → ServerGood c
      → All Good q' × ServerGood c'
  Serve-Inv Serve.get_queue h g = (h, tt)
  Serve-Inv Serve.no_queue h g = (h, tt)
  Serve-Inv (Serve.receive {m = m} k) h g =
      let r = Takes-All P.mtype P.inbox Good k h in (r.1.1, answered m r.0 r.1.0)
  Serve-Inv Serve.no_message h g = (h, tt)
  Serve-Inv (Serve.send {m = m}) h g = (All-append Good _ m h g, tt)
  Serve-Inv Serve.no_room h g = (h, tt)

  Request-Inv :
      (p : ℕ) {q q' : List P.Message} {c c' : ClientPc P}
      → Request P p q c q' c'
      → All Good q
      → ClientGood p c
      → All Good q' × ClientGood p c'
  Request-Inv p (Request.refuse e) h g = (h, tt)
  Request-Inv p (Request.get_queue {m = m} e) h g = (h, asked p m e)
  Request-Inv p Request.no_queue h g = (h, tt)
  Request-Inv p (Request.send {m = m}) h g = (All-append Good _ m h g, tt)
  Request-Inv p Request.no_room h g = (h, tt)
  Request-Inv p (Request.receive k) h g =
      let r = Takes-All P.mtype (P.outbox p) Good k h in (r.1.1, (r.0, r.1.0))
  Request-Inv p Request.no_message h g = (h, tt)

  update-ClientGood :
      (f : ℕ → ClientPc P) (p : ℕ) (c : ClientPc P)
      → ((i : ℕ) → ClientGood i (f i))
      → ClientGood p c
      → (i : ℕ) → ClientGood i (update f p c i)
  update-ClientGood f p c h g i = elim (Bool-cases (i == p)) [
    | inl e ↦ rw e (rw ((==_iff i p).0 e) g)
    | inr e ↦ rw e (h i)
  ]

  pub Reach-Inv : {s : System P} → Reach P s → Inv s
  Reach-Inv Reach.here = record { queue = tt; server = tt; clients = λ p. tt }
  Reach-Inv (Reach.later {s = s} r (Step.serves k)) =
      let h = Reach-Inv r in
      let g = Serve-Inv k h.queue h.server in
      record { queue = g.0; server = g.1; clients = h.clients }
  Reach-Inv (Reach.later {s = s} r (Step.requests {p = p} {c = c} k)) =
      let h = Reach-Inv r in
      let g = Request-Inv p k h.queue (h.clients p) in
      record {
        queue = g.0;
        server = h.server;
        clients = update-ClientGood s.clients p c h.clients g.1;
      }
