-- ===== src/Msg.antt =====
-- The servers on a System V message queue, EX03-12_cal_server and EX03-13_file_server: one server
-- and any number of clients, one for each process number. Each step is one call on the queue.
pub mod Queue
pub mod Invariant
pub mod Cal
pub mod File
use edge_embedded_linux.Common.{
  ℕ, ◌≡◌, List, [], ◌∷◌, ◌++◌, Option, none, some, ◌==◌, if◌then◌else◌,
}
use edge_embedded_linux.Msg.Queue.{Takes}

-- What the two pairs of programs differ in. `inbox` is the type that the server receives, `outbox`
-- the type that client number `p` receives, `ask` its request, if its arguments are accepted.
pub record Protocol : Type 1 where
  pub Message : Type 0
  pub mtype : Message → ℕ
  pub inbox : ℕ
  pub outbox : ℕ → ℕ
  pub ask : ℕ → Option Message
  pub answer : Message → Message

pub data ServerPc (P : Protocol) : Type 0 where
  fresh : ServerPc P  -- before the test of argc and msgget
  waiting : ServerPc P  -- before msgrcv
  holding : P.Message → ServerPc P  -- before msgsnd of the answer
  failed : ServerPc P  -- EXIT_FAILURE

pub data ClientPc (P : Protocol) : Type 0 where
  fresh : ClientPc P  -- before the test of argc and msgget
  ready : P.Message → ClientPc P  -- before msgsnd
  sent : ClientPc P  -- before msgrcv
  done : P.Message → ClientPc P
  failed : ClientPc P

-- main() of the server; `no_queue` is a wrong argc, too.
pub data Serve (P : Protocol) (q : List P.Message)
    : ServerPc P → List P.Message → ServerPc P → Type 0 where
  get_queue : Serve P q ServerPc.fresh q waiting
  no_queue : Serve P q ServerPc.fresh q ServerPc.failed
  receive :
      {m : P.Message} {q' : List P.Message}
      → Takes P.mtype P.inbox q m q'
      → Serve P q waiting q' (holding (P.answer m))
  no_message : Serve P q waiting q ServerPc.failed
  send : {m : P.Message} → Serve P q (holding m) (q ++ (m ∷ [])) waiting
  no_room : {m : P.Message} → Serve P q (holding m) q ServerPc.failed

-- main() of client number `p`; `no_queue` is a wrong argc, too.
pub data Request (P : Protocol) (p : ℕ) (q : List P.Message)
    : ClientPc P → List P.Message → ClientPc P → Type 0 where
  refuse : P.ask p ≡ none → Request P p q ClientPc.fresh q ClientPc.failed
  get_queue : {m : P.Message} → P.ask p ≡ some m → Request P p q ClientPc.fresh q (ready m)
  no_queue : Request P p q ClientPc.fresh q ClientPc.failed
  send : {m : P.Message} → Request P p q (ready m) (q ++ (m ∷ [])) sent
  no_room : {m : P.Message} → Request P p q (ready m) q ClientPc.failed
  receive :
      {m : P.Message} {q' : List P.Message}
      → Takes P.mtype (P.outbox p) q m q'
      → Request P p q sent q' (done m)
  no_message : Request P p q sent q ClientPc.failed

pub record System (P : Protocol) : Type 0 where
  pub queue : List P.Message
  pub server : ServerPc P
  pub clients : ℕ → ClientPc P

abbrev pub update {ℓ} : {A : Type ℓ} → (ℕ → A) → ℕ → A → ℕ → A
update f p a i = if i == p then a else f i

pub data Step (P : Protocol) (s : System P) : System P → Type 0 where
  serves :
      {q : List P.Message} {c : ServerPc P}
      → Serve P s.queue s.server q c
      → Step P s (record { queue = q; server = c; clients = s.clients })
  requests :
      {p : ℕ} {q : List P.Message} {c : ClientPc P}
      → Request P p s.queue (s.clients p) q c
      → Step P s (record { queue = q; server = s.server; clients = update s.clients p c })

abbrev pub start : (P : Protocol) → System P
start P = record { queue = []; server = ServerPc.fresh; clients = λ p. ClientPc.fresh }

pub data Reach (P : Protocol) : System P → Type 0 where
  here : Reach P (start P)
  later : {s t : System P} → Reach P s → Step P s t → Reach P t
