-- ===== src/Threads/Clients.antt =====
-- EX07-06_tcp_thread: a thread for each client, which reads the descriptor from the variable of main
-- that the next accept() stores into.
use edge_embedded_linux.Common.{ℕ, ◌≡◌, refl, false, true, List, [], ◌∷◌, Option, none, some}
use edge_embedded_linux.FdSet.{contains, remove}

-- Where a thread stands in thread_func.
pub data Pc : Type 0 where
  created : Pc  -- before `sfd_client = *(int *)arg`
  serving : (fd : ℕ) → Pc  -- in the loop over read()
  closed : Pc

pub data MainPc : Type 0 where
  accepting : MainPc  -- before accept
  accepted : MainPc  -- before pthread_create
  failed : MainPc  -- EXIT_FAILURE, which ends the threads, too

-- `sfd_client` is the variable of main, `open` the descriptors that are open.
pub record System : Type 0 where
  pub sfd_client : Option ℕ
  pub open_fds : List ℕ
  pub main : MainPc
  pub threads : List Pc

-- One step of one thread, with `sfd_client` as it is now. read() of a descriptor that is not open
-- fails, as the end of the client does; close() is then made all the same.
pub data Move (var : Option ℕ) (fds : List ℕ) : Pc → List ℕ → Pc → Type 0 where
  fetch : {fd : ℕ} → var ≡ some fd → Move var fds created fds (serving fd)
  echo : {fd : ℕ} → contains fds fd ≡ true → Move var fds (serving fd) fds (serving fd)
  close : {fd : ℕ} → Move var fds (serving fd) (remove fd fds) closed

-- One of the threads makes its step.
pub data Some (var : Option ℕ) (fds : List ℕ) : List Pc → List ℕ → List Pc → Type 0 where
  this :
      {p p' : Pc} {l : List Pc} {fds' : List ℕ}
      → Move var fds p fds' p'
      → Some var fds (p ∷ l) fds' (p' ∷ l)
  other :
      {p : Pc} {l l' : List Pc} {fds' : List ℕ}
      → Some var fds l fds' l'
      → Some var fds (p ∷ l) fds' (p ∷ l')

-- main() from its loop on, and the threads while it has not failed.
pub data Step (s : System) : System → Type 0 where
  accept :
      (fd : ℕ)
      → s.main ≡ accepting
      → contains s.open_fds fd ≡ false
      → Step s (record s { sfd_client = some fd; open_fds = fd ∷ s.open_fds; main = accepted })
  no_client : s.main ≡ accepting → Step s (record s { main = failed })
  create : s.main ≡ accepted → Step s (record s { main = accepting; threads = created ∷ s.threads })
  no_thread : s.main ≡ accepted → Step s (record s { main = failed })
  thread_of_accepting :
      {fds : List ℕ} {l : List Pc}
      → s.main ≡ accepting
      → Some s.sfd_client s.open_fds s.threads fds l
      → Step s (record s { open_fds = fds; threads = l })
  thread_of_accepted :
      {fds : List ℕ} {l : List Pc}
      → s.main ≡ accepted
      → Some s.sfd_client s.open_fds s.threads fds l
      → Step s (record s { open_fds = fds; threads = l })

-- Only the server's descriptor is open.
abbrev pub start : ℕ → System
start server = record { sfd_client = none; open_fds = server ∷ []; main = accepting; threads = [] }

pub data Reach (server : ℕ) : System → Type 0 where
  here : Reach server (start server)
  later : {s t : System} → Reach server s → Step s t → Reach server t

-- When two clients come one after the other, both threads can take the descriptor of the second: the
-- first client is connected and no thread serves it.
pub clients_mixed :
    (server a b : ℕ)
    → contains (server ∷ []) a ≡ false
    → contains (a ∷ server ∷ []) b ≡ false
    → Reach server (record {
      sfd_client = some b;
      open_fds = b ∷ a ∷ server ∷ [];
      main = accepting;
      threads = serving b ∷ serving b ∷ [];
    })
clients_mixed server a b fresh_a fresh_b =
    let r1 = Reach.later Reach.here (Step.accept a refl fresh_a) in
    let r2 = Reach.later r1 (Step.create refl) in
    let r3 = Reach.later r2 (Step.accept b refl fresh_b) in
    let r4 = Reach.later r3 (Step.create refl) in
    let r5 = Reach.later r4 (Step.thread_of_accepting refl (Some.this (Move.fetch refl))) in
    Reach.later r5 (Step.thread_of_accepting refl (Some.other (Some.this (Move.fetch refl))))
