-- ===== src/Tcp/Ledger.antt =====
-- What an echo server owes: which descriptors are open, and the block that has been read and not
-- yet written back.
use edge_embedded_linux.Common.{
  ℕ, zero, ◌≡◌, ◌≤◌, ◌<◌, Bool, true, false, List, ◌∷◌, length, Option, none, some,
}
use edge_embedded_linux.FdSet.{contains, remove}
use edge_embedded_linux.Posix.{
  Call, socket, set_reuse, bind, listen, accept, select, read, write, close, fork, Reply, value,
  bytes,
}
use edge_embedded_linux.Posix.Safety.{Monitor}

pub record State : Type 0 where
  pub fds : List ℕ
  pub owed : Option (ℕ × List ℕ)
  pub child : Bool  -- whether fork() has returned 0

-- Only open descriptors are used. A block is written back to where it came from, whole and
-- unchanged, before anything else is asked of any client.
abbrev pub Allowed : State → Call → Type 0
Allowed s (set_reuse fd) = contains s.fds fd ≡ true
Allowed s (bind fd port) = contains s.fds fd ≡ true
Allowed s (listen fd backlog) = contains s.fds fd ≡ true
Allowed s (accept fd) = (contains s.fds fd ≡ true) × (s.owed ≡ none)
Allowed s (select l) =
    ((fd : ℕ) → contains l fd ≡ true → contains s.fds fd ≡ true) × (s.owed ≡ none)
Allowed s (read fd size) = (contains s.fds fd ≡ true) × (s.owed ≡ none)
Allowed s (write fd b) = (contains s.fds fd ≡ true) × (s.owed ≡ some (fd, b))
Allowed s (close fd) = (contains s.fds fd ≡ true) × (s.owed ≡ none)
Allowed s c = Unit

-- A new descriptor is one that is not open and lies below the limit on descriptors of the process
-- (RLIMIT_NOFILE); read() stores no more than it was given room for; select() marks descriptors that
-- it was given.
abbrev pub Conforms : ℕ → State → Call → Reply → Type 0
Conforms limit s socket (value fd) = (contains s.fds fd ≡ false) × (fd < limit)
Conforms limit s (accept server) (value fd) = (contains s.fds fd ≡ false) × (fd < limit)
Conforms limit s (select l) (bytes ready) =
    (fd : ℕ) → contains ready fd ≡ true → contains l fd ≡ true
Conforms limit s (read fd size) (bytes b) = length b ≤ size
Conforms limit s socket (bytes b) = ⊥
Conforms limit s (accept server) (bytes b) = ⊥
Conforms limit s fork (bytes b) = ⊥
Conforms limit s c r = Unit

abbrev pub after : State → Call → Reply → State
after s socket (value fd) = record s { fds = fd ∷ s.fds }
after s (accept server) (value fd) = record s { fds = fd ∷ s.fds }
after s (read fd size) (bytes (x ∷ b)) = record s { owed = some (fd, x ∷ b) }
after s (write fd b) r = record s { owed = none }
after s fork (value zero) = record s { child = true }
after s (close fd) r = record s { fds = remove fd s.fds }
after s c r = s

abbrev pub ledger : ℕ → Monitor
ledger limit = record { State = State; allowed = Allowed; conforms = Conforms limit; after = after }

-- These descriptors are open, and nothing is owed.
abbrev pub at_rest : Bool → List ℕ → State
at_rest child l = record { fds = l; owed = none; child = child }

abbrev pub quiet : List ℕ → State
quiet l = at_rest false l
