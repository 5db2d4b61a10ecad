-- ===== src/Posix/Handles.antt =====
-- Which descriptors and which popen() streams of a process are open.
use edge_embedded_linux.Common.{ℕ, ◌≡◌, ◌≤◌, true, false, List, ◌∷◌, length}
use edge_embedded_linux.FdSet.{contains, remove}
use edge_embedded_linux.Posix.{
  Call, socket, set_reuse, bind, listen, accept, read, write, close, recv_from, send_to, popen,
  fread, fwrite, pclose, open_file, chip_info, line_info, line_handle, get_line, set_line, Reply,
  value, bytes,
}
use edge_embedded_linux.Posix.Safety.{Monitor}

pub record State : Type 0 where
  pub fds : List ℕ
  pub pipes : List ℕ

-- Only open descriptors and streams are used or closed.
abbrev pub Allowed : State → Call → Type 0
Allowed s (set_reuse fd) = contains s.fds fd ≡ true
Allowed s (bind fd port) = contains s.fds fd ≡ true
Allowed s (listen fd backlog) = contains s.fds fd ≡ true
Allowed s (accept fd) = contains s.fds fd ≡ true
Allowed s (read fd size) = contains s.fds fd ≡ true
Allowed s (write fd b) = contains s.fds fd ≡ true
Allowed s (close fd) = contains s.fds fd ≡ true
Allowed s (recv_from fd size) = contains s.fds fd ≡ true
Allowed s (send_to fd b) = contains s.fds fd ≡ true
Allowed s (fread fp size) = contains s.pipes fp ≡ true
Allowed s (fwrite fp b) = contains s.pipes fp ≡ true
Allowed s (pclose fp) = contains s.pipes fp ≡ true
Allowed s (chip_info fd) = contains s.fds fd ≡ true
Allowed s (line_info fd line) = contains s.fds fd ≡ true
Allowed s (line_handle fd line output) = contains s.fds fd ≡ true
Allowed s (get_line handle) = contains s.fds handle ≡ true
Allowed s (set_line handle level) = contains s.fds handle ≡ true
Allowed s c = Unit

-- What the environment does: the longest block that a peer sends in one piece, and the longest
-- output that is read from a stream at once.
pub record Bounds : Type 0 where
  pub block : ℕ
  pub output : ℕ

abbrev pub Conforms : Bounds → State → Call → Reply → Type 0
Conforms bs s socket (value fd) = contains s.fds fd ≡ false
Conforms bs s (accept server) (value fd) = contains s.fds fd ≡ false
Conforms bs s (open_file path) (value fd) = contains s.fds fd ≡ false
Conforms bs s (line_handle fd line output) (value handle) = contains s.fds handle ≡ false
Conforms bs s (popen cmd) (value fp) = contains s.pipes fp ≡ false
Conforms bs s (read fd size) (bytes b) = (length b ≤ size) × (length b ≤ bs.block)
Conforms bs s (recv_from fd size) (bytes b) = (length b ≤ size) × (length b ≤ bs.block)
Conforms bs s (fread fp size) (bytes b) = (length b ≤ size) × (length b ≤ bs.output)
Conforms bs s socket (bytes b) = ⊥
Conforms bs s (accept server) (bytes b) = ⊥
Conforms bs s (open_file path) (bytes b) = ⊥
Conforms bs s (line_handle fd line output) (bytes b) = ⊥
Conforms bs s (popen cmd) (bytes b) = ⊥
Conforms bs s c r = Unit

abbrev pub after : State → Call → Reply → State
after s socket (value fd) = record s { fds = fd ∷ s.fds }
after s (accept server) (value fd) = record s { fds = fd ∷ s.fds }
after s (open_file path) (value fd) = record s { fds = fd ∷ s.fds }
after s (line_handle fd line output) (value handle) = record s { fds = handle ∷ s.fds }
after s (popen cmd) (value fp) = record s { pipes = fp ∷ s.pipes }
after s (close fd) r = record s { fds = remove fd s.fds }
after s (pclose fp) r = record s { pipes = remove fp s.pipes }
after s c r = s

abbrev pub handles : Bounds → Monitor
handles bs = record { State = State; allowed = Allowed; conforms = Conforms bs; after = after }

abbrev pub holding : List ℕ → List ℕ → State
holding fds pipes = record { fds = fds; pipes = pipes }
