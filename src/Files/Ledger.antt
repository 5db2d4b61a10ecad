-- ===== src/Files/Ledger.antt =====
-- What has been read from the source file and what has been written to the other one.
use edge_embedded_linux.Common.{
  ℕ, ◌≡◌, ◌≢◌, ◌⊎◌, ◌≤◌, ◌<◌, Bool, false, List, [], ◌∷◌, ◌++◌, length, take, Option, none, some,
  ◌==◌, ◌||◌, ltb, if◌then◌else◌,
}
use edge_embedded_linux.Posix.{
  Call, open_file, create_file, open_create, read, write, close, Reply, value, bytes, failed,
}
use edge_embedded_linux.Posix.Safety.{Monitor}

pub record State : Type 0 where
  pub src : Option ℕ
  pub dst : Option ℕ
  pub inp : List ℕ
  pub out : List ℕ
  pub eof : Bool

-- Only open files are used, and read in the one direction, written in the other.
abbrev pub Allowed : State → Call → Type 0
Allowed s (read fd size) = s.src ≡ some fd
Allowed s (write fd b) = s.dst ≡ some fd
Allowed s (close fd) = (s.src ≡ some fd) ⊎ (s.dst ≡ some fd)
Allowed s c = Unit

-- read() stores no more than it was given room for. A write() of some bytes writes at least one,
-- and may write fewer than it was given.
abbrev pub Conforms : State → Call → Reply → Type 0
Conforms s (create_file path) (value fd) = s.src ≢ some fd
Conforms s (open_create path) (value fd) = s.src ≢ some fd
Conforms s (read fd size) (bytes b) = length b ≤ size
Conforms s (read fd size) (value n) = ⊥
Conforms s (write fd (x ∷ b)) (value n) = (0 < n) × (n ≤ length (x ∷ b))
Conforms s (open_file path) (bytes b) = ⊥
Conforms s (create_file path) (bytes b) = ⊥
Conforms s (open_create path) (bytes b) = ⊥
Conforms s (write fd b) (bytes b') = ⊥
Conforms s c r = Unit

abbrev pub forget : ℕ → Option ℕ → Option ℕ
forget fd none = none
forget fd (some n) = if n == fd then none else some n

-- Nothing read is the end of the file, where something was asked for.
abbrev pub after : State → Call → Reply → State
after s (open_file path) (value fd) = record s { src = some fd }
after s (create_file path) (value fd) = record s { dst = some fd }
after s (open_create path) (value fd) = record s { dst = some fd }
after s (read fd size) (bytes []) = record s { eof = s.eof || ltb 0 size }
after s (read fd size) (bytes (x ∷ b)) = record s { inp = s.inp ++ (x ∷ b) }
after s (write fd b) (value n) = record s { out = s.out ++ take n b }
after s (close fd) r = record s { src = forget fd s.src; dst = forget fd s.dst }
after s c r = s

abbrev pub files : Monitor
files = record { State = State; allowed = Allowed; conforms = Conforms; after = after }

-- A system in which no call fails and write() writes everything.
abbrev pub Smooth : State → Call → Reply → Type 0
Smooth s (open_file path) (failed e) = ⊥
Smooth s (open_create path) (failed e) = ⊥
Smooth s (read fd size) (failed e) = ⊥
Smooth s (write fd b) (failed e) = ⊥
Smooth s (write fd b) (value n) = n ≡ length b
Smooth s c r = Conforms s c r

abbrev pub smooth_files : Monitor
smooth_files = record { State = State; allowed = Allowed; conforms = Smooth; after = after }

abbrev pub start : State
start = record { src = none; dst = none; inp = []; out = []; eof = false }

-- Everything read so far has been written.
abbrev pub level : ℕ → ℕ → List ℕ → State
level src dst l = record { src = some src; dst = some dst; inp = l; out = l; eof = false }
