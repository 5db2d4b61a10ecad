-- ===== src/Files.antt =====
-- The file programs EX01-07_file_copy (cpfile, mkfile) and EX01-08_file_copy_block (cpfile_block).
-- The number that a program prints at its end is the value that it returns here.
pub mod Ledger
pub mod Safety
pub mod Digits
pub mod Blocks
pub mod Runs
use edge_embedded_linux.Common.{
  ℕ, zero, suc, ◌+◌, ◌-◌, ◌%◌, ◌^◌, List, [], ◌∷◌, length, Option, none, some, leb, if◌then◌else◌,
}
use edge_embedded_linux.Posix.{
  open_file, create_file, open_create, read, write, close, Prog, return, exit, fault, spin, ◌>>=◌,
  ◌>>◌, ask, fill, tell, must,
}
use edge_embedded_linux.Tcp.{want_args}

-- One byte that read() has put into `c`, or the end of the file.
abbrev pub copy_byte : ℕ → (ℕ → Prog ℕ) → ℕ → Option (List ℕ) → Prog ℕ
copy_byte dst rest copied none = exit 1
copy_byte dst rest copied (some []) = return copied
copy_byte dst rest copied (some (c ∷ b)) = do
  must (write dst (c ∷ []))
  rest ((copied + 1) % 2 ^ 32)

-- The copying loop of cpfile; `copied` is an unsigned int.
unfoldable pub copy : ℕ → ℕ → ℕ → ℕ → Prog ℕ
copy zero src dst copied = spin
copy (suc n) src dst copied = do r ← fill (read src 1); copy_byte dst (copy n src dst) copied r

unfoldable pub cpfile_main : ℕ → List ℕ → List ℕ → ℕ → Prog ℕ
cpfile_main argc src_name dst_name n = do
  want_args 3 argc
  src ← must (open_file src_name)
  dst ← must (create_file dst_name)
  copied ← copy n src dst 0
  tell (close src)
  tell (close dst)
  return copied

-- The loop of mkfile from `i` on, with `left` bytes to go.
unfoldable pub make_bytes : ℕ → ℕ → ℕ → Prog (Unit {0})
make_bytes zero fd i = return tt
make_bytes (suc left) fd i = do must (write fd ((i % 10 + 48) ∷ [])); make_bytes left fd (i + 1)

-- `size` is what atoi() makes of the second argument, with 0 for a negative number.
unfoldable pub mkfile_main : ℕ → List ℕ → ℕ → Prog (Unit {0})
mkfile_main argc name size = do
  want_args 3 argc
  fd ← must (create_file name)
  make_bytes size fd 0
  tell (close fd)

abbrev pub max_block_size : ℕ
max_block_size = 4096

-- An int that is -1 on failure, as 32 bits.
abbrev pub word : Option ℕ → ℕ
word none = 2 ^ 32 - 1
word (some n) = n

-- A block is written before its length is looked at. After a failed read the length given to write()
-- is -1, far more than `buf` holds.
abbrev pub write_block : ℕ → (ℕ → Prog ℕ) → ℕ → Option (List ℕ) → Prog ℕ
write_block dst rest copied none = fault
write_block dst rest copied (some []) = do tell (write dst []); return copied
write_block dst rest copied (some (x ∷ b)) = do
  tell (write dst (x ∷ b))
  rest ((copied + length (x ∷ b)) % 2 ^ 32)

unfoldable pub copy_blocks : ℕ → ℕ → ℕ → ℕ → ℕ → Prog ℕ
copy_blocks zero size src dst copied = spin
copy_blocks (suc n) size src dst copied = do
  r ← fill (read src size)
  write_block dst (copy_blocks n size src dst) copied r

-- A block size that is too big is EXIT_FAILURE; what open() gives back is not tested.
unfoldable pub cpfile_block_main : ℕ → List ℕ → List ℕ → ℕ → ℕ → Prog ℕ
cpfile_block_main argc src_name dst_name size n = do
  want_args 4 argc
  (if leb size max_block_size then return tt else exit 1)
  src ← ask (open_file src_name)
  dst ← ask (open_create dst_name)
  copied ← copy_blocks n size (word src) (word dst) 0
  tell (close (word dst))
  tell (close (word src))
  return copied
