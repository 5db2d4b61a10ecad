-- ===== src/Posix.antt =====
-- A process of practice/practice_device_bd as the calls that it makes of the system, and what it
-- does with each answer.
pub mod Safety
pub mod Handles
use edge_embedded_linux.Common.{ℕ, zero, suc, List, [], ◌∷◌, length, Option, none, some}

-- The calls of the programs, with the arguments that matter to what follows. A descriptor is a
-- number, text and buffers are lists of bytes.
pub data Call : Type 0 where
  socket : Call
  set_reuse : (fd : ℕ) → Call
  bind : (fd port : ℕ) → Call
  listen : (fd backlog : ℕ) → Call
  accept : (fd : ℕ) → Call
  select : (fds : List ℕ) → Call
  read : (fd size : ℕ) → Call
  write : (fd : ℕ) (buf : List ℕ) → Call
  close : (fd : ℕ) → Call
  recv_from : (fd size : ℕ) → Call
  send_to : (fd : ℕ) (buf : List ℕ) → Call
  fork : Call
  signal_chld : (ignore : ℕ) → Call
  popen : (cmd : List ℕ) → Call
  fread : (fp size : ℕ) → Call
  fwrite : (fp : ℕ) (buf : List ℕ) → Call
  pclose : (fp : ℕ) → Call
  open_file : (path : List ℕ) → Call
  create_file : (path : List ℕ) → Call  -- O_CREAT with O_EXCL
  open_create : (path : List ℕ) → Call  -- O_CREAT without it
  -- ioctl() on a GPIO chip. What the driver stores through the argument is the value given back: the
  -- number of lines, the descriptor of a requested line, a line's level.
  chip_info : (fd : ℕ) → Call
  line_info : (fd line : ℕ) → Call
  line_handle : (fd line : ℕ) (output : ℕ) → Call
  get_line : (handle : ℕ) → Call
  set_line : (handle level : ℕ) → Call
  rand : Call
  sleep : (usec : ℕ) → Call
  stat : (path : List ℕ) → Call
  getpid : Call
  mkfifo : (path : List ℕ) → Call
  pipe : Call
  wait : Call
  malloc : (size : ℕ) → Call
  execl : (args : List (List ℕ)) → Call
  waitpid : (pid : ℕ) → Call
  mmap : (fd size offset : ℕ) → Call
  munmap : (address size : ℕ) → Call
  calloc : (count size : ℕ) → Call
  free : (address : ℕ) → Call
  -- ioctl() on a frame buffer and on a camera, named for the request. A structure that the driver fills
  -- is given back as `bytes`: the fields that the program reads, in the order that it names.
  screen_info : (fd : ℕ) → Call
  fix_info : (fd : ℕ) → Call
  query_cap : (fd : ℕ) → Call
  crop_cap : (fd : ℕ) → Call
  set_crop : (fd : ℕ) → Call
  set_format : (fd width height : ℕ) → Call
  request_buffers : (fd count : ℕ) → Call
  query_buffer : (fd index : ℕ) → Call
  queue_buffer : (fd index : ℕ) → Call
  dequeue_buffer : (fd : ℕ) → Call
  stream_on : (fd : ℕ) → Call
  stream_off : (fd : ℕ) → Call

-- What a call gives back: a number, the bytes put into the caller's buffer (the call then returns
-- how many), or a failure (-1 or NULL) with its `errno`.
pub data Reply : Type 0 where
  value : ℕ → Reply
  bytes : List ℕ → Reply
  failed : (errno : ℕ) → Reply

abbrev pub number : Reply → Option ℕ
number (value n) = some n
number (bytes b) = some (length b)
number (failed e) = none

-- What a call that fills a buffer left in it; `none` is -1.
abbrev pub received : Reply → Option (List ℕ)
received (value n) = some []
received (bytes b) = some b
received (failed e) = none

-- `fault` is undefined behaviour of C, such as a store outside an array; `spin` stands where the
-- rounds given to an endless loop are used up.
pub data Prog (A : Type 0) : Type 0 where
  return : A → Prog A
  exit : (code : ℕ) → Prog A
  fault : Prog A
  spin : Prog A
  call : Call → (Reply → Prog A) → Prog A

infixl 5 ◌>>=◌ ◌>>◌
abbrev pub ◌>>=◌ : {A B : Type 0} → Prog A → (A → Prog B) → Prog B
return a >>= f = f a
exit n >>= f = exit n
fault >>= f = fault
spin >>= f = spin
call c k >>= f = call c (λ r. k r >>= f)

abbrev pub ◌>>◌ : {A B : Type 0} → Prog A → Prog B → Prog B
m >> k = m >>= λ _. k

-- The return value, with -1 as `none`.
abbrev pub ask : Call → Prog (Option ℕ)
ask c = call c (λ r. return (number r))

abbrev pub fill : Call → Prog (Option (List ℕ))
fill c = call c (λ r. return (received r))

-- The same for a call that fills a structure.
abbrev pub must_fill : Call → Prog (List ℕ)
must_fill c = call c (λ r. elim (received r) [ none ↦ exit 1 | some b ↦ return b ])

-- The field at a place of a structure, 0 where the driver gives none.
abbrev pub field : List ℕ → ℕ → ℕ
field [] i = 0
field (x ∷ l) zero = x
field (x ∷ l) (suc i) = field l i

-- A call whose result the program does not look at.
abbrev pub tell : Call → Prog (Unit {0})
tell c = call c (λ _. return tt)

-- `if (ret == -1) return EXIT_FAILURE;`
abbrev pub must : Call → Prog ℕ
must c = call c (λ r. elim (number r) [ none ↦ exit 1 | some n ↦ return n ])

pub data Event : Type 0 where
  did : Call → Reply → Event
  waits : Call → Event

pub data End (A : Type 0) : Type 0 where
  returned : A → End A
  exited : ℕ → End A
  faulted : End A
  spun : End A
  blocked : End A

-- The events of a run in which the system gives these answers, and its end: `blocked` in a call
-- that has no answer.
unfoldable pub run : {A : Type 0} → Prog A → List Reply → List Event × End A
run (return a) rs = ([], returned a)
run (exit n) rs = ([], exited n)
run fault rs = ([], faulted)
run spin rs = ([], spun)
run (call c k) [] = (waits c ∷ [], blocked)
run (call c k) (r ∷ rs) = let (t, e) = run (k r) rs in (did c r ∷ t, e)
