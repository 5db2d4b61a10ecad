-- ===== src/Camera/Protocol.antt =====
-- What the drivers of a camera and of a frame buffer allow, and what they promise.
use edge_embedded_linux.Common.{
  ℕ, ◌≡◌, ◌⊎◌, ◌+◌, ◌*◌, ◌≤◌, ◌<◌, Bool, true, false, not, ◌&&◌, ◌||◌, List, [], ◌∷◌, ◌++◌, Option,
  none, some, ◌==◌,
}
use edge_embedded_linux.Posix.{
  Call, select, open_file, close, mmap, munmap, screen_info, fix_info, query_cap, crop_cap,
  set_crop, set_format, request_buffers, query_buffer, queue_buffer, dequeue_buffer, stream_on,
  stream_off, Reply, value, bytes, failed, field,
}
use edge_embedded_linux.Posix.Safety.{Monitor}
use edge_embedded_linux.Screen.{ScreenInfo}
use edge_embedded_linux.Screen.Pixel.{HasDepth}
use edge_embedded_linux.Screen.Main.{fb_size, info_of, Inside}
use edge_embedded_linux.Camera.Store.{IsPacked, IsBytes}
use edge_embedded_linux.Camera.Program.{from}

-- The open camera and frame buffer, the screen's mapping and those of the camera's buffers in order,
-- the number of buffers, which of them the driver has, and whether it fills them.
pub record State : Type 0 where
  pub cam : Option ℕ
  pub fb : Option ℕ
  pub screen : Option (ℕ × ℕ)
  pub maps : List (ℕ × ℕ)
  pub var : List ℕ
  pub info : ScreenInfo
  pub formatted : Bool
  pub width : ℕ
  pub height : ℕ
  pub count : ℕ
  pub queued : ℕ → Bool
  pub streaming : Bool

abbrev pub holds : Option ℕ → ℕ → Bool
holds none fd = false
holds (some n) fd = n == fd

abbrev pub CanClose : Option ℕ → Option ℕ → ℕ → Type 0
CanClose (some c) fb fd = c ≡ fd
CanClose none fb fd = fb ≡ some fd

-- The buffers in the order of their mapping, and then the screen.
abbrev pub CanUnmap : List (ℕ × ℕ) → Option (ℕ × ℕ) → ℕ × ℕ → Type 0
CanUnmap [] screen m = screen ≡ some m
CanUnmap (x ∷ l) screen m = x ≡ m

abbrev pub Allowed : State → Call → Type 0
Allowed s (select fds) = (s.streaming ≡ true) × (fds ≡ each s.cam)
  where
    each : Option ℕ → List ℕ
    each none = []
    each (some fd) = fd ∷ []
Allowed s (screen_info fd) = s.fb ≡ some fd
Allowed s (fix_info fd) = s.fb ≡ some fd
Allowed s (mmap fd size offset) = (s.cam ≡ some fd) ⊎ (s.fb ≡ some fd)
Allowed s (munmap address size) = CanUnmap s.maps s.screen (address, size) × (s.streaming ≡ false)
Allowed s (close fd) = CanClose s.cam s.fb fd × (s.streaming ≡ false)
Allowed s (query_cap fd) = s.cam ≡ some fd
Allowed s (crop_cap fd) = s.cam ≡ some fd
Allowed s (set_crop fd) = s.cam ≡ some fd
Allowed s (set_format fd width height) = (s.cam ≡ some fd) × (s.count ≡ 0)
Allowed s (request_buffers fd count) = (s.cam ≡ some fd) × (s.formatted ≡ true)
Allowed s (query_buffer fd i) = (s.cam ≡ some fd) × (i < s.count)
Allowed s (queue_buffer fd i) = (s.cam ≡ some fd) × (i < s.count) × (s.queued i ≡ false)
Allowed s (stream_on fd) = (s.cam ≡ some fd) × ((i : ℕ) → i < s.count → s.queued i ≡ true)
Allowed s (dequeue_buffer fd) = (s.cam ≡ some fd) × (s.streaming ≡ true)
Allowed s (stream_off fd) = (s.cam ≡ some fd) × (s.streaming ≡ true)
Allowed s c = Unit

-- A screen of 16 or 32 bits whose lines follow each other and that is not scrolled.
pub record IsPlain (info : ScreenInfo) : Type 0 where
  pub deep : HasDepth info
  pub packed : IsPacked info
  pub clears : Inside info info.xoffset info.yoffset info.xres info.yres

-- A frame of this format fits on the screen at (x, y).
pub record FitsAt (x y : ℕ) (info : ScreenInfo) (width height : ℕ) : Type 0 where
  pub across : x + width ≤ info.xres
  pub down : (y + height) * info.line_length ≤ fb_size info

-- The driver says what the format is and what the buffers are, every one holds a frame, and it gives
-- back one that it has, with bytes in it. Other requests of it fill nothing that is read.
abbrev pub OnBytes : ℕ → ℕ → State → Call → List ℕ → Type 0
OnBytes x y s (fix_info fd) b = IsPlain (info_of s.var b)
OnBytes x y s (set_format fd width height) b = FitsAt x y s.info (field b 0) (field b 1)
OnBytes x y s (query_buffer fd i) b = s.height * s.width * 2 ≤ field b 0
OnBytes x y s (dequeue_buffer fd) b = (s.queued (field b 0) ≡ true) × IsBytes (from b 2)
OnBytes x y s (open_file path) b = ⊥
OnBytes x y s (mmap fd size offset) b = ⊥
OnBytes x y s c b = Unit

abbrev pub OnValue : State → Call → ℕ → Type 0
OnValue s (open_file path) fd = holds s.cam fd ≡ false
OnValue s (screen_info fd) r = ⊥
OnValue s (fix_info fd) r = ⊥
OnValue s (set_format fd width height) r = ⊥
OnValue s (request_buffers fd count) r = ⊥
OnValue s (query_buffer fd i) r = ⊥
OnValue s (dequeue_buffer fd) r = ⊥
OnValue s c r = Unit

abbrev pub Conforms : ℕ → ℕ → State → Call → Reply → Type 0
Conforms x y s c (value n) = OnValue s c n
Conforms x y s c (bytes b) = OnBytes x y s c b
Conforms x y s c (failed e) = Unit

abbrev pub opened : State → Option ℕ → ℕ → State
opened s none fd = record s { cam = some fd }
opened s (some c) fd = record s { fb = some fd }

abbrev pub closed : State → Option ℕ → State
closed s none = record s { fb = none }
closed s (some c) = record s { cam = none }

abbrev pub unmapped : State → List (ℕ × ℕ) → State
unmapped s [] = record s { screen = none }
unmapped s (x ∷ l) = record s { maps = l }

abbrev pub mapped : State → Bool → ℕ × ℕ → State
mapped s true m = record s { maps = s.maps ++ (m ∷ []) }
mapped s false m = record s { screen = some m }

-- Whatever a call gives back that does not fail.
abbrev pub done : State → Call → State
done s (close fd) = closed s s.cam
done s (munmap address size) = unmapped s s.maps
done s (queue_buffer fd i) = record s { queued = λ j. j == i || s.queued j }
done s (stream_on fd) = record s { streaming = true }
done s (stream_off fd) = record s { streaming = false }
done s c = s

abbrev pub after_value : State → Call → ℕ → State
after_value s (open_file path) fd = opened s s.cam fd
after_value s (mmap fd size offset) a = mapped s (holds s.cam fd) (a, size)
after_value s c r = done s c

abbrev pub after_bytes : State → Call → List ℕ → State
after_bytes s (screen_info fd) b = record s { var = b }
after_bytes s (fix_info fd) b = record s { info = info_of s.var b }
after_bytes s (set_format fd width height) b = record s {
  formatted = true;
  width = field b 0;
  height = field b 1;
}
after_bytes s (request_buffers fd count) b = record s { count = field b 0 }
after_bytes s (dequeue_buffer fd) b = record s { queued = λ j. s.queued j && not (j == field b 0) }
after_bytes s c b = done s c

-- A call that fails changes nothing.
abbrev pub after : State → Call → Reply → State
after s c (value n) = after_value s c n
after s c (bytes b) = after_bytes s c b
after s c (failed e) = s

abbrev pub devices : ℕ → ℕ → Monitor
devices x y = record { State = State; allowed = Allowed; conforms = Conforms x y; after = after }

abbrev pub idle : State
idle = record {
  cam = none;
  fb = none;
  screen = none;
  maps = [];
  var = [];
  info = info_of [] [];
  formatted = false;
  width = 0;
  height = 0;
  count = 0;
  queued = λ _. false;
  streaming = false;
}

-- Everything is given back.
pub record Released (s : State) : Type 0 where
  pub cam : s.cam ≡ none
  pub fb : s.fb ≡ none
  pub screen : s.screen ≡ none
  pub maps : s.maps ≡ []
  pub streaming : s.streaming ≡ false

abbrev pub Exits : ℕ → State → Type 0
Exits n s = n ≡ 1
