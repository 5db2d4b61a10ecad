-- ===== src/Camera/Devices.antt =====
-- The camera and the frame buffer of v4l2test: opened, set up, started, stopped and closed, as the
-- calls that this takes.
use Prim.Native.Nat.{bit_and}
use edge_embedded_linux.Common.{
  ℕ, zero, suc, ◌+◌, List, [], ◌∷◌, length, none, some, ◌==◌, ltb, if◌then◌else◌,
}
use edge_embedded_linux.Posix.{
  Call, open_file, close, stat, mmap, munmap, calloc, free, query_cap, crop_cap, set_crop,
  set_format, request_buffers, query_buffer, queue_buffer, stream_on, stream_off, Reply, value,
  bytes, failed, received, Prog, return, exit, spin, call, ◌>>=◌, ◌>>◌, tell, must, must_fill,
  field,
}
use edge_embedded_linux.Screen.{Bytes, ScreenInfo, color_black, draw_rect}
use edge_embedded_linux.Screen.Main.{fb_size, get_info, drawn}
use edge_embedded_linux.Camera.Setup.{Setup}

-- errno
abbrev pub eintr : ℕ
eintr = 4

abbrev pub eagain : ℕ
eagain = 11

-- V4L2_CAP_VIDEO_CAPTURE and V4L2_CAP_STREAMING
abbrev pub cap_video_capture : ℕ
cap_video_capture = 1

abbrev pub cap_streaming : ℕ
cap_streaming = 0x04000000

-- What the shell reports of abort().
abbrev pub aborted : ℕ
aborted = 134

-- xioctl(): again while a signal interrupts it, at most `n` times here.
abbrev pub again : Prog Reply → Reply → Prog Reply
again rest (failed e) = if e == eintr then rest else return (failed e)
again rest (value n) = return (value n)
again rest (bytes b) = return (bytes b)

unfoldable pub xioctl : ℕ → Call → Prog Reply
xioctl zero c = spin
xioctl (suc n) c = call c (again (xioctl n c))

abbrev pub or_exit : Reply → Prog (List ℕ)
or_exit r = elim (received r) [ none ↦ exit 1 | some b ↦ return b ]

-- errno_exit() on a failure.
abbrev pub must_xioctl : ℕ → Call → Prog (List ℕ)
must_xioctl n c = do r ← xioctl n c; or_exit r

-- `fd_fb` with what is known of the screen, and what the mapping holds.
pub record Screen : Type 0 where
  pub fd_fb : ℕ
  pub info : ScreenInfo
  pub map_fb : ℕ
  pub pixels : Bytes

abbrev pub clear_fb : Setup → ScreenInfo → Bytes → Prog Bytes
clear_fb setup info m =
    if setup.clear_screen == 0
    then return m
    else drawn
        (draw_rect info.xoffset info.yoffset info.xres info.yres color_black info (fb_size info) m)

abbrev pub fb_init : Setup → Bytes → Prog Screen
fb_init setup m = do
  fd ← must (open_file setup.fb_name)
  info ← get_info fd
  map ← must (mmap fd (fb_size info) 0)
  m ← clear_fb setup info m
  return (record { fd_fb = fd; info = info; map_fb = map; pixels = m })

abbrev pub fb_close : Screen → Prog (Unit {0})
fb_close sc = do must (close sc.fd_fb); must (munmap sc.map_fb (fb_size sc.info)); return tt

-- S_ISCHR(st_mode)
abbrev pub open_char : Setup → List ℕ → Prog ℕ
open_char setup st =
    if bit_and (field st 0) 0xf000 == 0x2000 then must (open_file setup.dev_name) else exit 1

unfoldable pub open_device : Setup → Bytes → Prog (ℕ × Screen)
open_device setup m = do
  st ← must_fill (stat setup.dev_name)
  fd ← open_char setup st
  sc ← fb_init setup m
  return (fd, sc)

pub record Buffer : Type 0 where
  pub start : ℕ
  pub length : ℕ

unfoldable pub map_buffers : (left : ℕ) → (n fd n_buffers : ℕ) → Prog (List Buffer)
map_buffers zero n fd n_buffers = return []
map_buffers (suc left) n fd n_buffers = do
  buf ← must_xioctl n (query_buffer fd n_buffers)
  start ← must (mmap fd (field buf 0) (field buf 1))
  rest ← map_buffers left n fd (n_buffers + 1)
  return (record { start = start; length = field buf 0 } ∷ rest)

-- The address of the array of buffers, and the buffers.
abbrev pub init_counted : ℕ → ℕ → ℕ → Prog (ℕ × List Buffer)
init_counted n fd count = if ltb count 2 then exit 1 else (do
  array ← must (calloc count 16)
  buffers ← map_buffers count n fd 0
  return (array, buffers))

abbrev pub init_mmap : ℕ → ℕ → Prog (ℕ × List Buffer)
init_mmap n fd = do req ← must_xioctl n (request_buffers fd 4); init_counted n fd (field req 0)

-- A failure to crop is ignored.
abbrev pub crop : ℕ → ℕ → Reply → Prog (Unit {0})
crop n fd (failed e) = return tt
crop n fd (value r) = if r == 0 then xioctl n (set_crop fd) >> return tt else return tt
crop n fd (bytes b) = xioctl n (set_crop fd) >> return tt

abbrev pub need : ℕ → ℕ → Prog (Unit {0})
need capabilities bit = if bit_and capabilities bit == 0 then exit 1 else return tt

-- What the rest of the program keeps of the camera.
pub record Video : Type 0 where
  pub fd : ℕ
  pub width : ℕ
  pub height : ℕ
  pub array : ℕ
  pub buffers : List Buffer

unfoldable pub init_device : ℕ → ℕ → Prog Video
init_device n fd = do
  cap ← must_xioctl n (query_cap fd)
  need (field cap 0) cap_video_capture
  need (field cap 0) cap_streaming
  cropcap ← xioctl n (crop_cap fd)
  crop n fd cropcap
  fmt ← must_xioctl n (set_format fd 640 480)
  mapped ← init_mmap n fd
  return (record {
    fd = fd;
    width = field fmt 0;
    height = field fmt 1;
    array = mapped.0;
    buffers = mapped.1;
  })

unfoldable pub queue_all : (left : ℕ) → (n fd i : ℕ) → Prog (Unit {0})
queue_all zero n fd i = return tt
queue_all (suc left) n fd i = do must_xioctl n (queue_buffer fd i); queue_all left n fd (i + 1)

abbrev pub start_capturing : ℕ → Video → Prog (Unit {0})
start_capturing n v = do
  queue_all (length v.buffers) n v.fd 0
  must_xioctl n (stream_on v.fd)
  return tt

abbrev pub stop_capturing : ℕ → Video → Prog (Unit {0})
stop_capturing n v = must_xioctl n (stream_off v.fd) >> return tt

unfoldable pub unmap_all : List Buffer → Prog (Unit {0})
unmap_all [] = return tt
unmap_all (b ∷ l) = do must (munmap b.start b.length); unmap_all l

abbrev pub uninit_device : Video → Prog (Unit {0})
uninit_device v = do unmap_all v.buffers; tell (free v.array)

abbrev pub close_device : Video → Screen → Prog (Unit {0})
close_device v sc = do must (close v.fd); fb_close sc
