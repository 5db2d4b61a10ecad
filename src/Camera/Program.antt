-- ===== src/Camera/Program.antt =====
-- v4l2test of EX06-04_v4l2test, as the calls that it makes: frames of a camera are shown on the
-- frame buffer.
use edge_embedded_linux.Common.{
  ℕ, zero, suc, ◌+◌, List, [], ◌∷◌, length, Option, none, some, ◌==◌, if◌then◌else◌,
}
use edge_embedded_linux.Posix.{
  select, queue_buffer, dequeue_buffer, Reply, value, bytes, failed, Prog, return, exit, spin, call,
  ◌>>=◌, ◌>>◌, field,
}
use edge_embedded_linux.Screen.{Bytes}
use edge_embedded_linux.Screen.Main.{fb_size, drawn}
use edge_embedded_linux.Camera.{capture_to_fb}
use edge_embedded_linux.Camera.Devices.{
  eintr, eagain, aborted, xioctl, must_xioctl, Screen, Buffer, Video, open_device, init_device,
  start_capturing, stop_capturing, uninit_device, close_device,
}
use edge_embedded_linux.Camera.Setup.{Setup, default_setup, Opt, set_options}

abbrev pub buffer_at : List Buffer → ℕ → Option Buffer
buffer_at [] i = none
buffer_at (b ∷ l) zero = some b
buffer_at (b ∷ l) (suc i) = buffer_at l i

-- process_image() on a buffer that holds `held` by now. A load or store outside is undefined
-- behaviour.
abbrev pub process_image : Setup → Screen → Video → Buffer → Bytes → Bytes → Prog Bytes
process_image setup sc v b held m =
    drawn (
      capture_to_fb sc.info (fb_size sc.info) v.width v.height setup.xpos setup.ypos b.length held
        m)

-- The assertion on the index, and the rest of read_frame().
abbrev pub show_frame :
    ℕ → Setup → Screen → Video → (index : ℕ) → Option Buffer → Bytes → Bytes → Prog (ℕ × Bytes)
show_frame n setup sc v index none held m = exit aborted
show_frame n setup sc v index (some b) held m = do
  m ← process_image setup sc v b held m
  must_xioctl n (queue_buffer v.fd index)
  return (1, m)

abbrev pub from : List ℕ → ℕ → Bytes
from l k i = field l (k + i)

-- A dequeued buffer is given back as its index, the bytes used and then what it holds.
abbrev pub on_frame : ℕ → Setup → Screen → Video → Bytes → Reply → Prog (ℕ × Bytes)
on_frame n setup sc v m (failed e) = if e == eagain then return (0, m) else exit 1
on_frame n setup sc v m (value r) = show_frame n setup sc v 0 (buffer_at v.buffers 0) (from [] 2) m
on_frame n setup sc v m (bytes b) =
    show_frame n setup sc v (field b 0) (buffer_at v.buffers (field b 0)) (from b 2) m

abbrev pub read_frame : ℕ → Setup → Screen → Video → Bytes → Prog (ℕ × Bytes)
read_frame n setup sc v m = do r ← xioctl n (dequeue_buffer v.fd); on_frame n setup sc v m r

-- A frame, or another round where there was none.
abbrev pub or_wait : (Bytes → Prog Bytes) → ℕ × Bytes → Prog Bytes
or_wait rest (zero, m) = rest m
or_wait rest (suc r, m) = return m

abbrev pub on_ready : Prog Bytes → Prog Bytes → Reply → Prog Bytes
on_ready rest frame (failed e) = if e == eintr then rest else exit 1
on_ready rest frame (value r) = if r == 0 then exit 1 else frame
on_ready rest frame (bytes b) = if length b == 0 then exit 1 else frame

-- The endless loop around select(), `k` rounds of it.
unfoldable pub next_frame : ℕ → ℕ → Setup → Screen → Video → Bytes → Prog Bytes
next_frame zero n setup sc v m = spin
next_frame (suc k) n setup sc v m = call (select (v.fd ∷ [])) (
    on_ready (next_frame k n setup sc v m)
      (read_frame n setup sc v m >>= or_wait (next_frame k n setup sc v)))

unfoldable pub mainloop : (count : ℕ) → ℕ → Setup → Screen → Video → Bytes → Prog Bytes
mainloop zero n setup sc v m = return m
mainloop (suc count) n setup sc v m = do
  m ← next_frame n n setup sc v m
  mainloop count n setup sc v m

-- main() with `n` rounds for each loop that may go on for ever. The result is what the screen shows.
unfoldable pub v4l2_main : ℕ → (List ℕ → Option ℕ) → List Opt → Bytes → Prog Bytes
v4l2_main n strtol options m = do
  setup ← set_options strtol options default_setup
  opened ← open_device setup m
  v ← init_device n opened.0
  start_capturing n v
  m ← mainloop setup.frame_count n setup opened.1 v opened.1.pixels
  stop_capturing n v
  uninit_device v
  close_device v opened.1
  return m
