-- ===== src/Camera/Runs.antt =====
-- The loop of v4l2test on frames that come without a failure.
use edge_embedded_linux.Common.{
  ℕ, suc, ◌≡◌, refl, ap, ◌∙◌, ◌-◌, ◌*◌, ◌/◌, ◌<◌, Bool, ◌&&◌, List, [], ◌∷◌, length, Option, none,
  some, if◌then◌else◌,
}
use edge_embedded_linux.Posix.{
  select, queue_buffer, dequeue_buffer, Reply, value, bytes, Event, did, End, returned, exited,
  faulted, spun, blocked, run, Prog, return, ◌>>=◌, ◌>>◌,
}
use edge_embedded_linux.Screen.{Bytes}
use edge_embedded_linux.Screen.Pixel.{within, pixel, InLine, Shows}
use edge_embedded_linux.Screen.Rect.{paint}
use edge_embedded_linux.Screen.Main.{fb_size, drawn}
use edge_embedded_linux.Camera.{capture_to_fb}
use edge_embedded_linux.Camera.Store.{frame_color, IsBytes}
use edge_embedded_linux.Camera.Blit.{capture_to_fb_refines}
use edge_embedded_linux.Camera.Setup.{Setup}
use edge_embedded_linux.Camera.Devices.{Buffer, Video, Screen, xioctl, must_xioctl}
use edge_embedded_linux.Camera.Program.{buffer_at, show_frame, from, or_wait, next_frame, mainloop}
use edge_embedded_linux.Camera.Protocol.{IsPlain, FitsAt}
use edge_embedded_linux.Camera.Opening.{fb_size-lt}
use edge_embedded_linux.Camera.Mapping.{AllHold}
use edge_embedded_linux.Camera.Loop.{HasRoom, buffer_at-HasRoom}

-- A frame as the driver gives it back: the buffer, and the bytes used with what it holds.
pub record Frame : Type 0 where
  pub index : ℕ
  pub used : ℕ
  pub held : List ℕ

abbrev pub filled : Frame → List ℕ
filled f = f.index ∷ f.used ∷ f.held

abbrev pub frame_answers : List Frame → List Reply
frame_answers [] = []
frame_answers (f ∷ fs) = value 1 ∷ bytes (filled f) ∷ value 0 ∷ frame_answers fs

abbrev pub frame_events : ℕ → List Frame → List Event
frame_events fd [] = []
frame_events fd (f ∷ fs) =
    did (select (fd ∷ [])) (value 1)
    ∷ did (dequeue_buffer fd) (bytes (filled f))
    ∷ did (queue_buffer fd f.index) (value 0)
    ∷ frame_events fd fs

-- Each frame is in one of the `count` buffers, and holds bytes.
abbrev pub AreFrames : ℕ → List Frame → Type 0
AreFrames count [] = Unit
AreFrames count (f ∷ fs) = (f.index < count) × IsBytes (from (filled f) 2) × AreFrames count fs

-- What is seen of a pixel after the frames, from `z` on: the last of them, in their rectangle.
abbrev pub seen : Setup → Screen → Video → List Frame → (px py z : ℕ) → ℕ
seen setup sc v [] px py z = z
seen setup sc v (f ∷ fs) px py z = seen setup sc v fs px py (
    if within setup.xpos (v.width / 2 * 2) px && within setup.ypos v.height py
    then paint sc.info (frame_color v.width (from (filled f) 2) (py - setup.ypos) (px - setup.xpos))
    else z)

abbrev pub Displays : Setup → Screen → Video → List Frame → Bytes → End Bytes → Type 0
Displays setup sc v fs m (returned m') =
    (px py : ℕ)
    → InLine sc.info px
    → pixel sc.info m' px py ≡ seen setup sc v fs px py (pixel sc.info m px py)
Displays setup sc v fs m (exited n) = ⊥
Displays setup sc v fs m faulted = ⊥
Displays setup sc v fs m spun = ⊥
Displays setup sc v fs m blocked = ⊥

Displays-next :
    (setup : Setup) (sc : Screen) (v : Video) (f : Frame) (fs : List Frame) (m m' : Bytes)
    (e : End Bytes)
    → ((px py : ℕ)
        → InLine sc.info px
        → pixel sc.info m' px py ≡ seen setup sc v (f ∷ []) px py (pixel sc.info m px py))
    → Displays setup sc v fs m' e
    → Displays setup sc v (f ∷ fs) m e
Displays-next setup sc v f fs m m' (returned r) h d =
    λ px py line. d px py line ∙ ap (seen setup sc v fs px py) (h px py line)
Displays-next setup sc v f fs m m' (exited n) h d = d
Displays-next setup sc v f fs m m' faulted h d = d
Displays-next setup sc v f fs m m' spun h d = d
Displays-next setup sc v f fs m m' blocked h d = d

module _ (n : ℕ) (setup : Setup) (sc : Screen) (v : Video) (plain : IsPlain sc.info)
    (hold : AllHold (v.height * v.width * 2) v.buffers)
    (fits : FitsAt setup.xpos setup.ypos sc.info v.width v.height) where
  run-drawn :
      (i : ℕ) (o : Option Bytes) (m : Bytes) (test : ℕ → ℕ → Bool) (picture : ℕ → ℕ → ℕ)
      (w k : Bytes → Prog Bytes) (rs : List Reply) (t : List Event) (D : End Bytes → Type 0)
      → Shows sc.info o m test picture
      → ((m' : Bytes)
          → ((px py : ℕ)
              → InLine sc.info px
              → pixel sc.info m' px py
                ≡ (if test px py then picture px py else pixel sc.info m px py))
          → ((run (k m') rs).0 ≡ t) × D (run (k m') rs).1)
      → (let e =
            run
              ((do m ← drawn o; must_xioctl (suc n) (queue_buffer v.fd i); return (1, m))
                >>= or_wait w
                >>= k)
              (value 0 ∷ rs) in
          (e.0 ≡ (did (queue_buffer v.fd i) (value 0) ∷ t)) × D e.1)
  unfolding run xioctl
  run-drawn i none m test picture w k rs t D h next = absurd h
  run-drawn i (some m') m test picture w k rs t D h next =
      (ap (λ t. did (queue_buffer v.fd i) (value 0) ∷ t) (next m' h).0, (next m' h).1)

  run-show_frame :
      (f : Frame) (o : Option Buffer) (m : Bytes) (w k : Bytes → Prog Bytes) (rs : List Reply)
      (t : List Event) (D : End Bytes → Type 0)
      → HasRoom (v.height * v.width * 2) o
      → IsBytes (from (filled f) 2)
      → ((m' : Bytes)
          → ((px py : ℕ)
              → InLine sc.info px
              → pixel sc.info m' px py ≡ seen setup sc v (f ∷ []) px py (pixel sc.info m px py))
          → ((run (k m') rs).0 ≡ t) × D (run (k m') rs).1)
      → (let e =
            run
              (show_frame (suc n) setup sc v f.index o (from (filled f) 2) m >>= or_wait w >>= k)
              (value 0 ∷ rs) in
          (e.0 ≡ (did (queue_buffer v.fd f.index) (value 0) ∷ t)) × D e.1)
  run-show_frame f none m w k rs t D room is_bytes next = absurd room
  run-show_frame f (some b) m w k rs t D room is_bytes next =
      run-drawn f.index
        (capture_to_fb sc.info (fb_size sc.info) v.width v.height setup.xpos setup.ypos b.length
          (from (filled f) 2) m)
        m (λ px py. within setup.xpos (v.width / 2 * 2) px && within setup.ypos v.height py)
        (λ px py.
          paint sc.info
            (frame_color v.width (from (filled f) 2) (py - setup.ypos) (px - setup.xpos)))
        w k rs t D
        (capture_to_fb_refines sc.info (fb_size sc.info) v.width v.height setup.xpos setup.ypos
          b.length
          (record {
            deep = plain.deep;
            packed = plain.packed;
            small = fb_size-lt sc.info;
            across = fits.across;
            down = fits.down;
            whole = room;
          })
          (from (filled f) 2) is_bytes m)
        next

  pub run-mainloop :
      (fs : List Frame) (m : Bytes)
      → AreFrames (length v.buffers) fs
      → (let e = run (mainloop (length fs) (suc n) setup sc v m) (frame_answers fs) in
          (e.0 ≡ frame_events v.fd fs) × Displays setup sc v fs m e.1)
  unfolding run mainloop next_frame xioctl
  run-mainloop [] m h = (refl, λ px py line. refl)
  run-mainloop (f ∷ fs) m h =
      let r =
        run-show_frame f (buffer_at v.buffers f.index) m (next_frame n (suc n) setup sc v)
          (mainloop (length fs) (suc n) setup sc v) (frame_answers fs) (frame_events v.fd fs)
          (Displays setup sc v (f ∷ fs) m)
          (buffer_at-HasRoom (v.height * v.width * 2) v.buffers f.index hold h.0) h.1
          (λ m' p.
            let rest = run-mainloop fs m' h.2 in
            (
              rest.0,
              Displays-next setup sc v f fs m m'
                  (run (mainloop (length fs) (suc n) setup sc v m') (frame_answers fs)).1 p rest.1,
            )) in
      (
        ap
            (λ t.
              did (select (v.fd ∷ [])) (value 1) ∷ did (dequeue_buffer v.fd) (bytes (filled f)) ∷ t)
            r.0,
        r.1,
      )
