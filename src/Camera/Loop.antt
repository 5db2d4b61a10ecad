-- ===== src/Camera/Loop.antt =====
-- The frames of v4l2test, mainloop() and read_frame().
use edge_embedded_linux.Common.{
  ℕ, zero, suc, ◌≡◌, refl, sym, subst, ◌∙◌, ◌-◌, ◌*◌, ◌/◌, ◌≤◌, ◌<◌, Bool, true, false, not, ◌&&◌,
  ◌||◌, List, [], ◌∷◌, length, Option, none, some, ◌==◌, ==_iff, ltb→lt, if◌then◌else◌, arith,
}
use edge_embedded_linux.Posix.{
  select, queue_buffer, dequeue_buffer, Reply, value, bytes, failed, Prog, return, exit, ◌>>=◌,
  ◌>>◌, field,
}
use edge_embedded_linux.Posix.Safety.{Safe-bind}
use edge_embedded_linux.Screen.{Bytes}
use edge_embedded_linux.Screen.Pixel.{within}
use edge_embedded_linux.Screen.Rect.{paint}
use edge_embedded_linux.Screen.Main.{fb_size}
use edge_embedded_linux.Camera.{capture_to_fb}
use edge_embedded_linux.Camera.Store.{frame_color, IsBytes}
use edge_embedded_linux.Camera.Blit.{capture_to_fb_refines}
use edge_embedded_linux.Camera.Setup.{Setup}
use edge_embedded_linux.Camera.Devices.{eintr, eagain, Buffer, Video, Screen, must_xioctl}
use edge_embedded_linux.Camera.Program.{
  buffer_at, show_frame, from, on_frame, read_frame, or_wait, on_ready, next_frame, mainloop,
}
use edge_embedded_linux.Camera.Protocol.{State, IsPlain, FitsAt, Conforms, after, devices, Exits}
use edge_embedded_linux.Camera.Rules.{IsSafe, xioctl-IsSafe, must_xioctl-IsSafe}
use edge_embedded_linux.Camera.Opening.{drawn-IsSafe, fb_size-lt}
use edge_embedded_linux.Camera.Mapping.{AllHold}
use edge_embedded_linux.Camera.Queue.{Below, queue_back, live, AllQueued}

abbrev pub HasRoom : ℕ → Option Buffer → Type 0
HasRoom size none = ⊥
HasRoom size (some b) = size ≤ b.length

pub buffer_at-HasRoom :
    (size : ℕ) (l : List Buffer) (i : ℕ)
    → AllHold size l
    → i < length l
    → HasRoom size (buffer_at l i)
buffer_at-HasRoom size [] i h lt = absurd (omega arith)
buffer_at-HasRoom size (b ∷ l) zero h lt = h.0
buffer_at-HasRoom size (b ∷ l) (suc i) h lt = buffer_at-HasRoom size l i h.1 (omega arith)

module _ (n : ℕ) (setup : Setup) (sc : Screen) (var : List ℕ) (v : Video) (plain : IsPlain sc.info)
    (hold : AllHold (v.height * v.width * 2) v.buffers)
    (fits : FitsAt setup.xpos setup.ypos sc.info v.width v.height) where
  abbrev Keeps : {A : Type 0} → A → State → Type 0
  Keeps _ s = AllQueued n setup sc var v plain hold fits true s

  abbrev running : (ℕ → Bool) → State
  running q = live n setup sc var v plain hold fits q true

  show_frame-IsSafe :
      (i : ℕ) (o : Option Buffer) (held m : Bytes) (q : ℕ → Bool)
      → HasRoom (v.height * v.width * 2) o
      → IsBytes held
      → Below (length v.buffers) q
      → q i ≡ true
      → IsSafe setup.xpos setup.ypos Keeps
          (show_frame n setup sc v i o held m)
          (running (λ j. q j && not (j == i)))
  show_frame-IsSafe i none held m q room is_bytes all is_in = absurd room
  show_frame-IsSafe i (some b) held m q room is_bytes all is_in =
      drawn-IsSafe setup.xpos setup.ypos Keeps sc.info
        (capture_to_fb sc.info (fb_size sc.info) v.width v.height setup.xpos setup.ypos b.length
          held m)
        m (λ px py. within setup.xpos (v.width / 2 * 2) px && within setup.ypos v.height py)
        (λ px py. paint sc.info (frame_color v.width held (py - setup.ypos) (px - setup.xpos)))
        (λ m. do must_xioctl n (queue_buffer v.fd i); return (1, m))
        (running (λ j. q j && not (j == i)))
        (capture_to_fb_refines sc.info (fb_size sc.info) v.width v.height setup.xpos setup.ypos
          b.length
          (record {
            deep = plain.deep;
            packed = plain.packed;
            small = fb_size-lt sc.info;
            across = fits.across;
            down = fits.down;
            whole = room;
          })
          held is_bytes m)
        (λ m'.
          must_xioctl-IsSafe setup.xpos setup.ypos Keeps (queue_buffer v.fd i)
            (running (λ j. q j && not (j == i)))
            (refl, ltb→lt i (length v.buffers) (sym (all i) ∙ is_in), out) (λ _. return (1, m'))
            (λ r ok. back) (λ b ok. back) n)
    where
      out : (q i && not (i == i)) ≡ false
      out = rw (is_in, (==_iff i i).1 refl) refl

      back :
          AllQueued n setup sc var v plain hold fits true
            (running (λ j. j == i || (q j && not (j == i))))
      back = record {
        queued = λ j. j == i || (q j && not (j == i));
        all = queue_back (length v.buffers) i q all is_in;
        state = refl;
      }

  on_frame-IsSafe :
      (m : Bytes) (q : ℕ → Bool) (r : Reply)
      → Below (length v.buffers) q
      → Conforms setup.xpos setup.ypos (running q) (dequeue_buffer v.fd) r
      → IsSafe setup.xpos setup.ypos Keeps
          (on_frame n setup sc v m r)
          (after (running q) (dequeue_buffer v.fd) r)
  on_frame-IsSafe m q (value r) all ok = absurd ok
  on_frame-IsSafe m q (bytes b) all ok =
      show_frame-IsSafe (field b 0) (buffer_at v.buffers (field b 0)) (from b 2) m q
        (buffer_at-HasRoom (v.height * v.width * 2) v.buffers (field b 0) hold
          (ltb→lt (field b 0) (length v.buffers) (sym (all (field b 0)) ∙ ok.0)))
        ok.1 all ok.0
  on_frame-IsSafe m q (failed e) all ok = choose (e == eagain)
    where
      choose :
          (b : Bool)
          → IsSafe setup.xpos setup.ypos {B = ℕ × Bytes} Keeps
              (if b then return (0, m) else exit 1)
              (running q)
      choose true = record { queued = q; all = all; state = refl }
      choose false = refl

  read_frame-IsSafe :
      (m : Bytes) (q : ℕ → Bool)
      → Below (length v.buffers) q
      → IsSafe setup.xpos setup.ypos Keeps (read_frame n setup sc v m) (running q)
  read_frame-IsSafe m q all =
      xioctl-IsSafe setup.xpos setup.ypos Keeps (dequeue_buffer v.fd) (running q) (refl, refl)
        (on_frame n setup sc v m) (λ r ok. on_frame-IsSafe m q r all ok) n

  next_frame-IsSafe :
      (k : ℕ) (m : Bytes) (q : ℕ → Bool)
      → Below (length v.buffers) q
      → IsSafe setup.xpos setup.ypos Keeps (next_frame k n setup sc v m) (running q)
  unfolding next_frame
  next_frame-IsSafe zero m q all = tt
  next_frame-IsSafe (suc k) m q all = (
    (refl, refl),
    answer (next_frame-IsSafe k m q all) (
        Safe-bind (devices setup.xpos setup.ypos) Keeps Keeps Exits
          (or_wait (next_frame k n setup sc v)) (read_frame n setup sc v m) (running q)
          (read_frame-IsSafe m q all) (after_frame (next_frame-IsSafe k))),
  )
    where
      frame : Prog Bytes
      frame = read_frame n setup sc v m >>= or_wait (next_frame k n setup sc v)

      after_frame :
          ((m : Bytes) (q : ℕ → Bool)
            → Below (length v.buffers) q
            → IsSafe setup.xpos setup.ypos Keeps (next_frame k n setup sc v m) (running q))
          → (r : ℕ × Bytes) (s : State) → Keeps r s
          → IsSafe setup.xpos setup.ypos Keeps (or_wait (next_frame k n setup sc v) r) s
      after_frame ih (zero, m) s h =
          subst (IsSafe setup.xpos setup.ypos Keeps (next_frame k n setup sc v m)) (sym h.state)
            (ih m h.queued h.all)
      after_frame ih (suc r, m) s h = h

      choose :
          (b : Bool) (p : Prog Bytes)
          → IsSafe setup.xpos setup.ypos Keeps p (running q)
          → IsSafe setup.xpos setup.ypos Keeps (if b then exit 1 else p) (running q)
      choose true p h = refl
      choose false p h = h

      retry :
          (b : Bool) (p : Prog Bytes)
          → IsSafe setup.xpos setup.ypos Keeps p (running q)
          → IsSafe setup.xpos setup.ypos Keeps (if b then p else exit 1) (running q)
      retry true p h = h
      retry false p h = refl

      answer :
          IsSafe setup.xpos setup.ypos Keeps (next_frame k n setup sc v m) (running q)
          → IsSafe setup.xpos setup.ypos Keeps frame (running q)
          → (r : Reply) → Conforms setup.xpos setup.ypos (running q) (select (v.fd ∷ [])) r
          → IsSafe setup.xpos setup.ypos Keeps
              (on_ready (next_frame k n setup sc v m) frame r)
              (after (running q) (select (v.fd ∷ [])) r)
      answer again shown (value r) ok = choose (r == 0) frame shown
      answer again shown (bytes b) ok = choose (length b == 0) frame shown
      answer again shown (failed e) ok = retry (e == eintr) (next_frame k n setup sc v m) again

  pub mainloop-IsSafe :
      (count : ℕ) (m : Bytes) (q : ℕ → Bool)
      → Below (length v.buffers) q
      → IsSafe setup.xpos setup.ypos Keeps (mainloop count n setup sc v m) (running q)
  unfolding mainloop
  mainloop-IsSafe zero m q all = record { queued = q; all = all; state = refl }
  mainloop-IsSafe (suc count) m q all =
      Safe-bind (devices setup.xpos setup.ypos) Keeps Keeps Exits (mainloop count n setup sc v)
        (next_frame n n setup sc v m) (running q) (next_frame-IsSafe n m q all)
        (λ m' s h.
          subst (IsSafe setup.xpos setup.ypos Keeps (mainloop count n setup sc v m')) (sym h.state)
            (mainloop-IsSafe count m' h.queued h.all))
