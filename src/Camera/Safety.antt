-- ===== src/Camera/Safety.antt =====
-- v4l2test as a whole: what it asks of the devices, whatever they answer.
use edge_embedded_linux.Common.{
  ℕ, ◌≡◌, ◌⊎◌, inl, inr, ◌≤◌, refl, sym, ap, subst, ◌∙◌, ◌*◌, Bool, true, false, List, [], ◌∷◌,
  length, Option, none,
}
use edge_embedded_linux.Posix.{
  close, munmap, free, stream_off, Reply, value, bytes, failed, Prog, return, exit, exited, ◌>>=◌,
  ◌>>◌, tell, run, must,
}
use edge_embedded_linux.Posix.Safety.{Safe-bind, Safe-Judged, Judged}
use edge_embedded_linux.Screen.{Bytes}
use edge_embedded_linux.Screen.Main.{fb_size}
use edge_embedded_linux.Camera.Setup.{Setup, default_setup, Opt, set_options}
use edge_embedded_linux.Camera.Options.{Options, set, ends, options_of}
use edge_embedded_linux.Camera.Devices.{
  Buffer, Video, Screen, open_device, init_device, start_capturing, stop_capturing, unmap_all,
  uninit_device, fb_close, close_device,
}
use edge_embedded_linux.Camera.Program.{mainloop, v4l2_main}
use edge_embedded_linux.Camera.Protocol.{
  State, devices, idle, Conforms, after, Released, Exits, IsPlain, FitsAt,
}
use edge_embedded_linux.Camera.Rules.{IsSafe, must_xioctl-IsSafe, must-IsSafe}
use edge_embedded_linux.Camera.Opening.{Opened, base, open_device-IsSafe}
use edge_embedded_linux.Camera.Mapping.{pairs, AllHold, made}
use edge_embedded_linux.Camera.Buffers.{Ready, init_device-IsSafe}
use edge_embedded_linux.Camera.Queue.{live, AllQueued, start_capturing-IsSafe}
use edge_embedded_linux.Camera.Loop.{mainloop-IsSafe}

-- The end of main(), once the loop is left.
abbrev finish : ℕ → Video → Screen → Bytes → Prog Bytes
finish n v sc m = do stop_capturing n v; uninit_device v; close_device v sc; return m

abbrev AtEnd : {A : Type 0} → A → State → Type 0
AtEnd _ s = Released s

-- The camera is stopped, and these mappings of its buffers are left.
abbrev stopped : Screen → List ℕ → Video → (ℕ → Bool) → List (ℕ × ℕ) → State
stopped sc var v q maps = record (made v.fd sc var v.width v.height (length v.buffers) maps) {
  queued = q;
  streaming = false;
}

module _ (x y n : ℕ) (sc : Screen) (var : List ℕ) (v : Video) (q : ℕ → Bool) where
  unmap_all-IsSafe :
      (l : List Buffer)
      → IsSafe x y (λ _ s. s ≡ stopped sc var v q []) (unmap_all l) (stopped sc var v q (pairs l))
  unfolding unmap_all
  unmap_all-IsSafe [] = refl
  unmap_all-IsSafe (b ∷ l) =
      must-IsSafe x y (λ _ s. s ≡ stopped sc var v q []) (munmap b.start b.length)
        (stopped sc var v q (pairs (b ∷ l))) (refl, refl) (λ _. unmap_all l)
        (λ r ok. unmap_all-IsSafe l) (λ c ok r. unmap_all-IsSafe l)

  uninit_device-IsSafe :
      IsSafe x y
        (λ _ s. s ≡ stopped sc var v q [])
        (uninit_device v)
        (stopped sc var v q (pairs v.buffers))
  uninit_device-IsSafe =
      Safe-bind (devices x y) (λ _ s. s ≡ stopped sc var v q []) (λ _ s. s ≡ stopped sc var v q [])
        Exits (λ _. tell (free v.array)) (unmap_all v.buffers)
        (stopped sc var v q (pairs v.buffers)) (unmap_all-IsSafe v.buffers)
        (λ _ s e. (tt, freed s e))
    where
      freed :
          (s : State)
          → s ≡ stopped sc var v q []
          → (r : Reply) → Conforms x y s (free v.array) r
          → after s (free v.array) r ≡ stopped sc var v q []
      freed s e (value r) ok = e
      freed s e (bytes b) ok = e
      freed s e (failed r) ok = e

  close_device-IsSafe : IsSafe x y AtEnd (close_device v sc) (stopped sc var v q [])
  close_device-IsSafe =
      must-IsSafe x y AtEnd (close v.fd) (stopped sc var v q []) (refl, refl) (λ _. fb_close sc)
        (λ r ok. closes) (λ b ok r. closes)
    where
      screen_left : State
      screen_left = record (stopped sc var v q []) { cam = none; fb = none }

      gone : Released (record screen_left { screen = none })
      gone = record { cam = refl; fb = refl; screen = refl; maps = refl; streaming = refl }

      unmaps :
          IsSafe x y AtEnd (do must (munmap sc.map_fb (fb_size sc.info)); return tt) screen_left
      unmaps =
          must-IsSafe x y AtEnd (munmap sc.map_fb (fb_size sc.info)) screen_left (refl, refl)
            (λ _. return tt) (λ r ok. gone) (λ b ok r. gone)

      closes : IsSafe x y AtEnd (fb_close sc) (record (stopped sc var v q []) { cam = none })
      closes =
          must-IsSafe x y AtEnd (close sc.fd_fb) (record (stopped sc var v q []) { cam = none })
            (refl, refl) (λ _. do must (munmap sc.map_fb (fb_size sc.info)); return tt)
            (λ r ok. unmaps) (λ b ok r. unmaps)

  -- From the state of the loop on.
  finish-IsSafe :
      (m : Bytes)
      → IsSafe x y AtEnd
          (finish n v sc m)
          (record (stopped sc var v q (pairs v.buffers)) { streaming = true })
  finish-IsSafe m =
      Safe-bind (devices x y) (λ _ s. s ≡ stopped sc var v q (pairs v.buffers)) AtEnd Exits
        (λ _. do uninit_device v; close_device v sc; return m) (stop_capturing n v)
        (record (stopped sc var v q (pairs v.buffers)) { streaming = true })
        (must_xioctl-IsSafe x y (λ _ s. s ≡ stopped sc var v q (pairs v.buffers)) (stream_off v.fd)
          (record (stopped sc var v q (pairs v.buffers)) { streaming = true }) (refl, refl)
          (λ _. return tt) (λ r ok. refl) (λ b ok. refl) n)
        (λ _ s e.
          subst (IsSafe x y AtEnd (do uninit_device v; close_device v sc; return m)) (sym e) (
            Safe-bind (devices x y) (λ _ s. s ≡ stopped sc var v q []) AtEnd Exits
              (λ _. do close_device v sc; return m) (uninit_device v)
              (stopped sc var v q (pairs v.buffers)) uninit_device-IsSafe
              (λ _ s e. subst (IsSafe x y AtEnd (do close_device v sc; return m)) (sym e) (
                Safe-bind (devices x y) AtEnd AtEnd Exits (λ _. return m) (close_device v sc)
                  (stopped sc var v q []) close_device-IsSafe (λ _ s h. h)))))

module _ (n : ℕ) (setup : Setup) where
  -- From the start of the camera on.
  shows : Screen → Video → Prog Bytes
  shows sc v = do
    start_capturing n v
    m ← mainloop setup.frame_count n setup sc v sc.pixels
    finish n v sc m

  shows-IsSafe :
      (sc : Screen) (var : List ℕ) (v : Video)
      → IsPlain sc.info
      → AllHold (v.height * v.width * 2) v.buffers
      → FitsAt setup.xpos setup.ypos sc.info v.width v.height
      → IsSafe setup.xpos setup.ypos AtEnd
          (shows sc v)
          (made v.fd sc var v.width v.height (length v.buffers) (pairs v.buffers))
  unfolding shows
  shows-IsSafe sc var v plain hold fits =
      Safe-bind (devices setup.xpos setup.ypos)
        (λ _ s. AllQueued n setup sc var v plain hold fits true s) AtEnd Exits
        (λ _. do m ← mainloop setup.frame_count n setup sc v sc.pixels; finish n v sc m)
        (start_capturing n v) (live n setup sc var v plain hold fits (λ _. false) false)
        (start_capturing-IsSafe n setup sc var v plain hold fits)
        (λ _ s h.
          subst
            (IsSafe setup.xpos setup.ypos AtEnd
              (do m ← mainloop setup.frame_count n setup sc v sc.pixels; finish n v sc m))
            (sym h.state)
            (Safe-bind (devices setup.xpos setup.ypos)
              (λ _ s. AllQueued n setup sc var v plain hold fits true s) AtEnd Exits (finish n v sc)
              (mainloop setup.frame_count n setup sc v sc.pixels)
              (live n setup sc var v plain hold fits h.queued true)
              (mainloop-IsSafe n setup sc var v plain hold fits setup.frame_count sc.pixels h.queued
                h.all)
              (λ m s h.
                subst (IsSafe setup.xpos setup.ypos AtEnd (finish n v sc m)) (sym h.state)
                  (finish-IsSafe setup.xpos setup.ypos n sc var v h.queued m))))

  runs : Bytes → Prog Bytes
  runs m = do opened ← open_device setup m; v ← init_device n opened.0; shows opened.1 v

  runs-IsSafe : (m : Bytes) → IsSafe setup.xpos setup.ypos AtEnd (runs m) idle
  unfolding runs
  runs-IsSafe m =
      Safe-bind (devices setup.xpos setup.ypos) Opened AtEnd Exits
        (λ opened. do v ← init_device n opened.0; shows opened.1 v) (open_device setup m) idle
        (open_device-IsSafe setup.xpos setup.ypos setup m)
        (λ opened s h.
          subst
            (IsSafe setup.xpos setup.ypos AtEnd (do v ← init_device n opened.0; shows opened.1 v))
            (sym h.state)
            (Safe-bind (devices setup.xpos setup.ypos)
              (Ready setup.xpos setup.ypos n opened.0 opened.1 h.var) AtEnd Exits (shows opened.1)
              (init_device n opened.0) (base opened.0 opened.1 h.var)
              (init_device-IsSafe setup.xpos setup.ypos n opened.0 opened.1 h.var)
              (λ v s r.
                subst (IsSafe setup.xpos setup.ypos AtEnd (shows opened.1 v))
                  (sym (
                    r.state
                    ∙ ap
                        (λ fd.
                          made fd opened.1 h.var v.width v.height (length v.buffers)
                            (pairs v.buffers))
                        (sym r.same)))
                  (shows-IsSafe opened.1 h.var v h.plain r.hold r.fits))))

module _ (n : ℕ) (strtol : List ℕ → Option ℕ) (options : List Opt) (m : Bytes)
    (rs : List Reply) where
  -- The program is judged by the devices from `setup` on.
  abbrev pub IsJudged : Setup → Type 0
  IsJudged setup =
      Judged (devices setup.xpos setup.ypos) AtEnd Exits (run (v4l2_main n strtol options m) rs).0
        (run (v4l2_main n strtol options m) rs).1 idle

  set_up-IsJudged :
      (setup : Setup) → set_options strtol options default_setup ≡ return setup → IsJudged setup
  unfolding v4l2_main runs shows
  set_up-IsJudged setup e =
      Safe-Judged (devices setup.xpos setup.ypos) AtEnd Exits (v4l2_main n strtol options m) idle
        (subst (λ p. IsSafe setup.xpos setup.ypos AtEnd (p >>= λ setup. runs n setup m) idle)
          (sym e) (runs-IsSafe n setup m))
        rs

  pub v4l2_main-Judged :
      ((code : ℕ) × (code ≤ 1)
        × (set_options strtol options default_setup ≡ exit code)
        × (run (v4l2_main n strtol options m) rs ≡ ([], exited code)))
      ⊎ ((setup : Setup) × (set_options strtol options default_setup ≡ return setup)
          × IsJudged setup)
  unfolding v4l2_main run runs shows
  v4l2_main-Judged = go (options_of strtol options default_setup)
    where
      go :
          Options strtol options default_setup
          → ((code : ℕ) × (code ≤ 1)
              × (set_options strtol options default_setup ≡ exit code)
              × (run (v4l2_main n strtol options m) rs ≡ ([], exited code)))
            ⊎ ((setup : Setup) × (set_options strtol options default_setup ≡ return setup)
                × IsJudged setup)
      go (set setup e) = inr (setup, e, set_up-IsJudged setup e)
      go (ends code le e) = inl (code, le, e, ap (λ p. run (p >>= λ setup. runs n setup m) rs) e)
