-- ===== src/Camera/Opening.antt =====
-- open_device() of v4l2test, for the camera and the frame buffer.
use Prim.Native.Nat.{bit_and}
use edge_embedded_linux.Common.{
  ℕ, ◌≡◌, refl, sym, subst, ◌^◌, ◌<◌, Bool, false, ◌&&◌, List, [], Option, none, some, ◌==◌, inr,
  arith,
}
use edge_embedded_linux.Posix.{
  open_file, stat, mmap, screen_info, fix_info, Reply, value, bytes, failed, Prog, return, exit,
  ◌>>=◌, must, must_fill, received, field,
}
use edge_embedded_linux.Posix.Safety.{Safe-bind}
use edge_embedded_linux.Screen.{Bytes, ScreenInfo, color_black, draw_rect}
use edge_embedded_linux.Screen.Pixel.{Shows, within}
use edge_embedded_linux.Screen.Rect.{paint, draw_rect_refines}
use edge_embedded_linux.Screen.Main.{fb_size, get_info, info_of, drawn}
use edge_embedded_linux.Camera.Setup.{Setup}
use edge_embedded_linux.Camera.Devices.{Screen, clear_fb, fb_init, open_char, open_device}
use edge_embedded_linux.Camera.Protocol.{
  State, holds, IsPlain, Conforms, after, mapped, devices, idle, Exits,
}
use edge_embedded_linux.Camera.Rules.{IsSafe, if-IsSafe, must_fill-IsSafe, must-IsSafe}

-- Both devices are open and the screen is mapped.
abbrev pub base : ℕ → Screen → List ℕ → State
base fd sc var = record idle {
  cam = some fd;
  fb = some sc.fd_fb;
  screen = some (sc.map_fb, fb_size sc.info);
  var = var;
  info = sc.info;
}

pub record Opened (r : ℕ × Screen) (s : State) : Type 0 where
  pub plain : IsPlain r.1.info
  pub var : List ℕ
  pub state : s ≡ base r.0 r.1 var

pub drawn-IsSafe :
    (x y : ℕ) {B : Type 0} (Q : B → State → Type 0) (info : ScreenInfo) (o : Option Bytes)
    (m : Bytes) (test : ℕ → ℕ → Bool) (v : ℕ → ℕ → ℕ) (f : Bytes → Prog B) (s : State)
    → Shows info o m test v
    → ((m' : Bytes) → IsSafe x y Q (f m') s)
    → IsSafe x y Q (drawn o >>= f) s
drawn-IsSafe x y Q info none m test v f s h next = absurd h
drawn-IsSafe x y Q info (some m') m test v f s h next = next m'

pub fb_size-lt : (info : ScreenInfo) → fb_size info < 2 ^ 29
fb_size-lt info = omega arith

clear_fb-IsSafe :
    (x y : ℕ) {B : Type 0} (Q : B → State → Type 0) (setup : Setup) (info : ScreenInfo) (m : Bytes)
    (f : Bytes → Prog B) (s : State)
    → IsPlain info
    → ((m' : Bytes) → IsSafe x y Q (f m') s)
    → IsSafe x y Q (clear_fb setup info m >>= f) s
clear_fb-IsSafe x y Q setup info m f s plain next =
    if-IsSafe x y Q (setup.clear_screen == 0) (return m)
      (drawn
        (draw_rect info.xoffset info.yoffset info.xres info.yres color_black info (fb_size info) m))
      f s (λ _. next m)
      (λ _.
        drawn-IsSafe x y Q info
          (draw_rect info.xoffset info.yoffset info.xres info.yres color_black info (fb_size info)
            m)
          m (λ px py. within info.xoffset info.xres px && within info.yoffset info.yres py)
          (λ _ _. paint info color_black) f s
          (draw_rect_refines info (fb_size info) color_black plain.deep
            (omega (arith, fb_size-lt info)) (omega arith) info.xoffset info.yoffset info.xres
            info.yres m plain.clears.across plain.clears.down)
          next)

get_info-IsSafe :
    (x y : ℕ) {B : Type 0} (Q : B → State → Type 0) (fb : ℕ) (f : ScreenInfo → Prog B) (s : State)
    → s.fb ≡ some fb
    → ((var fix : List ℕ)
        → IsPlain (info_of var fix)
        → IsSafe x y Q (f (info_of var fix)) (record s { var = var; info = info_of var fix }))
    → IsSafe x y Q (get_info fb >>= f) s
get_info-IsSafe x y Q fb f s open_fb next = (open_fb, first)
  where
    second :
        (var : List ℕ) (r : Reply)
        → Conforms x y (record s { var = var }) (fix_info fb) r
        → IsSafe x y Q
            (elim (received r) [ none ↦ exit 1 | some b ↦ return b ]
              >>= (λ fix. return (info_of var fix))
              >>= f)
            (after (record s { var = var }) (fix_info fb) r)
    second var (value n) ok = absurd ok
    second var (failed e) ok = refl
    second var (bytes fix) ok = next var fix ok

    first :
        (r : Reply)
        → Conforms x y s (screen_info fb) r
        → IsSafe x y Q
            (elim (received r) [ none ↦ exit 1 | some b ↦ return b ]
              >>= (λ var. do fix ← must_fill (fix_info fb); return (info_of var fix))
              >>= f)
            (after s (screen_info fb) r)
    first (value n) ok = absurd ok
    first (failed e) ok = refl
    first (bytes var) ok = (open_fb, second var)

module _ (x y : ℕ) (setup : Setup) (m : Bytes) (fd : ℕ) where
  abbrev Done : Screen → State → Type 0
  Done sc s = Opened (fd, sc) s

  abbrev cam_open : State
  cam_open = record idle { cam = some fd }

  abbrev finish : ℕ → ScreenInfo → ℕ → Prog Screen
  finish fb info map = do
    m ← clear_fb setup info m
    return (record { fd_fb = fb; info = info; map_fb = map; pixels = m })

  mapping-IsSafe :
      (fb : ℕ) (var : List ℕ) (info : ScreenInfo)
      → holds (some fd) fb ≡ false
      → IsPlain info
      → IsSafe x y Done
          (must (mmap fb (fb_size info) 0) >>= finish fb info)
          (record cam_open { fb = some fb; var = var; info = info })
  mapping-IsSafe fb var info apart plain =
      must-IsSafe x y Done (mmap fb (fb_size info) 0)
        (record cam_open { fb = some fb; var = var; info = info }) (inr refl) _
        (λ a ok.
          subst
            (λ b. IsSafe x y Done (finish fb info a) (
              mapped (record cam_open { fb = some fb; var = var; info = info }) b
                (a, fb_size info)))
            (sym apart)
            (clear_fb-IsSafe x y Done setup info m
              (λ m'. return (record { fd_fb = fb; info = info; map_fb = a; pixels = m' }))
              (record cam_open {
                fb = some fb;
                var = var;
                info = info;
                screen = some (a, fb_size info);
              })
              plain (λ m'. record { plain = plain; var = var; state = refl })))
        (λ b ok. absurd ok)

  fb_init-IsSafe : IsSafe x y Done (fb_init setup m) cam_open
  fb_init-IsSafe =
      must-IsSafe x y Done (open_file setup.fb_name) cam_open tt _
        (λ fb apart.
          get_info-IsSafe x y Done fb (λ info. must (mmap fb (fb_size info) 0) >>= finish fb info)
            (record cam_open { fb = some fb }) refl
            (λ var fix plain. mapping-IsSafe fb var (info_of var fix) apart plain))
        (λ b ok. absurd ok)

char-IsSafe :
    (x y : ℕ) (setup : Setup) (m : Bytes) (st : List ℕ)
    → IsSafe x y Opened (do fd ← open_char setup st; sc ← fb_init setup m; return (fd, sc)) idle
char-IsSafe x y setup m st =
    if-IsSafe x y Opened (bit_and (field st 0) 0xf000 == 0x2000) (must (open_file setup.dev_name))
      (exit 1) rest idle
      (λ _.
        must-IsSafe x y Opened (open_file setup.dev_name) idle tt rest
          (λ fd ok.
            Safe-bind (devices x y) (λ sc s. Opened (fd, sc) s) Opened Exits (λ sc. return (fd, sc))
              (fb_init setup m) (record idle { cam = some fd }) (fb_init-IsSafe x y setup m fd)
              (λ sc s h. h))
          (λ b ok. absurd ok))
      (λ _. refl)
  where
    rest : ℕ → Prog (ℕ × Screen)
    rest fd = do sc ← fb_init setup m; return (fd, sc)

pub open_device-IsSafe :
    (x y : ℕ) (setup : Setup) (m : Bytes) → IsSafe x y Opened (open_device setup m) idle
unfolding open_device
open_device-IsSafe x y setup m =
    must_fill-IsSafe x y Opened (stat setup.dev_name) idle tt _ (λ r ok. char-IsSafe x y setup m [])
      (λ st ok. char-IsSafe x y setup m st)
