-- ===== src/Screen/Main.antt =====
-- Runs of main of EX06-03_fbtest.
use edge_embedded_linux.Common.{
  ℕ, ◌≡◌, refl, ap, ◌+◌, ◌*◌, ◌/◌, ◌%◌, ◌^◌, ◌≤◌, ◌<◌, ◌&&◌, List, [], ◌∷◌, Option, none, some,
  if◌then◌else◌, arith,
}
use edge_embedded_linux.Text.{codes}
use edge_embedded_linux.Posix.{
  open_file, screen_info, fix_info, mmap, munmap, close, Prog, return, fault, ◌>>=◌, ◌>>◌, tell,
  must, must_fill, field, Reply, value, bytes, Event, did, End, returned, exited, faulted, spun,
  blocked, run,
}
use edge_embedded_linux.Tcp.{want_args}
use edge_embedded_linux.Screen.{Bytes, ScreenInfo, color_red, color_black, draw_rect}
use edge_embedded_linux.Screen.Pixel.{depth, HasDepth, pixel, InLine, Shows, within}
use edge_embedded_linux.Screen.Rect.{paint, draw_rect_refines}
use edge_embedded_linux.Screen.Overrun.{Overruns, draw_rect-Overruns}

abbrev pub fb_dev : List ℕ
fb_dev = codes "/dev/fb0"

-- The fields xres, yres, bits_per_pixel, xoffset and yoffset of the one structure, line_length of the
-- other.
abbrev pub info_of : List ℕ → List ℕ → ScreenInfo
info_of var fix = record {
  xres = field var 0;
  yres = field var 1;
  bits_per_pixel = field var 2;
  xoffset = field var 3;
  yoffset = field var 4;
  line_length = field fix 0;
}

abbrev pub get_info : ℕ → Prog ScreenInfo
get_info fd = do
  var ← must_fill (screen_info fd)
  fix ← must_fill (fix_info fd)
  return (info_of var fix)

abbrev pub fb_size : ScreenInfo → ℕ
fb_size info = info.xres * info.yres * info.bits_per_pixel % 2 ^ 32 / 8

-- A store outside of the mapping is undefined behaviour.
abbrev pub drawn : Option Bytes → Prog Bytes
drawn none = fault
drawn (some m) = return m

abbrev pub draw_all : ScreenInfo → ℕ → Bytes → Prog Bytes
draw_all info size m = do
  m ← drawn (draw_rect 0 0 info.xres info.yres color_black info size m)
  drawn (draw_rect 100 100 100 100 color_red info size m)

-- `m` is what the mapping holds when it is made; the result is what it holds when it is given up.
unfoldable pub fbtest_main : ℕ → Bytes → Prog Bytes
fbtest_main argc m = do
  want_args 1 argc
  fd ← must (open_file fb_dev)
  info ← get_info fd
  map ← must (mmap fd (fb_size info) 0)
  m ← draw_all info (fb_size info) m
  tell (munmap map (fb_size info))
  tell (close fd)
  return m

-- A red square on a black screen.
abbrev pub Drawn : ScreenInfo → Bytes → End Bytes → Type 0
Drawn info m (returned m') =
    (px py : ℕ)
    → InLine info px
    → pixel info m' px py ≡ (
        if within 100 100 px && within 100 100 py
        then paint info color_red
        else (if within 0 info.xres px && within 0 info.yres py
            then paint info color_black
            else pixel info m px py))
Drawn info m (exited n) = ⊥
Drawn info m faulted = ⊥
Drawn info m spun = ⊥
Drawn info m blocked = ⊥

-- The answers of a system where no call fails.
abbrev pub screen_answers : (fd map : ℕ) → List ℕ → List ℕ → List Reply
screen_answers fd map var fix =
    value fd ∷ bytes var ∷ bytes fix ∷ value map ∷ value 0 ∷ value 0 ∷ []

abbrev pub screen_events : (fd map : ℕ) → List ℕ → List ℕ → List Event → List Event
screen_events fd map var fix rest =
    did (open_file fb_dev) (value fd)
    ∷ did (screen_info fd) (bytes var)
    ∷ did (fix_info fd) (bytes fix)
    ∷ did (mmap fd (fb_size (info_of var fix)) 0) (value map)
    ∷ rest

-- The rectangle at (x, y) lies in the lines and in the mapping.
pub record Inside (info : ScreenInfo) (x y w h : ℕ) : Type 0 where
  pub across : (x + w) * depth info ≤ info.line_length
  pub down : (y + h) * info.line_length ≤ fb_size info

fb_size-lt : (info : ScreenInfo) → fb_size info < 2 ^ 31
fb_size-lt info = omega arith

abbrev giving_up : (fd map size : ℕ) → Bytes → Prog Bytes
giving_up fd map size m = do tell (munmap map size); tell (close fd); return m

-- Both pictures, one over the other.
drawing :
    (info : ScreenInfo) (fd map size : ℕ) (m : Bytes) (o : Option Bytes) (f : Bytes → Option Bytes)
    → Shows info o m
        (λ px py. within 0 info.xres px && within 0 info.yres py)
        (λ _ _. paint info color_black)
    → ((m' : Bytes)
        → Shows info
            (f m')
            m'
            (λ px py. within 100 100 px && within 100 100 py)
            (λ _ _. paint info color_red))
    → (let e =
          run
            (drawn o >>= (λ m'. drawn (f m')) >>= giving_up fd map size)
            (value 0 ∷ value 0 ∷ []) in
        (e.0 ≡ (did (munmap map size) (value 0) ∷ did (close fd) (value 0) ∷ []))
        × Drawn info m e.1)
unfolding run
drawing info fd map size m none f shows after = absurd shows
drawing info fd map size m (some m') f shows after = second (f m') (after m')
  where
    second :
        (o : Option Bytes)
        → Shows info o m'
            (λ px py. within 100 100 px && within 100 100 py)
            (λ _ _. paint info color_red)
        → (let e = run (drawn o >>= giving_up fd map size) (value 0 ∷ value 0 ∷ []) in
            (e.0 ≡ (did (munmap map size) (value 0) ∷ did (close fd) (value 0) ∷ []))
            × Drawn info m e.1)
    second none a = absurd a
    second (some m'') a = (refl, λ px py line. rw (a px py line, shows px py line) refl)

module _ (fd map : ℕ) (var fix : List ℕ) (m : Bytes) where
  -- When no call fails, on a screen of 16 or 32 bits whose lines and mapping hold the screen and the
  -- square, fbtest makes these calls, gives up the mapping and the descriptor, and leaves a red square of
  -- 100 by 100 pixels on a black screen, every other pixel as it was.
  pub run-fbtest_main :
      HasDepth (info_of var fix)
      → Inside (info_of var fix) 0 0 (field var 0) (field var 1)
      → Inside (info_of var fix) 100 100 100 100
      → ((run (fbtest_main 1 m) (screen_answers fd map var fix)).0
          ≡ screen_events fd map var fix (
              did (munmap map (fb_size (info_of var fix))) (value 0)
              ∷ did (close fd) (value 0)
              ∷ []))
        × Drawn (info_of var fix) m (run (fbtest_main 1 m) (screen_answers fd map var fix)).1
  unfolding run fbtest_main
  run-fbtest_main deep screen square =
      let info = info_of var fix in
      let size = fb_size info in
      let (trace, picture) =
        drawing info fd map size m (draw_rect 0 0 info.xres info.yres color_black info size m)
          (draw_rect 100 100 100 100 color_red info size)
          (draw_rect_refines info size color_black deep (fb_size-lt info) (omega arith) 0 0
            info.xres info.yres m screen.across screen.down)
          (λ m'.
            draw_rect_refines info size color_red deep (fb_size-lt info) (omega arith) 100 100 100
              100 m' square.across square.down) in
      (ap (screen_events fd map var fix) trace, picture)

  -- When the mapping, whose size is that of lines without a gap, does not hold a pixel of the screen,
  -- fbtest stores outside of it while it clears the screen.
  pub run-fbtest_main_overrun :
      (px py : ℕ)
      → HasDepth (info_of var fix)
      → Overruns (info_of var fix) (fb_size (info_of var fix)) px py
      → px < field var 0
      → py < field var 1
      → run (fbtest_main 1 m) (screen_answers fd map var fix)
        ≡ (screen_events fd map var fix [], faulted)
  unfolding run fbtest_main
  run-fbtest_main_overrun px py deep out in_x in_y =
      let info = info_of var fix in
      let size = fb_size info in
      ap
        (λ o.
          let e =
            run
              (drawn o
                >>= (λ m'. drawn (draw_rect 100 100 100 100 color_red info size m'))
                >>= giving_up fd map size)
              (value 0 ∷ value 0 ∷ []) in
          (screen_events fd map var fix e.0, e.1))
        (draw_rect-Overruns info size color_black deep px py out 0 0 info.xres info.yres m
          (ground arith) (ground arith))
