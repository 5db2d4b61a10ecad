-- ===== src/Camera/Blit.antt =====
-- capture_to_fb on a screen whose lines follow each other without a gap.
use Prim.Native.Nat.{bit_and}
use edge_embedded_linux.Common.{
  ℕ, zero, suc, ◌≡◌, refl, sym, ap, subst, ◌∙◌, ◌+◌, ◌-◌, ◌*◌, ◌/◌, ◌^◌, ◌≤◌, ◌<◌, ◌==◌, true, ◌&&◌,
  some, le→leb, if◌then◌else◌, arith,
}
use edge_embedded_linux.Screen.{Bytes, get_word, ScreenInfo, ◌>>=◌}
use edge_embedded_linux.Screen.Rect.{paint}
use edge_embedded_linux.Screen.Pixel.{
  depth, HasDepth, place, InLine, at, Shows, within, Shows-bind, nothing_within, none_of, mul_mono,
  widen,
}
use edge_embedded_linux.Camera.{put_yuv, load, put_pair, capture_row, capture_rows, capture_to_fb}
use edge_embedded_linux.Camera.Store.{
  color_of, frame_color, IsPacked, IsBytes, word_bytes, color_left, color_right, put_yuv-Shows,
}

pair_tests :
    (x y px py : ℕ)
    → (if at (x + 1) y px py then true else at x y px py) ≡ (within x 2 px && py == y)
pair_tests x y px py = ground arith

next_tests :
    (n x y px py : ℕ)
    → (if within (x + 2) (n * 2) px && py == y then true else within x 2 px && py == y)
      ≡ (within x (suc n * 2) px && py == y)
next_tests n x y px py = ground arith

line_tests :
    (n x w y px py : ℕ)
    → (if within x w px && within (y + 1) n py then true else within x w px && py == y)
      ≡ (within x w px && within y (suc n) py)
line_tests n x w y px py = ground arith

-- A frame of `width` columns and `height` lines at (x, y) is on the screen, and in its buffer.
pub record Placed (info : ScreenInfo) (size width height x y len : ℕ) : Type 0 where
  pub deep : HasDepth info
  pub packed : IsPacked info
  pub small : size < 2 ^ 29
  pub across : x + width ≤ info.xres
  pub down : (y + height) * info.line_length ≤ size
  pub whole : height * width * 2 ≤ len

load-some : (len i : ℕ) (frame : Bytes) → i + 4 ≤ len → load len frame i ≡ some (get_word 4 frame i)
load-some len i frame fits = rw (le→leb (i + 4) len fits) refl

inside : (i h w : ℕ) → i < h → i * w + w ≤ h * w
inside i h w lt = grind arith

half : (j w : ℕ) → j < w / 2 → j * 4 + 4 ≤ w * 2
half j w lt = omega arith

double : (i w : ℕ) → i * (w * 2) ≡ i * w * 2
double i w = grind arith

color_of-eq : (y y' u u' v v' : ℕ) → y ≡ y' → u ≡ u' → v ≡ v' → color_of y' u' v' ≡ color_of y u v
color_of-eq y y' u u' v v' ey eu ev = λ i. color_of (sym ey i) (sym eu i) (sym ev i)

module _ (info : ScreenInfo) (size width height x y len : ℕ)
    (p : Placed info size width height x y len) (frame : Bytes) (is_bytes : IsBytes frame) where
  unfoldable picture : ℕ → ℕ → ℕ
  picture px py = paint info (frame_color width frame (py - y) (px - x))

  InLine-in : (px : ℕ) → px < x + width → InLine info px
  InLine-in px lt =
      subst (λ l. (px + 1) * depth info ≤ l) (sym p.packed)
        (mul_mono (px + 1) info.xres (depth info) (omega (arith, p.across)))

  place_in : (px py : ℕ) → InLine info px → py < y + height → place info px py + depth info ≤ size
  place_in px py line lt = omega (
    arith,
    p.down,
    widen px (depth info),
    widen py info.line_length,
    mul_mono (py + 1) (y + height) info.line_length (omega arith),
  )

  load_in :
      (i j : ℕ)
      → i < height
      → j < width / 2
      → load len frame (i * width * 2 + j * 4) ≡ some (get_word 4 frame (i * width * 2 + j * 4))
  load_in i j hi hj = load-some len (i * width * 2 + j * 4) frame (
      omega (
        arith,
        p.whole,
        inside i height (width * 2) hi,
        half j width hj,
        double i width,
        double height width,
      ))

  put_pair-Shows :
      (i j : ℕ) (m : Bytes)
      → i < height
      → j < width / 2
      → Shows info
          (put_pair info size i j x y (get_word 4 frame (i * width * 2 + j * 4)) m)
          m
          (λ px py. within (j * 2 + x) 2 px && py == i + y)
          picture
  unfolding picture
  put_pair-Shows i j m hi hj =
      let here = i * width * 2 + j * 4 in
      let word = get_word 4 frame here in
      let b = word_bytes frame here is_bytes in
      let luma = bit_and word 0xff in
      let luma' = bit_and (word / 2 ^ 16) 0xff in
      let u = bit_and (word / 2 ^ 8) 0xff in
      let v = bit_and (word / 2 ^ 24) 0xff in
      let left = InLine-in (j * 2 + x) (omega (arith, half j width hj)) in
      let right = InLine-in (j * 2 + x + 1) (omega (arith, half j width hj)) in
      Shows-bind info (put_yuv info size luma u v ((i + y) * info.xres + j * 2 + x) m)
        (put_yuv info size luma' u v ((i + y) * info.xres + j * 2 + 1 + x)) m
        (at (j * 2 + x) (i + y)) (at (j * 2 + x + 1) (i + y))
        (λ px py. within (j * 2 + x) 2 px && py == i + y) picture
        (put_yuv-Shows info size p.deep p.packed p.small luma u v (j * 2 + x) (i + y)
          ((i + y) * info.xres + j * 2 + x) m picture (omega arith) left
          (place_in (j * 2 + x) (i + y) left (omega arith))
          (ap (paint info) (
            color_left width x y frame i j
            ∙ color_of-eq luma (frame here) u (frame (here + 1)) v (frame (here + 3)) b.0 b.1 b.3)))
        (λ m'.
          put_yuv-Shows info size p.deep p.packed p.small luma' u v (j * 2 + x + 1) (i + y)
            ((i + y) * info.xres + j * 2 + 1 + x) m' picture (omega arith) right
            (place_in (j * 2 + x + 1) (i + y) right (omega arith))
            (ap (λ c. paint info (frame_color width frame (i + y - y) (c - x))) (omega arith)
              ∙ ap (paint info) (
                  color_right width x y frame i j
                  ∙ color_of-eq luma' (frame (here + 2)) u (frame (here + 1)) v (frame (here + 3))
                      b.2 b.1 b.3)))
        (pair_tests (j * 2 + x) (i + y))

  capture_row-Shows :
      (n i j : ℕ) (m : Bytes)
      → i < height
      → j + n ≤ width / 2
      → Shows info
          (capture_row n info size width x y len frame i j m)
          m
          (λ px py. within (j * 2 + x) (n * 2) px && py == i + y)
          picture
  unfolding capture_row
  capture_row-Shows zero i j m hi hj = λ px py hp. rw (nothing_within (j * 2 + x) px) refl
  capture_row-Shows (suc n) i j m hi hj =
      let here = i * width * 2 + j * 4 in
      let word = get_word 4 frame here in
      Shows-bind info (load len frame here >>= λ yuyv. put_pair info size i j x y yuyv m)
        (capture_row n info size width x y len frame i (j + 1)) m
        (λ px py. within (j * 2 + x) 2 px && py == i + y)
        (λ px py. within (j * 2 + x + 2) (n * 2) px && py == i + y)
        (λ px py. within (j * 2 + x) (suc n * 2) px && py == i + y) picture
        (subst
          (λ o.
            Shows info (o >>= λ yuyv. put_pair info size i j x y yuyv m) m
              (λ px py. within (j * 2 + x) 2 px && py == i + y) picture)
          (sym (load_in i j hi (omega arith))) (put_pair-Shows i j m hi (omega arith)))
        (λ m'.
          subst
            (λ c.
              Shows info (capture_row n info size width x y len frame i (j + 1) m') m'
                (λ px py. within c (n * 2) px && py == i + y) picture)
            (omega arith) (capture_row-Shows n i (j + 1) m' hi (omega arith)))
        (next_tests n (j * 2 + x) (i + y))

  capture_rows-Shows :
      (n i : ℕ) (m : Bytes)
      → i + n ≤ height
      → Shows info
          (capture_rows n info size width x y len frame i m)
          m
          (λ px py. within x (width / 2 * 2) px && within (i + y) n py)
          picture
  unfolding capture_rows
  capture_rows-Shows zero i m hi =
      λ px py hp. rw (nothing_within (i + y) py, none_of (within x (width / 2 * 2) px)) refl
  capture_rows-Shows (suc n) i m hi =
      Shows-bind info (capture_row (width / 2) info size width x y len frame i 0 m)
        (capture_rows n info size width x y len frame (i + 1)) m
        (λ px py. within x (width / 2 * 2) px && py == i + y)
        (λ px py. within x (width / 2 * 2) px && within (i + y + 1) n py)
        (λ px py. within x (width / 2 * 2) px && within (i + y) (suc n) py) picture
        (subst
          (λ c.
            Shows info (capture_row (width / 2) info size width x y len frame i 0 m) m
              (λ px py. within c (width / 2 * 2) px && py == i + y) picture)
          (omega arith) (capture_row-Shows (width / 2) i 0 m (omega arith) (omega arith)))
        (λ m'.
          subst
            (λ r.
              Shows info (capture_rows n info size width x y len frame (i + 1) m') m'
                (λ px py. within x (width / 2 * 2) px && within r n py) picture)
            (omega arith) (capture_rows-Shows n (i + 1) m' (omega arith)))
        (λ px py. line_tests n x (width / 2 * 2) (i + y) px py)

  -- capture_to_fb refines putting a picture on the screen: it succeeds, the pixel in a column and line
  -- of the rectangle at (x, y) is the color there of the frame, in 16 bits where the screen has these,
  -- and every other pixel is what it was. The last column of an odd width is not drawn.
  pub capture_to_fb_refines :
      (m : Bytes)
      → Shows info
          (capture_to_fb info size width height x y len frame m)
          m
          (λ px py. within x (width / 2 * 2) px && within y height py)
          (λ px py. paint info (frame_color width frame (py - y) (px - x)))
  unfolding picture
  capture_to_fb_refines m =
      subst
        (λ r.
          Shows info (capture_rows height info size width x y len frame 0 m) m
            (λ px py. within x (width / 2 * 2) px && within r height py) picture)
        (omega arith) (capture_rows-Shows height 0 m (omega arith))
