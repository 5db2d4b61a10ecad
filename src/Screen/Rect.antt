-- ===== src/Screen/Rect.antt =====
-- What draw_rect paints, and when it stays within the mapping.
use edge_embedded_linux.Common.{
  ℕ, zero, suc, ◌≡◌, refl, subst, inl, inr, ◌+◌, ◌*◌, ◌/◌, ◌^◌, ◌≤◌, ◌<◌, ◌==◌, true, ◌&&◌, some,
  if◌then◌else◌, arith,
}
use edge_embedded_linux.Screen.{
  Bytes, put_word, ScreenInfo, rgb565, draw_pixel, draw_row, draw_rows, draw_rect,
}
use edge_embedded_linux.Screen.Memory.{Fits}
use edge_embedded_linux.Screen.Pixel.{
  depth, HasDepth, place, InLine, store_word_in, widen, at, pixel-put_word, Shows, within,
  Shows-bind, nothing_within, none_of, mul_mono, InLine-first,
}

abbrev pub paint : ScreenInfo → ℕ → ℕ
paint info color = if info.bits_per_pixel == 32 then color else rgb565 color

pub rgb565-lt : (color : ℕ) → rgb565 color < 2 ^ 16
rgb565-lt color = omega arith

in_map :
    (info : ScreenInfo) (size x y bits : ℕ)
    → info.bits_per_pixel ≡ bits
    → place info x y + depth info ≤ size
    → x * (bits / 8) + y * info.line_length + bits / 8 ≤ size
in_map info size x y bits d = subst (λ b. x * (b / 8) + y * info.line_length + b / 8 ≤ size) d

draw_pixel_lem :
    (info : ScreenInfo) (size color x y : ℕ) (m : Bytes)
    → HasDepth info
    → size < 2 ^ 31
    → place info x y + depth info ≤ size
    → draw_pixel info size color x y m
      ≡ some (put_word (depth info) m (place info x y) (paint info color))
draw_pixel_lem info size color x y m (inl d) small fits = rw d (
    store_word_in size 4 m (x * 4 + y * info.line_length) color (in_map info size x y 32 d fits)
      small)
draw_pixel_lem info size color x y m (inr d) small fits = rw d (
    store_word_in size 2 m (x * 2 + y * info.line_length) (rgb565 color)
      (in_map info size x y 16 d fits) small)

pub paint-Fits :
    (info : ScreenInfo) (color : ℕ)
    → HasDepth info
    → color < 2 ^ 32
    → Fits (depth info) (paint info color)
paint-Fits info color (inl d) lt = rw d (omega arith)
paint-Fits info color (inr d) lt = rw d (omega (arith, rgb565-lt color))

row_tests :
    (n x y px py : ℕ)
    → (if within (x + 1) n px && py == y then true else at x y px py)
      ≡ (within x (suc n) px && py == y)
row_tests n x y px py = ground arith

rect_tests :
    (n x w y px py : ℕ)
    → (if within x w px && within (y + 1) n py then true else within x w px && py == y)
      ≡ (within x w px && within y (suc n) py)
rect_tests n x w y px py = ground arith

module _ (info : ScreenInfo) (size color : ℕ) (deep : HasDepth info) (small : size < 2 ^ 31)
    (is_color : color < 2 ^ 32) where
  draw_pixel-Shows :
      (x y : ℕ) (m : Bytes)
      → InLine info x
      → place info x y + depth info ≤ size
      → Shows info (draw_pixel info size color x y m) m (at x y) (λ _ _. paint info color)
  draw_pixel-Shows x y m hx fits =
      rw (draw_pixel_lem info size color x y m deep small fits) (λ px py hp.
        pixel-put_word info m x y (paint info color) px py (paint-Fits info color deep is_color) hx
          hp)

  -- The line `y` lies in the mapping.
  draw_row-Shows :
      (n x y : ℕ) (m : Bytes)
      → (x + n) * depth info ≤ info.line_length
      → (y + 1) * info.line_length ≤ size
      → Shows info
          (draw_row n info size color x y m)
          m
          (λ px py. within x n px && py == y)
          (λ _ _. paint info color)
  unfolding draw_row
  draw_row-Shows zero x y m hx hy = λ px py hp. rw (nothing_within x px) refl
  draw_row-Shows (suc n) x y m hx hy =
      Shows-bind info (draw_pixel info size color x y m) (draw_row n info size color (x + 1) y) m
        (at x y) (λ px py. within (x + 1) n px && py == y) (λ px py. within x (suc n) px && py == y)
        (λ _ _. paint info color)
        (draw_pixel-Shows x y m (InLine-first info x n hx)
          (omega (arith, InLine-first info x n hx, widen x (depth info), widen y info.line_length)))
        (λ m'.
          draw_row-Shows n (x + 1) y m'
            (subst (λ k. k * depth info ≤ info.line_length) (omega arith) hx) hy)
        (λ px py. row_tests n x y px py)

  draw_rows-Shows :
      (n x w y : ℕ) (m : Bytes)
      → (x + w) * depth info ≤ info.line_length
      → (y + n) * info.line_length ≤ size
      → Shows info
          (draw_rows n info size color x w y m)
          m
          (λ px py. within x w px && within y n py)
          (λ _ _. paint info color)
  unfolding draw_rows
  draw_rows-Shows zero x w y m hx hy =
      λ px py hp. rw (nothing_within y py, none_of (within x w px)) refl
  draw_rows-Shows (suc n) x w y m hx hy =
      Shows-bind info (draw_row w info size color x y m) (draw_rows n info size color x w (y + 1)) m
        (λ px py. within x w px && py == y) (λ px py. within x w px && within (y + 1) n py)
        (λ px py. within x w px && within y (suc n) py) (λ _ _. paint info color)
        (draw_row-Shows w x y m hx
          (omega (arith, mul_mono (y + 1) (y + suc n) info.line_length (omega arith))))
        (λ m'.
          draw_rows-Shows n x w (y + 1) m' hx
            (subst (λ k. k * info.line_length ≤ size) (omega arith) hy))
        (λ px py. rect_tests n x w y px py)

  -- draw_rect refines painting a picture: when every line of the rectangle lies in its line of memory
  -- and the lines in the mapping, it succeeds, each pixel of the rectangle is the color, in 16 bits
  -- where the screen has these, and every other pixel of the screen is what it was.
  pub draw_rect_refines :
      (x y w h : ℕ) (m : Bytes)
      → (x + w) * depth info ≤ info.line_length
      → (y + h) * info.line_length ≤ size
      → Shows info
          (draw_rect x y w h color info size m)
          m
          (λ px py. within x w px && within y h py)
          (λ _ _. paint info color)
  draw_rect_refines x y w h m hx hy = draw_rows-Shows h x w y m hx hy
