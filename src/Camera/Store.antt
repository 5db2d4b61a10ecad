-- ===== src/Camera/Store.antt =====
-- The store of one pixel of a frame, on a screen whose lines follow each other without a gap.
use Prim.Native.Nat.{bit_and}
use edge_embedded_linux.Common.{
  ℕ, ◌≡◌, refl, sym, ap, subst, ◌∙◌, inl, inr, ◌+◌, ◌-◌, ◌*◌, ◌/◌, ◌%◌, ◌^◌, ◌≤◌, ◌<◌, some, le→leb,
  if◌then◌else◌, arith, Bool-cases,
}
use edge_embedded_linux.Common.Int.{pos, sub_ℕ, quot, ◌*ℤ◌, ◌+ℤ◌, ◌-ℤ◌}
use edge_embedded_linux.Screen.{Bytes, put_word, get_word, store_word, ScreenInfo, pack888, pack565}
use edge_embedded_linux.Screen.Bits.{low_byte, rgb565-pack888, pack888_lem}
use edge_embedded_linux.Screen.Rect.{paint, paint-Fits}
use edge_embedded_linux.Screen.Pixel.{
  depth, HasDepth, place, pixel, InLine, at, at-true, pixel-put_word, Shows,
}
use edge_embedded_linux.Camera.{red, green, blue, put_rgb, put_yuv}
use edge_embedded_linux.Camera.Color.{clamp-lt}

-- A color in 24 bits.
abbrev pub color_of : (y u v : ℕ) → ℕ
color_of y u v = red y v * 2 ^ 16 + green y u v * 2 ^ 8 + blue y u

-- The color at a column `c` of the line `i` of a frame: two neighbours share the bytes of u and v.
abbrev pub frame_color : (width : ℕ) → Bytes → (i c : ℕ) → ℕ
frame_color width frame i c =
    let line = i * width * 2 in
    color_of (frame (line + c * 2)) (frame (line + c / 2 * 4 + 1)) (frame (line + c / 2 * 4 + 3))

-- The lines of the screen without a gap.
abbrev pub IsPacked : ScreenInfo → Type 0
IsPacked info = info.line_length ≡ info.xres * depth info

address :
    (d w l x y n size : ℕ)
    → l ≡ w * d
    → n ≡ y * w + x
    → x * d + y * l + d ≤ size
    → size < 2 ^ 29
    → n * (8 * d) % 2 ^ 32 / 8 ≡ x * d + y * l
address d w l x y n size el en fits small =
    let e : n * (8 * d) ≡ 8 * (x * d + y * l) = rw (el, en) (grind arith) in rw e (omega arith)

store_word-at :
    (size k : ℕ) (m : Bytes) (i j v : ℕ)
    → i ≡ j
    → j + k ≤ size
    → store_word size k m i v ≡ some (put_word k m j v)
store_word-at size k m i j v e fits = rw (e, le→leb (j + k) size fits) refl

at_depth :
    (info : ScreenInfo) (size x y bits : ℕ)
    → info.bits_per_pixel ≡ bits
    → IsPacked info
    → place info x y + depth info ≤ size
    → (info.line_length ≡ info.xres * (bits / 8))
      × (x * (bits / 8) + y * info.line_length + bits / 8 ≤ size)
at_depth info size x y bits d packed fits =
    subst
      (λ b.
        (info.line_length ≡ info.xres * (b / 8))
        × (x * (b / 8) + y * info.line_length + b / 8 ≤ size))
      d (packed, fits)

put_rgb_lem :
    (info : ScreenInfo) (size r g b x y n : ℕ) (m : Bytes)
    → HasDepth info
    → IsPacked info
    → size < 2 ^ 29
    → r < 256
    → g < 256
    → b < 256
    → n ≡ y * info.xres + x
    → place info x y + depth info ≤ size
    → put_rgb info size r g b n m
      ≡ some (put_word (depth info) m (place info x y) (paint info (r * 2 ^ 16 + g * 2 ^ 8 + b)))
put_rgb_lem info size r g b x y n m (inl d) packed small hr hg hb e fits =
    let (packed', fits') = at_depth info size x y 32 d packed fits in
    rw (d, sym (pack888_lem r g b hr hg hb))
      (store_word-at size 4 m (n * 32 % 2 ^ 32 / 8) (x * 4 + y * info.line_length) (pack888 r g b)
        (address 4 info.xres info.line_length x y n size packed' e fits' small) fits')
put_rgb_lem info size r g b x y n m (inr d) packed small hr hg hb e fits =
    let (packed', fits') = at_depth info size x y 16 d packed fits in
    rw (d, sym (pack888_lem r g b hr hg hb), rgb565-pack888 r g b hr hg hb)
      (store_word-at size 2 m (n * 16 % 2 ^ 32 / 8) (x * 2 + y * info.line_length) (pack565 r g b)
        (address 2 info.xres info.line_length x y n size packed' e fits' small) fits')

-- The four bytes of a word.
unfoldable pub IsBytes : Bytes → Type 0
IsBytes frame = (i : ℕ) → frame i < 256

pub word_bytes :
    (frame : Bytes) (i : ℕ)
    → IsBytes frame
    → (bit_and (get_word 4 frame i) 0xff ≡ frame i)
      × (bit_and (get_word 4 frame i / 2 ^ 8) 0xff ≡ frame (i + 1))
      × (bit_and (get_word 4 frame i / 2 ^ 16) 0xff ≡ frame (i + 2))
      × (bit_and (get_word 4 frame i / 2 ^ 24) 0xff ≡ frame (i + 3))
unfolding IsBytes get_word
word_bytes frame i b =
    let b0 = b i in
    let b1 = b (i + 1) in
    let b2 = b (i + 2) in
    let b3 = b (i + 3) in
    let e2 : frame (i + 1 + 1) ≡ frame (i + 2) = ap frame (omega arith) in
    let e3 : frame (i + 1 + 1 + 1) ≡ frame (i + 3) = ap frame (omega arith) in
    let w : get_word 4 frame i
        ≡ frame i + 256 * (frame (i + 1) + 256 * (frame (i + 2) + 256 * frame (i + 3))) =
      rw (e2, e3) (omega arith) in
    (
      low_byte (get_word 4 frame i) ∙ omega arith,
      low_byte (get_word 4 frame i / 2 ^ 8) ∙ omega arith,
      low_byte (get_word 4 frame i / 2 ^ 16) ∙ omega arith,
      low_byte (get_word 4 frame i / 2 ^ 24) ∙ omega arith,
    )

pub color_left :
    (width x y : ℕ) (frame : Bytes) (i j : ℕ)
    → frame_color width frame (i + y - y) (j * 2 + x - x)
      ≡ color_of
          (frame (i * width * 2 + j * 4))
          (frame (i * width * 2 + j * 4 + 1))
          (frame (i * width * 2 + j * 4 + 3))
color_left width x y frame i j =
    let ei : i + y - y ≡ i = omega arith in
    let ej : j * 2 + x - x ≡ j * 2 = omega arith in
    let e : j * 2 * 2 ≡ j * 4 = omega arith in
    let h : j * 2 / 2 ≡ j = omega arith in rw (ei, ej, e, h) refl

pub color_right :
    (width x y : ℕ) (frame : Bytes) (i j : ℕ)
    → frame_color width frame (i + y - y) (j * 2 + 1 + x - x)
      ≡ color_of
          (frame (i * width * 2 + j * 4 + 2))
          (frame (i * width * 2 + j * 4 + 1))
          (frame (i * width * 2 + j * 4 + 3))
color_right width x y frame i j =
    let ei : i + y - y ≡ i = omega arith in
    let ej : j * 2 + 1 + x - x ≡ j * 2 + 1 = omega arith in
    let e : i * width * 2 + (j * 2 + 1) * 2 ≡ i * width * 2 + j * 4 + 2 = omega arith in
    let h : (j * 2 + 1) / 2 ≡ j = omega arith in rw (ei, ej, e, h) refl

red-lt : (b v : ℕ) → red b v < 256
red-lt b v = clamp-lt (quot (pos (10000 * b) +ℤ (14075 *ℤ sub_ℕ v 128)) 10000)

green-lt : (b u v : ℕ) → green b u v < 256
green-lt b u v =
    clamp-lt ((pos b -ℤ quot (3455 *ℤ sub_ℕ u 128) 10000) -ℤ quot (7169 *ℤ sub_ℕ v 128) 10000)

blue-lt : (b u : ℕ) → blue b u < 256
blue-lt b u = clamp-lt (pos b +ℤ quot (17790 *ℤ sub_ℕ u 128) 10000)

color-lt : (r g b : ℕ) → r < 256 → g < 256 → b < 256 → r * 2 ^ 16 + g * 2 ^ 8 + b < 2 ^ 32
color-lt r g b hr hg hb = omega arith

color_of-lt : (b u v : ℕ) → color_of b u v < 2 ^ 32
color_of-lt b u v =
    color-lt (red b v) (green b u v) (blue b u) (red-lt b v) (green-lt b u v) (blue-lt b u)

same_at :
    (x y px py a z : ℕ) (picture : ℕ → ℕ → ℕ)
    → picture x y ≡ a
    → (if at x y px py then a else z) ≡ (if at x y px py then picture px py else z)
same_at x y px py a z picture e = elim (Bool-cases (at x y px py)) [
  | inr f ↦ rw f refl
  | inl f ↦ rw (f, (at-true x y px py f).0, (at-true x y px py f).1, e) refl
]

module _ (info : ScreenInfo) (size : ℕ) (deep : HasDepth info) (packed : IsPacked info)
    (small : size < 2 ^ 29) where
  pub put_yuv-Shows :
      (b u v px py n : ℕ) (m : Bytes) (picture : ℕ → ℕ → ℕ)
      → n ≡ py * info.xres + px
      → InLine info px
      → place info px py + depth info ≤ size
      → picture px py ≡ paint info (color_of b u v)
      → Shows info (put_yuv info size b u v n m) m (at px py) picture
  put_yuv-Shows b u v px py n m picture en line fits e =
      let color = paint info (color_of b u v) in
      subst (λ o. Shows info o m (at px py) picture)
        (sym (
          put_rgb_lem info size (red b v) (green b u v) (blue b u) px py n m deep packed small
            (red-lt b v) (green-lt b u v) (blue-lt b u) en fits))
        (λ qx qy hq.
          pixel-put_word info m px py color qx qy
            (paint-Fits info (color_of b u v) deep (color_of-lt b u v)) line hq
          ∙ same_at px py qx qy color (pixel info m qx qy) picture e)
