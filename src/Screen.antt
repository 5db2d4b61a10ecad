-- ===== src/Screen.antt =====
-- The frame buffer of EX06-03_fbtest and EX06-04_v4l2test: bytes that draw_rect stores pixels into.
pub mod Bits
pub mod Main
pub mod Memory
pub mod Overrun
pub mod Pixel
pub mod Rect
use Prim.Native.Nat.{bit_or, bit_and}
use edge_embedded_linux.Common.{
  ℕ, zero, suc, ◌+◌, ◌*◌, ◌/◌, ◌%◌, ◌^◌, Option, none, some, leb, ◌==◌, if◌then◌else◌,
}

-- The bytes at the addresses of a mapping, counted from its start.
abbrev pub Bytes : Type 0
Bytes = ℕ → ℕ

abbrev pub put_byte : Bytes → ℕ → ℕ → Bytes
put_byte m i v = λ j. if j == i then v % 256 else m j

-- A number of `n` bytes, the lowest first.
unfoldable pub put_word : ℕ → Bytes → ℕ → ℕ → Bytes
put_word zero m i v = m
put_word (suc n) m i v = put_word n (put_byte m i v) (i + 1) (v / 256)

unfoldable pub get_word : ℕ → Bytes → ℕ → ℕ
get_word zero m i = 0
get_word (suc n) m i = m i + 256 * get_word n m (i + 1)

-- A store of `n` bytes into a mapping of `size` bytes, `none` outside of it.
abbrev pub store_word : ℕ → ℕ → Bytes → ℕ → ℕ → Option Bytes
store_word size n m i v = if leb (i + n) size then some (put_word n m i v) else none

-- The fields of fb_var_screeninfo and fb_fix_screeninfo that the programs read.
pub record ScreenInfo : Type 0 where
  pub xres : ℕ
  pub yres : ℕ
  pub bits_per_pixel : ℕ
  pub xoffset : ℕ
  pub yoffset : ℕ
  pub line_length : ℕ

abbrev pub color_red : ℕ
color_red = 0xff0000

abbrev pub color_black : ℕ
color_black = 0

-- Red, green and blue in 16 bits.
abbrev pub pack565 : (r g b : ℕ) → ℕ
pack565 r g b = bit_or (bit_or (r / 2 ^ 3 * 2 ^ 11) (g / 2 ^ 2 * 2 ^ 5)) (b / 2 ^ 3) % 2 ^ 16

-- In 24 bits.
abbrev pub pack888 : (r g b : ℕ) → ℕ
pack888 r g b = bit_or (bit_or (r * 2 ^ 16) (g * 2 ^ 8)) b

-- The 16 bits of a color of 24.
abbrev pub rgb565 : ℕ → ℕ
rgb565 color = pack565 (color / 2 ^ 16) (bit_and (color / 2 ^ 8) 0xff) (bit_and color 0xff)

-- `location` is computed as an unsigned int.
abbrev pub location : ScreenInfo → ℕ → ℕ → ℕ
location info xx yy = (xx * (info.bits_per_pixel / 8) + yy * info.line_length) % 2 ^ 32

abbrev pub draw_pixel : ScreenInfo → ℕ → ℕ → ℕ → ℕ → Bytes → Option Bytes
draw_pixel info size color xx yy m =
    if info.bits_per_pixel == 32
    then store_word size 4 m (location info xx yy) color
    else store_word size 2 m (location info xx yy) (rgb565 color)

infixl 1 ◌>>=◌
abbrev pub ◌>>=◌ : {A B : Type 0} → Option A → (A → Option B) → Option B
none >>= f = none
some a >>= f = f a

-- The inner loop from `xx` on, and the outer loop from `yy` on.
unfoldable pub draw_row : ℕ → ScreenInfo → ℕ → ℕ → ℕ → ℕ → Bytes → Option Bytes
draw_row zero info size color xx yy m = some m
draw_row (suc n) info size color xx yy m =
    draw_pixel info size color xx yy m >>= draw_row n info size color (xx + 1) yy

unfoldable pub draw_rows : ℕ → ScreenInfo → ℕ → ℕ → ℕ → ℕ → ℕ → Bytes → Option Bytes
draw_rows zero info size color x w yy m = some m
draw_rows (suc n) info size color x w yy m =
    draw_row w info size color x yy m >>= draw_rows n info size color x w (yy + 1)

-- draw_rect(x, y, w, h, color, ...) on a mapping of `size` bytes.
abbrev pub draw_rect : (x y w h color : ℕ) → ScreenInfo → ℕ → Bytes → Option Bytes
draw_rect x y w h color info size m = draw_rows h info size color x w y m
