-- ===== src/Camera.antt =====
-- practice/practice_device_bd/EX06-04_v4l2test: frames of a camera, converted and stored into the
-- frame buffer.
pub mod Color
pub mod Blit
pub mod Rules
pub mod Runs
pub mod Safety
pub mod Setup
pub mod Options
pub mod Devices
pub mod Queue
pub mod Loop
pub mod Opening
pub mod Mapping
pub mod Buffers
pub mod Protocol
pub mod Program
pub mod Store
use Prim.Native.Nat.{bit_and}
use edge_embedded_linux.Common.{
  ℕ, zero, suc, ◌+◌, ◌*◌, ◌/◌, ◌%◌, ◌^◌, Option, none, some, leb, ltb, ◌==◌, if◌then◌else◌,
}
use edge_embedded_linux.Common.Int.{ℤ, pos, negsuc, sub_ℕ, ◌+ℤ◌, ◌-ℤ◌, ◌*ℤ◌, quot}
use edge_embedded_linux.Screen.{Bytes, get_word, store_word, ScreenInfo, pack888, pack565, ◌>>=◌}

-- `if(R>255) R=255; if(R<0) R=0;`
abbrev pub clamp : ℤ → ℕ
clamp (pos n) = if ltb 255 n then 255 else n
clamp (negsuc n) = 0

-- The sum with 1.4075 * (V - 128) in ten thousandths, and the part of it that an int holds. The
-- floating-point sum lies on the same side of every whole number, and is one only where V is 128.
abbrev pub red : (y v : ℕ) → ℕ
red y v = clamp (quot (pos (10000 * y) +ℤ (14075 *ℤ sub_ℕ v 128)) 10000)

abbrev pub green : (y u v : ℕ) → ℕ
green y u v =
    clamp ((pos y -ℤ quot (3455 *ℤ sub_ℕ u 128) 10000) -ℤ quot (7169 *ℤ sub_ℕ v 128) 10000)

abbrev pub blue : (y u : ℕ) → ℕ
blue y u = clamp (pos y +ℤ quot (17790 *ℤ sub_ℕ u 128) 10000)

-- Where a pixel is stored: the lines of the screen without a gap, in unsigned arithmetic.
abbrev pub fb_location : ScreenInfo → ℕ → ℕ
fb_location info n = n * info.bits_per_pixel % 2 ^ 32 / 8

abbrev pub put_rgb : ScreenInfo → (size : ℕ) → (r g b : ℕ) → (n : ℕ) → Bytes → Option Bytes
put_rgb info size r g b n m =
    if info.bits_per_pixel == 32
    then store_word size 4 m (fb_location info n) (pack888 r g b)
    else store_word size 2 m (fb_location info n) (pack565 r g b)

-- A pixel of the brightness `y`, the `n`th of the screen.
abbrev pub put_yuv : ScreenInfo → (size : ℕ) → (y u v : ℕ) → (n : ℕ) → Bytes → Option Bytes
put_yuv info size y u v n m = put_rgb info size (red y v) (green y u v) (blue y u) n m

-- `*(unsigned int *)(pp + i)` in a buffer of `len` bytes.
abbrev pub load : ℕ → Bytes → ℕ → Option ℕ
load len frame i = if leb (i + 4) len then some (get_word 4 frame i) else none

-- Two pixels from the word `yuyv`.
abbrev pub put_pair : ScreenInfo → (size : ℕ) → (i j x y yuyv : ℕ) → Bytes → Option Bytes
put_pair info size i j x y yuyv m =
    let u = bit_and (yuyv / 2 ^ 8) 0xff in
    let v = bit_and (yuyv / 2 ^ 24) 0xff in
    put_yuv info size (bit_and yuyv 0xff) u v ((i + y) * info.xres + j * 2 + x) m
    >>= put_yuv info size (bit_and (yuyv / 2 ^ 16) 0xff) u v ((i + y) * info.xres + j * 2 + 1 + x)

-- The inner loop from `j` on and the outer from `i` on, with the counts still to go.
unfoldable pub capture_row :
    ℕ
    → ScreenInfo
    → (size : ℕ) → (width x y : ℕ) → (len : ℕ) → Bytes
    → (i j : ℕ) → Bytes
    → Option Bytes
capture_row zero info size width x y len frame i j m = some m
capture_row (suc n) info size width x y len frame i j m =
    (load len frame (i * width * 2 + j * 4) >>= λ yuyv. put_pair info size i j x y yuyv m)
    >>= capture_row n info size width x y len frame i (j + 1)

unfoldable pub capture_rows :
    ℕ
    → ScreenInfo
    → (size : ℕ) → (width x y : ℕ) → (len : ℕ) → Bytes
    → (i : ℕ) → Bytes
    → Option Bytes
capture_rows zero info size width x y len frame i m = some m
capture_rows (suc n) info size width x y len frame i m =
    capture_row (width / 2) info size width x y len frame i 0 m
    >>= capture_rows n info size width x y len frame (i + 1)

-- capture_to_fb(p, size, x, y) for a frame buffer mapping of `size` bytes and a buffer of `len` bytes;
-- x and y not negative.
abbrev pub capture_to_fb :
    ScreenInfo → (size : ℕ) → (width height x y : ℕ) → (len : ℕ) → Bytes → Bytes → Option Bytes
capture_to_fb info size width height x y len frame m =
    capture_rows height info size width x y len frame 0 m
