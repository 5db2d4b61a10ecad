-- ===== src/Screen/Overrun.antt =====
-- draw_rect on a rectangle that the mapping does not hold: the store that leaves it.
use edge_embedded_linux.Common.{
  ℕ, zero, suc, ◌≡◌, refl, subst, inl, inr, ◌+◌, ◌*◌, ◌/◌, ◌%◌, ◌^◌, ◌≤◌, ◌<◌, true, false, Option,
  none, some, leb, arith,
}
use edge_embedded_linux.Screen.{
  Bytes, store_word, ScreenInfo, rgb565, draw_pixel, ◌>>=◌, draw_row, draw_rows, draw_rect,
}
use edge_embedded_linux.Screen.Pixel.{depth, HasDepth, place, within, trichotomy}

bind-none :
    (o : Option Bytes) (f : Bytes → Option Bytes) → ((m : Bytes) → f m ≡ none) → (o >>= f) ≡ none
bind-none none f h = refl
bind-none (some m) f h = h m

store_word_out :
    (size n : ℕ) (m : Bytes) (i v : ℕ)
    → i < 2 ^ 32
    → size < i + n
    → store_word size n m (i % 2 ^ 32) v ≡ none
store_word_out size n m i v lt out =
    let e : i % 2 ^ 32 ≡ i = omega arith in
    let f : leb (i + n) size ≡ false = ground arith in rw (e, f) refl

-- A pixel of the screen that the mapping does not hold.
abbrev pub Overruns : ScreenInfo → ℕ → ℕ → ℕ → Type 0
Overruns info size x y = (place info x y < 2 ^ 32) × (size < place info x y + depth info)

of_depth :
    (info : ScreenInfo) (size x y bits : ℕ)
    → info.bits_per_pixel ≡ bits
    → Overruns info size x y
    → (x * (bits / 8) + y * info.line_length < 2 ^ 32)
      × (size < x * (bits / 8) + y * info.line_length + bits / 8)
of_depth info size x y bits d =
    subst
      (λ b.
        (x * (b / 8) + y * info.line_length < 2 ^ 32)
        × (size < x * (b / 8) + y * info.line_length + b / 8))
      d

draw_pixel-Overruns :
    (info : ScreenInfo) (size color x y : ℕ) (m : Bytes)
    → HasDepth info
    → Overruns info size x y
    → draw_pixel info size color x y m ≡ none
draw_pixel-Overruns info size color x y m (inl d) h =
    let at_place = of_depth info size x y 32 d h in
    rw d (store_word_out size 4 m (x * 4 + y * info.line_length) color at_place.0 at_place.1)
draw_pixel-Overruns info size color x y m (inr d) h =
    let at_place = of_depth info size x y 16 d h in
    rw d
      (store_word_out size 2 m (x * 2 + y * info.line_length) (rgb565 color) at_place.0 at_place.1)

within-bounds : (a n i : ℕ) → within a n i ≡ true → (a ≤ i) × (i < a + n)
within-bounds a n i h = ground arith

module _ (info : ScreenInfo) (size color : ℕ) (deep : HasDepth info) (px py : ℕ)
    (out : Overruns info size px py) where
  draw_row-Overruns :
      (n x : ℕ) (m : Bytes) → x ≤ px → px < x + n → draw_row n info size color x py m ≡ none
  unfolding draw_row
  draw_row-Overruns zero x m le lt = absurd (omega arith)
  draw_row-Overruns (suc n) x m le lt = elim (trichotomy x px) [
    | inl less ↦
        bind-none (draw_pixel info size color x py m) (draw_row n info size color (x + 1) py)
          (λ m'. draw_row-Overruns n (x + 1) m' (omega arith) (omega arith))
    | inr (inl more) ↦ absurd (omega arith)
    | inr (inr e) ↦ rw (e, draw_pixel-Overruns info size color px py m deep out) refl
  ]

  draw_rows-Overruns :
      (n x w y : ℕ) (m : Bytes)
      → x ≤ px
      → px < x + w
      → y ≤ py
      → py < y + n
      → draw_rows n info size color x w y m ≡ none
  unfolding draw_rows
  draw_rows-Overruns zero x w y m le lt above below = absurd (omega arith)
  draw_rows-Overruns (suc n) x w y m le lt above below = elim (trichotomy y py) [
    | inl less ↦
        bind-none (draw_row w info size color x y m) (draw_rows n info size color x w (y + 1))
          (λ m'. draw_rows-Overruns n x w (y + 1) m' le lt (omega arith) (omega arith))
    | inr (inl more) ↦ absurd (omega arith)
    | inr (inr e) ↦ rw (e, draw_row-Overruns w x m le lt) refl
  ]

  -- If the mapping ends before the end of one pixel of the rectangle, which is addressed below 2^32,
  -- draw_rect stores outside of the mapping.
  pub draw_rect-Overruns :
      (x y w h : ℕ) (m : Bytes)
      → within x w px ≡ true
      → within y h py ≡ true
      → draw_rect x y w h color info size m ≡ none
  draw_rect-Overruns x y w h m in_x in_y =
      let (le, lt) = within-bounds x w px in_x in
      let (above, below) = within-bounds y h py in_y in
      draw_rows-Overruns h x w y m le lt above below
