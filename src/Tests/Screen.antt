-- ===== src/Tests/Screen.antt =====
-- A screen of 4 by 2 pixels, and fbtest on larger ones.
use edge_embedded_linux.Common.{
  ℕ, ◌≡◌, refl, inl, inr, List, [], ◌∷◌, Option, none, some, ◌&&◌, arith,
}
use edge_embedded_linux.Posix.{value, did, close, munmap, faulted, run}
use edge_embedded_linux.Screen.{
  Bytes, ScreenInfo, color_red, draw_rect, draw_row, draw_rows, put_word, get_word, rgb565, pack565,
  pack888,
}
use edge_embedded_linux.Screen.Pixel.{Shows, within, pixel}
use edge_embedded_linux.Screen.Rect.{paint, draw_rect_refines}
use edge_embedded_linux.Screen.Bits.{rgb565-pack888}
use edge_embedded_linux.Screen.Main.{
  fbtest_main, screen_answers, screen_events, fb_size, info_of, Drawn, run-fbtest_main,
  run-fbtest_main_overrun,
}

abbrev pub small : ScreenInfo
small = info_of (4 ∷ 2 ∷ 16 ∷ 0 ∷ 0 ∷ []) (8 ∷ [])

abbrev pub dark : Bytes
dark _ = 0

abbrev pub at_pixel : ScreenInfo → ℕ → ℕ → Option Bytes → Option ℕ
at_pixel info x y none = none
at_pixel info x y (some m) = some (pixel info m x y)

red_pixel : at_pixel small 2 1 (draw_rect 1 0 2 2 color_red small 16 dark) ≡ some 0xf800
unfolding draw_row draw_rows put_word get_word pixel
red_pixel = refl

beside_it : at_pixel small 3 1 (draw_rect 1 0 2 2 color_red small 16 dark) ≡ some 0
unfolding draw_row draw_rows put_word get_word pixel
beside_it = refl

too_low : at_pixel small 2 1 (draw_rect 1 1 2 2 color_red small 16 dark) ≡ none
unfolding draw_row draw_rows put_word get_word pixel
too_low = refl

draw_rect_refines_example :
    Shows small
      (draw_rect 1 0 2 2 color_red small 16 dark)
      dark
      (λ px py. within 1 2 px && within 0 2 py)
      (λ _ _. paint small color_red)
draw_rect_refines_example =
    draw_rect_refines small 16 color_red (inr refl) (omega arith) (omega arith) 1 0 2 2 dark
      (omega arith) (omega arith)

rgb565-pack888_example : rgb565 (pack888 255 130 8) ≡ pack565 255 130 8
rgb565-pack888_example = rgb565-pack888 255 130 8 (omega arith) (omega arith) (omega arith)

abbrev square_var : List ℕ
square_var = 200 ∷ 200 ∷ 32 ∷ 0 ∷ 0 ∷ []

abbrev square_fix : List ℕ
square_fix = 800 ∷ []

run-fbtest_main_example :
    ((run (fbtest_main 1 dark) (screen_answers 3 64 square_var square_fix)).0
      ≡ screen_events 3 64 square_var square_fix (
          did (munmap 64 (fb_size (info_of square_var square_fix))) (value 0)
          ∷ did (close 3) (value 0)
          ∷ []))
    × Drawn
        (info_of square_var square_fix)
        dark
        (run (fbtest_main 1 dark) (screen_answers 3 64 square_var square_fix)).1
run-fbtest_main_example =
    run-fbtest_main 3 64 square_var square_fix dark (inl refl)
      (record { across = omega arith; down = omega arith })
      (record { across = omega arith; down = omega arith })

-- Lines of two pixels in six bytes.
abbrev padded_var : List ℕ
padded_var = 2 ∷ 2 ∷ 16 ∷ 0 ∷ 0 ∷ []

abbrev padded_fix : List ℕ
padded_fix = 6 ∷ []

run-fbtest_main_overrun_example :
    run (fbtest_main 1 dark) (screen_answers 3 64 padded_var padded_fix)
    ≡ (screen_events 3 64 padded_var padded_fix [], faulted)
run-fbtest_main_overrun_example =
    run-fbtest_main_overrun 3 64 padded_var padded_fix dark 1 1 (inr refl)
      (omega arith, omega arith) (omega arith) (omega arith)
