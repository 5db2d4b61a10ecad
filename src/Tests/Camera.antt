-- ===== src/Tests/Camera.antt =====
-- A frame of 2 by 2 pixels on a screen of 4 by 2, and a run of v4l2test that shows one.
use edge_embedded_linux.Common.{
  ℕ, ◌⊎◌, ◌≤◌, zero, suc, ◌≡◌, refl, inr, ◌+◌, ◌-◌, ◌*◌, ◌/◌, ◌<◌, List, [], ◌∷◌, Option, none,
  some, ◌&&◌, arith,
}
use edge_embedded_linux.Text.{codes}
use edge_embedded_linux.Posix.{
  field, Reply, value, bytes, failed, End, return, exit, returned, exited, faulted, spun, blocked,
  run,
}
use edge_embedded_linux.Screen.{Bytes, draw_row, draw_rows, put_word, get_word}
use edge_embedded_linux.Screen.Pixel.{Shows, within, pixel}
use edge_embedded_linux.Screen.Rect.{paint}
use edge_embedded_linux.Camera.{red, green, blue, capture_to_fb, capture_row, capture_rows}
use edge_embedded_linux.Camera.Color.{Near, exact, rgb-Near}
use edge_embedded_linux.Camera.Store.{frame_color, IsBytes}
use edge_embedded_linux.Camera.Blit.{capture_to_fb_refines}
use edge_embedded_linux.Camera.Setup.{Setup, default_setup, Opt, count, help, set_options}
use edge_embedded_linux.Camera.Devices.{
  eintr, xioctl, Screen, Video, open_device, init_device, map_buffers, queue_all, unmap_all,
}
use edge_embedded_linux.Camera.Program.{from, next_frame, mainloop, v4l2_main}
use edge_embedded_linux.Camera.Runs.{Frame, frame_answers, frame_events, Displays, run-mainloop}
use edge_embedded_linux.Camera.Safety.{IsJudged, v4l2_main-Judged}
use edge_embedded_linux.Tests.Screen.{small, dark, at_pixel}

-- White, of full brightness and no color.
abbrev white : Bytes
white i = 128

white-IsBytes : IsBytes white
unfolding IsBytes
white-IsBytes i = omega arith

shown : at_pixel small 3 1 (capture_to_fb small 16 2 2 2 0 8 white dark) ≡ some 0x8410
unfolding capture_row capture_rows put_word get_word pixel
shown = refl

not_shown : at_pixel small 1 1 (capture_to_fb small 16 2 2 2 0 8 white dark) ≡ some 0
unfolding capture_row capture_rows put_word get_word pixel
not_shown = refl

outside : at_pixel small 1 1 (capture_to_fb small 16 2 3 2 0 12 white dark) ≡ none
unfolding capture_row capture_rows put_word get_word pixel
outside = refl

capture_to_fb_refines_example :
    Shows small
      (capture_to_fb small 16 2 2 2 0 8 white dark)
      dark
      (λ px py. within 2 (2 / 2 * 2) px && within 0 2 py)
      (λ px py. paint small (frame_color 2 white (py - 0) (px - 2)))
capture_to_fb_refines_example =
    capture_to_fb_refines small 16 2 2 2 0 8
      (record {
        deep = inr refl;
        packed = refl;
        small = omega arith;
        across = omega arith;
        down = omega arith;
        whole = omega arith;
      })
      white white-IsBytes dark

rgb-Near_example :
    Near 10000 (10000 * red 100 200) (exact (10000 * 100 + 14075 * 200) (14075 * 128))
    × Near 20000
        (10000 * green 100 90 200)
        (exact (10000 * 100 + 3455 * 128 + 7169 * 128) (3455 * 90 + 7169 * 200))
    × Near 10000 (10000 * blue 100 90) (exact (10000 * 100 + 17790 * 90) (17790 * 128))
rgb-Near_example = rgb-Near 100 90 200

colors_of : red 100 200 ∷ green 100 90 200 ∷ blue 100 90 ∷ [] ≡ 201 ∷ 62 ∷ 33 ∷ []
colors_of = refl

abbrev one_frame : List Opt
one_frame = count (codes "1") ∷ []

abbrev reads_one : List ℕ → Option ℕ
reads_one s = some 1

abbrev one_setup : Setup
one_setup = record default_setup { frame_count = 1 }

one_frame_set : set_options reads_one one_frame default_setup ≡ return one_setup
unfolding set_options
one_frame_set = refl

abbrev frame_of : List ℕ
frame_of = 1 ∷ 4096 ∷ 128 ∷ 128 ∷ 128 ∷ 128 ∷ 255 ∷ 128 ∷ 255 ∷ 128 ∷ []

-- The camera is 3, the frame buffer 4. One request is interrupted, and one round finds no frame.
abbrev session : List Reply
session =
    bytes (0x2000 ∷ [])
    ∷ value 3
    ∷ value 4
    ∷ bytes (4 ∷ 2 ∷ 16 ∷ 0 ∷ 0 ∷ [])
    ∷ bytes (8 ∷ [])
    ∷ value 1000
    ∷ failed eintr
    ∷ bytes (0x04000001 ∷ [])
    ∷ failed 22
    ∷ bytes (2 ∷ 2 ∷ [])
    ∷ bytes (2 ∷ [])
    ∷ value 500
    ∷ bytes (8 ∷ 0 ∷ [])
    ∷ value 2000
    ∷ bytes (8 ∷ 4096 ∷ [])
    ∷ value 3000
    ∷ value 0
    ∷ value 0
    ∷ value 0
    ∷ value 1
    ∷ failed 11
    ∷ value 1
    ∷ bytes frame_of
    ∷ value 0
    ∷ value 0
    ∷ value 0
    ∷ value 0
    ∷ value 0
    ∷ value 0
    ∷ value 0
    ∷ value 0
    ∷ []

abbrev ends_with : End Bytes → Option Bytes
ends_with (returned m) = some m
ends_with (exited n) = none
ends_with faulted = none
ends_with spun = none
ends_with blocked = none

session_shows :
    at_pixel small 1 1 (ends_with (run (v4l2_main 3 reads_one one_frame dark) session).1)
    ≡ some 0xffff
unfolding run v4l2_main set_options open_device init_device map_buffers queue_all unmap_all xioctl
    next_frame mainloop capture_row capture_rows draw_row draw_rows put_word get_word pixel
session_shows = refl

help_ends : run (v4l2_main 3 reads_one (help ∷ one_frame) dark) session ≡ ([], exited 0)
unfolding run v4l2_main set_options
help_ends = refl

v4l2_main-Judged_example :
    ((code : ℕ) × (code ≤ 1)
      × (set_options reads_one one_frame default_setup ≡ exit code)
      × (run (v4l2_main 3 reads_one one_frame dark) session ≡ ([], exited code)))
    ⊎ ((setup : Setup) × (set_options reads_one one_frame default_setup ≡ return setup)
        × IsJudged 3 reads_one one_frame dark session setup)
v4l2_main-Judged_example = v4l2_main-Judged 3 reads_one one_frame dark session

abbrev screen_two : Screen
screen_two = record { fd_fb = 4; info = small; map_fb = 1000; pixels = dark }

abbrev camera_two : Video
camera_two = record {
  fd = 3;
  width = 2;
  height = 2;
  array = 500;
  buffers = record { start = 2000; length = 8 } ∷ record { start = 3000; length = 8 } ∷ [];
}

abbrev two_frames : List Frame
two_frames =
    record { index = 1; used = 4096; held = 255 ∷ 128 ∷ 255 ∷ 128 ∷ [] }
    ∷ record { index = 0; used = 4096; held = 16 ∷ 90 ∷ [] }
    ∷ []

abbrev AreSmall : List ℕ → Type 0
AreSmall [] = Unit
AreSmall (x ∷ l) = (x < 256) × AreSmall l

field-lt : (l : List ℕ) → AreSmall l → (i : ℕ) → field l i < 256
field-lt [] h i = omega arith
field-lt (x ∷ l) h zero = h.0
field-lt (x ∷ l) h (suc i) = field-lt l h.1 i

held-IsBytes : (a b : ℕ) (l : List ℕ) → AreSmall l → IsBytes (from (a ∷ b ∷ l) 2)
unfolding IsBytes
held-IsBytes a b l h i = let e : 2 + i ≡ suc (suc i) = omega arith in rw e (field-lt l h i)

first_small : AreSmall (255 ∷ 128 ∷ 255 ∷ 128 ∷ [])
first_small = (omega arith, (omega arith, (omega arith, (omega arith, tt))))

second_small : AreSmall (16 ∷ 90 ∷ [])
second_small = (omega arith, (omega arith, tt))

run-mainloop_example :
    ((run (mainloop 2 3 one_setup screen_two camera_two dark) (frame_answers two_frames)).0
      ≡ frame_events 3 two_frames)
    × Displays one_setup screen_two camera_two two_frames dark
        (run (mainloop 2 3 one_setup screen_two camera_two dark) (frame_answers two_frames)).1
run-mainloop_example =
    run-mainloop 2 one_setup screen_two camera_two
      (record {
        deep = inr refl;
        packed = refl;
        clears = record { across = omega arith; down = omega arith };
      })
      (omega arith, (omega arith, tt)) (record { across = omega arith; down = omega arith })
      two_frames dark
      (
        omega arith,
        held-IsBytes 1 4096 (255 ∷ 128 ∷ 255 ∷ 128 ∷ []) first_small,
        (omega arith, held-IsBytes 0 4096 (16 ∷ 90 ∷ []) second_small, tt),
      )
