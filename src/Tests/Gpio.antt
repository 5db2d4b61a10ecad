-- ===== src/Tests/Gpio.antt =====
-- gpiotest on a chip of two lines: the key is pressed, released, and then cannot be read.
use edge_embedded_linux.Common.{◌≡◌, [], ◌∷◌, arith}
use edge_embedded_linux.Posix.{open_file, chip_info, line_handle, value, did, exited, run}
use edge_embedded_linux.Gpio.{gpio_led, gpio_key, gpio_dev, gpio_main}
use edge_embedded_linux.Gpio.Runs.{key_levels, followed, described, descriptions, run-gpio_main}

run-gpio_main_example :
    run
      (gpio_main 1 3)
      (value 3 ∷ value 2 ∷ descriptions 2 (value 4 ∷ value 5 ∷ key_levels (0 ∷ 1 ∷ []) 5))
    ≡ (
      did (open_file gpio_dev) (value 3)
          ∷ did (chip_info 3) (value 2)
          ∷ described 2 3 0 (
              did (line_handle 3 gpio_led 1) (value 4)
              ∷ did (line_handle 3 gpio_key 0) (value 5)
              ∷ followed (record { led = 4; key = 5 }) (0 ∷ 1 ∷ []) 5),
      exited 1,
    )
run-gpio_main_example = run-gpio_main 2 3 4 5 (0 ∷ 1 ∷ []) 3 5 (omega arith)
