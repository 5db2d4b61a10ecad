-- ===== src/Camera/Color.antt =====
-- The integer conversion of a color in put_yuv, next to the exact one.
use edge_embedded_linux.Common.{ℕ, ◌≡◌, sym, subst, ◌+◌, ◌-◌, ◌*◌, ◌≤◌, ◌<◌, min, arith}
use edge_embedded_linux.Common.Int.{ℤ, pos, negsuc, pos_part, neg_part, sub_ℕ, quot, ◌*ℤ◌, ◌-ℤ◌}
use edge_embedded_linux.Camera.{clamp, red, green, blue}

pub clamp-lt : (a : ℤ) → clamp a < 256
clamp-lt (pos n) = ground arith
clamp-lt (negsuc n) = omega arith

-- Less than `d` apart.
abbrev pub Near : ℕ → ℕ → ℕ → Type 0
Near d a b = (a < b + d) × (b < a + d)

-- In ten thousandths, from 0 to 255.
abbrev pub exact : (plus less : ℕ) → ℕ
exact plus less = min (plus - less) 2550000

clamp-sub_ℕ : (a b : ℕ) → clamp (sub_ℕ a b) ≡ min (a - b) 255
clamp-sub_ℕ a b = ground arith

pos_part-sub_ℕ : (a b : ℕ) → pos_part (sub_ℕ a b) ≡ a - b
pos_part-sub_ℕ a b = ground arith

neg_part-sub_ℕ : (a b : ℕ) → neg_part (sub_ℕ a b) ≡ b - a
neg_part-sub_ℕ a b = ground arith

ruleset parts = (clamp-sub_ℕ, pos_part-sub_ℕ, neg_part-sub_ℕ)

red-Near : (y v : ℕ) → Near 10000 (10000 * red y v) (exact (10000 * y + 14075 * v) (14075 * 128))
red-Near y v = simp parts (omega arith, omega arith)

-- The two parts of the quotient of k * (u - 128), the larger of which is not negative.
record Parts (a b p n : ℕ) : Type 0 where
  above : 10000 * p ≤ a - b
  below : a - b < 10000 * p + 10000
  under : 10000 * n ≤ b - a
  over : b - a < 10000 * n + 10000

abbrev HasParts : (a b : ℕ) → ℤ → Type 0
HasParts a b q = Parts a b (pos_part q) (neg_part q)

quot-HasParts_u : (u : ℕ) → HasParts (3455 * u) (3455 * 128) (quot (3455 *ℤ sub_ℕ u 128) 10000)
quot-HasParts_u u =
    simp parts
      (record { above = omega arith; below = omega arith; under = omega arith; over = omega arith })

quot-HasParts_v : (v : ℕ) → HasParts (7169 * v) (7169 * 128) (quot (7169 *ℤ sub_ℕ v 128) 10000)
quot-HasParts_v v =
    simp parts
      (record { above = omega arith; below = omega arith; under = omega arith; over = omega arith })

clamp_less :
    (y : ℕ) (q q' : ℤ)
    → clamp ((pos y -ℤ q) -ℤ q')
      ≡ clamp (sub_ℕ (y + neg_part q + neg_part q') (pos_part q + pos_part q'))
clamp_less y q q' = simp parts (omega arith)

green_sum :
    (y a b p n a' b' p' n' : ℕ)
    → Parts a b p n
    → Parts a' b' p' n'
    → Near 20000 (10000 * clamp (sub_ℕ (y + n + n') (p + p'))) (exact (10000 * y + b + b') (a + a'))
green_sum y a b p n a' b' p' n' h h' = simp parts (omega arith, omega arith)

green-Near :
    (y u v : ℕ)
    → Near 20000
        (10000 * green y u v)
        (exact (10000 * y + 3455 * 128 + 7169 * 128) (3455 * u + 7169 * v))
green-Near y u v =
    let q = quot (3455 *ℤ sub_ℕ u 128) 10000 in
    let q' = quot (7169 *ℤ sub_ℕ v 128) 10000 in
    subst
      (λ c.
        Near 20000 (10000 * c) (exact (10000 * y + 3455 * 128 + 7169 * 128) (3455 * u + 7169 * v)))
      (sym (clamp_less y q q'))
      (green_sum y (3455 * u) (3455 * 128) (pos_part q) (neg_part q) (7169 * v) (7169 * 128)
        (pos_part q') (neg_part q') (quot-HasParts_u u) (quot-HasParts_v v))

blue-Near : (y u : ℕ) → Near 10000 (10000 * blue y u) (exact (10000 * y + 17790 * u) (17790 * 128))
blue-Near y u = simp parts (omega arith, omega arith)

-- For any brightness and color, each of the stored parts, from 0 to 255, is less than one step of the
-- exact and clamped value away, green less than two.
pub rgb-Near :
    (y u v : ℕ)
    → Near 10000 (10000 * red y v) (exact (10000 * y + 14075 * v) (14075 * 128))
      × Near 20000
          (10000 * green y u v)
          (exact (10000 * y + 3455 * 128 + 7169 * 128) (3455 * u + 7169 * v))
      × Near 10000 (10000 * blue y u) (exact (10000 * y + 17790 * u) (17790 * 128))
rgb-Near y u v = (red-Near y v, green-Near y u v, blue-Near y u)
