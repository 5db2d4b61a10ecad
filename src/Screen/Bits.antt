-- ===== src/Screen/Bits.antt =====
-- The fields of a color, and `or` of numbers whose binary digits do not meet.
use Prim.Native.Nat.{bit_or, bit_and, digits, bit_or-bitwise, bit_and-bitwise, max, min}
use edge_embedded_linux.Common.{
  ℕ, zero, suc, ◌≡◌, refl, sym, subst, ◌∙◌, ◌+◌, ◌*◌, ◌/◌, ◌%◌, ◌^◌, ◌≤◌, ◌<◌, arith,
}
use edge_embedded_linux.Screen.{rgb565, pack565, pack888}

-- The lowest `k` digits of a number are 0, or all its digits are among them.
abbrev Clear : ℕ → ℕ → Type 0
Clear zero a = Unit
Clear (suc k) a = (a % 2 ≡ 0) × Clear k (a / 2)

abbrev Low : ℕ → ℕ → Type 0
Low zero b = b ≡ 0
Low (suc k) b = Low k (b / 2)

or_digits : (n k a b : ℕ) → a ≤ n → Clear k a → Low k b → digits (λ y. y) max n a b ≡ a + b
or_digits zero k a b le c l = omega arith
or_digits (suc n) k zero b le c l = omega arith
or_digits (suc n) zero (suc a) b le c l =
    omega (arith, or_digits n zero (suc a / 2) (b / 2) (omega arith) tt (omega arith))
or_digits (suc n) (suc k) (suc a) b le c l =
    omega (arith, c.0, or_digits n k (suc a / 2) (b / 2) (omega arith) c.1 l)

or_sum : (k a b : ℕ) → Clear k a → Low k b → bit_or a b ≡ a + b
or_sum k a b c l = bit_or-bitwise a b ∙ or_digits a k a b (omega arith) c l

abbrev keep : ℕ → ℕ → ℕ
keep zero a = 0
keep (suc k) a = keep k (a / 2) * 2 + a % 2

keep-zero : (k : ℕ) → keep k 0 ≡ 0
keep-zero zero = refl
keep-zero (suc k) = omega (arith, keep-zero k)

-- `y` is `k` ones.
abbrev Ones : ℕ → ℕ → Type 0
Ones zero y = y ≡ 0
Ones (suc k) y = (y % 2 ≡ 1) × Ones k (y / 2)

and_digits : (n k a y : ℕ) → a ≤ n → Ones k y → digits (λ _. 0) min n a y ≡ keep k a
and_digits zero k a y le o = let none : a ≡ 0 = omega arith in rw none (omega (arith, keep-zero k))
and_digits (suc n) k zero y le o = omega (arith, keep-zero k)
and_digits (suc n) zero (suc a) y le o =
    omega (arith, and_digits n zero (suc a / 2) (y / 2) (omega arith) (omega arith))
and_digits (suc n) (suc k) (suc a) y le o =
    omega (arith, o.0, and_digits n k (suc a / 2) (y / 2) (omega arith) o.1)

pub low_byte : (a : ℕ) → bit_and a 0xff ≡ a % 2 ^ 8
low_byte a =
    (bit_and-bitwise a 0xff
      ∙ and_digits a 8 a 0xff (omega arith)
          (refl, (refl, (refl, (refl, (refl, (refl, (refl, (refl, refl)))))))))
    ∙ omega arith

twice : (k : ℕ) → 2 ^ suc k ≡ 2 * 2 ^ k
twice k = grind arith

Clear-multiple : (k c : ℕ) → Clear k (c * 2 ^ k)
Clear-multiple zero c = tt
Clear-multiple (suc k) c =
    let e : c * 2 ^ suc k ≡ c * 2 ^ k * 2 = grind arith in
    rw e (omega arith, subst (Clear k) (omega arith) (Clear-multiple k c))

Low-lt : (k b : ℕ) → b < 2 ^ k → Low k b
Low-lt zero b lt = omega arith
Low-lt (suc k) b lt = Low-lt k (b / 2) (omega (arith, twice k))

or_sum_under :
    (k l a b c : ℕ)
    → Clear k a
    → Low k b
    → Clear l (a + b)
    → Low l c
    → bit_or (bit_or a b) c ≡ a + b + c
or_sum_under k l a b c ca lb cab lc = rw (or_sum k a b ca lb) (or_sum l (a + b) c cab lc)

-- Three fields: the lowest of `l` digits, `d` for the next.
fields :
    (k d l a b c : ℕ)
    → 2 ^ k ≡ 2 ^ d * 2 ^ l
    → b * 2 ^ l < 2 ^ k
    → c < 2 ^ l
    → bit_or (bit_or (a * 2 ^ k) (b * 2 ^ l)) c ≡ a * 2 ^ k + b * 2 ^ l + c
fields k d l a b c e hb hc =
    let both : a * 2 ^ k + b * 2 ^ l ≡ (a * 2 ^ d + b) * 2 ^ l = grind arith in
    let clear : Clear l (a * 2 ^ k + b * 2 ^ l) =
      subst (Clear l) (sym both) (Clear-multiple l (a * 2 ^ d + b)) in
    or_sum_under k l (a * 2 ^ k) (b * 2 ^ l) c (Clear-multiple k a) (Low-lt k (b * 2 ^ l) hb) clear
      (Low-lt l c hc)

pub pack888_lem :
    (r g b : ℕ) → r < 256 → g < 256 → b < 256 → pack888 r g b ≡ r * 2 ^ 16 + g * 2 ^ 8 + b
pack888_lem r g b hr hg hb = fields 16 8 8 r g b refl (omega arith) hb

pub pack565_lem :
    (r g b : ℕ)
    → r < 256
    → g < 256
    → b < 256
    → pack565 r g b ≡ r / 8 * 2 ^ 11 + g / 4 * 2 ^ 5 + b / 8
pack565_lem r g b hr hg hb =
    let e : bit_or (bit_or (r / 8 * 2 ^ 11) (g / 4 * 2 ^ 5)) (b / 8)
        ≡ r / 8 * 2 ^ 11 + g / 4 * 2 ^ 5 + b / 8 =
      fields 11 6 5 (r / 8) (g / 4) (b / 8) refl (omega arith) (omega arith) in
    omega arith

-- The 16 bits that draw_rect takes from a color of 24 are those that capture_to_fb makes of its parts.
pub rgb565-pack888 :
    (r g b : ℕ) → r < 256 → g < 256 → b < 256 → rgb565 (pack888 r g b) ≡ pack565 r g b
rgb565-pack888 r g b hr hg hb =
    let e : pack888 r g b ≡ r * 2 ^ 16 + g * 2 ^ 8 + b = pack888_lem r g b hr hg hb in
    let high : pack888 r g b / 2 ^ 16 ≡ r = omega arith in
    let middle : bit_and (pack888 r g b / 2 ^ 8) 0xff ≡ g =
      low_byte (pack888 r g b / 2 ^ 8) ∙ omega arith in
    let low : bit_and (pack888 r g b) 0xff ≡ b = low_byte (pack888 r g b) ∙ omega arith in
    rw (high, middle, low) refl
