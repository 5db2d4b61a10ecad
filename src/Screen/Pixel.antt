-- ===== src/Screen/Pixel.antt =====
-- The pixels of a screen in its memory, and the store of one next to the others.
use edge_embedded_linux.Common.{
  ℕ, suc, ◌≡◌, refl, subst, ap, ◌∙◌, ◌≢◌, ◌⊎◌, inl, inr, ◌+◌, ◌*◌, ◌/◌, ◌%◌, ◌^◌, ◌≤◌, ◌<◌, ◌==◌,
  Bool-cases, Bool, true, false, ◌&&◌, Option, none, some, leb, le→leb, ltb, if◌then◌else◌, arith,
}
use edge_embedded_linux.Screen.{Bytes, put_word, get_word, store_word, ScreenInfo, ◌>>=◌}
use edge_embedded_linux.Screen.Memory.{Fits, get_word-put_word_self, get_word-put_word_apart}

abbrev pub depth : ScreenInfo → ℕ
depth info = info.bits_per_pixel / 8

abbrev pub HasDepth : ScreenInfo → Type 0
HasDepth info = (info.bits_per_pixel ≡ 32) ⊎ (info.bits_per_pixel ≡ 16)

-- Where a pixel starts.
abbrev pub place : ScreenInfo → ℕ → ℕ → ℕ
place info x y = x * depth info + y * info.line_length

-- What is to be seen at a place of the screen, as the bits that stand for it.
unfoldable pub pixel : ScreenInfo → Bytes → ℕ → ℕ → ℕ
pixel info m x y = get_word (depth info) m (place info x y)

-- The pixel lies in its line of memory.
abbrev pub InLine : ScreenInfo → ℕ → Type 0
InLine info x = (x + 1) * depth info ≤ info.line_length

pub store_word_in :
    (size n : ℕ) (m : Bytes) (i v : ℕ)
    → i + n ≤ size
    → size < 2 ^ 31
    → store_word size n m (i % 2 ^ 32) v ≡ some (put_word n m i v)
store_word_in size n m i v h small =
    let e : i % 2 ^ 32 ≡ i = omega arith in rw (e, le→leb (i + n) size h)

pub trichotomy : (a b : ℕ) → (a < b) ⊎ ((b < a) ⊎ (a ≡ b))
trichotomy a b = omega arith

rows_apart : (y y' l : ℕ) → y < y' → y * l + l ≤ y' * l
rows_apart y y' l lt = grind arith

pub widen : (x b : ℕ) → (x + 1) * b ≡ x * b + b
widen x b = grind arith

-- Two pixels in their lines do not overlap.
apart :
    (b l x y x' y' : ℕ)
    → (x + 1) * b ≤ l
    → (x' + 1) * b ≤ l
    → ((x' ≢ x) ⊎ (y' ≢ y))
    → (x' * b + y' * l + b ≤ x * b + y * l) ⊎ (x * b + y * l + b ≤ x' * b + y' * l)
apart b l x y x' y' h h' ne = elim (trichotomy y' y) [
  | inl lt ↦ inl (omega (arith, rows_apart y' y l lt, widen x' b))
  | inr (inl lt) ↦ inr (omega (arith, rows_apart y y' l lt, widen x b))
  | inr (inr e) ↦ elim (trichotomy x' x) [
    | inl lt ↦ inl (omega (arith, rows_apart x' x b lt, ap (λ k. k * l) e))
    | inr (inl lt) ↦ inr (omega (arith, rows_apart x x' b lt, ap (λ k. k * l) e))
    | inr (inr e') ↦ absurd (elim ne [ inl f ↦ f e' | inr f ↦ f e ])
  ]
]

abbrev pub at : ℕ → ℕ → ℕ → ℕ → Bool
at x y px py = px == x && py == y

at-false : (x y px py : ℕ) → at x y px py ≡ false → (px ≢ x) ⊎ (py ≢ y)
at-false x y px py = elim (Bool-cases (px == x)) [
  | inr e ↦ λ h. inl (λ f. ground arith)
  | inl e ↦ rw e (λ h. inr (λ f. ground arith))
]

pub at-true : (x y px py : ℕ) → at x y px py ≡ true → (px ≡ x) × (py ≡ y)
at-true x y px py h = ground arith

-- A store of one pixel changes that pixel.
pub pixel-put_word :
    (info : ScreenInfo) (m : Bytes) (x y v px py : ℕ)
    → Fits (depth info) v
    → InLine info x
    → InLine info px
    → pixel info (put_word (depth info) m (place info x y) v) px py
      ≡ (if at x y px py then v else pixel info m px py)
unfolding pixel
pixel-put_word info m x y v px py fits hx hp = elim (Bool-cases (at x y px py)) [
  | inl e ↦
      let s = at-true x y px py e in
      rw e (rw (s.0, s.1) (get_word-put_word_self (depth info) m (place info x y) v fits))
  | inr e ↦ rw e (
      get_word-put_word_apart (depth info) (depth info) m (place info x y) v (place info px py)
        (apart (depth info) info.line_length x y px py hx hp (at-false x y px py e)))
]

-- The picture of the result is that of `m`, with the picture `v` wherever the test holds.
abbrev pub Shows : ScreenInfo → Option Bytes → Bytes → (ℕ → ℕ → Bool) → (ℕ → ℕ → ℕ) → Type 0
Shows info none m test v = ⊥
Shows info (some m') m test v =
    (px py : ℕ)
    → InLine info px
    → pixel info m' px py ≡ (if test px py then v px py else pixel info m px py)

abbrev pub within : ℕ → ℕ → ℕ → Bool
within a n i = leb a i && ltb i (a + n)

join :
    (t t' : Bool) (v x y z : ℕ)
    → x ≡ (if t' then v else y)
    → y ≡ (if t then v else z)
    → x ≡ (if (if t' then true else t) then v else z)
join t true v x y z h k = h
join true false v x y z h k = h ∙ k
join false false v x y z h k = h ∙ k

-- Nothing where neither test holds, `v` where one does.
pub Shows-bind :
    (info : ScreenInfo) (o : Option Bytes) (f : Bytes → Option Bytes) (m : Bytes)
    (test test' both : ℕ → ℕ → Bool) (v : ℕ → ℕ → ℕ)
    → Shows info o m test v
    → ((m' : Bytes) → Shows info (f m') m' test' v)
    → ((px py : ℕ) → (if test' px py then true else test px py) ≡ both px py)
    → Shows info (o >>= f) m both v
Shows-bind info none f m test test' both v h k e = absurd h
Shows-bind info (some m') f m test test' both v h k e = after (f m') (k m')
  where
    after : (o : Option Bytes) → Shows info o m' test' v → Shows info o m both v
    after none a = absurd a
    after (some m'') a = λ px py l.
        subst (λ b. pixel info m'' px py ≡ (if b then v px py else pixel info m px py)) (e px py)
          (join (test px py) (test' px py) (v px py) (pixel info m'' px py) (pixel info m' px py)
            (pixel info m px py) (a px py l) (h px py l))

pub none_of : (b : Bool) → (b && false) ≡ false
none_of true = refl
none_of false = refl

pub nothing_within : (x px : ℕ) → within x 0 px ≡ false
nothing_within x px = ground arith

pub mul_mono : (a b c : ℕ) → a ≤ b → a * c ≤ b * c
mul_mono a b c h = grind arith

pub InLine-first :
    (info : ScreenInfo) (x n : ℕ) → (x + suc n) * depth info ≤ info.line_length → InLine info x
InLine-first info x n h = omega (arith, mul_mono (x + 1) (x + suc n) (depth info) (omega arith))
