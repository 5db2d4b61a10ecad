-- ===== src/Text.antt =====
-- C strings in buffers: lists of bytes, of which a string is what stands before the first zero.
use edge_embedded_linux.Common.{
  ℕ, zero, suc, ◌≡◌, refl, ◌≤◌, Bool, true, false, ◌&&◌, List, [], ◌∷◌, length, String, code, arith,
  ◌==◌, All, ◌<◌,
}

abbrev pub codes : String → List ℕ
codes String.[] = []
codes (String.◌∷◌ c s) = code c ∷ codes s

abbrev pub crlf : List ℕ
crlf = 13 ∷ 10 ∷ []

-- The string that a buffer holds, if it is followed by a zero.
abbrev pub cstr : List ℕ → List ℕ
cstr [] = []
cstr (zero ∷ b) = []
cstr (suc c ∷ b) = suc c ∷ cstr b

-- strcmp(a, b) == 0
abbrev pub str_eq : List ℕ → List ℕ → Bool
str_eq [] [] = true
str_eq [] (y ∷ b) = false
str_eq (x ∷ a) [] = false
str_eq (x ∷ a) (y ∷ b) = x == y && str_eq a b

-- strncmp(p, a, strlen(p)) == 0
abbrev pub has_prefix : List ℕ → List ℕ → Bool
has_prefix [] a = true
has_prefix (x ∷ p) [] = false
has_prefix (x ∷ p) (y ∷ a) = x == y && has_prefix p a

pub str_eq_refl : (a : List ℕ) → str_eq a a ≡ true
str_eq_refl [] = refl
str_eq_refl (x ∷ a) = ground (arith, str_eq_refl a)

pub eq_of_str_eq : (a b : List ℕ) → str_eq a b ≡ true → a ≡ b
eq_of_str_eq [] [] h = refl
eq_of_str_eq [] (y ∷ b) h = ground arith
eq_of_str_eq (x ∷ a) [] h = ground arith
eq_of_str_eq (x ∷ a) (y ∷ b) h = ground (arith, eq_of_str_eq a b)

pub length-cstr-le : (b : List ℕ) → length (cstr b) ≤ length b
length-cstr-le [] = omega arith
length-cstr-le (zero ∷ b) = omega arith
length-cstr-le (suc c ∷ b) = omega (arith, length-cstr-le b)

-- A buffer with no zero in it is the string itself.
pub cstr-eq : (b : List ℕ) → All (λ c. 0 < c) b → cstr b ≡ b
cstr-eq [] h = refl
cstr-eq (zero ∷ b) h = absurd (omega arith)
cstr-eq (suc c ∷ b) h = ground (arith, cstr-eq b h.1)
