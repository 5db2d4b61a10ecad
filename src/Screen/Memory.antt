-- ===== src/Screen/Memory.antt =====
-- Words in memory, stored and read.
use edge_embedded_linux.Common.{
  ℕ, zero, suc, ◌≡◌, refl, sym, ◌∙◌, ◌≢◌, ◌⊎◌, inl, inr, ◌+◌, ◌/◌, ◌%◌, ◌≤◌, ◌<◌, ◌==◌, ==_iff,
  Bool-cases, arith,
}
use edge_embedded_linux.Screen.{Bytes, put_byte, put_word, get_word}

-- A number that `n` bytes hold.
abbrev pub Fits : ℕ → ℕ → Type 0
Fits zero v = v ≡ 0
Fits (suc n) v = Fits n (v / 256)

put_byte-other : (m : Bytes) (i v j : ℕ) → j ≢ i → put_byte m i v j ≡ m j
put_byte-other m i v j ne = elim (Bool-cases (j == i)) [
  | inl e ↦ absurd (ne ((==_iff j i).0 e))
  | inr e ↦ rw e
]

put_byte_self : (m : Bytes) (i v : ℕ) → put_byte m i v i ≡ v % 256
put_byte_self m i v = rw ((==_iff i i).1 refl)

put_word-outside :
    (n : ℕ) (m : Bytes) (i v j : ℕ) → (j < i) ⊎ (i + n ≤ j) → put_word n m i v j ≡ m j
unfolding put_word
put_word-outside zero m i v j h = refl
put_word-outside (suc n) m i v j h =
    put_word-outside n (put_byte m i v) (i + 1) (v / 256) j (omega arith)
    ∙ put_byte-other m i v j (λ e. omega arith)

pub get_word-put_word_self :
    (n : ℕ) (m : Bytes) (i v : ℕ) → Fits n v → get_word n (put_word n m i v) i ≡ v
unfolding put_word get_word
get_word-put_word_self zero m i v h = sym h
get_word-put_word_self (suc n) m i v h =
    rw
      (
        put_word-outside n (put_byte m i v) (i + 1) (v / 256) i (inl (omega arith)),
        put_byte_self m i v,
      )
      (omega (arith, get_word-put_word_self n (put_byte m i v) (i + 1) (v / 256) h))

pub get_word-put_word_apart :
    (k n : ℕ) (m : Bytes) (i v j : ℕ)
    → (j + k ≤ i) ⊎ (i + n ≤ j)
    → get_word k (put_word n m i v) j ≡ get_word k m j
unfolding get_word
get_word-put_word_apart zero n m i v j h = refl
get_word-put_word_apart (suc k) n m i v j h = rw (
  put_word-outside n m i v j (omega arith),
  get_word-put_word_apart k n m i v (j + 1) (omega arith),
)
