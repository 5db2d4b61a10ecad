-- ===== src/Fifo/Strings.antt =====
-- The buffer of a reader of EX03-05_fifo or EX03-06_fifo_nb, and a string that is read into it.
use edge_embedded_linux.Common.{
  ℕ, zero, suc, ◌≡◌, refl, ap, ◌<◌, true, List, [], ◌∷◌, ◌++◌, length, All, arith,
}
use edge_embedded_linux.Text.{cstr}
use edge_embedded_linux.Posix.{return, ◌>>=◌}
use edge_embedded_linux.Udp.{has_zero}
use edge_embedded_linux.Fifo.{overlay, print_string, print_read}

-- A string as it is written.
abbrev pub sent : List ℕ → List ℕ
sent s = s ++ (0 ∷ [])

abbrev pub IsString : List ℕ → Type 0
IsString s = All (λ c. 0 < c) s

pub cstr-overlay :
    (s buf : List ℕ) → IsString s → length s < length buf → cstr (overlay (sent s) buf) ≡ s
cstr-overlay [] [] h lt = absurd (omega arith)
cstr-overlay [] (y ∷ buf) h lt = refl
cstr-overlay (x ∷ s) [] h lt = absurd (omega arith)
cstr-overlay (zero ∷ s) (y ∷ buf) h lt = absurd (omega (arith, h.0))
cstr-overlay (suc x ∷ s) (y ∷ buf) h lt = ap (λ t. suc x ∷ t) (cstr-overlay s buf h.1 (omega arith))

has_zero-overlay : (s buf : List ℕ) → length s < length buf → has_zero (overlay (sent s) buf) ≡ true
has_zero-overlay [] [] lt = absurd (omega arith)
has_zero-overlay [] (y ∷ buf) lt = refl
has_zero-overlay (x ∷ s) [] lt = absurd (omega arith)
has_zero-overlay (zero ∷ s) (y ∷ buf) lt = refl
has_zero-overlay (suc x ∷ s) (y ∷ buf) lt = has_zero-overlay s buf (omega arith)

pub length-overlay : (b buf : List ℕ) → length (overlay b buf) ≡ length buf
length-overlay b [] = refl
length-overlay [] (y ∷ buf) = refl
length-overlay (x ∷ b) (y ∷ buf) = ap suc (length-overlay b buf)

pub overlay-nil : (buf : List ℕ) → overlay [] buf ≡ buf
overlay-nil [] = refl
overlay-nil (y ∷ buf) = refl

pub print_read-sent :
    (s buf : List ℕ) → print_read (sent s) buf ≡ (print_string buf >>= λ t. return (t ∷ []))
print_read-sent [] buf = refl
print_read-sent (x ∷ s) buf = refl

-- A buffer that a string has been read into.
pub print_string-sent :
    (s rbuf : List ℕ)
    → IsString s
    → length s < length rbuf
    → print_string (overlay (sent s) rbuf) ≡ return s
print_string-sent s rbuf h lt = rw (has_zero-overlay s rbuf lt, cstr-overlay s rbuf h lt) refl
