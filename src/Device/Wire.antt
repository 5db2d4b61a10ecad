-- ===== src/Device/Wire.antt =====
-- The numbers of the device protocol on the wire: four bytes each, the highest first.
use edge_embedded_linux.Common.{ℕ, ◌≡◌, ◌^◌, ◌<◌, List, [], ◌∷◌, ◌++◌, All, arith}
use edge_embedded_linux.Device.{ntohl, htonl}

-- A request as a client sends it.
abbrev pub frame : ℕ → ℕ → List ℕ
frame id cmd = htonl id ++ htonl cmd

-- A 32-bit number is read back as it was written, from either half of a request.
pub ntohl-frame :
    (id cmd : ℕ)
    → id < 2 ^ 32
    → cmd < 2 ^ 32
    → (ntohl (frame id cmd) 0 ≡ id) × (ntohl (frame id cmd) 4 ≡ cmd)
ntohl-frame id cmd h k = (omega arith, omega arith)

-- Four bytes are written back as they were read.
pub htonl-ntohl :
    (a b c d : ℕ)
    → All (λ x. x < 256) (a ∷ b ∷ c ∷ d ∷ [])
    → htonl (ntohl (a ∷ b ∷ c ∷ d ∷ []) 0) ≡ a ∷ b ∷ c ∷ d ∷ []
htonl-ntohl a b c d h = ground arith
