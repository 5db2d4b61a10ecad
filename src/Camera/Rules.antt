-- ===== src/Camera/Rules.antt =====
-- Rules for programs that are judged by Camera.Protocol: repeated requests, exits on failure.
use edge_embedded_linux.Common.{
  ℕ, zero, suc, ◌≡◌, refl, Bool, true, false, List, [], none, some, ◌==◌, if◌then◌else◌, length,
}
use edge_embedded_linux.Posix.{
  Call, Reply, value, bytes, failed, Prog, exit, return, ◌>>=◌, must_fill, received, must, number,
}
use edge_embedded_linux.Posix.Safety.{Safe}
use edge_embedded_linux.Camera.Devices.{eintr, again, xioctl, or_exit, must_xioctl}
use edge_embedded_linux.Camera.Protocol.{State, Allowed, Conforms, after, devices, Exits}

module _ (x y : ℕ) {B : Type 0} (Q : B → State → Type 0) where
  abbrev pub IsSafe : Prog B → State → Type 0
  IsSafe p s = Safe (devices x y) Q Exits p s

  pub if-IsSafe :
      {A : Type 0} (b : Bool) (p q : Prog A) (f : A → Prog B) (s : State)
      → (b ≡ true → IsSafe (p >>= f) s)
      → (b ≡ false → IsSafe (q >>= f) s)
      → IsSafe ((if b then p else q) >>= f) s
  if-IsSafe true p q f s h k = h refl
  if-IsSafe false p q f s h k = k refl

  module _ (c : Call) (s : State) (can : Allowed s c) where
    module _ (f : Reply → Prog B)
        (next : (r : Reply) → Conforms x y s c r → IsSafe (f r) (after s c r)) where
      again-IsSafe :
          (rest : Prog Reply) (e : ℕ)
          → IsSafe (rest >>= f) s
          → IsSafe (again rest (failed e) >>= f) s
      again-IsSafe rest e h =
          if-IsSafe (e == eintr) rest (return (failed e)) f s (λ _. h) (λ _. next (failed e) tt)

      pub xioctl-IsSafe : (n : ℕ) → IsSafe (xioctl n c >>= f) s
      unfolding xioctl
      xioctl-IsSafe zero = tt
      xioctl-IsSafe (suc n) = (can, answer (xioctl-IsSafe n))
        where
          answer :
              IsSafe (xioctl n c >>= f) s
              → (r : Reply) → Conforms x y s c r
              → IsSafe (again (xioctl n c) r >>= f) (after s c r)
          answer h (value v) ok = next (value v) ok
          answer h (bytes b) ok = next (bytes b) ok
          answer h (failed e) ok = again-IsSafe (xioctl n c) e h

    -- The calls that end the program when they fail.
    module _ (f : List ℕ → Prog B)
        (on_value : (r : ℕ) → Conforms x y s c (value r) → IsSafe (f []) (after s c (value r)))
        (on_bytes : (b : List ℕ)
          → Conforms x y s c (bytes b)
          → IsSafe (f b) (after s c (bytes b))) where
      pub must_fill-IsSafe : IsSafe (must_fill c >>= f) s
      must_fill-IsSafe = (can, answer)
        where
          answer :
              (r : Reply)
              → Conforms x y s c r
              → IsSafe (elim (received r) [ none ↦ exit 1 | some b ↦ return b ] >>= f) (after s c r)
          answer (value v) ok = on_value v ok
          answer (bytes b) ok = on_bytes b ok
          answer (failed e) ok = refl

      again_exit-IsSafe :
          (rest : Prog Reply) (e : ℕ)
          → IsSafe (rest >>= or_exit >>= f) s
          → IsSafe (again rest (failed e) >>= or_exit >>= f) s
      again_exit-IsSafe rest e h = choose (e == eintr)
        where
          choose : (b : Bool) → IsSafe ((if b then rest else return (failed e)) >>= or_exit >>= f) s
          choose true = h
          choose false = refl

      pub must_xioctl-IsSafe : (n : ℕ) → IsSafe (must_xioctl n c >>= f) s
      unfolding xioctl
      must_xioctl-IsSafe zero = tt
      must_xioctl-IsSafe (suc n) = (can, answer (must_xioctl-IsSafe n))
        where
          answer :
              IsSafe (must_xioctl n c >>= f) s
              → (r : Reply) → Conforms x y s c r
              → IsSafe (again (xioctl n c) r >>= or_exit >>= f) (after s c r)
          answer h (value v) ok = on_value v ok
          answer h (bytes b) ok = on_bytes b ok
          answer h (failed e) ok = again_exit-IsSafe (xioctl n c) e h

    pub must-IsSafe :
        (f : ℕ → Prog B)
        → ((r : ℕ) → Conforms x y s c (value r) → IsSafe (f r) (after s c (value r)))
        → ((b : List ℕ) → Conforms x y s c (bytes b) → (r : ℕ) → IsSafe (f r) (after s c (bytes b)))
        → IsSafe (must c >>= f) s
    must-IsSafe f on_value on_bytes = (can, answer)
      where
        answer :
            (r : Reply)
            → Conforms x y s c r
            → IsSafe (elim (number r) [ none ↦ exit 1 | some n ↦ return n ] >>= f) (after s c r)
        answer (value v) ok = on_value v ok
        answer (bytes b) ok = on_bytes b ok (length b)
        answer (failed e) ok = refl
