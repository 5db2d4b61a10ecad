-- ===== src/Camera/Queue.antt =====
-- start_capturing() of v4l2test, and the buffers that the driver has.
use edge_embedded_linux.Common.{
  ℕ, zero, suc, ◌≡◌, refl, sym, ap, subst, ◌∙◌, inl, inr, ◌+◌, ◌*◌, Bool, true, false, not, ◌&&◌,
  ◌||◌, List, length, ◌==◌, ==_iff, ltb, lt→ltb, Bool-cases, arith,
}
use edge_embedded_linux.Posix.{queue_buffer, stream_on, Prog, return, ◌>>◌}
use edge_embedded_linux.Posix.Safety.{Safe-bind}
use edge_embedded_linux.Camera.Setup.{Setup}
use edge_embedded_linux.Camera.Devices.{Video, Screen, must_xioctl, queue_all, start_capturing}
use edge_embedded_linux.Camera.Protocol.{State, IsPlain, FitsAt, devices, Exits}
use edge_embedded_linux.Camera.Rules.{IsSafe, must_xioctl-IsSafe}
use edge_embedded_linux.Camera.Mapping.{pairs, AllHold, made}

-- The buffers below `n`.
abbrev pub Below : ℕ → (ℕ → Bool) → Type 0
Below n q = (i : ℕ) → q i ≡ ltb i n

queue_next : (n : ℕ) (q : ℕ → Bool) → Below n q → Below (n + 1) (λ j. j == n || q j)
queue_next n q h j = rw (h j) (ground arith)

unchanged : (b : Bool) → (b && true) ≡ b
unchanged true = refl
unchanged false = refl

pub queue_back :
    (n i : ℕ) (q : ℕ → Bool)
    → Below n q
    → q i ≡ true
    → Below n (λ j. j == i || (q j && not (j == i)))
queue_back n i q h is_in j = elim (Bool-cases (j == i)) [
  | inl e ↦ rw e (sym is_in ∙ ap q (sym ((==_iff j i).0 e)) ∙ h j)
  | inr e ↦ rw e (unchanged (q j) ∙ h j)
]

module _ (n : ℕ) (setup : Setup) (sc : Screen) (var : List ℕ) (v : Video) (plain : IsPlain sc.info)
    (hold : AllHold (v.height * v.width * 2) v.buffers)
    (fits : FitsAt setup.xpos setup.ypos sc.info v.width v.height) where
  abbrev pub live : (ℕ → Bool) → Bool → State
  live q streaming =
      record (made v.fd sc var v.width v.height (length v.buffers) (pairs v.buffers)) {
        queued = q;
        streaming = streaming;
      }

  -- The driver has all the buffers.
  pub record AllQueued (streaming : Bool) (s : State) : Type 0 where
    pub queued : ℕ → Bool
    pub all : Below (length v.buffers) queued
    pub state : s ≡ live queued streaming

  queue_all-IsSafe :
      (left i : ℕ) (q : ℕ → Bool)
      → i + left ≡ length v.buffers
      → Below i q
      → IsSafe setup.xpos setup.ypos
          (λ _ s. AllQueued false s)
          (queue_all left n v.fd i)
          (live q false)
  unfolding queue_all
  queue_all-IsSafe zero i q e below = record {
    queued = q;
    all = subst (λ k. Below k q) (omega arith) below;
    state = refl;
  }
  queue_all-IsSafe (suc left) i q e below =
      must_xioctl-IsSafe setup.xpos setup.ypos (λ _ s. AllQueued false s) (queue_buffer v.fd i)
        (live q false) (refl, omega arith, below i ∙ ground arith)
        (λ _. queue_all left n v.fd (i + 1))
        (λ r ok.
          queue_all-IsSafe left (i + 1) (λ j. j == i || q j) (omega arith) (queue_next i q below))
        (λ b ok.
          queue_all-IsSafe left (i + 1) (λ j. j == i || q j) (omega arith) (queue_next i q below))
        n

  pub start_capturing-IsSafe :
      IsSafe setup.xpos setup.ypos
        (λ _ s. AllQueued true s)
        (start_capturing n v)
        (live (λ _. false) false)
  start_capturing-IsSafe =
      Safe-bind (devices setup.xpos setup.ypos) (λ _ s. AllQueued false s) (λ _ s. AllQueued true s)
        Exits streams (queue_all (length v.buffers) n v.fd 0) (live (λ _. false) false)
        (queue_all-IsSafe (length v.buffers) 0 (λ _. false) (omega arith) (λ i. ground arith))
        (λ _ s h.
          subst (IsSafe setup.xpos setup.ypos (λ _ s. AllQueued true s) (streams tt)) (sym h.state)
            (must_xioctl-IsSafe setup.xpos setup.ypos (λ _ s. AllQueued true s) (stream_on v.fd)
              (live h.queued false) (refl, λ i lt. h.all i ∙ lt→ltb i (length v.buffers) lt)
              (λ _. return tt) (λ r ok. record { queued = h.queued; all = h.all; state = refl })
              (λ b ok. record { queued = h.queued; all = h.all; state = refl }) n))
    where
      streams : Unit {0} → Prog (Unit {0})
      streams _ = do must_xioctl n (stream_on v.fd); return tt
