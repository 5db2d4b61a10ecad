-- ===== src/Device/Safety.antt =====
-- A session of the device server, EX07-08_device_control, under the discipline of handles.
use edge_embedded_linux.Common.{
  ℕ, zero, suc, ◌≡◌, ◌∙◌, ap, ◌⊎◌, inl, inr, true, List, [], ◌∷◌, length, ◌==◌, Bool-cases,
}
use edge_embedded_linux.FdSet.{contains}
use edge_embedded_linux.Posix.{Reply, value, bytes, failed, Prog, received}
use edge_embedded_linux.Posix.Safety.{Safe, Safe-bind}
use edge_embedded_linux.Posix.Handles.{State, Bounds, handles}
use edge_embedded_linux.Gpio.{Lines}
use edge_embedded_linux.Device.{dispatch, device_block, process_command}

-- EXIT_FAILURE, or the EXIT_SUCCESS of a child.
abbrev pub Exits : ℕ → State → Type 0
Exits code s = (code ≡ 1) ⊎ (code ≡ 0)

abbrev pub Kept : {A : Type 0} → List ℕ → A → State → Type 0
Kept fds _ s = s.fds ≡ fds

-- The descriptors that a session needs.
pub record Ready (fd : ℕ) (lines : Lines) (fds : List ℕ) : Type 0 where
  pub client : contains fds fd ≡ true
  pub led : contains fds lines.led ≡ true
  pub key : contains fds lines.key ≡ true

module _ (bs : Bounds) (fds : List ℕ) where
  pub held : (x : ℕ) (s : State) → s.fds ≡ fds → contains fds x ≡ true → contains s.fds x ≡ true
  held x s e h = ap (λ l. contains l x) e ∙ h

  module _ (fd : ℕ) (lines : Lines) (ready : Ready fd lines fds) where
    dispatch-Safe :
        (id cmd : ℕ) (s : State)
        → s.fds ≡ fds
        → Safe (handles bs) (Kept fds) Exits (dispatch lines id cmd) s
    unfolding dispatch
    dispatch-Safe id cmd s e =
        let lit = held lines.led s e ready.led in
        let read_it = held lines.key s e ready.key in
        elim (Bool-cases (id == 1)) [
          | inl i ↦ elim (Bool-cases (cmd == 2)) [
            | inl c ↦ rw i (rw c (lit, λ _ _. e))
            | inr c ↦ elim (Bool-cases (cmd == 1)) [
              | inl d ↦ rw i (rw c (rw d (lit, λ _ _. e)))
              | inr d ↦ rw i (rw c (rw d e))
            ]
          ]
          | inr i ↦ elim (Bool-cases (id == 2)) [
            | inl j ↦ elim (Bool-cases (cmd == 1)) [
              | inl c ↦ rw i (rw j (rw c (read_it, λ _ _. e)))
              | inr c ↦ rw i (rw j (rw c e))
            ]
            | inr j ↦ rw i (rw j e)
          ]
        ]

    device_block-Safe :
        (rest : Prog (Unit {0}))
        → ((s : State) → s.fds ≡ fds → Safe (handles bs) (Kept fds) Exits rest s)
        → (r : Reply) (s : State) → s.fds ≡ fds
        → Safe (handles bs) (Kept fds) Exits (device_block fd lines rest (received r)) s
    device_block-Safe rest next (value n) s e = e
    device_block-Safe rest next (failed n) s e = e
    device_block-Safe rest next (bytes []) s e = e
    device_block-Safe rest next (bytes (x ∷ b)) s e = elim (Bool-cases (length (x ∷ b) == 8)) [
      | inl eight ↦ rw eight (
          Safe-bind (handles bs) (Kept fds) (Kept fds) Exits _ (dispatch lines _ _) s
            (dispatch-Safe _ _ s e)
            (λ result s' e'. (held fd s' e' ready.client, λ _ _. next s' e')))
      | inr other ↦ rw other (next s e)
    ]

    pub process_command-Safe :
        (k : ℕ) (s : State)
        → s.fds ≡ fds
        → Safe (handles bs) (Kept fds) Exits (process_command k fd lines) s
    unfolding process_command
    process_command-Safe zero s e = tt
    process_command-Safe (suc k) s e = (
      held fd s e ready.client,
      λ r _. device_block-Safe (process_command k fd lines) (process_command-Safe k) r s e,
    )
