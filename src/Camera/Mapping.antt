-- ===== src/Camera/Mapping.antt =====
-- init_mmap() of v4l2test: the buffers of the camera and their mappings.
use edge_embedded_linux.Common.{
  if◌then◌else◌, ℕ, zero, suc, ◌≡◌, refl, sym, ap, subst, ◌∙◌, inl, ◌+◌, ◌*◌, ◌≤◌, Bool, true,
  false, List, [], ◌∷◌, ◌++◌, append-nil, append_assoc, length, ==_iff, ltb, arith,
}
use edge_embedded_linux.Posix.{
  mmap, calloc, request_buffers, query_buffer, Prog, return, exit, ◌>>=◌, must, field,
}
use edge_embedded_linux.Posix.Safety.{Safe-bind}
use edge_embedded_linux.Camera.Devices.{Buffer, Screen, map_buffers, init_counted, init_mmap}
use edge_embedded_linux.Camera.Protocol.{State, mapped, devices, Exits}
use edge_embedded_linux.Camera.Rules.{IsSafe, must_xioctl-IsSafe, must-IsSafe}
use edge_embedded_linux.Camera.Opening.{base}

abbrev pub pairs : List Buffer → List (ℕ × ℕ)
pairs [] = []
pairs (b ∷ l) = (b.start, b.length) ∷ pairs l

abbrev pub AllHold : ℕ → List Buffer → Type 0
AllHold size [] = Unit
AllHold size (b ∷ l) = (size ≤ b.length) × AllHold size l

-- The camera has a format, `count` buffers, and these mappings of them.
abbrev pub made : ℕ → Screen → List ℕ → (width height count : ℕ) → List (ℕ × ℕ) → State
made fd sc var width height count maps = record (base fd sc var) {
  maps = maps;
  formatted = true;
  width = width;
  height = height;
  count = count;
}

module _ (x y n fd : ℕ) (sc : Screen) (var : List ℕ) where
  record Mapped (width height count : ℕ) (l : List (ℕ × ℕ)) (left : ℕ) (b : List Buffer) (s : State)
      : Type 0 where
    state : s ≡ made fd sc var width height count (l ++ pairs b)
    number : length b ≡ left
    hold : AllHold (height * width * 2) b

  map_buffers-IsSafe :
      (width height count left i : ℕ) (l : List (ℕ × ℕ))
      → i + left ≤ count
      → IsSafe x y
          (Mapped width height count l left)
          (map_buffers left n fd i)
          (made fd sc var width height count l)
  unfolding map_buffers
  map_buffers-IsSafe width height count zero i l le = record {
    state = ap (made fd sc var width height count) (sym (append-nil l));
    number = refl;
    hold = tt;
  }
  map_buffers-IsSafe width height count (suc left) i l le =
      must_xioctl-IsSafe x y (Mapped width height count l (suc left)) (query_buffer fd i)
        (made fd sc var width height count l) (refl, omega arith) _ (λ r ok. absurd ok)
        (λ buf whole.
          must-IsSafe x y (Mapped width height count l (suc left))
            (mmap fd (field buf 0) (field buf 1)) (made fd sc var width height count l) (inl refl) _
            (λ a ok.
              subst
                (λ b.
                  IsSafe x y (Mapped width height count l (suc left)) (rest buf a)
                    (mapped (made fd sc var width height count l) b (a, field buf 0)))
                (sym ((==_iff fd fd).1 refl))
                (Safe-bind (devices x y)
                  (Mapped width height count (l ++ ((a, field buf 0) ∷ [])) left)
                  (Mapped width height count l (suc left)) Exits
                  (λ b. return (record { start = a; length = field buf 0 } ∷ b))
                  (map_buffers left n fd (i + 1))
                  (made fd sc var width height count (l ++ ((a, field buf 0) ∷ [])))
                  (map_buffers-IsSafe width height count left (i + 1) (l ++ ((a, field buf 0) ∷ []))
                    (omega arith))
                  (λ b s m. record {
                    state =
                        m.state
                        ∙ ap (made fd sc var width height count)
                            (append_assoc l ((a, field buf 0) ∷ []) (pairs b));
                    number = ap suc m.number;
                    hold = (whole, m.hold);
                  })))
            (λ b ok. absurd ok))
        n
    where
      rest : List ℕ → ℕ → Prog (List Buffer)
      rest buf a = do
        b ← map_buffers left n fd (i + 1)
        return (record { start = a; length = field buf 0 } ∷ b)

  -- The array of the buffers, once their number is known.
  abbrev pub MadeAll : (width height : ℕ) → ℕ × List Buffer → State → Type 0
  MadeAll width height r s =
      (s ≡ made fd sc var width height (length r.1) (pairs r.1)) × AllHold (height * width * 2) r.1

  init_counted-IsSafe :
      (width height count : ℕ)
      → IsSafe x y
          (MadeAll width height)
          (init_counted n fd count)
          (made fd sc var width height count [])
  init_counted-IsSafe width height count = choose (ltb count 2)
    where
      array : ℕ → Prog (ℕ × List Buffer)
      array a = do b ← map_buffers count n fd 0; return (a, b)

      filled :
          (a : ℕ)
          → IsSafe x y (MadeAll width height) (array a) (made fd sc var width height count [])
      filled a =
          Safe-bind (devices x y) (Mapped width height count [] count) (MadeAll width height) Exits
            (λ b. return (a, b)) (map_buffers count n fd 0) (made fd sc var width height count [])
            (map_buffers-IsSafe width height count count 0 [] (omega arith))
            (λ b s m.
              (m.state ∙ ap (λ c. made fd sc var width height c (pairs b)) (sym m.number), m.hold))

      choose :
          (b : Bool)
          → IsSafe x y
              (MadeAll width height)
              (if b then exit 1 else must (calloc count 16) >>= array)
              (made fd sc var width height count [])
      choose true = refl
      choose false =
          must-IsSafe x y (MadeAll width height) (calloc count 16)
            (made fd sc var width height count []) tt array (λ a ok. filled a) (λ b ok a. filled a)

  pub init_mmap-IsSafe :
      (width height : ℕ)
      → IsSafe x y (MadeAll width height) (init_mmap n fd) (made fd sc var width height 0 [])
  init_mmap-IsSafe width height =
      must_xioctl-IsSafe x y (MadeAll width height) (request_buffers fd 4)
        (made fd sc var width height 0 []) (refl, refl) _ (λ r ok. absurd ok)
        (λ req ok. init_counted-IsSafe width height (field req 0)) n
