-- ===== src/Fifo/Runs.antt =====
-- Runs of the readers and the writer of EX03-05_fifo and EX03-06_fifo_nb.
use edge_embedded_linux.Common.{
  ℕ, zero, suc, ◌≡◌, refl, ap, ◌∙◌, ◌<◌, false, List, [], ◌∷◌, ◌++◌, length, Option, none, some,
  arith,
}
use edge_embedded_linux.Text.{codes, cstr, str_eq}
use edge_embedded_linux.Posix.{
  mkfifo, open_file, read, write, close, sleep, Reply, value, bytes, Event, did, returned, run,
  Prog, return, ◌>>=◌, ◌>>◌, tell,
}
use edge_embedded_linux.Posix.Safety.{bind_assoc}
use edge_embedded_linux.Fifo.{
  max_fifo_buf, path_fifo, overlay, rfifo_main, wfifo_main, print_read, unless_exit, read_fifo,
  rfifo_nb_main,
}
use edge_embedded_linux.Fifo.Strings.{
  sent, IsString, cstr-overlay, length-overlay, overlay-nil, print_read-sent, print_string-sent,
}

-- A reader prints the string that the writer was given.
abbrev pub fifo_answers : (fd : ℕ) → Reply → List Reply
fifo_answers fd r = value 0 ∷ value fd ∷ r ∷ value 0 ∷ []

-- When no call fails, what wfifo writes of its argument, which has no zero in it and fewer than 512
-- bytes, is what rfifo prints of the bytes that it reads, whatever its buffer held before.
pub run-fifo :
    (s rbuf : List ℕ) (fd fd' written : ℕ)
    → IsString s
    → length s < max_fifo_buf
    → length rbuf ≡ max_fifo_buf
    → ((run (wfifo_main 2 s) (fifo_answers fd (value written))).0 ≡ (
        did (mkfifo path_fifo) (value 0)
        ∷ did (open_file path_fifo) (value fd)
        ∷ did (write fd (sent s)) (value written)
        ∷ did (close fd) (value 0)
        ∷ []))
      × ((run (rfifo_main 1 rbuf) (fifo_answers fd' (bytes (sent s)))).1 ≡ returned s)
unfolding run wfifo_main rfifo_main
run-fifo s rbuf fd fd' written is_string small size = (
  refl,
  ap (λ p. (run (p >>= λ t. do tell (close fd'); return t) (value 0 ∷ [])).1)
      (print_string-sent s rbuf is_string (omega arith)),
)

-- What comes of each read of rfifo_nb: nothing, or one string.
abbrev pub arrival : Option (List ℕ) → List ℕ
arrival none = []
arrival (some s) = sent s

abbrev pub arrivals : List (Option (List ℕ)) → List Reply → List Reply
arrivals [] rs = rs
arrivals (a ∷ l) rs = bytes (arrival a) ∷ value 0 ∷ arrivals l rs

abbrev pub reads : ℕ → List (Option (List ℕ)) → List Event → List Event
reads fd [] t = t
reads fd (a ∷ l) t =
    did (read fd max_fifo_buf) (bytes (arrival a)) ∷ did (sleep 1000000) (value 0) ∷ reads fd l t

abbrev pub strings : List (Option (List ℕ)) → List (List ℕ)
strings [] = []
strings (none ∷ l) = strings l
strings (some s ∷ l) = s ∷ strings l

-- Strings that fit, and none of them is "exit".
abbrev pub AreOthers : List (Option (List ℕ)) → Type 0
AreOthers [] = Unit
AreOthers (none ∷ l) = AreOthers l
AreOthers (some s ∷ l) =
    IsString s × (length s < max_fifo_buf) × (str_eq s (codes "exit") ≡ false) × AreOthers l

-- The last read, and the end of main.
abbrev pub exit_answers : List Reply
exit_answers = bytes (sent (codes "exit")) ∷ value 0 ∷ []

module _ (rbuf : List ℕ) (rest : Prog (List (List ℕ))) where
  -- What follows on a read of a string.
  round : List ℕ → Prog (List (List ℕ))
  round b = print_read b (overlay b rbuf) >>= λ out. unless_exit (overlay b rbuf) out rest

  round_some :
      (s : List ℕ)
      → IsString s
      → length s < length rbuf
      → str_eq s (codes "exit") ≡ false
      → round (sent s) ≡ (tell (sleep 1000000) >> (rest >>= λ more. return (s ∷ more)))
  unfolding round
  round_some s h lt ne =
      rw
        (
          print_read-sent s (overlay (sent s) rbuf),
          print_string-sent s rbuf h lt,
          cstr-overlay s rbuf h lt,
          ne,
        )
        refl

  round_exit : 4 < length rbuf → round (sent (codes "exit")) ≡ return (codes "exit" ∷ [])
  unfolding round
  round_exit lt =
      rw
        (
          print_string-sent (codes "exit") rbuf (omega arith) lt,
          cstr-overlay (codes "exit") rbuf (omega arith) lt,
        )
        refl

  round_none :
      str_eq (cstr rbuf) (codes "exit") ≡ false
      → round [] ≡ (tell (sleep 1000000) >> (rest >>= λ more. return more))
  unfolding round
  round_none ne = rw (overlay-nil rbuf, ne) refl

run-read_fifo :
    {A : Type 0} (l : List (Option (List ℕ))) (n fd : ℕ) (rbuf : List ℕ)
    (k : List (List ℕ) → Prog A) (rs : List Reply)
    → length l < n
    → length rbuf ≡ max_fifo_buf
    → str_eq (cstr rbuf) (codes "exit") ≡ false
    → AreOthers l
    → run (read_fifo n fd rbuf >>= k) (arrivals l (bytes (sent (codes "exit")) ∷ rs)) ≡ (
        let e = run (k (strings l ++ (codes "exit" ∷ []))) rs in
        (reads fd l (did (read fd max_fifo_buf) (bytes (sent (codes "exit"))) ∷ e.0), e.1))
unfolding run read_fifo round
run-read_fifo l zero fd rbuf k rs lt size ne h = absurd (omega arith)
run-read_fifo [] (suc n) fd rbuf k rs lt size ne h =
    ap
      (λ p.
        let e = run (p >>= k) rs in
        (did (read fd max_fifo_buf) (bytes (sent (codes "exit"))) ∷ e.0, e.1))
      (round_exit rbuf (read_fifo n fd (overlay (sent (codes "exit")) rbuf)) (omega (arith, size)))
run-read_fifo (none ∷ l) (suc n) fd rbuf k rs lt size ne h =
    let after = read_fifo n fd (overlay [] rbuf) in
    let rs' = arrivals l (bytes (sent (codes "exit")) ∷ rs) in
    ap
      (λ p.
        let e = run (p >>= k) (value 0 ∷ rs') in (did (read fd max_fifo_buf) (bytes []) ∷ e.0, e.1))
      (round_none rbuf after ne)
    ∙ ap
        (λ p.
          let e = run p rs' in
          (did (read fd max_fifo_buf) (bytes []) ∷ did (sleep 1000000) (value 0) ∷ e.0, e.1))
        (bind_assoc after (λ more. return more) k)
    ∙ ap (λ e. (did (read fd max_fifo_buf) (bytes []) ∷ did (sleep 1000000) (value 0) ∷ e.0, e.1))
        (run-read_fifo l n fd (overlay [] rbuf) k rs (omega arith) (length-overlay [] rbuf ∙ size)
          (ap (λ b. str_eq (cstr b) (codes "exit")) (overlay-nil rbuf) ∙ ne) h)
run-read_fifo (some s ∷ l) (suc n) fd rbuf k rs lt size ne h =
    let after = read_fifo n fd (overlay (sent s) rbuf) in
    let rs' = arrivals l (bytes (sent (codes "exit")) ∷ rs) in
    let fits : length s < length rbuf = omega (arith, h.1, size) in
    ap
      (λ p.
        let e = run (p >>= k) (value 0 ∷ rs') in
        (did (read fd max_fifo_buf) (bytes (sent s)) ∷ e.0, e.1))
      (round_some rbuf after s h.0 fits h.2)
    ∙ ap
        (λ p.
          let e = run p rs' in
          (did (read fd max_fifo_buf) (bytes (sent s)) ∷ did (sleep 1000000) (value 0) ∷ e.0, e.1))
        (bind_assoc after (λ more. return (s ∷ more)) k)
    ∙ ap
        (λ e.
          (did (read fd max_fifo_buf) (bytes (sent s)) ∷ did (sleep 1000000) (value 0) ∷ e.0, e.1))
        (run-read_fifo l n fd (overlay (sent s) rbuf) (λ more. k (s ∷ more)) rs (omega arith)
          (length-overlay (sent s) rbuf ∙ size)
          (ap (λ b. str_eq b (codes "exit")) (cstr-overlay s rbuf h.0 fits) ∙ h.2) h.3)

-- When no call fails, given more rounds than reads, each of which gives nothing or one string that is
-- written with its zero, has fewer than 512 bytes and is not "exit", until "exit" comes, and a buffer
-- that does not hold "exit" at first: rfifo_nb prints these strings and "exit", in order, closes the
-- FIFO and ends.
pub run-rfifo_nb :
    (l : List (Option (List ℕ))) (n fd : ℕ) (rbuf : List ℕ)
    → length l < n
    → length rbuf ≡ max_fifo_buf
    → str_eq (cstr rbuf) (codes "exit") ≡ false
    → AreOthers l
    → run (rfifo_nb_main 1 n rbuf) (value 0 ∷ value fd ∷ arrivals l exit_answers) ≡ (
      did (mkfifo path_fifo) (value 0)
          ∷ did (open_file path_fifo) (value fd)
          ∷ reads fd l (
              did (read fd max_fifo_buf) (bytes (sent (codes "exit")))
              ∷ did (close fd) (value 0)
              ∷ []),
      returned (strings l ++ (codes "exit" ∷ [])),
    )
unfolding run rfifo_nb_main
run-rfifo_nb l n fd rbuf lt size ne h =
    ap (λ e. (did (mkfifo path_fifo) (value 0) ∷ did (open_file path_fifo) (value fd) ∷ e.0, e.1))
      (run-read_fifo l n fd rbuf (λ out. do tell (close fd); return out) (value 0 ∷ []) lt size ne
        h)
