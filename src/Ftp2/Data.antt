-- ===== src/Ftp2/Data.antt =====
-- How the data connection of LS and GET comes about: attempts whose bind() fails, then one that
-- succeeds, or a hundred that fail.
use edge_embedded_linux.Common.{
  ℕ, zero, suc, ◌≡◌, refl, ◌+◌, ◌/◌, ◌%◌, ◌≤◌, ◌<◌, List, [], ◌∷◌, length, length-append, Option,
  none, some, ltb, lt→ltb, Bool-cases, inl, inr, subst, arith,
}
use edge_embedded_linux.Text.{crlf}
use edge_embedded_linux.Posix.{
  socket, set_reuse, bind, listen, accept, write, rand, Prog, ◌>>=◌, Reply, value, failed, Event,
  did, run,
}
use edge_embedded_linux.Ftp.{max_wbuf, ok_text, err_line}
use edge_embedded_linux.Ftp2.{
  digits, new_server, data_port, choose_server, on_server, on_data, with_data,
}

pub length-digits-le : (k n : ℕ) → length (digits k n) ≤ k + 1
length-digits-le zero n = omega arith
length-digits-le (suc k) n = elim (Bool-cases (ltb n 10)) [
  | inl e ↦ rw e (omega arith)
  | inr e ↦ rw e (
      omega (
        arith,
        length-digits-le k (n / 10),
        length-append (digits k (n / 10)) ((48 + n % 10) ∷ []),
      ))
]

-- A reply with a port fits into `wbuf`.
pub length-ok_text-lt : (n : ℕ) → length (ok_text (digits 4 n)) < max_wbuf
length-ok_text-lt n = omega (arith, length-digits-le 4 n, length-append (digits 4 n) crlf)

-- An attempt: what rand() gives, the socket, and the errno of bind(). The socket stays open.
pub record Attempt : Type 0 where
  pub roll : ℕ
  pub socket : ℕ
  pub errno : ℕ

abbrev pub refusals : List Attempt → List Reply → List Reply
refusals [] rs = rs
refusals (a ∷ l) rs = value a.roll ∷ value a.socket ∷ value 0 ∷ failed a.errno ∷ refusals l rs

abbrev pub refused : List Attempt → List Event → List Event
refused [] t = t
refused (a ∷ l) t =
    did rand (value a.roll)
    ∷ did socket (value a.socket)
    ∷ did (set_reuse a.socket) (value 0)
    ∷ did (bind a.socket (data_port a.roll)) (failed a.errno)
    ∷ refused l t

abbrev pub last_port : List Attempt → ℕ → ℕ
last_port [] port = port
last_port (a ∷ l) port = last_port l (data_port a.roll)

abbrev pub opened : ℕ → ℕ → List Event → List Event
opened r server t =
    did rand (value r)
    ∷ did socket (value server)
    ∷ did (set_reuse server) (value 0)
    ∷ did (bind server (data_port r)) (value 0)
    ∷ did (listen server 1) (value 0)
    ∷ t

module _ {A : Type 0} (f : ℕ × Option ℕ → Prog A) where
  pub run-choose_server :
      (l : List Attempt) (tries last r server : ℕ) (rs : List Reply)
      → length l < tries
      → run
          (choose_server tries last >>= f)
          (refusals l (value r ∷ value server ∷ value 0 ∷ value 0 ∷ value 0 ∷ rs))
        ≡ (let e = run (f (data_port r, some server)) rs in (refused l (opened r server e.0), e.1))
  unfolding run choose_server new_server
  run-choose_server l zero last r server rs lt = absurd (omega arith)
  run-choose_server [] (suc n) last r server rs lt = refl
  run-choose_server (a ∷ l) (suc n) last r server rs lt =
      rw (run-choose_server l n (data_port a.roll) r server rs (omega arith))

  pub run-choose_server-none :
      (l : List Attempt) (last : ℕ) (rs : List Reply)
      → run (choose_server (length l) last >>= f) (refusals l rs)
        ≡ (let e = run (f (last_port l last, none)) rs in (refused l e.0, e.1))
  unfolding run choose_server new_server
  run-choose_server-none [] last rs = refl
  run-choose_server-none (a ∷ l) last rs = rw (run-choose_server-none l (data_port a.roll) rs)

module _ (fd : ℕ) (send : ℕ → Prog (Unit {0})) (rest : Prog (Unit {0})) where
  -- The data connection is made at an attempt before the hundredth.
  pub run-with_data :
      (l : List Attempt) (r server client : ℕ) (told : Reply) (rs : List Reply)
      → length l < 100
      → run (with_data fd send rest) (
          refusals l
            (value r ∷ value server ∷ value 0 ∷ value 0 ∷ value 0 ∷ told ∷ value client ∷ rs))
        ≡ (let e = run (on_data fd server send rest (some client)) rs in
            (
              refused l (
                  opened r server (
                    did (write fd (ok_text (digits 4 (data_port r)))) told
                    ∷ did (accept server) (value client)
                    ∷ e.0)),
              e.1,
            ))
  unfolding run
  run-with_data l r server client told rs lt =
      rw (run-choose_server (on_server fd send rest) l 100 0 r server (told ∷ value client ∷ rs) lt)
        (rw
          (
            run,
            lt→ltb (length (ok_text (digits 4 (data_port r)))) max_wbuf
                (length-ok_text-lt (data_port r)),
          )
          refl)

  -- After a hundred failures the client is told so, and the session goes on.
  pub run-with_data_none :
      (l : List Attempt) (told : Reply) (rs : List Reply)
      → length l ≡ 100
      → run (with_data fd send rest) (refusals l (told ∷ rs))
        ≡ (let e = run rest rs in (refused l (did (write fd err_line) told ∷ e.0), e.1))
  unfolding run
  run-with_data_none l told rs e =
      subst
        (λ n.
          run (choose_server n 0 >>= on_server fd send rest) (refusals l (told ∷ rs))
          ≡ (let e = run rest rs in (refused l (did (write fd err_line) told ∷ e.0), e.1)))
        e (rw (run-choose_server-none (on_server fd send rest) l 0 (told ∷ rs)))
