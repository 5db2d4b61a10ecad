-- ===== src/Ftp2/Runs.antt =====
-- Commands of a client over the data connection, at any point of a session: what the server does
-- until it is at the next read() of the client.
use edge_embedded_linux.Common.{
  ℕ, suc, ◌≡◌, refl, ◌-◌, ◌<◌, List, [], ◌∷◌, ◌++◌, length, take, All, length-append, take-append,
  ltb, lt→ltb, Bool-cases, inl, inr, arith,
}
use edge_embedded_linux.Text.{codes, crlf, cstr-eq}
use edge_embedded_linux.Posix.{
  read, write, close, open_file, popen, fread, pclose, sleep, accept, Reply, value, bytes, failed,
  Event, did, run, faulted,
}
use edge_embedded_linux.Ftp.{max_rbuf, ok_line, err_line, ok_text}
use edge_embedded_linux.Ftp2.{
  digits, data_port, ls_line, path_name, send_path, send_listing, with_data, process_command,
}
use edge_embedded_linux.Ftp2.Data.{
  Attempt, refusals, refused, opened, run-with_data, run-with_data_none,
}

-- `GET name` and the end of the line.
abbrev pub get_line : List ℕ → List ℕ
get_line name = codes "GET " ++ (name ++ crlf)

-- A name that can be asked for in one line.
abbrev pub IsName : List ℕ → Type 0
IsName name = All (λ c. 0 < c) name × (length (get_line name) < max_rbuf)

All-crlf : (name : List ℕ) → All (λ c. 0 < c) name → All (λ c. 0 < c) (name ++ crlf)
All-crlf [] h = (omega arith, (omega arith, tt))
All-crlf (x ∷ name) h = (h.0, All-crlf name h.1)

path_name_lem : (name : List ℕ) → path_name (name ++ crlf) ≡ name
path_name_lem name = elim (Bool-cases (ltb (length (name ++ crlf)) 2)) [
  | inl e ↦ absurd (ground (arith, length-append name crlf))
  | inr e ↦ rw e (cut (length (name ++ crlf) - 2) (omega (arith, length-append name crlf)))
]
  where
    cut : (n : ℕ) → n ≡ length name → take n (name ++ crlf) ≡ name
    cut n e = rw e (take-append name crlf)

module _ (fd : ℕ) (l : List Attempt) (r server client : ℕ) (told : Reply) where
  -- The answers to what the server does before the data are sent.
  abbrev pub connecting : List Reply → List Reply
  connecting rs =
      refusals l (value r ∷ value server ∷ value 0 ∷ value 0 ∷ value 0 ∷ told ∷ value client ∷ rs)

  abbrev pub connected : List Event → List Event
  connected t = refused l (
      opened r server (
        did (write fd (ok_text (digits 4 (data_port r)))) told
        ∷ did (accept server) (value client)
        ∷ t))

module _ (k fd : ℕ) (name : List ℕ) (ok : IsName name) where
  get_step :
      (rs : List Reply)
      → run (process_command (suc k) fd) (bytes (get_line name) ∷ rs) ≡ (
          let e =
            run (with_data fd (λ peer. send_path peer (name ++ crlf)) (process_command k fd)) rs in
          (did (read fd max_rbuf) (bytes (get_line name)) ∷ e.0, e.1))
  unfolding run process_command
  get_step rs =
      rw
        (
          run,
          lt→ltb (length (get_line name)) max_rbuf ok.1,
          cstr-eq (name ++ crlf) (All-crlf name ok.0),
        )
        refl

  module _ (l : List Attempt) (r server client : ℕ) (told : Reply) (few : length l < 100) where
    -- GET of a file that can be opened and read: after up to 99 attempts whose bind() fails, the
    -- server tells the client the port, sends the first 1024 bytes at most of the file over the data
    -- connection, closes that, answers OK, closes the data server, and goes on with the session.
    pub run-get :
        (file : ℕ) (content : List ℕ) (sent slept closed answered closed' : Reply) (rs : List Reply)
        → run (process_command (suc k) fd) (
            bytes (get_line name)
            ∷ connecting fd l r server client told
                (value file ∷ bytes content ∷ sent ∷ slept ∷ closed ∷ answered ∷ closed' ∷ rs))
          ≡ (let e = run (process_command k fd) rs in
              (
                did (read fd max_rbuf) (bytes (get_line name))
                    ∷ connected fd l r server client told (
                        did (open_file name) (value file)
                        ∷ did (read file 1024) (bytes content)
                        ∷ did (write client content) sent
                        ∷ did (sleep 100000) slept
                        ∷ did (close client) closed
                        ∷ did (write fd ok_line) answered
                        ∷ did (close server) closed'
                        ∷ e.0),
                e.1,
              ))
    unfolding run
    run-get file content sent slept closed answered closed' rs =
        rw
          (
            get_step (
                connecting fd l r server client told
                  (value file ∷ bytes content ∷ sent ∷ slept ∷ closed ∷ answered ∷ closed' ∷ rs)),
            run-with_data fd (λ peer. send_path peer (name ++ crlf)) (process_command k fd) l r
                server client told
                (value file ∷ bytes content ∷ sent ∷ slept ∷ closed ∷ answered ∷ closed' ∷ rs) few,
          )
          (rw (run, path_name_lem name) refl)

    -- GET of a file that cannot be opened: a failed read() of the descriptor -1 and then undefined
    -- behaviour, a write() of 2^64 - 1 bytes.
    pub run-get_missing :
        (e e' : ℕ) (rs : List Reply)
        → (run (process_command (suc k) fd) (
            bytes (get_line name)
            ∷ connecting fd l r server client told (failed e ∷ failed e' ∷ rs))).1
          ≡ faulted
    unfolding run
    run-get_missing e e' rs =
        rw
          (
            get_step (connecting fd l r server client told (failed e ∷ failed e' ∷ rs)),
            run-with_data fd (λ peer. send_path peer (name ++ crlf)) (process_command k fd) l r
                server client told (failed e ∷ failed e' ∷ rs) few,
          )
          refl

  -- When a hundred attempts have failed, GET is answered by ERR, and the session goes on.
  pub run-get_refused :
      (l : List Attempt) (told : Reply) (rs : List Reply)
      → length l ≡ 100
      → run (process_command (suc k) fd) (bytes (get_line name) ∷ refusals l (told ∷ rs)) ≡ (
          let e = run (process_command k fd) rs in
          (
            did (read fd max_rbuf) (bytes (get_line name))
                ∷ refused l (did (write fd err_line) told ∷ e.0),
            e.1,
          ))
  run-get_refused l told rs all =
      rw
        (
          get_step (refusals l (told ∷ rs)),
          run-with_data_none fd (λ peer. send_path peer (name ++ crlf)) (process_command k fd) l
              told rs all,
        )
        refl

-- LS: the first 2049 bytes at most of the output of `ls -l` go over the data connection.
pub run-ls :
    (k fd : ℕ) (l : List Attempt) (r server client : ℕ) (told : Reply) (fp : ℕ) (content : List ℕ)
    (sent ended slept closed answered closed' : Reply) (rs : List Reply)
    → length l < 100
    → run (process_command (suc k) fd) (
        bytes ls_line
        ∷ connecting fd l r server client told
            (value fp ∷ bytes content ∷ sent ∷ ended ∷ slept ∷ closed ∷ answered ∷ closed' ∷ rs))
      ≡ (let e = run (process_command k fd) rs in
          (
            did (read fd max_rbuf) (bytes ls_line)
                ∷ connected fd l r server client told (
                    did (popen (codes "ls -l")) (value fp)
                    ∷ did (fread fp 2049) (bytes content)
                    ∷ did (write client content) sent
                    ∷ did (pclose fp) ended
                    ∷ did (sleep 100000) slept
                    ∷ did (close client) closed
                    ∷ did (write fd ok_line) answered
                    ∷ did (close server) closed'
                    ∷ e.0),
            e.1,
          ))
unfolding run process_command
run-ls k fd l r server client told fp content sent ended slept closed answered closed' rs few =
    rw
      (
        run,
        run-with_data fd send_listing (process_command k fd) l r server client told
            (value fp ∷ bytes content ∷ sent ∷ ended ∷ slept ∷ closed ∷ answered ∷ closed' ∷ rs)
            few,
      )
      refl
