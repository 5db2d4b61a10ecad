-- ===== src/Ftp/Runs.antt =====
-- Runs of the command server, EX07-02_tcp_myftp: handles, a session, the block that writes past `rbuf`.
use edge_embedded_linux.Common.{
  ℕ, zero, suc, ◌≡◌, refl, ◌∙◌, ap, ◌-◌, ◌≤◌, ◌<◌, true, false, List, [], ◌∷◌, ◌++◌, length,
  length-append, take, take-append, All, arith, ltb, lt→ltb,
}
use edge_embedded_linux.Text.{codes, cstr, cstr-eq, str_eq}
use edge_embedded_linux.Posix.{
  read, write, popen, fread, pclose, Reply, value, bytes, Event, did, waits, faulted, returned, run,
}
use edge_embedded_linux.Posix.Safety.{Judged, Safe-Judged}
use edge_embedded_linux.Posix.Handles.{Bounds, handles, holding}
use edge_embedded_linux.Tcp.Opening.{Fails, Never}
use edge_embedded_linux.Ftp.{
  max_rbuf, max_wbuf, max_tbuf, quit_line, pwd_line, ok_line, ok_text, get_pwd, process_command,
  ftp_main,
}
use edge_embedded_linux.Ftp.Safety.{ftp_main-Safe}

-- While no client sends 256 bytes at once and `pwd` prints at most 240, every run of
-- myftp_server_bd stays inside its buffers, uses and closes open descriptors and streams only, and
-- ends only by EXIT_FAILURE.
pub ftp_main-Judged :
    (bs : Bounds)
    → bs.output ≤ max_tbuf
    → bs.block < max_rbuf
    → (argc n k : ℕ) (rs : List Reply)
    → Judged
        (handles bs)
        Never
        Fails
        (run (ftp_main argc n k) rs).0
        (run (ftp_main argc n k) rs).1
        (holding [] [])
ftp_main-Judged bs fits short argc n k =
    Safe-Judged (handles bs) Never Fails (ftp_main argc n k) (holding [] [])
      (ftp_main-Safe bs fits short argc n k)

-- A client that sends a block of 256 bytes, which read() is given room for, makes the server store
-- its terminator past the end of `rbuf`: the run ends there, whatever the block is.
pub run-process_command_overflow :
    (k fd : ℕ) (b : List ℕ) (rs : List Reply)
    → length b ≡ max_rbuf
    → run (process_command (suc k) fd) (bytes b ∷ rs)
      ≡ (did (read fd max_rbuf) (bytes b) ∷ [], faulted)
unfolding run process_command
run-process_command_overflow k fd [] rs h = absurd (omega arith)
run-process_command_overflow k fd (x ∷ b) rs h = rw full
  where
    full : ltb (length (x ∷ b)) max_rbuf ≡ false
    full = rw h

-- What a client sends: PWD, or any other line than QUIT and PWD.
pub data Request : Type 0 where
  ask_pwd : Request
  other : List ℕ → Request

-- The specification: PWD is answered by the directory, other lines by nothing, QUIT by OK.
abbrev pub answers : List ℕ → List Request → List (List ℕ)
answers dir [] = ok_line ∷ []
answers dir (ask_pwd ∷ l) = ok_text dir ∷ answers dir l
answers dir (other line ∷ l) = answers dir l

-- What the system answers when the client sends these requests and then QUIT, and popen() gives
-- stream `fp` with the directory and an end of line.
abbrev pub session : ℕ → List ℕ → List Request → List Reply
session fp dir [] = bytes quit_line ∷ value (length ok_line) ∷ []
session fp dir (ask_pwd ∷ l) =
    bytes pwd_line
    ∷ value fp
    ∷ bytes (dir ++ 10 ∷ [])
    ∷ value 0
    ∷ value (length (ok_text dir))
    ∷ session fp dir l
session fp dir (other line ∷ l) = bytes line ∷ session fp dir l

-- The lines written by a run.
abbrev pub sent : List Event → List (List ℕ)
sent [] = []
sent (did (write fd b) r ∷ t) = b ∷ sent t
sent (did c r ∷ t) = sent t
sent (waits c ∷ t) = sent t

abbrev pub IsRequest : Request → Type 0
IsRequest ask_pwd = Unit
IsRequest (other line) =
    (0 < length line)
    × (length line < max_rbuf)
    × (str_eq (cstr line) quit_line ≡ false)
    × (str_eq (cstr line) pwd_line ≡ false)

module _ (fd fp x : ℕ) (dir : List ℕ) (text : All (λ c. 0 < c) (x ∷ dir))
    (short : length (x ∷ dir) < max_tbuf) where
  -- The text that get_pwd() leaves in its buffer.
  pwd_text : cstr (take (length (dir ++ 10 ∷ [])) (x ∷ (dir ++ 10 ∷ []))) ≡ x ∷ dir
  pwd_text = ap cstr taken ∙ cstr-eq (x ∷ dir) text
    where
      size : length (dir ++ 10 ∷ []) ≡ length (x ∷ dir)
      size = omega (arith, length-append {0} dir (10 ∷ []))

      taken : take (length (dir ++ 10 ∷ [])) (x ∷ (dir ++ 10 ∷ [])) ≡ x ∷ dir
      taken = rw size (take-append (x ∷ dir) (10 ∷ []))

  read_fits : ltb (length (dir ++ 10 ∷ [])) max_tbuf ≡ true
  read_fits = lt→ltb _ _ (omega (arith, length-append {0} dir (10 ∷ [])))

  line_fits : ltb (length (ok_text (x ∷ dir))) max_wbuf ≡ true
  line_fits = lt→ltb _ _ (omega (arith, length-append {0} dir (13 ∷ 10 ∷ [])))

  -- One PWD.
  pwd_step :
      (k n : ℕ) (rs : List Reply)
      → run
          (process_command (suc k) fd)
          (bytes pwd_line ∷ value fp ∷ bytes (x ∷ (dir ++ 10 ∷ [])) ∷ value 0 ∷ value n ∷ rs)
        ≡ (
          did (read fd max_rbuf) (bytes pwd_line)
              ∷ did (popen (codes "pwd")) (value fp)
              ∷ did (fread fp (max_rbuf - 1)) (bytes (x ∷ (dir ++ 10 ∷ [])))
              ∷ did (pclose fp) (value 0)
              ∷ did (write fd (ok_text (x ∷ dir))) (value n)
              ∷ (run (process_command k fd) rs).0,
          (run (process_command k fd) rs).1,
        )
  unfolding run process_command get_pwd
  pwd_step k n rs = rw read_fits (rw pwd_text (rw line_fits))

  quit_step :
      (k : ℕ)
      → (sent (run (process_command (suc k) fd) (session fp (x ∷ dir) [])).0 ≡ ok_line ∷ [])
        × ((run (process_command (suc k) fd) (session fp (x ∷ dir) [])).1 ≡ returned tt)
  unfolding run process_command
  quit_step k = (refl, refl)

  -- One line that is no command.
  other_step :
      (k y : ℕ) (line : List ℕ) (rs : List Reply)
      → IsRequest (other (y ∷ line))
      → run (process_command (suc k) fd) (bytes (y ∷ line) ∷ rs) ≡ (
        did (read fd max_rbuf) (bytes (y ∷ line)) ∷ (run (process_command k fd) rs).0,
        (run (process_command k fd) rs).1,
      )
  unfolding run process_command
  other_step k y line rs h = rw (lt→ltb (length (y ∷ line)) max_rbuf h.1) (rw h.2 (rw h.3))

  -- When no call fails, the working directory has fewer than 240 bytes, none of them zero, and there are
  -- more rounds than requests: in a session of PWD and of other lines, each of 1 to 255 bytes and neither
  -- PWD nor QUIT, which ends with QUIT, the client receives the answers of the specification, in order,
  -- and the session ends.
  pub run-process_command :
      (l : List Request) (k : ℕ)
      → length l < k
      → All IsRequest l
      → (sent (run (process_command k fd) (session fp (x ∷ dir) l)).0 ≡ answers (x ∷ dir) l)
        × ((run (process_command k fd) (session fp (x ∷ dir) l)).1 ≡ returned tt)
  run-process_command l zero lt h = absurd (omega arith)
  run-process_command [] (suc k) lt h = quit_step k
  run-process_command (other [] ∷ l) (suc k) lt h = absurd (omega arith)
  run-process_command (other (y ∷ line) ∷ l) (suc k) lt h =
      rw (other_step k y line (session fp (x ∷ dir) l) h.0)
        (run-process_command l k (omega arith) h.1)
  run-process_command (ask_pwd ∷ l) (suc k) lt h =
      let (texts, ends) = run-process_command l k (omega arith) h.1 in
      rw (pwd_step k (length (ok_text (x ∷ dir))) (session fp (x ∷ dir) l))
        (ap (λ a. ok_text (x ∷ dir) ∷ a) texts, ends)
