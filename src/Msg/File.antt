-- ===== src/Msg/File.antt =====
-- EX03-13_file_server: a server that tells of files. The type of an answer is the client's number.
pub mod Replies
pub mod Progress
use edge_embedded_linux.Common.{ℕ, List, length, Option, none, some, ltb, if◌then◌else◌}
use edge_embedded_linux.Msg.{Protocol}

abbrev pub max_fname : ℕ
max_fname = 64

abbrev pub mtype_c2s : ℕ
mtype_c2s = 1

-- struct msg_buf; `fname` is the string in its array.
pub record MsgBuf : Type 0 where
  pub mtype : ℕ
  pub fname : List ℕ
  pub size : ℕ
  pub mode : ℕ
  pub valid : ℕ
  pub pid : ℕ

-- What stat() says; for a file that is not there `size` and `mode` stay what they were.
abbrev pub describe : Option (ℕ × ℕ) → MsgBuf → MsgBuf
describe none m = record m { valid = 0; mtype = m.pid }
describe (some st) m = record m { valid = 1; size = st.0; mode = st.1; mtype = m.pid }

-- Client number `p` asks for a name that fits into the array; `size`, `mode` and `valid` are not
-- set, and are what the stack held.
abbrev pub file_request : (ℕ → List ℕ) → (ℕ → MsgBuf) → ℕ → Option MsgBuf
file_request names junk p =
    if ltb (length (names p)) max_fname
    then some (record (junk p) { mtype = mtype_c2s; fname = names p; pid = p })
    else none

abbrev pub file : (List ℕ → Option (ℕ × ℕ)) → (ℕ → List ℕ) → (ℕ → MsgBuf) → Protocol
file stat names junk = record {
  Message = MsgBuf;
  mtype = λ m. m.mtype;
  inbox = mtype_c2s;
  outbox = λ p. p;
  ask = file_request names junk;
  answer = λ m. describe (stat m.fname) m;
}
