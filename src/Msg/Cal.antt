-- ===== src/Msg/Cal.antt =====
-- EX03-12_cal_server: a server that multiplies. All clients receive the same type of message.
pub mod Replies
use edge_embedded_linux.Common.{ℕ, ◌*◌, ◌%◌, ◌^◌, some}
use edge_embedded_linux.Msg.{Protocol}

abbrev pub mtype_c2s : ℕ
mtype_c2s = 1

abbrev pub mtype_s2c : ℕ
mtype_s2c = 2

-- struct msg_buf; an int is its 32 bits.
pub record MsgBuf : Type 0 where
  pub mtype : ℕ
  pub op1 : ℕ
  pub op2 : ℕ
  pub result : ℕ

-- The product of ints wraps around, as the processor's does.
abbrev pub multiply : MsgBuf → MsgBuf
multiply m = record m { mtype = mtype_s2c; result = m.op1 * m.op2 % 2 ^ 32 }

-- `result` is not set by the client; it is what the stack held.
abbrev pub factors : ℕ → ℕ → ℕ → MsgBuf
factors a b junk = record { mtype = mtype_c2s; op1 = a; op2 = b; result = junk }

-- Client number `p` is started with the operands `left p` and `right p`.
abbrev pub cal : (left right junk : ℕ → ℕ) → Protocol
cal left right junk = record {
  Message = MsgBuf;
  mtype = λ m. m.mtype;
  inbox = mtype_c2s;
  outbox = λ p. mtype_s2c;
  ask = λ p. some (factors (left p) (right p) (junk p));
  answer = multiply;
}
