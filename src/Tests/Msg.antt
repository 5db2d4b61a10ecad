-- ===== src/Tests/Msg.antt =====
-- The message servers: client 5 of the file server asks for a file of 10 bytes; clients 5 and 6 of
-- the multiplying server get each other's answers.
use edge_embedded_linux.Common.{ℕ, ◌≡◌, refl, ◌⊎◌, ◌*◌, ◌%◌, ◌^◌, List, [], Option, some, arith}
use edge_embedded_linux.Text.{codes}
use edge_embedded_linux.Msg.{waiting, ClientPc, sent, done, Request, System, Step, Serve, Reach}
use edge_embedded_linux.Msg.Queue.{Takes, first}
use edge_embedded_linux.Msg.File.{mtype_c2s, MsgBuf, file}
use edge_embedded_linux.Msg.File.Replies.{Describes, file_reply}
use edge_embedded_linux.Msg.File.Progress.{file_progress}
use edge_embedded_linux.Msg.Cal
use edge_embedded_linux.Msg.Cal.{multiply, factors, cal}
use edge_embedded_linux.Msg.Cal.Replies.{cal_reply, cal_mixes}

abbrev stat : List ℕ → Option (ℕ × ℕ)
stat name = some (10, 420)

abbrev names : ℕ → List ℕ
names p = codes "a.txt"

abbrev junk : ℕ → MsgBuf
junk p = record { mtype = 0; fname = []; size = 7; mode = 7; valid = 7; pid = 0 }

abbrev request : MsgBuf
request = record { mtype = 1; fname = codes "a.txt"; size = 7; mode = 7; valid = 7; pid = 5 }

abbrev reply : MsgBuf
reply = record { mtype = 5; fname = codes "a.txt"; size = 10; mode = 420; valid = 1; pid = 5 }

-- Client 5 has asked.
asked_reached :
    (s : System (file stat names junk)) × (Reach (file stat names junk) s
      × ((s.server ≡ waiting) × ((s.clients 5 ≡ sent) × (s.clients 1 ≡ ClientPc.fresh))))
asked_reached =
    let r1 = Reach.later Reach.here (Step.serves Serve.get_queue) in
    let r2 = Reach.later r1 (Step.requests {p = 5} (Request.get_queue refl)) in
    let r3 = Reach.later r2 (Step.requests {p = 5} Request.send) in (_, (r3, (refl, (refl, refl))))

file_progress_example :
    ((m : MsgBuf) × ((q : List MsgBuf) × Takes (λ m. m.mtype) mtype_c2s asked_reached.0.queue m q))
    ⊎ ((m : MsgBuf) × ((q : List MsgBuf) × Takes (λ m. m.mtype) 5 asked_reached.0.queue m q))
file_progress_example =
    file_progress stat names junk 5 asked_reached.1.0 asked_reached.1.1.1.1 asked_reached.1.1.1.0
      asked_reached.1.1.0

-- Client 5 has received the answer.
replied_reached :
    (s : System (file stat names junk)) × (Reach (file stat names junk) s
      × (s.clients 5 ≡ done reply))
replied_reached =
    let r1 = Reach.later Reach.here (Step.serves Serve.get_queue) in
    let r2 = Reach.later r1 (Step.requests {p = 5} (Request.get_queue refl)) in
    let r3 = Reach.later r2 (Step.requests {p = 5} Request.send) in
    let r4 = Reach.later r3 (Step.serves (Serve.receive (first refl))) in
    let r5 = Reach.later r4 (Step.serves Serve.send) in
    (_, (Reach.later r5 (Step.requests {p = 5} (Request.receive (first refl))), refl))

file_reply_example : (codes "a.txt" ≡ names 5) × Describes (stat (names 5)) reply
file_reply_example =
    file_reply stat names junk 5 reply replied_reached.1.0 (λ e. omega arith) replied_reached.1.1

abbrev operand : ℕ → ℕ
operand p = p * 1000000000

abbrev unset : ℕ → ℕ
unset p = 0

abbrev six_by_six : Cal.MsgBuf
six_by_six = multiply (factors (operand 6) (operand 6) 0)

cal_reply_example :
    (six_by_six.result ≡ six_by_six.op1 * six_by_six.op2 % 2 ^ 32)
    × ((i : ℕ) × ((six_by_six.op1 ≡ operand i) × (six_by_six.op2 ≡ operand i)))
cal_reply_example =
    cal_reply operand operand unset 5 six_by_six
      (cal_mixes operand operand unset 5 6 (λ e. omega arith)).1.0
      (cal_mixes operand operand unset 5 6 (λ e. omega arith)).1.1
