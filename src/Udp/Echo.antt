-- ===== src/Udp/Echo.antt =====
-- Runs of the UDP echo server, EX07-09_udp, failures of recvfrom() among them.
use edge_embedded_linux.Common.{
  ℕ, zero, suc, ◌≡◌, refl, ◌-◌, ◌<◌, List, [], ◌∷◌, length, All, lt→ltb, arith,
}
use edge_embedded_linux.Posix.{
  socket, bind, recv_from, send_to, Reply, value, bytes, failed, Event, did, waits, blocked, run,
}
use edge_embedded_linux.Tcp.{max_buf, server_port}
use edge_embedded_linux.Udp.{echo_datagrams, udp_main}

-- A call of recvfrom() that fails or gets a datagram, which may be empty.
pub data Arrival : Type 0 where
  broken : (errno : ℕ) → Arrival
  datagram : List ℕ → Arrival

abbrev pub Fits : Arrival → Type 0
Fits (broken e) = Unit
Fits (datagram b) = length b < max_buf

-- What the system answers to the server.
abbrev pub answers : List Arrival → List Reply
answers [] = []
answers (broken e ∷ l) = failed e ∷ answers l
answers (datagram [] ∷ l) = bytes [] ∷ answers l
answers (datagram (x ∷ b) ∷ l) = bytes (x ∷ b) ∷ value (length (x ∷ b)) ∷ answers l

-- What the server does: every datagram that is not empty goes back.
abbrev pub echoes : ℕ → List Arrival → List Event
echoes sfd [] = waits (recv_from sfd (max_buf - 1)) ∷ []
echoes sfd (broken e ∷ l) = did (recv_from sfd (max_buf - 1)) (failed e) ∷ echoes sfd l
echoes sfd (datagram [] ∷ l) = did (recv_from sfd (max_buf - 1)) (bytes []) ∷ echoes sfd l
echoes sfd (datagram (x ∷ b) ∷ l) =
    did (recv_from sfd (max_buf - 1)) (bytes (x ∷ b))
    ∷ did (send_to sfd (x ∷ b)) (value (length (x ∷ b)))
    ∷ echoes sfd l

run-echo_datagrams :
    (l : List Arrival) (n sfd : ℕ)
    → length l < n
    → All Fits l
    → run (echo_datagrams n sfd) (answers l) ≡ (echoes sfd l, blocked)
unfolding run echo_datagrams
run-echo_datagrams l zero sfd lt h = absurd (omega arith)
run-echo_datagrams [] (suc n) sfd lt h = refl
run-echo_datagrams (broken e ∷ l) (suc n) sfd lt h =
    rw (run-echo_datagrams l n sfd (omega arith) h.1)
run-echo_datagrams (datagram [] ∷ l) (suc n) sfd lt h =
    rw (run-echo_datagrams l n sfd (omega arith) h.1)
run-echo_datagrams (datagram (x ∷ b) ∷ l) (suc n) sfd lt h =
    rw (lt→ltb (length (x ∷ b)) max_buf h.0) (rw (run-echo_datagrams l n sfd (omega arith) h.1))

-- Once it is bound, and given more rounds than arrivals, the UDP echo server sends each datagram of
-- 1 to 255 bytes back unchanged, in order, passes over failures and empty datagrams, and waits for
-- the next one.
pub run-udp_main :
    (l : List Arrival) (n sfd : ℕ)
    → length l < n
    → All Fits l
    → run (udp_main 1 n) (value sfd ∷ value 0 ∷ answers l)
      ≡ (did socket (value sfd) ∷ did (bind sfd server_port) (value 0) ∷ echoes sfd l, blocked)
unfolding run udp_main
run-udp_main l n sfd lt h = rw (run-echo_datagrams l n sfd lt h)
