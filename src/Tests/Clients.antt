-- ===== src/Tests/Clients.antt =====
-- Two clients of the server with a thread for each.
use edge_embedded_linux.Common.{refl, [], ◌∷◌, some}
use edge_embedded_linux.Threads.Clients
use edge_embedded_linux.Threads.Clients.{accepting, serving, clients_mixed}

-- Clients on 4 and 5, and both threads serve 5.
clients_mixed_example : Clients.Reach 3 (record {
  sfd_client = some 5;
  open_fds = 5 ∷ 4 ∷ 3 ∷ [];
  main = accepting;
  threads = serving 5 ∷ serving 5 ∷ [];
})
clients_mixed_example = clients_mixed 3 4 5 refl refl
