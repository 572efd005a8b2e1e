-- ===== src/Chat/Tests.antt =====
-- The chat server with two clients.
use linux_interface_test.Base.{◌≡◌, refl, arith, ◌==◌, [], ◌∷◌, true, false, none, some}
use linux_interface_test.Chat.{Chat, accepted, receives, after_fork, after_broadcast, step}
use linux_interface_test.Chat.Table.{Reached, start, next}
use linux_interface_test.Chat.Broadcast.{numbers, step-receives}

abbrev begin : Chat
begin = record {
  client_socket_fd = λ i. none;
  fds_of = λ k fd. none;
  runs = λ k. k == 0;
  index = 0;
  delivered = [];
}

abbrev two_clients : Chat
two_clients = after_fork 5 (after_fork 4 begin)

two_clients-Reached : Reached two_clients
unfolding step
two_clients-Reached =
    next (accepted 5) (after_fork 4 begin) two_clients
      (next (accepted 4) begin (after_fork 4 begin)
        (start begin (record { empty = λ i. refl; nothing_open = λ k fd. refl; first = refl }))
        (omega arith) refl)
      (omega arith) refl

step-receives_example :
    step (receives 0 (104 ∷ 105 ∷ []) (λ c. true)) two_clients
    ≡ some (after_broadcast 0 (104 ∷ 105 ∷ []) (numbers 0 1, false) two_clients)
step-receives_example =
    step-receives two_clients 0 (104 ∷ 105 ∷ []) (λ c. true) two_clients-Reached refl (omega arith)
      (omega arith) (λ c. refl)
