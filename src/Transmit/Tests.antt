-- ===== src/Transmit/Tests.antt =====
-- The theorems on the file transmitter at concrete inputs.
use linux_interface_test.Transmit.Ending.{receive_file-stale}
use linux_interface_test.Transmit.Receiving.{receive_file}
use linux_interface_test.Base.{
  store32, ◌++◌, ℕ, zero, suc, ◌≡◌, refl, arith, List, [], ◌∷◌, true, replicate, little, big, pos,
}
use linux_interface_test.Transmit.Sending.{
  SenderEnv, Outgoing, sent_all, read_error, tcp_file_transmitter_sender,
}
use linux_interface_test.Transmit.Receiving.{
  Incoming, closed, file_after, tcp_file_transmitter_receiver,
}
use linux_interface_test.Transmit.Rounds.{incoming}
use linux_interface_test.Transmit.Names.{AllNonzero}
use linux_interface_test.Transmit.RoundTrip.{receiver-sender}

abbrev env0 : SenderEnv
env0 = record {
  argc = 2;
  file_name = 97 ∷ 46 ∷ 116 ∷ [];
  socket_ret = pos 3;
  connect_ret = pos 0;
  open_ret = pos 4;
  reads = (1 ∷ 0 ∷ 3 ∷ []) ∷ (4 ∷ []) ∷ [];
  last = read_error;
  sends = λ i. true;
}

receiver-sender_example :
    (w : Outgoing) × (s : Incoming) × (tcp_file_transmitter_sender big env0 ≡ sent_all w)
    × (tcp_file_transmitter_receiver big (λ name. true) 16 3 w.stream
        ≡ closed (97 ∷ 46 ∷ 116 ∷ []) s)
    × (file_after (9 ∷ 9 ∷ 9 ∷ 9 ∷ 8 ∷ 7 ∷ []) s ≡ 1 ∷ 0 ∷ 3 ∷ 4 ∷ 8 ∷ 7 ∷ [])
receiver-sender_example =
    receiver-sender big env0 (λ name. true) 16 3 (9 ∷ 9 ∷ 9 ∷ 9 ∷ 8 ∷ 7 ∷ []) refl refl refl refl
      (λ i. refl) (omega arith, omega arith, (omega arith, omega arith, tt))
      (omega arith, (omega arith, (omega arith, tt))) (omega arith) refl (omega arith)

abbrev old : List ℕ
old = 11 ∷ 12 ∷ 13 ∷ 14 ∷ []

receive_file-stale_example :
    receive_file little true [] 2 (incoming 0 old (store32 little 3 ++ (21 ∷ [])) [])
    ≡ closed [] (incoming 3 (21 ∷ 12 ∷ 13 ∷ 14 ∷ []) [] (21 ∷ 12 ∷ 13 ∷ []))
receive_file-stale_example =
    receive_file-stale little [] 0 0 3 (21 ∷ []) old [] (omega arith) (omega arith) (omega arith)

abbrev long_name : List ℕ
long_name = replicate 512 97

long_name-AllNonzero : (n : ℕ) → AllNonzero (replicate n 97)
long_name-AllNonzero zero = tt
long_name-AllNonzero (suc n) = (omega arith, long_name-AllNonzero n)
