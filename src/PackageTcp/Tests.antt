-- ===== src/PackageTcp/Tests.antt =====
-- The theorems on the numbered datagrams at concrete inputs.
use linux_interface_test.Base.{ℕ, ◌≡◌, refl, arith, List, [], ◌∷◌, true, false, map}
use linux_interface_test.PackageTcp.{Receiver, start, arrived, receive_loop, send_rounds}
use linux_interface_test.PackageTcp.Gaps.{receive_loop-send_rounds}

-- The number 1 is lost, the number 3 comes twice.
abbrev packets0 : List (List ℕ)
packets0 = (0 ∷ 5 ∷ []) ∷ (2 ∷ 5 ∷ []) ∷ (3 ∷ 6 ∷ []) ∷ (3 ∷ 6 ∷ []) ∷ []

abbrev later : Receiver
later = record start { old_sno = 9; packet_recv = 10 }

-- After the number 9 the packets 10 to 265 are lost.
receive_loop-send_rounds_example :
    let (r', ended) =
      receive_loop
        (map arrived (send_rounds (λ i. 3) (λ i. true) 266 4 (9 ∷ 3 ∷ 104 ∷ [])))
        later in
    (ended ≡ false) × (r'.packet_error ≡ 0) × (r'.packet_recv ≡ 14)
receive_loop-send_rounds_example =
    receive_loop-send_rounds (λ i. 3) (λ i. true) 266 4 9 3 (104 ∷ []) later (λ i. refl)
      (omega arith) (omega arith) refl
