-- ===== src/TcpTest/Tests.antt =====
-- A server that is given 52 bytes, and one that is given 3.
use linux_interface_test.Base.{ℕ, ◌≡◌, arith, List, [], ◌∷◌, some}
use linux_interface_test.TcpTest.{concat, recv_loop, recv_loop-concat}

recv_loop-concat_example :
    (pieces : List (List ℕ)) × (recv_loop 6 3 (1 ∷ 2 ∷ 3 ∷ 4 ∷ 5 ∷ []) ≡ some pieces)
    × (concat pieces ≡ 1 ∷ 2 ∷ 3 ∷ 4 ∷ 5 ∷ [])
recv_loop-concat_example =
    recv_loop-concat 2 6 (1 ∷ 2 ∷ 3 ∷ 4 ∷ 5 ∷ []) (omega arith) (omega arith) (omega arith)
