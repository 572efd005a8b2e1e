-- ===== src/UdpMulti/Tests.antt =====
-- Datagrams of the threads 0 and 5.
use linux_interface_test.Base.{ℕ, arith, List, [], ◌∷◌}
use linux_interface_test.UdpMulti.{AllLetters}

abbrev test_nums : List ℕ
test_nums = 0 ∷ 5 ∷ 0 ∷ []

test_nums-AllLetters : AllLetters test_nums
test_nums-AllLetters = (omega arith, (omega arith, (omega arith, tt)))
