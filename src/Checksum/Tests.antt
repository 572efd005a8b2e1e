-- ===== src/Checksum/Tests.antt =====
-- The checksum theorems at concrete buffers.
use linux_interface_test.Base.{
  ◌+◌, ◌-◌, ◌≡◌, ◌≢◌, refl, arith, some, ℕ, List, [], ◌∷◌, inl, inr, little, big,
}
use linux_interface_test.Checksum.{
  Ipv4, calc_ipv4_hdr_check_sum, calc_udp_check_sum, calc_check_sum,
}
use linux_interface_test.Checksum.Result.{
  calc_ipv4_hdr_check_sum_lem, calc_udp_check_sum_lem, calc_check_sum_lem,
}
use linux_interface_test.Checksum.Verify.{
  calc_ipv4_hdr_check_sum_verifies, calc_ipv4_hdr_check_sum_detects,
}
use linux_interface_test.Checksum.Spec.{word_sum, ones, pseudo_sum}

-- The first ten bytes of a header, before its checksum field, and the addresses after it.
abbrev front : List ℕ
front = 0x45 ∷ 0 ∷ 0 ∷ 0x3c ∷ 0x1c ∷ 0x46 ∷ 0x40 ∷ 0 ∷ 0x40 ∷ 0x06 ∷ []

abbrev addrs : List ℕ
addrs = 0xac ∷ 0x10 ∷ 0x0a ∷ 0x63 ∷ 0xac ∷ 0x10 ∷ 0x0a ∷ 0x0c ∷ []

abbrev header : List ℕ
header = 0x45 ∷ 0 ∷ 0 ∷ 0x3c ∷ 0x1c ∷ 0x46 ∷ 0x40 ∷ 0 ∷ 0x40 ∷ 0x06 ∷ 0 ∷ 0 ∷ addrs

abbrev host_a : Ipv4
host_a = record { a0 = 192; a1 = 168; a2 = 197; a3 = 1 }

abbrev host_b : Ipv4
host_b = record { a0 = 192; a1 = 168; a2 = 197; a3 = 241 }

-- A datagram of nine bytes: the header with a zero check field, and one byte.
abbrev datagram : List ℕ
datagram = 0xc4 ∷ 0x7d ∷ 0xc4 ∷ 0x87 ∷ 0 ∷ 9 ∷ 0 ∷ 0 ∷ 0x61 ∷ []

known_header : calc_ipv4_hdr_check_sum big header ≡ 0xb1e6
unfolding calc_ipv4_hdr_check_sum
known_header = refl

calc_ipv4_hdr_check_sum_lem_example : calc_ipv4_hdr_check_sum little header ≡ 0xe6b1
unfolding word_sum
calc_ipv4_hdr_check_sum_lem_example =
    calc_ipv4_hdr_check_sum_lem little header (omega arith) (inl refl)

calc_udp_check_sum_lem_example :
    calc_udp_check_sum little datagram 9 host_a host_b
    ≡ some (65535 - ones (word_sum little datagram + pseudo_sum little host_a host_b 0x1100 0x0900))
calc_udp_check_sum_lem_example =
    calc_udp_check_sum_lem little datagram 9 host_a host_b (omega arith) (inl refl) (omega arith)
      (omega arith)

calc_check_sum_lem_example :
    calc_check_sum big (8 ∷ 0 ∷ 0 ∷ []) ≡ some (65535 - ones (word_sum big (8 ∷ 0 ∷ 0 ∷ [])))
calc_check_sum_lem_example = calc_check_sum_lem big (8 ∷ 0 ∷ 0 ∷ []) (omega arith) (omega arith)

calc_ipv4_hdr_check_sum_verifies_example :
    calc_ipv4_hdr_check_sum big
      (0x45 ∷ 0 ∷ 0 ∷ 0x3c ∷ 0x1c ∷ 0x46 ∷ 0x40 ∷ 0 ∷ 0x40 ∷ 0x06 ∷ 0xb1 ∷ 0xe6 ∷ addrs)
    ≡ 0
unfolding calc_ipv4_hdr_check_sum
calc_ipv4_hdr_check_sum_verifies_example =
    calc_ipv4_hdr_check_sum_verifies big front addrs refl (omega arith) (inr refl)

calc_ipv4_hdr_check_sum_detects_example :
    calc_ipv4_hdr_check_sum big
      (0x45 ∷ 0 ∷ 0 ∷ 0x3c ∷ 0x1c ∷ 0x46 ∷ 0x40 ∷ 0 ∷ 0x40 ∷ 0x06 ∷ 0xb1 ∷ 0xe7 ∷ addrs)
    ≢ 0
unfolding calc_ipv4_hdr_check_sum
calc_ipv4_hdr_check_sum_detects_example =
    calc_ipv4_hdr_check_sum_detects big front addrs refl 0xb1e6 0xb1e7 (omega arith) (omega arith)
      (omega arith) (omega arith) (inr refl) refl
