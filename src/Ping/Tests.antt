-- ===== src/Ping/Tests.antt =====
-- The theorems on ping at concrete inputs.
use linux_interface_test.Base.{
  ℕ, ◌≡◌, ◌==◌, some, refl, arith, List, [], ◌∷◌, ◌++◌, not, length, replicate, little, big,
}
use linux_interface_test.Ping.{send_icmp_packet, unpack_icmp_packet}
use linux_interface_test.Ping.Request.{request, has_data}
use linux_interface_test.Ping.Sending.{Requests, send_icmp_packet-Requests}
use linux_interface_test.Ping.Reply.{echo_reply, unpack_icmp_packet-echo_reply}

abbrev now0 : List ℕ
now0 = 1 ∷ 2 ∷ 3 ∷ 4 ∷ []

abbrev block0 : List ℕ
block0 = 0 ∷ 0 ∷ 0 ∷ 0 ∷ 0 ∷ 0 ∷ 0 ∷ 0 ∷ 97 ∷ 98 ∷ 99 ∷ 100 ∷ 101 ∷ []

send_icmp_packet-Requests_example :
    (ps : List (List ℕ)) × (send_icmp_packet big (λ i. now0) (λ i. not (i == 1)) 42 3 5 block0
      ≡ some ps)
    × Requests big 42 (λ i. not (i == 1)) 0 3 ps
send_icmp_packet-Requests_example =
    send_icmp_packet-Requests big (λ i. now0) (λ i. not (i == 1)) 42 3 4
      (97 ∷ 98 ∷ 99 ∷ 100 ∷ 101 ∷ []) block0 (λ i. refl) (λ i. omega arith)
      (has_data 0 0 0 0 0 0 0 0) (omega arith) (omega arith) (omega arith)

abbrev ip0 : List ℕ
ip0 = 69 ∷ replicate 7 0 ++ (64 ∷ replicate 11 0)

unpack_icmp_packet-echo_reply_example :
    let buf = ip0 ++ echo_reply little 5 (request little 9 42 65537 (97 ∷ 98 ∷ [])) in
    unpack_icmp_packet little 42 buf (length buf) ≡ some (record { bytes = 2; seq = 1; ttl = 64 })
unpack_icmp_packet-echo_reply_example =
    unpack_icmp_packet-echo_reply little 42 65537 9 5 (97 ∷ 98 ∷ []) ip0 (omega arith) (omega arith)
      refl
