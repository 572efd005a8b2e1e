-- ===== src/Arp/Tests.antt =====
-- ARP requests and replies at concrete frames.
use linux_interface_test.Base.{
  ℕ, zero, suc, ◌<◌, ◌≡◌, refl, arith, ◌==◌, if◌then◌else◌, List, [], ◌∷◌, ◌++◌, true, some, length,
  little, big, pos,
}
use linux_interface_test.Arp.{
  Round, send_arp_pack, build_arp_eth_hdr, build_arp_hdr, get_mac_addr_from_arp, recv_arp_pack,
  arp_pack, is_arp_packet, sender_mac, max_arp_request_times, max_arp_pack_len,
}
use linux_interface_test.Arp.Replies.{AllFrames, is_reply, first_reply, recv_arp_pack-first_reply}
use linux_interface_test.Arp.Rounds.{
  is_some, arrived, has_reply, Among, get_mac_addr_from_arp-answers, get_mac_addr_from_arp-source,
}
use linux_interface_test.Arp.Tagged.{is_arp_packet-arp_pack}

abbrev host_mac : List ℕ
host_mac = 2 ∷ 0 ∷ 0 ∷ 0 ∷ 0 ∷ 1 ∷ []

abbrev peer_mac : List ℕ
peer_mac = 2 ∷ 0 ∷ 0 ∷ 0 ∷ 0 ∷ 9 ∷ []

abbrev host_ip : List ℕ
host_ip = 192 ∷ 168 ∷ 1 ∷ 1 ∷ []

abbrev peer_ip : List ℕ
peer_ip = 192 ∷ 168 ∷ 1 ∷ 9 ∷ []

-- The peer's answer, and the answer of another host.
abbrev answer : List ℕ → List ℕ → List ℕ
answer mac ip =
    host_mac
    ++ (mac ++ (8 ∷ 6 ∷ 0 ∷ 1 ∷ 8 ∷ 0 ∷ 6 ∷ 4 ∷ 0 ∷ 2 ∷ (mac ++ (ip ++ (host_mac ++ host_ip)))))

abbrev peer_answer : List ℕ
peer_answer = answer peer_mac peer_ip

abbrev other_answer : List ℕ
other_answer = answer (2 ∷ 0 ∷ 0 ∷ 0 ∷ 0 ∷ 5 ∷ []) (192 ∷ 168 ∷ 1 ∷ 5 ∷ [])

abbrev test_frames : List (List ℕ)
test_frames = other_answer ∷ peer_answer ∷ []

test_frames-AllFrames : AllFrames test_frames
test_frames-AllFrames = ground arith

-- Round 0 sends nothing, the others send all of the 46 bytes; the frames come before round 2.
abbrev test_rounds : ℕ → Round
test_rounds zero = record { send_len = pos 0; stack = []; arrivals = []; system_ok = true }
test_rounds (suc zero) = record { send_len = pos 46; stack = []; arrivals = []; system_ok = true }
test_rounds (suc (suc zero)) = record {
  send_len = pos 46;
  stack = [];
  arrivals = test_frames;
  system_ok = true;
}
test_rounds (suc (suc (suc k))) = record {
  send_len = pos 46;
  stack = [];
  arrivals = [];
  system_ok = true;
}

test_rounds-AllFrames : (k : ℕ) → AllFrames ((test_rounds k).arrivals)
test_rounds-AllFrames zero = tt
test_rounds-AllFrames (suc zero) = tt
test_rounds-AllFrames (suc (suc zero)) = test_frames-AllFrames
test_rounds-AllFrames (suc (suc (suc k))) = tt

test_rounds_ok : (k : ℕ) → (test_rounds k).system_ok ≡ true
test_rounds_ok zero = refl
test_rounds_ok (suc zero) = refl
test_rounds_ok (suc (suc zero)) = refl
test_rounds_ok (suc (suc (suc k))) = refl

found_in_test :
    get_mac_addr_from_arp little true true host_mac host_ip peer_ip 200 test_rounds ≡ some peer_mac
unfolding get_mac_addr_from_arp arp_pack build_arp_eth_hdr build_arp_hdr
found_in_test = refl

test_sent : send_arp_pack little host_mac host_ip peer_ip 200 (pos 46) ≡ true
unfolding send_arp_pack arp_pack build_arp_eth_hdr build_arp_hdr
test_sent = refl

test_has : has_reply peer_ip (arrived test_rounds 0 2) ≡ true
unfolding has_reply arrived
test_has = refl

recv_arp_pack-first_reply_example :
    recv_arp_pack little peer_ip [] test_frames ≡ first_reply peer_ip test_frames
recv_arp_pack-first_reply_example =
    recv_arp_pack-first_reply little peer_ip [] test_frames test_frames-AllFrames

get_mac_addr_from_arp-answers_example :
    is_some (get_mac_addr_from_arp little true true host_mac host_ip peer_ip 200 test_rounds) ≡ true
get_mac_addr_from_arp-answers_example =
    get_mac_addr_from_arp-answers little host_mac host_ip peer_ip 200 test_rounds 2 (omega arith)
      test_rounds-AllFrames test_sent test_rounds_ok test_has

get_mac_addr_from_arp-source_example :
    (k : ℕ) × (k < max_arp_request_times)
    × (f : List ℕ) × Among f (arrived test_rounds 0 k)
    × (is_reply peer_ip f ≡ true)
    × (sender_mac f ≡ peer_mac)
get_mac_addr_from_arp-source_example =
    get_mac_addr_from_arp-source little true true host_mac host_ip peer_ip 200 test_rounds peer_mac
      test_rounds-AllFrames found_in_test

is_arp_packet-arp_pack_example :
    (length (arp_pack big host_mac host_ip peer_ip 200)
      ≡ (if 200 == 0 then 42 else max_arp_pack_len))
    × (is_arp_packet big (arp_pack big host_mac host_ip peer_ip 200) ≡ (200 == 0))
is_arp_packet-arp_pack_example =
    is_arp_packet-arp_pack big host_mac host_ip peer_ip 200 refl refl refl
