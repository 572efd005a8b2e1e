-- ===== src/RawSend/Tests.antt =====
-- A frame from one board to another, built and read back.
use linux_interface_test.RawSend.Loops.{Link, send_udp_packet_loops}
use linux_interface_test.RawSend.Numbered.{AllNumbered, send_udp_packet_loops-AllNumbered}
use linux_interface_test.RawDump.Packet.{default_filter}
use linux_interface_test.RawDump.Loop.{DumpState, Event, frame, recv_packets}
use linux_interface_test.RawSend.Shown.{IsMatch, AllShown, recv_packets-send_udp_packet_loops}
use linux_interface_test.Base.{
  ◌⊎◌, map, ◌++◌, replicate, true, false, some, refl, ◌≡◌, arith, ℕ, List, [], ◌∷◌, length, little,
  big,
}
use linux_interface_test.Checksum.{Ipv4, calc_ipv4_hdr_check_sum}
use linux_interface_test.RawDump.Packet.{Mac, PacketParseResult}
use linux_interface_test.RawSend.{build_ipv4_hdr}
use linux_interface_test.RawSend.RoundTrip.{build_ipv4_hdr_verifies}

abbrev local_mac : Mac
local_mac = record { m0 = 0x00; m1 = 0x27; m2 = 0x1d; m3 = 0x00; m4 = 0x00; m5 = 0x01 }

abbrev remote_mac : Mac
remote_mac = record { m0 = 0x00; m1 = 0x27; m2 = 0x1d; m3 = 0x00; m4 = 0x00; m5 = 0x00 }

abbrev local_ip : Ipv4
local_ip = record { a0 = 192; a1 = 168; a2 = 197; a3 = 1 }

abbrev remote_ip : Ipv4
remote_ip = record { a0 = 192; a1 = 168; a2 = 197; a3 = 241 }

abbrev before : PacketParseResult
before = record {
  src_mac_addr = local_mac;
  dst_mac_addr = local_mac;
  src_ipv4_addr = remote_ip;
  dst_ipv4_addr = remote_ip;
  src_ipv4_addr_str = [];
  dst_ipv4_addr_str = [];
  src_port = 1;
  dst_port = 2;
  data_len = 3;
  ip_chk_correct = 0;
  udp_chk_correct = 0;
}

build_ipv4_hdr_verifies_example :
    (length (build_ipv4_hdr big 7 local_ip remote_ip 16).0 ≡ 20)
    × (calc_ipv4_hdr_check_sum big (build_ipv4_hdr big 7 local_ip remote_ip 16).0 ≡ 0)
build_ipv4_hdr_verifies_example =
    build_ipv4_hdr_verifies big 7 local_ip remote_ip 16 (omega arith) (omega arith)

abbrev link : Link
link = record {
  local_mac = local_mac;
  remot_mac = remote_mac;
  local_ip = local_ip;
  remot_ip = remote_ip;
  local_port = 50301;
  remot_port = 50311;
}

send_udp_packet_loops-AllNumbered_example :
    (frames : List (List ℕ)) × (send_udp_packet_loops little link 5 2 8
        (replicate 2 true ++ (false ∷ []))
        7
        (replicate 50 9)
      ≡ some (frames, 2))
    × (length frames ≡ 2)
    × AllNumbered little link 5 8 before 0 frames
send_udp_packet_loops-AllNumbered_example =
    send_udp_packet_loops-AllNumbered little link 5 2 8 (false ∷ []) 7 (replicate 50 9) before
      (omega arith) (omega arith) (omega arith) (omega arith) (omega arith) refl

-- The program's own ends and the filter of the dump as it is set: none is shown.
recv_packets-send_udp_packet_loops_example :
    (frames : List (List ℕ)) × (send_udp_packet_loops little link 5 2 8
        (replicate 2 true ++ [])
        7
        (replicate 50 9)
      ≡ some (frames, 2))
    × (end : DumpState) × (events : List Event) × (recv_packets little default_filter
          (map frame frames)
          (record { recv_buf = []; result = before })
        ≡ some (end, events))
    × ((IsMatch default_filter link × (length events ≡ 2))
        ⊎ ((¬ IsMatch default_filter link) × (events ≡ [])))
    × AllShown link 8 events
recv_packets-send_udp_packet_loops_example =
    recv_packets-send_udp_packet_loops little default_filter link 5 2 8 [] 7 (replicate 50 9)
      (record { recv_buf = []; result = before }) (omega arith) (omega arith) (omega arith)
      (omega arith) (omega arith) refl
