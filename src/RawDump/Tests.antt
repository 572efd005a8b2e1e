-- ===== src/RawDump/Tests.antt =====
-- The theorems of the dump at concrete frames.
use linux_interface_test.Base.{
  ℕ, ◌≡◌, ◌≢◌, ◌↔◌, ◌⊎◌, refl, arith, false, some, List, [], ◌∷◌, ◌++◌, little, pos, replicate,
  take, drop,
}
use mathlib.Core.Option
use linux_interface_test.Checksum.{Ipv4, calc_ipv4_hdr_check_sum}
use linux_interface_test.RawDump.Packet.{
  FilterArgs, Mac, PacketParseResult, parse_packet_hdr, filter_packet, default_filter,
  dump_jump_error,
}
use linux_interface_test.RawDump.Loop.{Token, line_head, hex, end_line, DumpState, dump_buffer}
use linux_interface_test.RawDump.Parse.{IsUdpFrame, parse_packet_hdr_iff, filter_packet_dst_port}

abbrev zero_addr : Ipv4
zero_addr = record { a0 = 0; a1 = 0; a2 = 0; a3 = 0 }

abbrev zero_mac : Mac
zero_mac = record { m0 = 0; m1 = 0; m2 = 0; m3 = 0; m4 = 0; m5 = 0 }

-- `gPackParseResult` before the first packet
abbrev empty_result : PacketParseResult
empty_result = record {
  src_mac_addr = zero_mac;
  dst_mac_addr = zero_mac;
  src_ipv4_addr = zero_addr;
  dst_ipv4_addr = zero_addr;
  src_ipv4_addr_str = replicate 16 0;
  dst_ipv4_addr_str = replicate 16 0;
  src_port = 0;
  dst_port = 0;
  data_len = 0;
  ip_chk_correct = 0;
  udp_chk_correct = 0;
}

abbrev eth : List ℕ
eth = 0 ∷ 0x27 ∷ 0x1d ∷ 0 ∷ 0 ∷ 0 ∷ 0 ∷ 0x27 ∷ 0x1d ∷ 0 ∷ 0 ∷ 1 ∷ 8 ∷ 0 ∷ []

-- 192.168.197.3 to 192.168.197.254, with the checksum given
abbrev ip_with : ℕ → ℕ → List ℕ
ip_with hi lo =
    0x45 ∷ 0 ∷ 0 ∷ 0x1d ∷ 0 ∷ 0 ∷ 0 ∷ 0 ∷ 0x80 ∷ 0x11 ∷ hi ∷ lo ∷ 192 ∷ 168 ∷ 197 ∷ 3 ∷ 192 ∷ 168
    ∷ 197 ∷ 254 ∷ []

-- from port 50000 to port 50000, one byte of payload
abbrev udp : List ℕ
udp = 0xc3 ∷ 0x50 ∷ 0xc3 ∷ 0x50 ∷ 0 ∷ 9 ∷ 0 ∷ 0 ∷ 0x61 ∷ []

abbrev good_frame : List ℕ
good_frame = eth ++ (ip_with 0x2e 0x7d ++ udp)

abbrev bad_frame : List ℕ
bad_frame = eth ++ (ip_with 0 0 ++ udp)

abbrev arp_frame : List ℕ
arp_frame = 1 ∷ 2 ∷ 3 ∷ 4 ∷ 5 ∷ 6 ∷ 7 ∷ 8 ∷ 9 ∷ 10 ∷ 11 ∷ 12 ∷ 8 ∷ 6 ∷ []

good-IsUdpFrame : IsUdpFrame good_frame
good-IsUdpFrame = record { type_high = refl; type_low = refl; version = refl; proto = refl }

bad-IsUdpFrame : IsUdpFrame bad_frame
bad-IsUdpFrame = record { type_high = refl; type_low = refl; version = refl; proto = refl }

good_sum : calc_ipv4_hdr_check_sum little (take 20 (drop 14 good_frame)) ≡ 0
unfolding calc_ipv4_hdr_check_sum
good_sum = refl

bad_sum : calc_ipv4_hdr_check_sum little (take 20 (drop 14 bad_frame)) ≢ 0
unfolding calc_ipv4_hdr_check_sum
bad_sum = omega arith

parse_packet_hdr_iff_example :
    ((parse_packet_hdr little good_frame empty_result).1 ≡ pos 0 ↔ IsUdpFrame good_frame)
    × (((parse_packet_hdr little good_frame empty_result).1 ≡ pos 0)
        ⊎ ((parse_packet_hdr little good_frame empty_result).1 ≡ dump_jump_error))
parse_packet_hdr_iff_example =
    parse_packet_hdr_iff little good_frame empty_result (omega arith) (omega arith)

-- The result of the last right packet.
abbrev last_result : PacketParseResult
last_result = record empty_result { src_ipv4_addr = record { a0 = 10; a1 = 0; a2 = 0; a3 = 7 } }

-- A packet to port 50302 between the two hosts of the default filter.
abbrev wanted : PacketParseResult
wanted = record empty_result {
  src_ipv4_addr = default_filter.src_ipv4_addr;
  dst_ipv4_addr = default_filter.dst_ipv4_addr;
  src_port = 50000;
  dst_port = 50302;
}

filter_packet_dst_port_example : filter_packet default_filter wanted ≡ false
filter_packet_dst_port_example = filter_packet_dst_port default_filter wanted (omega arith) refl

two_bytes : dump_buffer (7 ∷ 9 ∷ 4 ∷ []) 2 ≡ some (line_head 0 ∷ hex 7 ∷ hex 9 ∷ end_line ∷ [])
unfolding dump_buffer
two_bytes = refl

abbrev start : DumpState
start = record { recv_buf = replicate 64 0; result = empty_result }

-- The packets of the default hosts, between the two ports that the filter lets through.
abbrev after_good : DumpState × PacketParseResult
unfolding parse_packet_hdr
after_good = (
  record {
    recv_buf = good_frame ++ replicate 21 0;
    result = (parse_packet_hdr little (good_frame ++ replicate 21 0) empty_result).0;
  },
  (parse_packet_hdr little (good_frame ++ replicate 21 0) empty_result).0,
)

abbrev zero_filter : FilterArgs
zero_filter = record {
  src_ipv4_addr = zero_addr;
  dst_ipv4_addr = zero_addr;
  src_port = 50000;
  dst_port = 50302;
}

abbrev bad_buf : List ℕ
bad_buf = bad_frame ++ replicate 21 0

abbrev after_bad : DumpState
unfolding parse_packet_hdr
after_bad = record { recv_buf = bad_buf; result = (parse_packet_hdr little bad_buf empty_result).0 }

abbrev bad_dump : List Token
unfolding dump_buffer
bad_dump = Option.get_or (dump_buffer bad_buf 43) []
