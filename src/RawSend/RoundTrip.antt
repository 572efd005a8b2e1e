-- ===== src/RawSend/RoundTrip.antt =====
-- What the sender builds, the dump of rawSocketDump.cpp reads back.
use linux_interface_test.Base.{
  ℕ, ◌+◌, ◌%◌, ◌^◌, ◌<◌, ◌≡◌, refl, arith, false, List, ◌++◌, length, take, drop, ap, ◌∙◌, inl, inr,
  Endian, little, big, pos,
}
use linux_interface_test.Checksum.{Ipv4, calc_ipv4_hdr_check_sum}
use linux_interface_test.Checksum.Spec.{IsByte, IsBytes, IsIpv4}
use linux_interface_test.Checksum.Verify.{calc_ipv4_hdr_check_sum_verifies}
use linux_interface_test.Checksum.Verify.{IsBytes-append}
use linux_interface_test.RawDump.Packet.{
  Mac, PacketParseResult, parse_packet_hdr, ip_header_len, eth_header_len, mac_at, ipv4_at,
}
use linux_interface_test.RawDump.Parse.{
  IsUdpFrame, parse_packet_hdr_stores, parse_packet_hdr_iff, byte_at-IsByte, udp_word,
}
use linux_interface_test.RawSend.{
  ipv4_bytes, build_eth_hdr, ipv4_front, build_ipv4_hdr, build_udp_hdr,
}

abbrev pub IsMac : Mac → Type 0
IsMac m = IsByte m.m0 × IsByte m.m1 × IsByte m.m2 × IsByte m.m3 × IsByte m.m4 × IsByte m.m5

-- The header of `BuildIpv4Hdr` has 20 bytes and its own checksum in it.
pub build_ipv4_hdr_verifies :
    (e : Endian) (ip_id : ℕ) (src dst : Ipv4) (payload_len : ℕ)
    → IsIpv4 src
    → IsIpv4 dst
    → let hdr = (build_ipv4_hdr e ip_id src dst payload_len).0 in
      (length hdr ≡ ip_header_len) × (calc_ipv4_hdr_check_sum e hdr ≡ 0)
unfolding build_ipv4_hdr
build_ipv4_hdr_verifies little ip_id src dst n a b = (
  refl,
  calc_ipv4_hdr_check_sum_verifies little (ipv4_front little ip_id n)
      (ipv4_bytes src ++ ipv4_bytes dst) refl (omega arith) (inl refl),
)
build_ipv4_hdr_verifies big ip_id src dst n a b = (
  refl,
  calc_ipv4_hdr_check_sum_verifies big (ipv4_front big ip_id n) (ipv4_bytes src ++ ipv4_bytes dst)
      refl (omega arith) (inr refl),
)

-- A whole frame around the bytes of a payload, as `SendUdpPacketLoops` lays it out.
abbrev pub udp_frame : Endian → Mac → Mac → ℕ → Ipv4 → Ipv4 → ℕ → ℕ → List ℕ → List ℕ
udp_frame e src_mac dst_mac ip_id src dst src_port dst_port payload =
    (build_eth_hdr e src_mac dst_mac false).0
    ++ ((build_ipv4_hdr e ip_id src dst (length payload + 8)).0
        ++ (build_udp_hdr e src_port dst_port (length payload) ++ payload))

eth_hdr-IsBytes :
    (e : Endian) (src dst : Mac) → IsMac src → IsMac dst → IsBytes (build_eth_hdr e src dst false).0
unfolding build_eth_hdr
eth_hdr-IsBytes little src dst a b = omega arith
eth_hdr-IsBytes big src dst a b = omega arith

ipv4_hdr-IsBytes :
    (e : Endian) (ip_id : ℕ) (src dst : Ipv4) (n : ℕ)
    → IsIpv4 src
    → IsIpv4 dst
    → IsBytes (build_ipv4_hdr e ip_id src dst n).0
unfolding build_ipv4_hdr
ipv4_hdr-IsBytes little ip_id src dst n a b = omega arith
ipv4_hdr-IsBytes big ip_id src dst n a b = omega arith

udp_hdr-IsBytes : (e : Endian) (sp dp n : ℕ) → IsBytes (build_udp_hdr e sp dp n)
unfolding build_udp_hdr
udp_hdr-IsBytes little sp dp n = omega arith
udp_hdr-IsBytes big sp dp n = omega arith

frame-IsBytes :
    (e : Endian) (src_mac dst_mac : Mac) (ip_id : ℕ) (src dst : Ipv4) (sp dp : ℕ) (payload : List ℕ)
    → IsMac src_mac × IsMac dst_mac
    → IsIpv4 src × IsIpv4 dst
    → IsBytes payload
    → IsBytes (udp_frame e src_mac dst_mac ip_id src dst sp dp payload)
frame-IsBytes e src_mac dst_mac ip_id src dst sp dp payload macs addrs bytes =
    IsBytes-append _ _ (eth_hdr-IsBytes e src_mac dst_mac macs.0 macs.1) (
      IsBytes-append _ _ (ipv4_hdr-IsBytes e ip_id src dst _ addrs.0 addrs.1)
        (IsBytes-append _ _ (udp_hdr-IsBytes e sp dp _) bytes))

frame-IsUdpFrame :
    (e : Endian) (src_mac dst_mac : Mac) (ip_id : ℕ) (src dst : Ipv4) (sp dp : ℕ) (payload : List ℕ)
    → IsUdpFrame (udp_frame e src_mac dst_mac ip_id src dst sp dp payload)
unfolding build_eth_hdr build_ipv4_hdr build_udp_hdr
frame-IsUdpFrame little src_mac dst_mac ip_id src dst sp dp payload = record {
  type_high = refl;
  type_low = refl;
  version = refl;
  proto = refl;
}
frame-IsUdpFrame big src_mac dst_mac ip_id src dst sp dp payload = record {
  type_high = refl;
  type_low = refl;
  version = refl;
  proto = refl;
}

-- The header that the parse checks is the one that was built.
frame-ip_hdr :
    (e : Endian) (src_mac dst_mac : Mac) (ip_id : ℕ) (src dst : Ipv4) (sp dp : ℕ) (payload : List ℕ)
    → take ip_header_len
        (drop eth_header_len (udp_frame e src_mac dst_mac ip_id src dst sp dp payload))
      ≡ (build_ipv4_hdr e ip_id src dst (length payload + 8)).0
unfolding build_eth_hdr build_ipv4_hdr
frame-ip_hdr little src_mac dst_mac ip_id src dst sp dp payload = refl
frame-ip_hdr big src_mac dst_mac ip_id src dst sp dp payload = refl

-- The values that went into a frame.
pub record IsSent (src_mac dst_mac : Mac) (src dst : Ipv4) (sp dp len : ℕ) (r : PacketParseResult)
    : Type 0 where
  pub src_mac_sent : r.src_mac_addr ≡ src_mac
  pub dst_mac_sent : r.dst_mac_addr ≡ dst_mac
  pub src_sent : r.src_ipv4_addr ≡ src
  pub dst_sent : r.dst_ipv4_addr ≡ dst
  pub src_port_sent : r.src_port ≡ sp
  pub dst_port_sent : r.dst_port ≡ dp
  pub len_sent : r.data_len ≡ len
  pub right : r.ip_chk_correct ≡ 1

-- The words of the UDP header in network order are the numbers that were stored.
frame-udp_words :
    (e : Endian) (src_mac dst_mac : Mac) (ip_id : ℕ) (src dst : Ipv4) (sp dp : ℕ) (payload : List ℕ)
    → let buf = udp_frame e src_mac dst_mac ip_id src dst sp dp payload in
      (udp_word buf 0 ≡ sp % 2 ^ 16)
      × (udp_word buf 2 ≡ dp % 2 ^ 16)
      × (udp_word buf 4 ≡ (8 + length payload) % 2 ^ 16)
unfolding build_eth_hdr build_ipv4_hdr build_udp_hdr
frame-udp_words little src_mac dst_mac ip_id src dst sp dp payload = omega arith
frame-udp_words big src_mac dst_mac ip_id src dst sp dp payload = omega arith

frame-addrs :
    (e : Endian) (src_mac dst_mac : Mac) (ip_id : ℕ) (src dst : Ipv4) (sp dp : ℕ) (payload : List ℕ)
    → let buf = udp_frame e src_mac dst_mac ip_id src dst sp dp payload in
      (mac_at buf 6 ≡ src_mac)
      × (mac_at buf 0 ≡ dst_mac)
      × (ipv4_at (drop eth_header_len buf) 12 ≡ src)
      × (ipv4_at (drop eth_header_len buf) 16 ≡ dst)
unfolding build_eth_hdr build_ipv4_hdr
frame-addrs little src_mac dst_mac ip_id src dst sp dp payload = (refl, refl, refl, refl)
frame-addrs big src_mac dst_mac ip_id src dst sp dp payload = (refl, refl, refl, refl)

-- A frame built from two MAC addresses, two IP addresses, two ports and a payload that fits is
-- accepted by the dump, on any host and whatever was parsed before, and these values are read back
-- with the length of the payload and a right header checksum.
pub parse_packet_hdr-udp_frame :
    (e : Endian) (src_mac dst_mac : Mac) (ip_id : ℕ) (src dst : Ipv4) (sp dp : ℕ) (payload : List ℕ)
    (r : PacketParseResult)
    → IsMac src_mac × IsMac dst_mac
    → IsIpv4 src × IsIpv4 dst
    → (sp < 2 ^ 16) × (dp < 2 ^ 16)
    → IsBytes payload
    → length payload + 28 < 2 ^ 16
    → let parsed = parse_packet_hdr e (udp_frame e src_mac dst_mac ip_id src dst sp dp payload) r in
      (parsed.1 ≡ pos 0) × IsSent src_mac dst_mac src dst sp dp (length payload) parsed.0
parse_packet_hdr-udp_frame e src_mac dst_mac ip_id src dst sp dp payload r macs addrs ports bytes
      fits =
    let buf = udp_frame e src_mac dst_mac ip_id src dst sp dp payload in
    let all = frame-IsBytes e src_mac dst_mac ip_id src dst sp dp payload macs addrs bytes in
    let udp = frame-IsUdpFrame e src_mac dst_mac ip_id src dst sp dp payload in
    let words = frame-udp_words e src_mac dst_mac ip_id src dst sp dp payload in
    let at = frame-addrs e src_mac dst_mac ip_id src dst sp dp payload in
    let sum = build_ipv4_hdr_verifies e ip_id src dst (length payload + 8) addrs.0 addrs.1 in
    let right =
      ap (calc_ipv4_hdr_check_sum e) (frame-ip_hdr e src_mac dst_mac ip_id src dst sp dp payload)
      ∙ sum.1 in
    let stored = parse_packet_hdr_stores e buf r all udp right in
    (
      (parse_packet_hdr_iff e buf r (byte_at-IsByte buf 12 all) (byte_at-IsByte buf 13 all)).0.1
          udp,
      record {
        src_mac_sent = stored.src_mac ∙ at.0;
        dst_mac_sent = stored.dst_mac ∙ at.1;
        src_sent = stored.src_ip ∙ at.2;
        dst_sent = stored.dst_ip ∙ at.3;
        src_port_sent = omega (arith, stored.src_p, words.0);
        dst_port_sent = omega (arith, stored.dst_p, words.1);
        len_sent = stored.len (omega (arith, words.2)) ∙ omega (arith, words.2);
        right = stored.flags.0;
      },
    )
