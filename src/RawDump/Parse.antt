-- ===== src/RawDump/Parse.antt =====
-- What `ParsePacketHdr` and `FilterPacket` accept, and what they leave behind.
use linux_interface_test.Base.{
  ℕ, zero, suc, ◌+◌, ◌-◌, ◌*◌, ◌/◌, ◌≡◌, ◌≢◌, ◌↔◌, arith, true, false, List, [], ◌∷◌, Endian,
  little, big, load16, ntohs, pos, take, drop, ◌⊎◌, ◌≤◌,
}
use linux_interface_test.Checksum.{Ipv4, calc_ipv4_hdr_check_sum}
use linux_interface_test.Checksum.Spec.{IsByte, IsBytes}
use linux_interface_test.RawDump.Packet.{
  PacketParseResult, FilterArgs, byte_at, mac_at, ipv4_at, parse_packet_hdr, filter_packet,
  dump_jump_error, eth_header_len, ip_header_len, ethertype_ip, udp_header_len, eq_ipv4,
}

-- An Ethernet frame that holds a UDP datagram over IPv4.
pub record IsUdpFrame (buf : List ℕ) : Type 0 where
  pub type_high : byte_at buf 12 ≡ 0x08
  pub type_low : byte_at buf 13 ≡ 0x00
  pub version : byte_at (drop eth_header_len buf) 0 / 16 ≡ 4
  pub proto : byte_at (drop eth_header_len buf) 9 ≡ 17

-- The 16-bit number in network order at an offset of the UDP header.
abbrev pub udp_word : List ℕ → ℕ → ℕ
udp_word buf i =
    let udp = drop ip_header_len (drop eth_header_len buf) in
    byte_at udp i * 256 + byte_at udp (i + 1)

-- What is stored of a UDP frame whose header checksum was found right.
pub record IsStored (buf : List ℕ) (r : PacketParseResult) : Type 0 where
  pub src_mac : r.src_mac_addr ≡ mac_at buf 6
  pub dst_mac : r.dst_mac_addr ≡ mac_at buf 0
  pub src_ip : r.src_ipv4_addr ≡ ipv4_at (drop eth_header_len buf) 12
  pub dst_ip : r.dst_ipv4_addr ≡ ipv4_at (drop eth_header_len buf) 16
  pub src_p : r.src_port ≡ udp_word buf 0
  pub dst_p : r.dst_port ≡ udp_word buf 2
  pub len : udp_header_len ≤ udp_word buf 4 → r.data_len ≡ udp_word buf 4 - udp_header_len
  pub flags : (r.ip_chk_correct ≡ 1) × (r.udp_chk_correct ≡ 1)

-- The header words are compared in memory order, so the byte order of the host does not matter.
ethertype_bytes :
    (e : Endian) (b0 b1 : ℕ)
    → IsByte b0
    → IsByte b1
    → (ntohs e ethertype_ip ≡ load16 e b0 b1) ↔ ((b0 ≡ 0x08) × (b1 ≡ 0x00))
ethertype_bytes little b0 b1 h0 h1 = grind arith
ethertype_bytes big b0 b1 h0 h1 = grind arith

module _ (e : Endian) (buf : List ℕ) (r : PacketParseResult) where
  -- `ParsePacketHdr` returns 0 on UDP frames, and on any other frame `DUMP_JUMP_ERROR`.
  pub parse_packet_hdr_iff :
      IsByte (byte_at buf 12)
      → IsByte (byte_at buf 13)
      → ((parse_packet_hdr e buf r).1 ≡ pos 0 ↔ IsUdpFrame buf)
        × (((parse_packet_hdr e buf r).1 ≡ pos 0)
            ⊎ ((parse_packet_hdr e buf r).1 ≡ dump_jump_error))
  unfolding parse_packet_hdr
  parse_packet_hdr_iff h0 h1 =
      ground (arith, ethertype_bytes e (byte_at buf 12) (byte_at buf 13) h0 h1)

  -- A frame that is not UDP over IPv4 changes none of the addresses, ports, lengths and flags of
  -- `gPackParseResult`; only the two MAC addresses may change.
  pub parse_packet_hdr_rejects :
      (parse_packet_hdr e buf r).1 ≡ dump_jump_error
      → let r' = (parse_packet_hdr e buf r).0 in
        r' ≡ record r { src_mac_addr = r'.src_mac_addr; dst_mac_addr = r'.dst_mac_addr }
  unfolding parse_packet_hdr
  parse_packet_hdr_rejects h = ground arith

ntohs-load16 :
    (e : Endian) (b0 b1 : ℕ) → IsByte b0 → IsByte b1 → ntohs e (load16 e b0 b1) ≡ b0 * 256 + b1
ntohs-load16 little b0 b1 h0 h1 = omega arith
ntohs-load16 big b0 b1 h0 h1 = omega arith

pub byte_at-IsByte : (p : List ℕ) (i : ℕ) → IsBytes p → IsByte (byte_at p i)
byte_at-IsByte [] i h = omega arith
byte_at-IsByte (b ∷ p) zero h = h.0
byte_at-IsByte (b ∷ p) (suc i) h = byte_at-IsByte p i h.1

drop-IsBytes : (n : ℕ) (p : List ℕ) → IsBytes p → IsBytes (drop n p)
drop-IsBytes zero p h = h
drop-IsBytes (suc n) [] h = tt
drop-IsBytes (suc n) (b ∷ p) h = drop-IsBytes n p h.1

module _ (e : Endian) (buf : List ℕ) (r : PacketParseResult) where
  abbrev ip : List ℕ
  ip = drop eth_header_len buf

  abbrev udp : List ℕ
  udp = drop ip_header_len ip

  udp_word_lem :
      (i : ℕ)
      → IsBytes buf
      → ntohs e (load16 e (byte_at udp i) (byte_at udp (i + 1)))
        ≡ byte_at udp i * 256 + byte_at udp (i + 1)
  udp_word_lem i h =
      let all : IsBytes udp = drop-IsBytes 20 ip (drop-IsBytes 14 buf h) in
      ntohs-load16 e _ _ (byte_at-IsByte udp i all) (byte_at-IsByte udp (i + 1) all)

  accepts :
      IsBytes buf
      → IsUdpFrame buf
      → ntohs e ethertype_ip ≡ load16 e (byte_at buf 12) (byte_at buf 13)
  accepts h frame =
      (ethertype_bytes e _ _ (byte_at-IsByte buf 12 h) (byte_at-IsByte buf 13 h)).1
        (frame.type_high, frame.type_low)

  -- A UDP frame with a right header checksum is stored whole: MAC and IP addresses, ports in host
  -- order and the payload length.
  pub parse_packet_hdr_stores :
      IsBytes buf
      → IsUdpFrame buf
      → calc_ipv4_hdr_check_sum e (take ip_header_len ip) ≡ 0
      → IsStored buf (parse_packet_hdr e buf r).0
  unfolding parse_packet_hdr
  parse_packet_hdr_stores h frame sum =
      let eth : ntohs e ethertype_ip ≡ load16 e (byte_at buf 12) (byte_at buf 13) =
        accepts h frame in
      record {
        src_mac = ground arith;
        dst_mac = ground arith;
        src_ip = ground arith;
        dst_ip = ground arith;
        src_p = ground (arith, udp_word_lem 0 h);
        dst_p = ground (arith, udp_word_lem 2 h);
        len = λ l. ground (arith, udp_word_lem 4 h);
        flags = ground arith;
      }

  -- The return value -1 of `ParseIpv4Hdr` is not `DUMP_JUMP_ERROR`: a UDP frame whose header
  -- checksum is wrong is accepted, with its own ports and with the IP addresses (and their text) of
  -- the last right packet.
  pub parse_packet_hdr_stale :
      IsBytes buf
      → IsUdpFrame buf
      → calc_ipv4_hdr_check_sum e (take ip_header_len ip) ≢ 0
      → let (r', ret) = parse_packet_hdr e buf r in
        (ret ≡ pos 0)
        × (r'.ip_chk_correct ≡ 0)
        × (r'.src_ipv4_addr ≡ r.src_ipv4_addr)
        × (r'.dst_ipv4_addr ≡ r.dst_ipv4_addr)
        × (r'.src_ipv4_addr_str ≡ r.src_ipv4_addr_str)
        × (r'.src_port ≡ byte_at udp 0 * 256 + byte_at udp 1)
        × (r'.dst_port ≡ byte_at udp 2 * 256 + byte_at udp 3)
  unfolding parse_packet_hdr
  parse_packet_hdr_stale h frame bad =
      let eth : ntohs e ethertype_ip ≡ load16 e (byte_at buf 12) (byte_at buf 13) =
        accepts h frame in
      ground (arith, udp_word_lem 0 h, udp_word_lem 2 h)

eq_ipv4_iff : (a b : Ipv4) → (eq_ipv4 a b ≡ true) ↔ (a ≡ b)
eq_ipv4_iff a b = ground arith

-- `FilterPacket` passes exactly the packets between the two addresses of the filter whose source
-- port and whose destination port are both the source port of the filter.
pub filter_packet_iff :
    (f : FilterArgs) (r : PacketParseResult)
    → (filter_packet f r ≡ true) ↔ (
        (r.src_port ≡ f.src_port)
        × (r.dst_port ≡ f.src_port)
        × (r.src_ipv4_addr ≡ f.src_ipv4_addr)
        × (r.dst_ipv4_addr ≡ f.dst_ipv4_addr))
unfolding filter_packet
filter_packet_iff f r = ground (
  arith,
  eq_ipv4_iff r.src_ipv4_addr f.src_ipv4_addr,
  eq_ipv4_iff r.dst_ipv4_addr f.dst_ipv4_addr,
)

-- No filter with two different ports passes a packet to its destination port.
pub filter_packet_dst_port :
    (f : FilterArgs) (r : PacketParseResult)
    → f.src_port ≢ f.dst_port
    → r.dst_port ≡ f.dst_port
    → filter_packet f r ≡ false
unfolding filter_packet
filter_packet_dst_port f r differ d = ground arith
