-- ===== src/RawDump/Packet.antt =====
-- The headers of a frame and `gPackParseResult`: `ParseEthHdr` to `ParsePacketHdr`, and the filter.
use linux_interface_test.Base.{
  ℕ, ◌+◌, ◌-◌, ◌/◌, ◌%◌, Bool, true, false, ◌||◌, ◌&&◌, not, List, [], ◌∷◌, ◌++◌, ltb, ◌==◌,
  if◌then◌else◌, u16, Endian, load16, ntohs, ℤ, pos, negsuc, eq_ℤ, get_or, take, drop, replicate,
}
use linux_interface_test.Checksum.{Ipv4, calc_ipv4_hdr_check_sum, ipproto_udp}

pub record Mac : Type 0 where
  pub m0 : ℕ
  pub m1 : ℕ
  pub m2 : ℕ
  pub m3 : ℕ
  pub m4 : ℕ
  pub m5 : ℕ

-- `struct PacketParseResult`
pub record PacketParseResult : Type 0 where
  pub src_mac_addr : Mac
  pub dst_mac_addr : Mac
  pub src_ipv4_addr : Ipv4
  pub dst_ipv4_addr : Ipv4
  pub src_ipv4_addr_str : List ℕ
  pub dst_ipv4_addr_str : List ℕ
  pub src_port : ℕ
  pub dst_port : ℕ
  pub data_len : ℕ
  pub ip_chk_correct : ℕ
  pub udp_chk_correct : ℕ

-- `struct FilterArgs`
pub record FilterArgs : Type 0 where
  pub src_ipv4_addr : Ipv4
  pub dst_ipv4_addr : Ipv4
  pub src_port : ℕ
  pub dst_port : ℕ

abbrev pub ethertype_ip : ℕ
ethertype_ip = 0x0800

abbrev pub ipversion : ℕ
ipversion = 4

abbrev pub eth_header_len : ℕ
eth_header_len = 14

abbrev pub ip_header_len : ℕ
ip_header_len = 20

abbrev pub udp_header_len : ℕ
udp_header_len = 8

abbrev pub ipv4_addr_str_len : ℕ
ipv4_addr_str_len = 16

abbrev pub dump_jump_error : ℤ
dump_jump_error = negsuc 9

-- The byte at an offset. The receive buffer is longer than every header that is read.
abbrev pub byte_at : List ℕ → ℕ → ℕ
byte_at p i = get_or p i 0

abbrev pub mac_at : List ℕ → ℕ → Mac
mac_at p i = record {
  m0 = byte_at p i;
  m1 = byte_at p (i + 1);
  m2 = byte_at p (i + 2);
  m3 = byte_at p (i + 3);
  m4 = byte_at p (i + 4);
  m5 = byte_at p (i + 5);
}

abbrev pub ipv4_at : List ℕ → ℕ → Ipv4
ipv4_at p i = record {
  a0 = byte_at p i;
  a1 = byte_at p (i + 1);
  a2 = byte_at p (i + 2);
  a3 = byte_at p (i + 3);
}

-- A byte in decimal, as `inet_ntoa` writes it.
unfoldable pub decimal : ℕ → List ℕ
decimal n =
    if ltb n 10
    then (b'0' + n) ∷ []
    else if ltb n 100
    then (b'0' + n / 10) ∷ (b'0' + n % 10) ∷ []
    else (b'0' + n / 100) ∷ (b'0' + n / 10 % 10) ∷ (b'0' + n % 10) ∷ []

unfoldable pub inet_ntoa : Ipv4 → List ℕ
unfolding decimal
inet_ntoa a =
    decimal a.a0 ++ (b'.' ∷ (decimal a.a1 ++ (b'.' ∷ (decimal a.a2 ++ (b'.' ∷ decimal a.a3)))))

-- `strncpy(dst, src, n)`: a shorter `src` is padded with zeros, a longer one is cut with no zero.
abbrev pub strncpy : ℕ → List ℕ → List ℕ
strncpy n src = take n (src ++ replicate n 0)

-- What each step returns: `gPackParseResult`, which it writes, and its return value.
abbrev pub Parsed : Type 0
Parsed = PacketParseResult × ℤ

unfoldable pub parse_eth_hdr : Endian → List ℕ → PacketParseResult → Parsed
parse_eth_hdr e eth r =
    if not (ntohs e ethertype_ip == load16 e (byte_at eth 12) (byte_at eth 13))
    then (r, dump_jump_error)
    else (record r { src_mac_addr = mac_at eth 6; dst_mac_addr = mac_at eth 0 }, pos 0)

-- The text form of the addresses is written with them.
abbrev pub store_addrs : List ℕ → PacketParseResult → PacketParseResult
store_addrs ip r = record r {
  ip_chk_correct = 1;
  src_ipv4_addr = ipv4_at ip 12;
  dst_ipv4_addr = ipv4_at ip 16;
  src_ipv4_addr_str = strncpy ipv4_addr_str_len (inet_ntoa (ipv4_at ip 12));
  dst_ipv4_addr_str = strncpy ipv4_addr_str_len (inet_ntoa (ipv4_at ip 16));
}

unfoldable pub parse_ipv4_hdr : Endian → List ℕ → PacketParseResult → Parsed
parse_ipv4_hdr e ip r =
    if not (ipversion == byte_at ip 0 / 16)
    then (r, dump_jump_error)
    else if not (ipproto_udp == byte_at ip 9)
    then (r, dump_jump_error)
    else if not (calc_ipv4_hdr_check_sum e (take ip_header_len ip) == 0)
    then (record r { ip_chk_correct = 0 }, negsuc 0)
    else (store_addrs ip r, pos 0)

unfoldable pub parse_udp_hdr : Endian → List ℕ → PacketParseResult → Parsed
parse_udp_hdr e udp r = (
  record r {
    udp_chk_correct = 1;
    src_port = ntohs e (load16 e (byte_at udp 0) (byte_at udp 1));
    dst_port = ntohs e (load16 e (byte_at udp 2) (byte_at udp 3));
    data_len = u16 (ntohs e (load16 e (byte_at udp 4) (byte_at udp 5)) + 65536 - udp_header_len);
  },
  pos 0,
)

-- Only `DUMP_JUMP_ERROR` stops the parse.
unfoldable pub parse_packet_hdr : Endian → List ℕ → PacketParseResult → Parsed
unfolding parse_eth_hdr parse_ipv4_hdr parse_udp_hdr
parse_packet_hdr e buf r =
    let ip = drop eth_header_len buf in
    let udp = drop ip_header_len ip in
    let (r1, eth_ret) = parse_eth_hdr e buf r in
    let (r2, ip_ret) = parse_ipv4_hdr e ip r1 in
    let (r3, udp_ret) = parse_udp_hdr e udp r2 in
    if eq_ℤ dump_jump_error eth_ret
    then (r1, dump_jump_error)
    else if eq_ℤ dump_jump_error ip_ret
    then (r2, dump_jump_error)
    else if eq_ℤ dump_jump_error udp_ret
    then (r3, dump_jump_error)
    else (r3, pos 0)

abbrev pub eq_ipv4 : Ipv4 → Ipv4 → Bool
eq_ipv4 a b = (a.a0 == b.a0) && (a.a1 == b.a1) && (a.a2 == b.a2) && (a.a3 == b.a3)

-- The second test compares the destination port with the source port of the filter.
unfoldable pub filter_packet : FilterArgs → PacketParseResult → Bool
filter_packet f r =
    if not (r.src_port == f.src_port)
      || not (r.dst_port == f.src_port)
      || not (eq_ipv4 r.src_ipv4_addr f.src_ipv4_addr)
      || not (eq_ipv4 r.dst_ipv4_addr f.dst_ipv4_addr)
    then false
    else true

-- `InitDefaultFilter`
abbrev pub default_filter : FilterArgs
default_filter = record {
  dst_ipv4_addr = record { a0 = 192; a1 = 168; a2 = 197; a3 = 254 };
  src_ipv4_addr = record { a0 = 192; a1 = 168; a2 = 197; a3 = 3 };
  src_port = 50000;
  dst_port = 50302;
}
