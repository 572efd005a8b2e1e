-- ===== src/RawSend.antt =====
-- src/socketRaw/rawSocketUdpSendTest.cpp: building Ethernet, IPv4 and UDP headers. A header is the
-- list of its bytes. `inet_aton` is taken as done: the addresses come as their four bytes.
pub mod RoundTrip
pub mod Loops
mod Stores
pub mod Packets
pub mod Numbered
pub mod Shown
mod Tests
use linux_interface_test.Base.{
  ℕ, ◌+◌, ◌*◌, ◌/◌, ◌%◌, Bool, List, [], ◌∷◌, ◌++◌, u16, if◌then◌else◌, Endian, store16, ntohs,
}
use linux_interface_test.Checksum.{Ipv4, calc_ipv4_hdr_check_sum, ipproto_udp}
use linux_interface_test.RawDump.Packet.{
  Mac, ethertype_ip, ipversion, eth_header_len, ip_header_len, udp_header_len,
}

abbrev pub ethertype_vlan : ℕ
ethertype_vlan = 0x8100

abbrev pub vlan_header_len : ℕ
vlan_header_len = 4

abbrev pub default_vlan_tci : ℕ
default_vlan_tci = 1

abbrev pub mac_bytes : Mac → List ℕ
mac_bytes m = m.m0 ∷ m.m1 ∷ m.m2 ∷ m.m3 ∷ m.m4 ∷ m.m5 ∷ []

abbrev pub ipv4_bytes : Ipv4 → List ℕ
ipv4_bytes a = a.a0 ∷ a.a1 ∷ a.a2 ∷ a.a3 ∷ []

-- The header that is written, and the length that is returned. The destination stands first.
unfoldable pub build_eth_hdr : Endian → Mac → Mac → Bool → List ℕ × ℕ
build_eth_hdr e src dst vlan =
    if vlan
    then (
      mac_bytes dst
          ++ (mac_bytes src
              ++ (store16 e (ntohs e ethertype_vlan)
                  ++ (store16 e (ntohs e default_vlan_tci) ++ store16 e (ntohs e ethertype_ip)))),
      eth_header_len + vlan_header_len,
    )
    else (mac_bytes dst ++ (mac_bytes src ++ store16 e (ntohs e ethertype_ip)), eth_header_len)

-- The ten bytes before `ip_sum`, and the eight after it.
abbrev pub ipv4_front : Endian → ℕ → ℕ → List ℕ
ipv4_front e ip_id payload_len =
    (ipversion * 16 + ip_header_len / 4)
    ∷ 0
    ∷ (store16 e (ntohs e (ip_header_len + payload_len))
        ++ (store16 e ip_id ++ (store16 e 0 ++ (128 ∷ 0x11 ∷ []))))

-- The header, and the next `gIpId`.
unfoldable pub build_ipv4_hdr : Endian → ℕ → Ipv4 → Ipv4 → ℕ → List ℕ × ℕ
build_ipv4_hdr e ip_id src dst payload_len =
    let front = ipv4_front e ip_id payload_len in
    let addrs = ipv4_bytes src ++ ipv4_bytes dst in
    let sum = calc_ipv4_hdr_check_sum e (front ++ (store16 e 0 ++ addrs)) in
    (front ++ (store16 e sum ++ addrs), u16 (ip_id + 1))

-- The checksum field stays 0.
unfoldable pub build_udp_hdr : Endian → ℕ → ℕ → ℕ → List ℕ
build_udp_hdr e src_port dst_port payload_len =
    store16 e (ntohs e src_port)
    ++ (store16 e (ntohs e dst_port)
        ++ (store16 e (ntohs e (udp_header_len + payload_len)) ++ store16 e 0))
