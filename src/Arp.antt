-- ===== src/Arp.antt =====
-- src/socketRaw/rawSocketArp.cpp: ARP requests, the replies that are looked for, and the ten rounds of
-- `GetMacAddrFromArp`. What the system calls return is a parameter.
use linux_interface_test.Base.{
  ℕ, zero, suc, ◌+◌, ◌/◌, ◌%◌, ◌==◌, ◌&&◌, if◌then◌else◌, List, [], ◌∷◌, ◌++◌, Bool, true, false,
  not, Option, none, some, length, get_or, take, drop, Endian, load16, store16, ntohs, ℤ, eq_ℤ, pos,
}
pub mod Replies
pub mod Rounds
pub mod Tagged
mod Tests

abbrev pub max_arp_request_times : ℕ
max_arp_request_times = 10

abbrev pub eth_header_len : ℕ
eth_header_len = 14

abbrev pub vlan_header_len : ℕ
vlan_header_len = 4

-- `ETH_HEADER_LEN + VLAN_HEADER_LEN + 28`
abbrev pub max_arp_pack_len : ℕ
max_arp_pack_len = 46

abbrev pub ethertype_ip : ℕ
ethertype_ip = 0x0800

abbrev pub ethertype_vlan : ℕ
ethertype_vlan = 0x8100

-- `ETH_P_ARP`, `ARPHRD_ETHER`, `ARPOP_REQUEST` and `ARPOP_REPLY` of the system's headers.
abbrev pub eth_p_arp : ℕ
eth_p_arp = 0x0806

abbrev pub arphrd_ether : ℕ
arphrd_ether = 1

abbrev pub arpop_request : ℕ
arpop_request = 1

abbrev pub arpop_reply : ℕ
arpop_reply = 2

abbrev pub bcast_mac_addr : List ℕ
bcast_mac_addr = 255 ∷ 255 ∷ 255 ∷ 255 ∷ 255 ∷ 255 ∷ []

-- A 16-bit field that is stored by `htons`.
abbrev pub field16 : Endian → ℕ → List ℕ
field16 e w = store16 e (ntohs e w)

-- `BuildArpEthHdr`: the bytes that it stores.
unfoldable pub build_arp_eth_hdr : Endian → List ℕ → List ℕ → ℕ → List ℕ
build_arp_eth_hdr e src_mac_addr dst_mac_addr tci =
    if tci == 0
    then dst_mac_addr ++ (src_mac_addr ++ field16 e eth_p_arp)
    else dst_mac_addr
      ++ (src_mac_addr ++ (field16 e ethertype_vlan ++ (field16 e tci ++ field16 e eth_p_arp)))

-- `BuildArpHdr`; the target's hardware address is the broadcast address.
unfoldable pub build_arp_hdr : Endian → List ℕ → List ℕ → List ℕ → List ℕ
build_arp_hdr e src_mac_addr src_ipv4_addr dst_ipv4_addr =
    field16 e arphrd_ether
    ++ (field16 e ethertype_ip
        ++ (6
            ∷ 4
            ∷ (field16 e arpop_request
                ++ (src_mac_addr ++ (src_ipv4_addr ++ (bcast_mac_addr ++ dst_ipv4_addr))))))

-- `(DEFAULT_ARP_PCAP << 13) | (DEI_NO_DROP << 12) | vlanId`
abbrev pub tci_of : ℕ → ℕ
tci_of vlan_id =
    if vlan_id == 0 then 0 else if vlan_id / 16384 % 2 == 0 then vlan_id + 16384 else vlan_id

-- What `SendArpPack` hands to `sendto`.
unfoldable pub arp_pack : Endian → List ℕ → List ℕ → List ℕ → ℕ → List ℕ
arp_pack e src_mac_addr src_ipv4_addr dst_ipv4_addr vlan_id =
    build_arp_eth_hdr e src_mac_addr bcast_mac_addr (tci_of vlan_id)
    ++ build_arp_hdr e src_mac_addr src_ipv4_addr dst_ipv4_addr

-- `SendArpPack`, by what `sendto` returned: true is `APP_STATUS_SUCCESS`.
unfoldable pub send_arp_pack : Endian → List ℕ → List ℕ → List ℕ → ℕ → ℤ → Bool
send_arp_pack e src_mac_addr src_ipv4_addr dst_ipv4_addr vlan_id send_len =
    eq_ℤ (pos (length (arp_pack e src_mac_addr src_ipv4_addr dst_ipv4_addr vlan_id))) send_len

-- `IsArpPacket`
unfoldable pub is_arp_packet : Endian → List ℕ → Bool
is_arp_packet e buf = load16 e (get_or buf 12 0) (get_or buf 13 0) == ntohs e eth_p_arp

-- The loop over the four bytes of the address, at `idx`.
unfoldable pub same_addr : List ℕ → List ℕ → ℕ → ℕ → Bool
same_addr dst_ipv4_addr buf idx zero = true
same_addr dst_ipv4_addr buf idx (suc left) =
    let rest = same_addr dst_ipv4_addr buf (idx + 1) left in
    if get_or dst_ipv4_addr idx 0 == get_or buf (28 + idx) 0 then rest else false

-- `arp_sha`
abbrev pub sender_mac : List ℕ → List ℕ
sender_mac buf =
    get_or buf 22 0
    ∷ get_or buf 23 0
    ∷ get_or buf 24 0
    ∷ get_or buf 25 0
    ∷ get_or buf 26 0
    ∷ get_or buf 27 0
    ∷ []

-- `RecvArpPack` over the frames that wait; when none is left `recvfrom` returns -1, and an empty one
-- ends the loop too. The frames that still wait are the second result.
unfoldable pub recv_arp_pack :
    Endian → List ℕ → List ℕ → List (List ℕ) → Option (List ℕ) × List (List ℕ)
unfolding is_arp_packet same_addr
recv_arp_pack e dst_ipv4_addr buf [] = (none, [])
recv_arp_pack e dst_ipv4_addr buf ([] ∷ q) = (none, q)
recv_arp_pack e dst_ipv4_addr buf ((b ∷ bs) ∷ q) =
    let got = take max_arp_pack_len (b ∷ bs) in
    let buf' = got ++ drop (length got) buf in
    let rest = recv_arp_pack e dst_ipv4_addr buf' q in
    if not (is_arp_packet e buf')
    then rest
    else if (ntohs e arpop_reply == load16 e (get_or buf' 20 0) (get_or buf' 21 0))
        && same_addr dst_ipv4_addr buf' 0 4
    then (some (sender_mac buf'), q)
    else rest

-- A round: what `sendto` returned, the bytes of the buffer before, the frames that have come since the
-- round before, and whether the command `arp -s` succeeds.
pub record Round : Type 0 where
  pub send_len : ℤ
  pub stack : List ℕ
  pub arrivals : List (List ℕ)
  pub system_ok : Bool

-- The loop of `GetMacAddrFromArp` at a round, with `left` to go: the address, when it succeeds.
unfoldable pub request_loop :
    Endian → List ℕ → List ℕ → List ℕ → ℕ → (ℕ → Round) → ℕ → ℕ → List (List ℕ) → Option (List ℕ)
unfolding send_arp_pack recv_arp_pack
request_loop e mac ip dst_ipv4_addr vlan_id rounds loops zero q = none
request_loop e mac ip dst_ipv4_addr vlan_id rounds loops (suc left) q =
    let r = rounds loops in
    let waiting = q ++ r.arrivals in
    let found = recv_arp_pack e dst_ipv4_addr r.stack waiting in
    elim (send_arp_pack e mac ip dst_ipv4_addr vlan_id r.send_len) [
      | false ↦ request_loop e mac ip dst_ipv4_addr vlan_id rounds (loops + 1) left waiting
      | true ↦ elim found.0 [
        | none ↦ request_loop e mac ip dst_ipv4_addr vlan_id rounds (loops + 1) left found.1
        | some addr ↦ elim r.system_ok [
          | false ↦ request_loop e mac ip dst_ipv4_addr vlan_id rounds (loops + 1) left found.1
          | true ↦ some addr
        ]
      ]
    ]

-- `GetMacAddrFromArp`, with whether its socket can be made and its device exists.
unfoldable pub get_mac_addr_from_arp :
    Endian → Bool → Bool → List ℕ → List ℕ → List ℕ → ℕ → (ℕ → Round) → Option (List ℕ)
unfolding request_loop
get_mac_addr_from_arp e socket_ok ioctl_ok mac ip dst_ipv4_addr vlan_id rounds =
    if socket_ok && ioctl_ok
    then request_loop e mac ip dst_ipv4_addr vlan_id rounds 0 max_arp_request_times []
    else none
