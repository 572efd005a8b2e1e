-- ===== src/RawSend/Loops.antt =====
-- src/socketRaw/rawSocketUdpSendTest.cpp: `SendUdpPacketLoops`, on the block that `malloc` returned and with
-- what `sendto` returns as a parameter.
use linux_interface_test.Base.{
  ◌^◌, ℕ, zero, suc, ◌+◌, ◌-◌, ◌%◌, ◌==◌, ltb, u16, u32, ◌||◌, Bool, true, false, Option, none,
  some, List, [], ◌∷◌, write_bytes, ◌>>=◌, Endian, store16, store32, ntohl,
}
use linux_interface_test.Checksum.{Ipv4}
use linux_interface_test.RawDump.Packet.{Mac}
use linux_interface_test.RawSend.{build_eth_hdr, build_ipv4_hdr, build_udp_hdr}

-- The constants of the two ends.
pub record Link : Type 0 where
  pub local_mac : Mac
  pub remot_mac : Mac
  pub local_ip : Ipv4
  pub remot_ip : Ipv4
  pub local_port : ℕ
  pub remot_port : ℕ

-- The bytes of the padding from `idx` on.
unfoldable pub padding : ℕ → ℕ → List ℕ
padding idx zero = []
padding idx (suc left) = (b'a' + idx % 26) ∷ padding (idx + 1) left

-- What is stored before the loop: the padding, the identity of the thread, and the Ethernet header.
unfoldable pub set_header : Endian → Link → ℕ → ℕ → List ℕ → Option (List ℕ)
unfolding padding
set_header e l tid payload_len pack_buf = do
  padded ← write_bytes pack_buf 48 (padding 0 (payload_len - 6))
  with_tid ← write_bytes padded 42 (store16 e tid)
  write_bytes with_tid 0 (build_eth_hdr e l.local_mac l.remot_mac false).0

-- What one round stores before `sendto`, and the next `gIpId`.
unfoldable pub fill_round : Endian → Link → ℕ → ℕ → ℕ → List ℕ → Option (List ℕ × ℕ)
fill_round e l payload_len sno ip_id pack_buf = do
  let ip = build_ipv4_hdr e ip_id l.local_ip l.remot_ip (u16 (payload_len + 8))
  with_sno ← write_bytes pack_buf 44 (store32 e (ntohl e sno))
  with_ip ← write_bytes with_sno 14 ip.0
  with_udp ← write_bytes with_ip 34 (build_udp_hdr e l.local_port l.remot_port (u16 payload_len))
  some (with_udp, ip.1)

-- The loop, with whether each `sendto` succeeds: the packets that were sent, and `txPacks`. It stops where
-- the results stop. An overflow of `txPacks`, an int, is none.
unfoldable pub send_packets :
    Endian → Link → ℕ → ℕ → List Bool → ℕ → ℕ → ℕ → List ℕ → Option (List (List ℕ) × ℕ)
send_packets e l payload_len packet_num [] sno ip_id tx_packs pack_buf = some ([], tx_packs)
send_packets e l payload_len packet_num (ok ∷ oks) sno ip_id tx_packs pack_buf =
    elim (packet_num == 0 || ltb sno packet_num) [
      | false ↦ some ([], tx_packs)
      | true ↦ elim (fill_round e l payload_len sno ip_id pack_buf) [
        | none ↦ none
        | some filled ↦ elim ok [
          | false ↦ some ([], tx_packs)
          | true ↦ elim (ltb (tx_packs + 1) (2 ^ 31)) [
            | false ↦ none
            | true ↦
                elim (send_packets e l payload_len packet_num oks (u32 (sno + 1)) filled.1
                  (tx_packs + 1) filled.0) [
                    | none ↦ none
                    | some more ↦ some (filled.0 ∷ more.0, more.1)
                  ]
          ]
        ]
      ]
    ]

-- `SendUdpPacketLoops` of a process that sends for the first time, on a block of 42 bytes more than the payload.
unfoldable pub send_udp_packet_loops :
    Endian → Link → ℕ → ℕ → ℕ → List Bool → ℕ → List ℕ → Option (List (List ℕ) × ℕ)
unfolding set_header send_packets fill_round
send_udp_packet_loops e l tid packet_num payload_len oks ip_id pack_buf = do
  prepared ← set_header e l tid payload_len pack_buf
  send_packets e l payload_len packet_num oks 0 ip_id 0 prepared
