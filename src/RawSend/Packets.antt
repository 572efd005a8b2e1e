-- ===== src/RawSend/Packets.antt =====
-- The packets of `SendUdpPacketLoops`, and where it has no room for them.
use linux_interface_test.Base.{
  lt→ltb, length-store32, ℕ, zero, suc, ◌+◌, ◌-◌, ◌^◌, ◌==◌, ltb, write_bytes-overflows, ◌≡◌, ◌≤◌,
  ◌<◌, refl, ap, arith, u16, u32, ◌||◌, Bool, true, false, none, some, List, [], ◌∷◌, ◌++◌, length,
  replicate, write_bytes, Endian, store16, store32, ntohl,
}
use linux_interface_test.Checksum.{Ipv4}
use linux_interface_test.RawSend.{build_eth_hdr, build_ipv4_hdr, build_udp_hdr}
use linux_interface_test.RawSend.Loops.{
  Link, padding, fill_round, send_packets, send_udp_packet_loops,
}
use linux_interface_test.RawSend.Stores.{
  laid, packet_of, parts, fill_round_lem, set_header_lem, length-ipv4_hdr, length-udp_hdr,
}

-- The packets from a number on, with the identifications from `ip_id` on.
abbrev pub packets : Endian → Link → ℕ → ℕ → ℕ → ℕ → ℕ → List (List ℕ)
packets e l tid n sno ip_id zero = []
packets e l tid n sno ip_id (suc left) =
    packet_of e l tid n sno ip_id ∷ packets e l tid n (sno + 1) (u16 (ip_id + 1)) left

next_id :
    (e : Endian) (ip_id : ℕ) (src dst : Ipv4) (n : ℕ)
    → (build_ipv4_hdr e ip_id src dst n).1 ≡ u16 (ip_id + 1)
unfolding build_ipv4_hdr
next_id e ip_id src dst n = refl

send_packets_lem :
    (e : Endian) (l : Link) (tid n packet_num : ℕ) (more : List Bool) (sno ip_id tx left : ℕ)
    (ip udp s : List ℕ)
    → length ip ≡ 20
    → length udp ≡ 8
    → length s ≡ 4
    → sno + left ≡ packet_num
    → 0 < packet_num
    → packet_num < 2 ^ 31
    → tx + left < 2 ^ 31
    → send_packets e l n packet_num (replicate left true ++ more) sno ip_id tx (
        laid
          (build_eth_hdr e l.local_mac l.remot_mac false).0
          ip
          udp
          (store16 e tid)
          s
          (padding 0 (n - 6)))
      ≡ some (packets e l tid n sno ip_id left, tx + left)
unfolding send_packets
send_packets_lem e l tid n packet_num [] sno ip_id tx zero ip udp s ip_20 udp_8 s_4 at some_left
      fits counts =
    ap (λ k. some ([], k)) (omega arith)
send_packets_lem e l tid n packet_num (ok ∷ more) sno ip_id tx zero ip udp s ip_20 udp_8 s_4 at
      some_left fits counts =
    let over : (packet_num == 0 || ltb sno packet_num) ≡ false = ground (arith, at, some_left) in
    rw (send_packets, over) (ap (λ k. some ([], k)) (omega arith))
send_packets_lem e l tid n packet_num more sno ip_id tx (suc left) ip udp s ip_20 udp_8 s_4 at
      some_left fits counts =
    let on : (packet_num == 0 || ltb sno packet_num) ≡ true = ground (arith, at, some_left) in
    let filled = fill_round_lem e l tid n sno ip_id ip udp s ip_20 udp_8 s_4 in
    let next : u32 (sno + 1) ≡ sno + 1 = omega (arith, at, fits) in
    let rest =
      send_packets_lem e l tid n packet_num more (sno + 1) (u16 (ip_id + 1)) (tx + 1) left
        (build_ipv4_hdr e ip_id l.local_ip l.remot_ip (u16 (n + 8))).0
        (build_udp_hdr e l.local_port l.remot_port (u16 n)) (store32 e (ntohl e sno))
        (length-ipv4_hdr e ip_id l.local_ip l.remot_ip (u16 (n + 8)))
        (length-udp_hdr e l.local_port l.remot_port (u16 n)) (length-store32 e (ntohl e sno))
        (omega (arith, at)) some_left fits (omega (arith, counts)) in
    let counted : tx + 1 + left ≡ tx + suc left = omega arith in
    rw
      (
        send_packets,
        on,
        filled,
        lt→ltb (tx + 1) (2 ^ 31) (omega (arith, counts)),
        next,
        next_id e ip_id l.local_ip l.remot_ip (u16 (n + 8)),
        rest,
        counted,
      )
      refl

pub length-packets :
    (e : Endian) (l : Link) (tid n sno ip_id left : ℕ)
    → length (packets e l tid n sno ip_id left) ≡ left
length-packets e l tid n sno ip_id zero = refl
length-packets e l tid n sno ip_id (suc left) =
    ap suc (length-packets e l tid n (sno + 1) (u16 (ip_id + 1)) left)

-- The packets that the loop sends.
pub send_udp_packet_loops-packets :
    (e : Endian) (l : Link) (tid packet_num n : ℕ) (more : List Bool) (ip_id : ℕ) (block : List ℕ)
    → 6 ≤ n
    → 0 < packet_num
    → packet_num < 2 ^ 31
    → length block ≡ 42 + n
    → send_udp_packet_loops e l tid packet_num n (replicate packet_num true ++ more) ip_id block
      ≡ some (packets e l tid n 0 ip_id packet_num, packet_num)
unfolding send_udp_packet_loops
send_udp_packet_loops-packets e l tid packet_num n more ip_id block six some_packets few len =
    let p = parts block n len six in
    let prepared = set_header_lem e l tid n block p in
    let sent =
      send_packets_lem e l tid n packet_num more 0 ip_id 0 packet_num p.ip p.udp p.s p.lengths.ip_20
        p.lengths.udp_8 p.lengths.s_4 (omega arith) some_packets few (omega (arith, few)) in
    let counted : 0 + packet_num ≡ packet_num = omega arith in rw (prepared, sent, counted) refl

-- A payload of fewer than 6 bytes has no room for the number of the packet.
pub fill_round_short :
    (e : Endian) (l : Link) (n sno ip_id : ℕ) (pack_buf : List ℕ)
    → n < 6
    → 2 ≤ n
    → length pack_buf ≡ 42 + n
    → fill_round e l n sno ip_id pack_buf ≡ none
unfolding fill_round
fill_round_short e l n sno ip_id pack_buf short two len =
    let over : write_bytes pack_buf 44 (store32 e (ntohl e sno)) ≡ none =
      write_bytes-overflows pack_buf (store32 e (ntohl e sno)) 44 (omega (arith, len, two))
        (omega (arith, len, short, length-store32 e (ntohl e sno))) in
    rw over refl
