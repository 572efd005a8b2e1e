-- ===== src/RawSend/Numbered.antt =====
-- What `SendUdpPacketLoops` sends: frames that the dump accepts, numbered from 0.
use linux_interface_test.Base.{
  length-store16, length-store32, ℕ, zero, suc, ◌+◌, ◌-◌, ◌^◌, subst, ◌≡◌, ◌≤◌, ◌<◌, refl, sym,
  arith, u16, Bool, true, false, some, List, [], ◌∷◌, ◌++◌, length, length-append, drop, replicate,
  Endian, little, big, store16, store32, ntohl, pos,
}
use linux_interface_test.Checksum.{Ipv4}
use linux_interface_test.Checksum.Spec.{IsBytes, IsIpv4}
use linux_interface_test.RawDump.Packet.{Mac, PacketParseResult, parse_packet_hdr}
use linux_interface_test.RawSend.{build_eth_hdr, build_ipv4_hdr, build_udp_hdr}
use linux_interface_test.RawSend.RoundTrip.{udp_frame, IsMac, IsSent, parse_packet_hdr-udp_frame}
use linux_interface_test.RawSend.Loops.{Link, padding, send_udp_packet_loops}
use linux_interface_test.Checksum.Verify.{IsBytes-append}
use linux_interface_test.RawSend.Stores.{packet_of, length-padding}
use linux_interface_test.RawSend.Packets.{packets, length-packets, send_udp_packet_loops-packets}

pub packet_of-udp_frame :
    (e : Endian) (l : Link) (tid n sno ip_id : ℕ)
    → 6 ≤ n
    → n + 28 < 2 ^ 16
    → (length (store16 e tid ++ (store32 e (ntohl e sno) ++ padding 0 (n - 6))) ≡ n)
      × (packet_of e l tid n sno ip_id
          ≡ udp_frame e l.local_mac l.remot_mac ip_id l.local_ip l.remot_ip l.local_port
              l.remot_port
              (store16 e tid ++ (store32 e (ntohl e sno) ++ padding 0 (n - 6))))
packet_of-udp_frame e l tid n sno ip_id six fits =
    let pay = store16 e tid ++ (store32 e (ntohl e sno) ++ padding 0 (n - 6)) in
    let len : length pay ≡ n = omega (
      arith,
      six,
      length-append (store16 e tid) (store32 e (ntohl e sno) ++ padding 0 (n - 6)),
      length-append (store32 e (ntohl e sno)) (padding 0 (n - 6)),
      length-store16 e tid,
      length-store32 e (ntohl e sno),
      length-padding 0 (n - 6),
    ) in
    let ip_len : u16 (n + 8) ≡ length pay + 8 = omega (arith, len, fits) in
    let udp_len : u16 n ≡ length pay = omega (arith, len, fits) in
    (
      len,
      λ i.
          (build_eth_hdr e l.local_mac l.remot_mac false).0
          ++ ((build_ipv4_hdr e ip_id l.local_ip l.remot_ip (ip_len i)).0
              ++ (build_udp_hdr e l.local_port l.remot_port (udp_len i) ++ pay)),
    )

padding-IsBytes : (idx left : ℕ) → IsBytes (padding idx left)
unfolding padding
padding-IsBytes idx zero = tt
padding-IsBytes idx (suc left) = (omega arith, padding-IsBytes (idx + 1) left)

store16-IsBytes : (e : Endian) (w : ℕ) → IsBytes (store16 e w)
store16-IsBytes little w = omega arith
store16-IsBytes big w = omega arith

store32-IsBytes : (e : Endian) (w : ℕ) → IsBytes (store32 e w)
store32-IsBytes little w = omega arith
store32-IsBytes big w = omega arith

-- The constants of the two ends are bytes and ports.
abbrev pub IsLink : Link → Type 0
IsLink l =
    (IsMac l.local_mac × IsMac l.remot_mac)
    × (IsIpv4 l.local_ip × IsIpv4 l.remot_ip)
    × ((l.local_port < 2 ^ 16) × (l.remot_port < 2 ^ 16))

-- The dump reads the frame as the sender's, and behind its headers stands the payload of a number.
pub record IsNumbered (e : Endian) (l : Link) (tid n : ℕ) (r : PacketParseResult) (sno : ℕ)
    (frame : List ℕ) : Type 0 where
  pub accepted : (parse_packet_hdr e frame r).1 ≡ pos 0
  pub sent_by :
      IsSent l.local_mac l.remot_mac l.local_ip l.remot_ip l.local_port l.remot_port n
        (parse_packet_hdr e frame r).0
  pub payload : drop 42 frame ≡ store16 e tid ++ (store32 e (ntohl e sno) ++ padding 0 (n - 6))

-- Frames numbered from `sno` on.
abbrev pub AllNumbered : Endian → Link → ℕ → ℕ → PacketParseResult → ℕ → List (List ℕ) → Type 0
AllNumbered e l tid n r sno [] = Unit {0}
AllNumbered e l tid n r sno (frame ∷ frames) =
    IsNumbered e l tid n r sno frame × AllNumbered e l tid n r (sno + 1) frames

udp_frame-payload :
    (e : Endian) (src_mac dst_mac : Mac) (ip_id : ℕ) (src dst : Ipv4) (sp dp : ℕ) (payload : List ℕ)
    → drop 42 (udp_frame e src_mac dst_mac ip_id src dst sp dp payload) ≡ payload
unfolding build_eth_hdr build_ipv4_hdr build_udp_hdr
udp_frame-payload little src_mac dst_mac ip_id src dst sp dp payload = refl
udp_frame-payload big src_mac dst_mac ip_id src dst sp dp payload = refl

pub payload-IsBytes :
    (e : Endian) (tid n sno : ℕ)
    → IsBytes (store16 e tid ++ (store32 e (ntohl e sno) ++ padding 0 (n - 6)))
payload-IsBytes e tid n sno = IsBytes-append (store16 e tid) _ (store16-IsBytes e tid) (
    IsBytes-append (store32 e (ntohl e sno)) _ (store32-IsBytes e (ntohl e sno))
      (padding-IsBytes 0 (n - 6)))

packet_of-IsNumbered :
    (e : Endian) (l : Link) (tid n : ℕ) (r : PacketParseResult) (sno ip_id : ℕ)
    → IsLink l
    → 6 ≤ n
    → n + 28 < 2 ^ 16
    → IsNumbered e l tid n r sno (packet_of e l tid n sno ip_id)
packet_of-IsNumbered e l tid n r sno ip_id link six fits =
    let pay = store16 e tid ++ (store32 e (ntohl e sno) ++ padding 0 (n - 6)) in
    let (len, same) = packet_of-udp_frame e l tid n sno ip_id six fits in
    let frame =
      udp_frame e l.local_mac l.remot_mac ip_id l.local_ip l.remot_ip l.local_port l.remot_port
        pay in
    let read =
      parse_packet_hdr-udp_frame e l.local_mac l.remot_mac ip_id l.local_ip l.remot_ip l.local_port
        l.remot_port pay r link.0 link.1 link.2 (payload-IsBytes e tid n sno)
        (omega (arith, len, fits)) in
    subst (IsNumbered e l tid n r sno) (sym same) (record {
      accepted = read.0;
      sent_by =
          subst
            (λ k.
              IsSent l.local_mac l.remot_mac l.local_ip l.remot_ip l.local_port l.remot_port k
                (parse_packet_hdr e frame r).0)
            len read.1;
      payload =
          udp_frame-payload e l.local_mac l.remot_mac ip_id l.local_ip l.remot_ip l.local_port
            l.remot_port pay;
    })

packets-AllNumbered :
    (e : Endian) (l : Link) (tid n : ℕ) (r : PacketParseResult) (sno ip_id left : ℕ)
    → IsLink l
    → 6 ≤ n
    → n + 28 < 2 ^ 16
    → AllNumbered e l tid n r sno (packets e l tid n sno ip_id left)
packets-AllNumbered e l tid n r sno ip_id zero link six fits = tt
packets-AllNumbered e l tid n r sno ip_id (suc left) link six fits = (
  packet_of-IsNumbered e l tid n r sno ip_id link six fits,
  packets-AllNumbered e l tid n r (sno + 1) (u16 (ip_id + 1)) left link six fits,
)

-- With a payload of 6 bytes to 65507, a number of packets from 1 to 2^31 - 1, and as many calls of sendto that
-- succeed, whatever the calls behind them do and whatever malloc's block held, SendUdpPacketLoops
-- stores nothing outside its block and sends just as many frames, and the dump of a host of the
-- same byte order accepts each as the sender's, whatever it parsed before, with its thread, its number,
-- counted from 0, and the padding behind the headers.
pub send_udp_packet_loops-AllNumbered :
    (e : Endian) (l : Link) (tid packet_num n : ℕ) (more : List Bool) (ip_id : ℕ) (block : List ℕ)
    (r : PacketParseResult)
    → IsLink l
    → 6 ≤ n
    → n + 28 < 2 ^ 16
    → 0 < packet_num
    → packet_num < 2 ^ 31
    → length block ≡ 42 + n
    → (frames : List (List ℕ)) × (send_udp_packet_loops e l tid packet_num n
          (replicate packet_num true ++ more)
          ip_id
          block
        ≡ some (frames, packet_num))
      × (length frames ≡ packet_num)
      × AllNumbered e l tid n r 0 frames
send_udp_packet_loops-AllNumbered e l tid packet_num n more ip_id block r link six fits some_packets
      few len =
    (
      packets e l tid n 0 ip_id packet_num,
      send_udp_packet_loops-packets e l tid packet_num n more ip_id block six some_packets few len,
      length-packets e l tid n 0 ip_id packet_num,
      packets-AllNumbered e l tid n r 0 ip_id packet_num link six fits,
    )
