-- ===== src/RawSend/Shown.antt =====
-- The loop of the dump on the frames of `SendUdpPacketLoops`.
use linux_interface_test.RawDump.Parse.{filter_packet_iff}
use linux_interface_test.Base.{
  sym, take, take-all, length-take, Bool-cases, inl, inr, false, ◌⊎◌, ◌↔◌, ◌≤◌, ◌%◌, u16, replicate,
  ℕ, zero, suc, ◌+◌, ◌-◌, ◌%◌, ◌^◌, ltb, lt→ltb, subst, ◌≡◌, ◌≤◌, ◌<◌, refl, ap, ◌∙◌, arith, Bool,
  true, some, List, [], ◌∷◌, ◌++◌, length, drop, Endian, little, big, store16, store32, ntohl, pos,
  map,
}
use linux_interface_test.Checksum.{Ipv4}
use linux_interface_test.RawDump.Packet.{
  Mac, PacketParseResult, parse_packet_hdr, FilterArgs, filter_packet,
}
use linux_interface_test.RawDump.Loop.{
  recv_buf_size, Recv, Event, shown, frame, DumpState, recv_packet, recv_packets, handle_parsed,
  show_parse_result,
}
use linux_interface_test.RawSend.{build_eth_hdr, build_ipv4_hdr, build_udp_hdr}
use linux_interface_test.RawDump.Loop.{recv_into, dumped}
use linux_interface_test.RawSend.RoundTrip.{udp_frame, IsSent, parse_packet_hdr-udp_frame}
use linux_interface_test.RawSend.Loops.{Link, padding, send_udp_packet_loops}
use linux_interface_test.RawSend.Stores.{packet_of}
use linux_interface_test.RawSend.Packets.{packets, send_udp_packet_loops-packets}
use linux_interface_test.RawSend.Numbered.{IsLink, packet_of-udp_frame, payload-IsBytes}

-- The dump parses a frame the same whatever its buffer holds behind it.
parse_packet_hdr-udp_frame_behind :
    (e : Endian) (src_mac dst_mac : Mac) (ip_id : ℕ) (src dst : Ipv4) (sp dp : ℕ)
    (payload tail : List ℕ) (r : PacketParseResult)
    → parse_packet_hdr e (udp_frame e src_mac dst_mac ip_id src dst sp dp payload ++ tail) r
      ≡ parse_packet_hdr e (udp_frame e src_mac dst_mac ip_id src dst sp dp payload) r
unfolding build_eth_hdr build_ipv4_hdr build_udp_hdr parse_packet_hdr
parse_packet_hdr-udp_frame_behind little src_mac dst_mac ip_id src dst sp dp payload tail r = refl
parse_packet_hdr-udp_frame_behind big src_mac dst_mac ip_id src dst sp dp payload tail r = refl

length-udp_frame :
    (e : Endian) (src_mac dst_mac : Mac) (ip_id : ℕ) (src dst : Ipv4) (sp dp : ℕ) (payload : List ℕ)
    → length (udp_frame e src_mac dst_mac ip_id src dst sp dp payload) ≡ 42 + length payload
unfolding build_eth_hdr build_ipv4_hdr build_udp_hdr
length-udp_frame little src_mac dst_mac ip_id src dst sp dp payload = omega arith
length-udp_frame big src_mac dst_mac ip_id src dst sp dp payload = omega arith

-- A frame that parses is shown if it passes the filter, and otherwise nothing is printed.
module _ (e : Endian) (f : FilterArgs) (bs : List ℕ) (st : DumpState) (q : PacketParseResult)
    (parsed : parse_packet_hdr e (recv_into st.recv_buf (frame bs)) st.result ≡ (q, pos 0))
    (some_bytes : 0 < length bs) where
  abbrev next : DumpState
  next = record { recv_buf = recv_into st.recv_buf (frame bs); result = q }

  received : ltb 0 (length (take recv_buf_size bs) % 2 ^ 32) ≡ true
  received =
      lt→ltb 0 (length (take recv_buf_size bs) % 2 ^ 32)
        (omega (arith, some_bytes, length-take recv_buf_size bs))

  recv_packet-shown :
      filter_packet f q ≡ true
      → q.ip_chk_correct ≡ 1
      → recv_packet e f (frame bs) st ≡ some (next, shown q ∷ [])
  unfolding recv_packet handle_parsed show_parse_result
  recv_packet-shown passes right = rw (parsed, received, passes, right) refl

  recv_packet_hidden : filter_packet f q ≡ false → recv_packet e f (frame bs) st ≡ some (next, [])
  unfolding recv_packet handle_parsed show_parse_result
  recv_packet_hidden hidden = rw (parsed, received, hidden) refl

-- The filter lets the packets of the two ends through: it compares both ports with its source port.
abbrev pub IsMatch : FilterArgs → Link → Type 0
IsMatch f l =
    (l.local_port ≡ f.src_port)
    × (l.remot_port ≡ f.src_port)
    × (l.local_ip ≡ f.src_ipv4_addr)
    × (l.remot_ip ≡ f.dst_ipv4_addr)

-- The filter sees of a packet what its sender put in.
filter_packet-IsMatch :
    (f : FilterArgs) (l : Link) (n : ℕ) (q : PacketParseResult)
    → IsSent l.local_mac l.remot_mac l.local_ip l.remot_ip l.local_port l.remot_port n q
    → (filter_packet f q ≡ true) ↔ IsMatch f l
filter_packet-IsMatch f l n q sent = (
  λ passes.
      let (a, b, c, d) = (filter_packet_iff f q).0 passes in
      (
        sym sent.src_port_sent ∙ a,
        sym sent.dst_port_sent ∙ b,
        sym sent.src_sent ∙ c,
        sym sent.dst_sent ∙ d,
      ),
  λ match. (filter_packet_iff f q).1 (
    sent.src_port_sent ∙ match.0,
    sent.dst_port_sent ∙ match.1,
    sent.src_sent ∙ match.2,
    sent.dst_sent ∙ match.3,
  ),
)

-- One of the frames, in whatever buffer and after whatever was parsed before.
packet_of-parsed :
    (e : Endian) (l : Link) (tid n sno ip_id : ℕ) (st : DumpState)
    → IsLink l
    → 6 ≤ n
    → n + 42 ≤ recv_buf_size
    → (q : PacketParseResult) × (parse_packet_hdr e
          (recv_into st.recv_buf (frame (packet_of e l tid n sno ip_id)))
          st.result
        ≡ (q, pos 0))
      × (0 < length (packet_of e l tid n sno ip_id))
      × IsSent l.local_mac l.remot_mac l.local_ip l.remot_ip l.local_port l.remot_port n q
packet_of-parsed e l tid n sno ip_id st link six fits =
    let pay = store16 e tid ++ (store32 e (ntohl e sno) ++ padding 0 (n - 6)) in
    let (len, same) = packet_of-udp_frame e l tid n sno ip_id six (omega (arith, fits)) in
    let p = packet_of e l tid n sno ip_id in
    let bs =
      udp_frame e l.local_mac l.remot_mac ip_id l.local_ip l.remot_ip l.local_port l.remot_port
        pay in
    let (accepted, sent) =
      parse_packet_hdr-udp_frame e l.local_mac l.remot_mac ip_id l.local_ip l.remot_ip l.local_port
        l.remot_port pay st.result link.0 link.1 link.2 (payload-IsBytes e tid n sno)
        (omega (arith, len, fits)) in
    let q = (parse_packet_hdr e bs st.result).0 in
    let size : length p ≡ 42 + n =
      ap length same
      ∙ length-udp_frame e l.local_mac l.remot_mac ip_id l.local_ip l.remot_ip l.local_port
          l.remot_port pay
      ∙ ap (λ k. 42 + k) len in
    let whole : take recv_buf_size p ≡ bs =
      take-all recv_buf_size p (omega (arith, size, fits)) ∙ same in
    (
      q,
      ap (λ b. parse_packet_hdr e (b ++ drop (length b) st.recv_buf) st.result) whole
          ∙ parse_packet_hdr-udp_frame_behind e l.local_mac l.remot_mac ip_id l.local_ip l.remot_ip
              l.local_port l.remot_port pay (drop (length bs) st.recv_buf) st.result
          ∙ (λ i. (q, accepted i)),
      omega (arith, size),
      subst
          (λ k. IsSent l.local_mac l.remot_mac l.local_ip l.remot_ip l.local_port l.remot_port k q)
          len sent,
    )

-- What is printed is packets of the two ends, with the length of their payload and a right checksum.
abbrev pub AllShown : Link → ℕ → List Event → Type 0
AllShown l n [] = Unit {0}
AllShown l n (shown q ∷ events) =
    IsSent l.local_mac l.remot_mac l.local_ip l.remot_ip l.local_port l.remot_port n q
    × AllShown l n events
AllShown l n (dumped tokens ∷ events) = ⊥

recv_packets-cons :
    (e : Endian) (f : FilterArgs) (o : Recv) (os : List Recv) (st st' end : DumpState)
    (first events : List Event)
    → recv_packet e f o st ≡ some (st', first)
    → recv_packets e f os st' ≡ some (end, events)
    → recv_packets e f (o ∷ os) st ≡ some (end, first ++ events)
unfolding recv_packets
recv_packets-cons e f o os st st' end first events once rest = rw (recv_packets, once, rest) refl

module _ (e : Endian) (f : FilterArgs) (l : Link) (tid n : ℕ) (link : IsLink l) (six : 6 ≤ n)
    (fits : n + 42 ≤ recv_buf_size) where
  all_shown :
      (sno ip_id left : ℕ) (st : DumpState)
      → IsMatch f l
      → (end : DumpState) × (events : List Event) × (recv_packets e f
            (map frame (packets e l tid n sno ip_id left))
            st
          ≡ some (end, events))
        × (length events ≡ left)
        × AllShown l n events
  unfolding recv_packets
  all_shown sno ip_id zero st match = (st, [], refl, refl, tt)
  all_shown sno ip_id (suc left) st match =
      let p = packet_of e l tid n sno ip_id in
      let (q, parsed, some_bytes, sent) = packet_of-parsed e l tid n sno ip_id st link six fits in
      let once =
        recv_packet-shown e f p st q parsed some_bytes
          ((filter_packet-IsMatch f l n q sent).1 match) sent.right in
      let (end, events, rest, count, all) =
        all_shown (sno + 1) (u16 (ip_id + 1)) left
          (record { recv_buf = recv_into st.recv_buf (frame p); result = q }) match in
      (
        end,
        shown q ∷ events,
        recv_packets-cons e f (frame p) _ st _ end (shown q ∷ []) events once rest,
        ap suc count,
        (sent, all),
      )

  all_hidden :
      (sno ip_id left : ℕ) (st : DumpState)
      → ¬ IsMatch f l
      → (end : DumpState) × (recv_packets e f (map frame (packets e l tid n sno ip_id left)) st
          ≡ some (end, []))
  unfolding recv_packets
  all_hidden sno ip_id zero st no_match = (st, refl)
  all_hidden sno ip_id (suc left) st no_match =
      let p = packet_of e l tid n sno ip_id in
      let (q, parsed, some_bytes, sent) = packet_of-parsed e l tid n sno ip_id st link six fits in
      let hidden : filter_packet f q ≡ false = elim (Bool-cases (filter_packet f q)) [
        | inl passes ↦ absurd (no_match ((filter_packet-IsMatch f l n q sent).0 passes))
        | inr hides ↦ hides
      ] in
      let (end, rest) =
        all_hidden (sno + 1) (u16 (ip_id + 1)) left
          (record { recv_buf = recv_into st.recv_buf (frame p); result = q }) no_match in
      (
        end,
        recv_packets-cons e f (frame p) _ st _ end [] []
            (recv_packet_hidden e f p st q parsed some_bytes hidden) rest,
      )

IsMatch-cases : (f : FilterArgs) (l : Link) → IsMatch f l ⊎ (¬ IsMatch f l)
IsMatch-cases f l =
    let q : PacketParseResult = record {
      src_mac_addr = l.local_mac;
      dst_mac_addr = l.remot_mac;
      src_ipv4_addr = l.local_ip;
      dst_ipv4_addr = l.remot_ip;
      src_ipv4_addr_str = [];
      dst_ipv4_addr_str = [];
      src_port = l.local_port;
      dst_port = l.remot_port;
      data_len = 0;
      ip_chk_correct = 1;
      udp_chk_correct = 1;
    } in
    elim (Bool-cases (filter_packet f q)) [
      | inl passes ↦ inl ((filter_packet_iff f q).0 passes)
      | inr hides ↦ inr (λ match. absurd (ground (arith, (filter_packet_iff f q).1 match, hides)))
    ]

-- With a payload of 6 to 65494 bytes, a number of packets from 1 to 2^31 - 1, and as many calls of sendto
-- that succeed: the loop of the dump, with any filter and in whatever state it receives the frames that
-- SendUdpPacketLoops sends, shows just as many packets, each as the sender's with a right header
-- checksum, if both ports are the source port of the filter and the addresses are those of the
-- filter, and otherwise shows none; it dumps none in either case.
pub recv_packets-send_udp_packet_loops :
    (e : Endian) (f : FilterArgs) (l : Link) (tid packet_num n : ℕ) (more : List Bool) (ip_id : ℕ)
    (block : List ℕ) (st : DumpState)
    → IsLink l
    → 6 ≤ n
    → n + 42 ≤ recv_buf_size
    → 0 < packet_num
    → packet_num < 2 ^ 31
    → length block ≡ 42 + n
    → (frames : List (List ℕ)) × (send_udp_packet_loops e l tid packet_num n
          (replicate packet_num true ++ more)
          ip_id
          block
        ≡ some (frames, packet_num))
      × (end : DumpState) × (events : List Event) × (recv_packets e f (map frame frames) st
          ≡ some (end, events))
      × ((IsMatch f l × (length events ≡ packet_num)) ⊎ ((¬ IsMatch f l) × (events ≡ [])))
      × AllShown l n events
recv_packets-send_udp_packet_loops e f l tid packet_num n more ip_id block st link six fits
      some_packets few len =
    let sent =
      send_udp_packet_loops-packets e l tid packet_num n more ip_id block six some_packets few
        len in
    elim (IsMatch-cases f l) [
      | inl match ↦
          let (end, events, run, count, all) =
            all_shown e f l tid n link six fits 0 ip_id packet_num st match in
          (packets e l tid n 0 ip_id packet_num, sent, end, events, run, inl (match, count), all)
      | inr no_match ↦
          let (end, run) = all_hidden e f l tid n link six fits 0 ip_id packet_num st no_match in
          (packets e l tid n 0 ip_id packet_num, sent, end, [], run, inr (no_match, refl), tt)
    ]
