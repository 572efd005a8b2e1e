-- ===== src/RawDump/Loop.antt =====
-- `ShowParseResult`, `DumpBuffer` and the loop of `RecvPacket`, with what they print as a value.
use linux_interface_test.Base.{
  take, ℕ, zero, suc, ◌+◌, ◌%◌, List, [], ◌∷◌, ◌++◌, Option, none, some, ltb, ◌==◌, if◌then◌else◌,
  Endian, ℤ, pos, negsuc, eq_ℤ, to_u32, get_elem?, length, drop,
}
use linux_interface_test.RawDump.Packet.{
  PacketParseResult, FilterArgs, dump_jump_error, parse_packet_hdr, filter_packet,
}

-- One `printf` of `DumpBuffer`.
pub data Token : Type 0 where
  line_head : (idx : ℕ) → Token
  gap : Token
  hex : (b : ℕ) → Token
  end_line : Token

-- What the loop prints: the fields of a packet, or a dump.
pub data Event : Type 0 where
  shown : PacketParseResult → Event
  dumped : List Token → Event

abbrev pub separator : ℕ → List Token
separator idx = if idx % 16 == 0 then line_head idx ∷ [] else if idx % 8 == 0 then gap ∷ [] else []

-- The loop of `DumpBuffer` at `idx` with `left` rounds to go; `none` is a read past the buffer.
unfoldable pub dump_loop : List ℕ → ℕ → ℕ → Option (List Token)
dump_loop buf idx zero = some (end_line ∷ [])
dump_loop buf idx (suc left) = elim (get_elem? buf idx) [
  | none ↦ none
  | some b ↦ elim (dump_loop buf (idx + 1) left) [
    | none ↦ none
    | some rest ↦ some (separator idx ++ hex b ∷ rest)
  ]
]

unfoldable pub dump_buffer : List ℕ → ℕ → Option (List Token)
unfolding dump_loop
dump_buffer buf len = dump_loop buf 0 len

-- The return value of `ShowParseResult`, and what it prints.
unfoldable pub show_parse_result : FilterArgs → PacketParseResult → ℤ × List Event
unfolding filter_packet
show_parse_result f r =
    if filter_packet f r
    then if r.ip_chk_correct == 0 then (negsuc 0, shown r ∷ []) else (pos 0, shown r ∷ [])
    else (pos 0, [])

-- `recv` fills the front of the buffer with a frame, cut to its size, or returns -1 and leaves it.
pub data Recv : Type 0 where
  frame : List ℕ → Recv
  failed : Recv

-- `sizeof(recvBuf)`
abbrev pub recv_buf_size : ℕ
recv_buf_size = 65536

abbrev pub recv_ret : Recv → ℤ
recv_ret (frame bs) = pos (length (take recv_buf_size bs))
recv_ret failed = negsuc 0

abbrev pub recv_into : List ℕ → Recv → List ℕ
recv_into buf (frame bs) = take recv_buf_size bs ++ drop (length (take recv_buf_size bs)) buf
recv_into buf failed = buf

-- `recvBuf`, which lives as long as the loop, and `gPackParseResult`
pub record DumpState : Type 0 where
  pub recv_buf : List ℕ
  pub result : PacketParseResult

-- What follows the parse: nothing after `DUMP_JUMP_ERROR`, else the packet is shown, and the whole
-- buffer is dumped if that returns an error.
unfoldable pub handle_parsed :
    FilterArgs → List ℕ → ℕ → PacketParseResult → ℤ → Option (DumpState × List Event)
handle_parsed f buf len r ret =
    let (bad, events) = show_parse_result f r in
    if eq_ℤ dump_jump_error ret
    then some (record { recv_buf = buf; result = r }, [])
    else if eq_ℤ bad (pos 0)
    then some (record { recv_buf = buf; result = r }, events)
    else elim (dump_buffer buf len) [
      | none ↦ none
      | some tokens ↦ some (record { recv_buf = buf; result = r }, events ++ dumped tokens ∷ [])
    ]

-- One round of `RecvPacket`. `length` is unsigned, so that -1 passes the test; `none` is a fault.
unfoldable pub recv_packet :
    Endian → FilterArgs → Recv → DumpState → Option (DumpState × List Event)
recv_packet e f o st =
    let buf = recv_into st.recv_buf o in
    let len = to_u32 (recv_ret o) in
    let (r, ret) = parse_packet_hdr e buf st.result in
    if ltb 0 len
    then handle_parsed f buf len r ret
    else some (record { recv_buf = buf; result = st.result }, [])

-- `RecvPacket` over what the calls of `recv` return.
unfoldable pub recv_packets :
    Endian → FilterArgs → List Recv → DumpState → Option (DumpState × List Event)
recv_packets e f [] st = some (st, [])
recv_packets e f (o ∷ os) st = elim (recv_packet e f o st) [
  | none ↦ none
  | some (st', events) ↦ elim (recv_packets e f os st') [
    | none ↦ none
    | some (end, more) ↦ some (end, events ++ more)
  ]
]
