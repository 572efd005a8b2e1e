-- ===== src/RawDump/Failure.antt =====
-- A failed `recv`: its -1 becomes a large unsigned length, and the last frame is handled again.
use linux_interface_test.Base.{
  take, ℕ, ◌-◌, ◌^◌, ◌%◌, ◌<◌, ◌≡◌, arith, List, [], ◌∷◌, none, some, length, ◌∙◌, Endian, ℤ,
}
use linux_interface_test.RawDump.Packet.{PacketParseResult, FilterArgs, parse_packet_hdr}
use linux_interface_test.RawDump.Loop.{
  Token, Event, shown, dumped, frame, failed, recv_into, recv_buf_size, DumpState, recv_packet,
  dump_buffer, show_parse_result, handle_parsed,
}
use linux_interface_test.RawDump.Text.{dump_buffer_lem}

-- Parsing the same frame again changes nothing.
pub parse_packet_hdr_twice :
    (e : Endian) (buf : List ℕ) (r : PacketParseResult)
    → parse_packet_hdr e buf (parse_packet_hdr e buf r).0 ≡ parse_packet_hdr e buf r
unfolding parse_packet_hdr
parse_packet_hdr_twice e buf r = ground arith

module _ (f : FilterArgs) (buf : List ℕ) (len len' : ℕ) (r q : PacketParseResult) (ret : ℤ)
    (st : DumpState) where
  -- A handled packet leaves the buffer and the result of the parse.
  handle_parsed-state :
      (events : List Event)
      → handle_parsed f buf len r ret ≡ some (st, events)
      → st ≡ record { recv_buf = buf; result = r }
  unfolding handle_parsed
  handle_parsed-state events h = ground arith

  handle_parsed-shown :
      handle_parsed f buf len r ret ≡ some (st, shown q ∷ [])
      → handle_parsed f buf len' r ret ≡ some (st, shown q ∷ [])
  unfolding handle_parsed show_parse_result
  handle_parsed-shown h = ground arith

  handle_parsed-dumped :
      (ts : List Token)
      → dump_buffer buf len' ≡ none
      → handle_parsed f buf len r ret ≡ some (st, shown q ∷ dumped ts ∷ [])
      → handle_parsed f buf len' r ret ≡ none
  unfolding handle_parsed show_parse_result
  handle_parsed-dumped ts over h = ground arith

module _ (e : Endian) (f : FilterArgs) (bs : List ℕ) (st st' : DumpState) where
  abbrev buf : List ℕ
  buf = recv_into st.recv_buf (frame bs)

  -- The round that handled a frame, as one call.
  handled :
      (ev : Event) (more : List Event)
      → recv_packet e f (frame bs) st ≡ some (st', ev ∷ more)
      → handle_parsed f buf
          (length (take recv_buf_size bs) % 2 ^ 32)
          (parse_packet_hdr e buf st.result).0
          (parse_packet_hdr e buf st.result).1
        ≡ some (st', ev ∷ more)
  unfolding recv_packet
  handled ev more h = ground arith

  -- The next round, if its `recv` fails, is the same call with the length 2^32 - 1.
  failed_again :
      st' ≡ record { recv_buf = buf; result = (parse_packet_hdr e buf st.result).0 }
      → recv_packet e f failed st'
        ≡ handle_parsed f buf
            (2 ^ 32 - 1)
            (parse_packet_hdr e buf st.result).0
            (parse_packet_hdr e buf st.result).1
  unfolding recv_packet
  failed_again h = rw (h, parse_packet_hdr_twice e buf st.result)

module _ (e : Endian) (f : FilterArgs) (bs : List ℕ) (st st' : DumpState)
    (r : PacketParseResult) where
  -- If the last round showed a packet, a round whose `recv` fails shows the same packet once more.
  pub recv_failed_repeats :
      recv_packet e f (frame bs) st ≡ some (st', shown r ∷ [])
      → recv_packet e f failed st' ≡ some (st', shown r ∷ [])
  recv_failed_repeats h =
      let once = handled e f bs st st' (shown r) [] h in
      failed_again e f bs st st' (handle_parsed-state f _ _ 0 _ r _ st' _ once)
      ∙ handle_parsed-shown f _ _ (2 ^ 32 - 1) _ r _ st' once

  -- If the last round dumped a packet with a wrong checksum, a round whose `recv` fails dumps
  -- 2^32 - 1 bytes and reads past the end of the buffer.
  pub recv_failed_faults :
      (ts : List Token)
      → length (recv_into st.recv_buf (frame bs)) < 2 ^ 32 - 1
      → recv_packet e f (frame bs) st ≡ some (st', shown r ∷ dumped ts ∷ [])
      → recv_packet e f failed st' ≡ none
  recv_failed_faults ts small h =
      let buf = recv_into st.recv_buf (frame bs) in
      let once = handled e f bs st st' (shown r) (dumped ts ∷ []) h in
      failed_again e f bs st st' (handle_parsed-state f _ _ 0 _ r _ st' _ once)
      ∙ handle_parsed-dumped f _ _ (2 ^ 32 - 1) _ r _ st' ts
          ((dump_buffer_lem buf (2 ^ 32 - 1)).1 small) once
