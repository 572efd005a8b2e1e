-- ===== src/Ping.antt =====
-- src/icmp/ping.cpp: echo requests with a checksum and a time, and the replies that are matched to
-- them. The checksum itself is in Checksum.
use linux_interface_test.Base.{
  ℕ, zero, suc, ◌+◌, ◌-◌, ◌*◌, ◌%◌, ◌==◌, ◌&&◌, ltb, if◌then◌else◌, u16, List, [], ◌∷◌, ◌++◌, Bool,
  true, false, Option, none, some, length, get_or, set, take, drop, Endian, load16, store16,
  write_bytes, ◌>>=◌,
}
use linux_interface_test.Checksum.{calc_check_sum}
pub mod Request
pub mod Sending
pub mod Reply
pub mod Waiting
mod Tests

abbrev pub icmp_head_len : ℕ
icmp_head_len = 8

abbrev pub icmp_echo : ℕ
icmp_echo = 8

abbrev pub icmp_echoreply : ℕ
icmp_echoreply = 0

-- `SetIcmpHead`; `now` is what `gettimeofday` stores. `none` is a store outside the packet, or the
-- overflow of the sum.
unfoldable pub set_icmp_head : Endian → List ℕ → List ℕ → ℕ → ℕ → ℕ → Option (List ℕ)
set_icmp_head e now icmp_buf data_len packet_sno pid = do
  b1 ← write_bytes icmp_buf 0 (icmp_echo ∷ 0 ∷ 0 ∷ 0 ∷ [])
  b2 ← write_bytes b1 6 (store16 e (u16 packet_sno))
  b3 ← write_bytes b2 4 (store16 e (u16 pid))
  b4 ← write_bytes b3 icmp_head_len now
  sum ← calc_check_sum e (take (icmp_head_len + data_len) b4)
  write_bytes b4 2 (store16 e sum)

-- The letters of the data, from `idx` on.
unfoldable pub fill_data : ℕ → ℕ → List ℕ → List ℕ
fill_data idx zero packet = packet
fill_data idx (suc left) packet =
    fill_data (idx + 1) left (set packet (icmp_head_len + idx) (b'a' + idx % 26))

-- The loop of `SendIcmpPacket` at `idx`: the packets that `sendto` takes. `now` and `sends` give what
-- `gettimeofday` stores and whether `sendto` succeeds in each round.
unfoldable pub send_icmp_loop :
    Endian → (ℕ → List ℕ) → (ℕ → Bool) → ℕ → ℕ → ℕ → ℕ → List ℕ → Option (List (List ℕ))
unfolding set_icmp_head
send_icmp_loop e now sends pid data_len idx zero packet = some []
send_icmp_loop e now sends pid data_len idx (suc left) packet =
    set_icmp_head e (now idx) packet data_len idx pid >>= λ packet'.
    send_icmp_loop e now sends pid data_len (idx + 1) left packet' >>= λ more.
    some (if sends idx then packet' ∷ more else more)

-- `SendIcmpPacket`, in the block that `malloc` returned.
unfoldable pub send_icmp_packet :
    Endian → (ℕ → List ℕ) → (ℕ → Bool) → ℕ → ℕ → ℕ → List ℕ → Option (List (List ℕ))
unfolding fill_data send_icmp_loop
send_icmp_packet e now sends pid packet_num data_len block =
    send_icmp_loop e now sends pid data_len 0 packet_num (fill_data 0 data_len block)

-- The line that is printed for a reply, but for the time that it took.
pub record Response : Type 0 where
  pub bytes : ℕ
  pub seq : ℕ
  pub ttl : ℕ

-- `UnpackIcmpPacket`; `none` is -1.
unfoldable pub unpack_icmp_packet : Endian → ℕ → List ℕ → ℕ → Option Response
unpack_icmp_packet e g_pid buf buf_len =
    let ip_header_len = get_or buf 0 0 % 16 * 4 in
    let byte = λ (i : ℕ). get_or buf (ip_header_len + i) 0 in
    if ltb buf_len (ip_header_len + 8)
    then none
    else if byte 0 == icmp_echoreply && load16 e (byte 4) (byte 5) == g_pid
    then some (record {
      bytes = buf_len - ip_header_len - icmp_head_len;
      seq = load16 e (byte 6) (byte 7);
      ttl = get_or buf 8 0;
    })
    else none
