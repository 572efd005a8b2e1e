-- ===== src/PackageTcp.antt =====
-- src/udp/udpPackageTcp.cpp: datagrams numbered by one byte, and the receiver that looks for gaps.
use linux_interface_test.Base.{
  ℕ, zero, suc, ◌+◌, ◌-◌, ◌^◌, ◌%◌, ◌==◌, ltb, leb, if◌then◌else◌, u8, u32, List, [], ◌∷◌, ◌++◌,
  Bool, true, false, not, get_or, set, take, drop, length, replicate,
}
pub mod Gaps
mod Tests

-- A line of `err.log`.
pub record ErrLine : Type 0 where
  pub index : ℕ
  pub old_sno : ℕ
  pub new_sno : ℕ
  pub old_cpu : ℕ
  pub cur_cpu : ℕ

-- The globals and the locals of `UdpPackageTcp_Receive`. `err_log` and `sno_log` hold the newest line
-- first; `sno_log` has the numbers and processors that are written to `sno.log`.
pub record Receiver : Type 0 where
  pub packet_recv : ℕ
  pub packet_error : ℕ
  pub old_sno : ℕ
  pub old_cpu_no : ℕ
  pub recv_buf : List ℕ
  pub index : ℕ
  pub err_log : List ErrLine
  pub sno_log : List (ℕ × ℕ)

abbrev pub start : Receiver
start = record {
  packet_recv = 0;
  packet_error = 0;
  old_sno = 255;
  old_cpu_no = 0;
  recv_buf = replicate 4096 0;
  index = 0;
  err_log = [];
  sno_log = [];
}

-- `recvfrom`: a datagram, or -1.
pub data Arrival : Type 0 where
  arrived : List ℕ → Arrival
  broken : Arrival

-- A `char` that is printed with `%u`.
abbrev pub promoted : ℕ → ℕ
promoted b = if ltb b 128 then b else b + (2 ^ 32 - 256)

-- A datagram that is not empty, cut to the 4095 bytes of the call.
unfoldable pub take_packet : List ℕ → Receiver → Receiver
take_packet bs r =
    let got = take 4095 bs in
    let buf = got ++ drop (length got) r.recv_buf in
    let new_sno = get_or buf 0 0 in
    let cpu = get_or buf 1 0 in
    let gap = not (u8 (r.old_sno + 1) == new_sno) in
    record {
      packet_recv = u32 (r.packet_recv + 1);
      packet_error = if gap then u32 (r.packet_error + 1) else r.packet_error;
      old_sno = new_sno;
      old_cpu_no = cpu;
      recv_buf = buf;
      index = u32 (r.index + 1);
      err_log =
          if gap
          then record {
            index = r.index;
            old_sno = r.old_sno;
            new_sno = new_sno;
            old_cpu = r.old_cpu_no;
            cur_cpu = promoted cpu;
          }
            ∷ r.err_log
          else r.err_log;
      sno_log = (new_sno, cpu) ∷ r.sno_log;
    }

-- The loop over what arrives; an empty datagram and -1 end it. The result says whether it has ended.
unfoldable pub receive_loop : List Arrival → Receiver → Receiver × Bool
receive_loop [] r = (r, false)
receive_loop (broken ∷ os) r = (r, true)
receive_loop (arrived [] ∷ os) r = (r, true)
receive_loop (arrived (b ∷ bs) ∷ os) r = receive_loop os (take_packet (b ∷ bs) r)

-- The two bytes that the sender stores into its buffer of 1200 bytes.
abbrev pub fill_packet : ℕ → ℕ → List ℕ → List ℕ
fill_packet idx cpu buf = set (set buf 0 (idx % 256)) 1 (u8 cpu)

-- The loop of `UdpTest_Send` from `idx` on, with `left` rounds to go: what goes out. `cpu` and `sends`
-- give the processor and whether `send` succeeds in each round; a failure ends the loop.
unfoldable pub send_rounds : (ℕ → ℕ) → (ℕ → Bool) → ℕ → ℕ → List ℕ → List (List ℕ)
send_rounds cpu sends idx zero buf = []
send_rounds cpu sends idx (suc left) buf =
    let buf' = fill_packet idx (cpu idx) buf in
    let rest = send_rounds cpu sends (idx + 1) left buf' in if sends idx then buf' ∷ rest else []

-- `UdpTest_Send`: the loop runs while `idx <= packetNum`.
unfoldable pub udp_test_send : (ℕ → ℕ) → (ℕ → Bool) → ℕ → List (List ℕ)
unfolding send_rounds
udp_test_send cpu sends packet_num = send_rounds cpu sends 0 (packet_num + 1) (replicate 1200 b'h')
