-- ===== src/UdpOrder/Whole.antt =====
-- `UdpOrderSendRecv_Tx` from its arguments to its last datagram, on a socket that works.
use linux_interface_test.Base.{
  ℕ, zero, suc, ◌+◌, ◌^◌, ◌≤◌, ◌<◌, ◌≡◌, arith, ◌==◌, if◌then◌else◌, u16, List, [], ◌∷◌, true, some,
  length, get_or, Endian, pos,
}
use linux_interface_test.UdpOrder.SendBuf.{returns, random_number_loop}
use linux_interface_test.UdpOrder.Lengths.{AllWithin, init_random_len_buf-AllWithin}
use linux_interface_test.UdpOrder.Sender.{Sender, TxKpi}
use linux_interface_test.UdpOrder.Wire.{AllNumbered, AllFit, accepted_first, write_tid-HasTid}
use linux_interface_test.UdpOrder.Sending.{send_loop-AllNumbered, capped}
use linux_interface_test.UdpOrder.Block.{prepare_send_buf_lem}
use linux_interface_test.UdpOrder.Setup.{
  TxEnv, finished, run_sender, tx_with_socket, bind_cpus, cpu_fuel,
}

AllWithin-get_or :
    (lo hi i : ℕ) (lens : List ℕ)
    → AllWithin lo hi lens
    → i < length lens
    → (lo ≤ get_or lens i 0) × (get_or lens i 0 < hi)
AllWithin-get_or lo hi i [] h k = absurd (omega arith)
AllWithin-get_or lo hi zero (x ∷ lens) h k = (h.0, h.1)
AllWithin-get_or lo hi (suc i) (x ∷ lens) h k = AllWithin-get_or lo hi i lens h.2 (omega arith)

pub AllWithin-AllFit :
    (lo hi : ℕ) (lens : List ℕ)
    → 6 ≤ lo
    → length lens ≡ random_number_loop
    → AllWithin lo hi lens
    → AllFit hi lens
AllWithin-AllFit lo hi lens h size within i small =
    let (above, below) = AllWithin-get_or lo hi i lens within (omega (arith, size)) in
    (omega arith, omega arith)

AllFit-le : (m n : ℕ) (lens : List ℕ) → m ≤ n → AllFit m lens → AllFit n lens
AllFit-le m n lens h fits i small = let (above, below) = fits i small in (above, omega arith)

run_sender-AllNumbered :
    (e : Endian) (env : TxEnv) (kpi : TxKpi) (mask block lens : List ℕ)
    → env.send_thread_idx < 2 ^ 16
    → env.packet_num < 2 ^ 32
    → kpi.tx_all_packet < 2 ^ 64
    → 6 ≤ length block
    → AllFit (length block) lens
    → (s : Sender) × (ds : List (List ℕ)) × (run_sender e env kpi mask block lens
        ≡ finished mask s ds)
      × AllNumbered e env.send_thread_idx 0 ds
      × (length ds ≡ capped env.packet_num 0 (accepted_first env.sends))
unfolding run_sender
run_sender-AllNumbered e env kpi mask block lens tid num total room fits =
    let (buf, stored, has, same) = write_tid-HasTid e env.send_thread_idx block tid room in
    let (s, ds, run, numbered, count, _) =
      send_loop-AllNumbered e env.send_thread_idx env.packet_num (length block) lens env.sends 0
        (record { send_buf = buf; s_idx = 0; kpi = kpi }) num fits same (omega arith) has total in
    (s, ds, ground (arith, stored, run), numbered, count)

-- With twelve arguments, its signals set and its thread made, lengths from 6 (the larger from 7) to
-- 65535 that are not crossed, an index of 16 bits, a limit of 32 bits and a counter of 64 bits, memory
-- for the block, and a socket that would be made and connected, the sender would run to its end without an access
-- outside its block. What it sends carries its index and the numbers from 0 on, one datagram for each
-- accepted call before the first refusal up to the limit.
pub tx_with_socket-AllNumbered :
    (e : Endian) (fd : ℕ) (env : TxEnv) (kpi : TxKpi) (mask block : List ℕ)
    → env.argc ≡ 12
    → env.sigint_set ≡ true
    → env.sigterm_set ≡ true
    → env.thread_created ≡ true
    → env.connect_ret ≡ pos 0
    → env.malloced ≡ some block
    → length block ≡ env.max_pack_len + 1
    → 7 ≤ env.max_pack_len
    → 6 ≤ env.min_pack_len
    → env.min_pack_len ≤ env.max_pack_len
    → env.max_pack_len < 2 ^ 16
    → env.send_thread_idx < 2 ^ 16
    → env.packet_num < 2 ^ 32
    → kpi.tx_all_packet < 2 ^ 64
    → (mask' : List ℕ) × (s : Sender) × (ds : List (List ℕ)) × (tx_with_socket e
          (returns (pos fd))
          env
          kpi
          mask
        ≡ returns (finished mask' s ds))
      × AllNumbered e env.send_thread_idx 0 ds
      × (length ds ≡ capped env.packet_num 0 (accepted_first env.sends))
unfolding tx_with_socket
tx_with_socket-AllNumbered e fd env kpi mask block argc int term thread connect memory size big
      small order wide tid num total =
    let (buf, prepared, len, _, _, _) = prepare_send_buf_lem env.max_pack_len block big size in
    let lo = u16 env.min_pack_len in
    let hi = u16 env.max_pack_len in
    let (lens, inited, entries, within) =
      init_random_len_buf-AllWithin env.random lo hi (omega arith) (omega arith) in
    let mask' =
      if env.cpu_no_str == 11 then mask else bind_cpus env.online cpu_fuel env.cpu_no_str mask in
    let (s, ds, run, numbered, count) =
      run_sender-AllNumbered e env kpi mask' buf lens tid num total (omega (arith, len)) (
        AllFit-le (if lo == hi then hi + 1 else hi) (length buf) lens (ground (arith, len))
          (AllWithin-AllFit lo _ lens (omega arith) entries within)) in
    (mask', s, ds, ground (arith, prepared, inited, run), numbered, count)
