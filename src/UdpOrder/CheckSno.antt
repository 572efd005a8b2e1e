-- ===== src/UdpOrder/CheckSno.antt =====
-- `CheckSno` and the receive loop of `UdpOrderSendRecv_Rx`.
use linux_interface_test.Base.{
  ℕ, ◌+◌, ◌==◌, leb, if◌then◌else◌, u32, List, [], ◌∷◌, ◌++◌, Bool, true, false, not, get_or, set,
  length, take, drop, Endian, load16, load32, ntohs, ntohl,
}
use linux_interface_test.UdpOrder.Stats.{RxThdStatistics, RxKpi, count_packet, count_error}

abbrev pub max_send_thread_num : ℕ
max_send_thread_num = 18

-- A line of `errRecv.log`.
pub data LogLine : Type 0 where
  bad_tid : (tid new_sno : ℕ) → LogLine
  err : (tid recv_num expect_sno new_sno : ℕ) → LogLine
  right : (tid recv_num expect_sno new_sno : ℕ) → LogLine

-- The globals of the receiver. `log` holds the newest line first.
pub record Rx : Type 0 where
  pub kpi : RxKpi
  pub thds : List RxThdStatistics
  pub open_right_sno_record : Bool
  pub log : List LogLine

abbrev pub zero_thd : RxThdStatistics
zero_thd = record { expect_sno = 0; rx_packet = 0; rx_byte = 0; rx_error = 0 }

abbrev pub thd_at : Rx → ℕ → RxThdStatistics
thd_at s tid = get_or s.thds tid zero_thd

-- What a number does to the statistics of its own sender.
unfoldable pub next_thd : RxThdStatistics → ℕ → RxThdStatistics
next_thd thd new_sno = record thd {
  rx_error = if not (thd.expect_sno == new_sno) then u32 (thd.rx_error + 1) else thd.rx_error;
  rx_packet = u32 (thd.rx_packet + 1);
  expect_sno = u32 (new_sno + 1);
}

unfoldable pub check_sno : ℕ → ℕ → Rx → Rx
check_sno new_tid new_sno s =
    let thd = thd_at s new_tid in
    let thds = set s.thds new_tid (next_thd thd new_sno) in
    if leb max_send_thread_num new_tid
    then record s { log = bad_tid new_tid new_sno ∷ s.log }
    else if not (thd.expect_sno == new_sno)
    then record s {
      kpi = count_error s.kpi;
      thds = thds;
      log = err new_tid thd.rx_packet thd.expect_sno new_sno ∷ s.log;
    }
    else if s.open_right_sno_record
    then record s { thds = thds; log = right new_tid thd.rx_packet thd.expect_sno new_sno ∷ s.log }
    else record s { thds = thds }

-- `recvBuf` and the globals.
pub record Receiver : Type 0 where
  pub recv_buf : List ℕ
  pub rx : Rx

-- `recvfrom`: a datagram, cut to the 4095 bytes of the call, or -1.
pub data Recv : Type 0 where
  datagram : List ℕ → Recv
  failed : Recv

abbrev pub recv_size : ℕ
recv_size = 4095

-- `ntohs(*pThreadIdx)` and `ntohl(*pSno)`, from the buffer whatever the length of the datagram.
abbrev pub tid_in : Endian → List ℕ → ℕ
tid_in e buf = ntohs e (load16 e (get_or buf 0 0) (get_or buf 1 0))

abbrev pub sno_in : Endian → List ℕ → ℕ
sno_in e buf =
    ntohl e (load32 e (get_or buf 2 0) (get_or buf 3 0) (get_or buf 4 0) (get_or buf 5 0))

-- A datagram that is not empty.
unfoldable pub receive : Endian → List ℕ → Receiver → Receiver
receive e bs r =
    let got = take recv_size bs in
    let buf = got ++ drop (length got) r.recv_buf in
    record {
      recv_buf = buf;
      rx =
          check_sno (tid_in e buf) (sno_in e buf)
            (record (r.rx) { kpi = count_packet (length got) r.rx.kpi });
    }

-- The loop over what the calls of `recvfrom` return. An empty datagram and -1 both end it; the
-- second result says whether it has ended.
unfoldable pub recv_loop : Endian → List Recv → Receiver → Receiver × Bool
recv_loop e [] r = (r, false)
recv_loop e (failed ∷ os) r = (r, true)
recv_loop e (datagram [] ∷ os) r = (r, true)
recv_loop e (datagram (b ∷ bs) ∷ os) r = recv_loop e os (receive e (b ∷ bs) r)
