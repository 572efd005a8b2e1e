-- ===== src/UdpOrder/Periods.antt =====
-- The two period cells lose no packet: the receiver and the reporting thread in any order, a whole
-- packet and each half of a reporting round at a time.
use linux_interface_test.Base.{
  cell, ℕ, suc, ◌+◌, ◌≤◌, ◌≡◌, refl, arith, ◌==◌, u32, u64, List, [], ◌∷◌, Option, none, some, leb,
  Bool-cases, inl, inr,
}
use native.Mathlib.Numerals.{add-one}
use native.Mathlib.Nat.{add-zero}
use mathlib.Core.Path.{subst₂}
use linux_interface_test.UdpOrder.Stats.{
  RxAllStatisticsPer, RxKpi, count_packet, count_error, begin_period, end_period,
  update_rx_data_per, current,
}
use linux_interface_test.UdpOrder.CheckSno.{
  Rx, LogLine, err, check_sno, max_send_thread_num, thd_at,
}

-- What the cell that the reporting thread has saved still holds.
abbrev pub pending : Option ℕ → RxKpi → (RxAllStatisticsPer → ℕ) → ℕ
pending none k f = 0
pending (some i) k f = f (cell k.per i)

-- `n` packets, `b` bytes and `e` errors were counted. While a cell is saved it is not the current one.
pub record Balanced (n b e : ℕ) (saved : Option ℕ) (k : RxKpi) : Type 0 where
  pub idx : k.data_per_idx ≤ 1
  pub ptr : k.cur_per ≡ k.data_per_idx
  pub apart : (i : ℕ) → saved ≡ some i → i + k.data_per_idx ≡ 1
  pub packets :
      u64 (
        k.all.rx_all_packet
        + (current k).rx_all_packet_per
        + pending saved k (λ c. c.rx_all_packet_per))
      ≡ u64 n
  pub bytes :
      u64
        (k.all.rx_all_byte + (current k).rx_all_byte_per + pending saved k (λ c. c.rx_all_byte_per))
      ≡ u64 b
  pub errors :
      u32 (
        k.all.rx_all_error
        + (current k).rx_all_error_per
        + pending saved k (λ c. c.rx_all_error_per))
      ≡ u32 e

module _ (n b e : ℕ) (k : RxKpi) where
  count_packet-Balanced :
      (saved : Option ℕ) (len : ℕ)
      → Balanced n b e saved k
      → Balanced (n + 1) (b + len) e saved (count_packet len k)
  unfolding count_packet
  count_packet-Balanced none len v = record {
    idx = ground (arith, v.idx);
    ptr = ground arith;
    apart = λ i h. ground arith;
    packets = ground arith;
    bytes = ground arith;
    errors = ground arith;
  }
  count_packet-Balanced (some j) len v =
      let a = v.apart j refl in
      record {
        idx = ground (arith, v.idx);
        ptr = ground arith;
        apart = λ i h. ground (arith, v.apart i h);
        packets = ground arith;
        bytes = ground arith;
        errors = ground arith;
      }

  count_error-Balanced :
      (saved : Option ℕ) → Balanced n b e saved k → Balanced n b (e + 1) saved (count_error k)
  unfolding count_error
  count_error-Balanced none v = record {
    idx = ground (arith, v.idx);
    ptr = ground arith;
    apart = λ i h. ground arith;
    packets = ground arith;
    bytes = ground arith;
    errors = ground arith;
  }
  count_error-Balanced (some j) v =
      let a = v.apart j refl in
      record {
        idx = ground (arith, v.idx);
        ptr = ground arith;
        apart = λ i h. ground (arith, v.apart i h);
        packets = ground arith;
        bytes = ground arith;
        errors = ground arith;
      }

  begin_period-Balanced :
      Balanced n b e none k → let (saved, k') = begin_period k in Balanced n b e (some saved) k'
  unfolding begin_period update_rx_data_per
  begin_period-Balanced v = record {
    idx = ground (arith, v.idx);
    ptr = ground arith;
    apart = λ i h. ground (arith, v.idx);
    packets = ground (arith, v.idx);
    bytes = ground (arith, v.idx);
    errors = ground (arith, v.idx);
  }

  end_period-Balanced : (i : ℕ) → Balanced n b e (some i) k → Balanced n b e none (end_period i k)
  unfolding end_period
  end_period-Balanced i v = record {
    idx = v.idx;
    ptr = v.ptr;
    apart = λ j h. ground arith;
    packets = ground (arith, v.packets);
    bytes = ground (arith, v.bytes);
    errors = ground (arith, v.errors);
  }

-- One atomic step of the receiver or of the reporting thread.
pub data Turn : Type 0 where
  packet : (tid sno len : ℕ) → Turn
  report : Turn

-- The receiver with the cell that the reporting thread has saved, between its two halves.
pub record Watch : Type 0 where
  pub rx : Rx
  pub saved : Option ℕ

pub turn : Turn → Watch → Watch
turn (packet tid sno len) w = record w {
  rx = check_sno tid sno (record (w.rx) { kpi = count_packet len w.rx.kpi });
}
turn report w = elim w.saved [
  | none ↦
      let (saved, kpi) = begin_period w.rx.kpi in
      record { rx = record (w.rx) { kpi = kpi }; saved = some saved }
  | some i ↦ record { rx = record (w.rx) { kpi = end_period i w.rx.kpi }; saved = none }
]

pub turns : List Turn → Watch → Watch
unfolding turn
turns [] w = w
turns (t ∷ ts) w = turns ts (turn t w)

abbrev pub packets_of : List Turn → ℕ
packets_of [] = 0
packets_of (packet tid sno len ∷ ts) = suc (packets_of ts)
packets_of (report ∷ ts) = packets_of ts

abbrev pub bytes_of : List Turn → ℕ
bytes_of [] = 0
bytes_of (packet tid sno len ∷ ts) = len + bytes_of ts
bytes_of (report ∷ ts) = bytes_of ts

-- The lines `=ERR=` of the log.
abbrev pub err_lines : List LogLine → ℕ
err_lines [] = 0
err_lines (err _ _ _ _ ∷ ls) = suc (err_lines ls)
err_lines (_ ∷ ls) = err_lines ls

-- What is balanced, with the errors that the log shows.
abbrev pub IsBalanced : ℕ → ℕ → Watch → Type 0
IsBalanced n b w = Balanced n b (err_lines w.rx.log) w.saved w.rx.kpi

check_sno-Balanced :
    (n b tid sno : ℕ) (saved : Option ℕ) (s : Rx)
    → Balanced n b (err_lines s.log) saved s.kpi
    → let s' = check_sno tid sno s in Balanced n b (err_lines s'.log) saved s'.kpi
unfolding check_sno
check_sno-Balanced n b tid sno saved s v = elim (Bool-cases (leb max_send_thread_num tid)) [
  | inl out ↦ rw out v
  | inr in_range ↦ elim (Bool-cases ((thd_at s tid).expect_sno == sno)) [
    | inl same ↦ elim (Bool-cases s.open_right_sno_record) [
      | inl on ↦ rw (in_range, same, on) v
      | inr off ↦ rw (in_range, same, off) v
    ]
    | inr differs ↦
        rw (in_range, differs)
          (rw (← add-one) (count_error-Balanced n b (err_lines s.log) s.kpi saved v))
  ]
]

turn_packet-IsBalanced :
    (n b tid sno len : ℕ) (w : Watch)
    → IsBalanced n b w
    → IsBalanced (n + 1) (b + len) (turn (packet tid sno len) w)
unfolding turn
turn_packet-IsBalanced n b tid sno len w v =
    check_sno-Balanced (n + 1) (b + len) tid sno w.saved _
      (count_packet-Balanced n b (err_lines w.rx.log) w.rx.kpi w.saved len v)

turn_report-IsBalanced :
    (n b : ℕ) (rx : Rx) (saved : Option ℕ)
    → IsBalanced n b (record { rx = rx; saved = saved })
    → IsBalanced n b (turn report (record { rx = rx; saved = saved }))
unfolding turn
turn_report-IsBalanced n b rx none v = begin_period-Balanced n b (err_lines rx.log) rx.kpi v
turn_report-IsBalanced n b rx (some i) v = end_period-Balanced n b (err_lines rx.log) rx.kpi i v

-- However packets and the halves of reporting rounds follow one another from a balanced state, the totals, the current
-- cell and a cell that waits to be read add up to the packets, bytes and logged errors so far,
-- modulo 2^64, 2^64 and 2^32; the waiting cell is never the one that is counted into.
pub turns-IsBalanced :
    (n b : ℕ) (ts : List Turn) (w : Watch)
    → IsBalanced n b w
    → IsBalanced (n + packets_of ts) (b + bytes_of ts) (turns ts w)
unfolding turns
turns-IsBalanced n b [] w v = rw (add-zero, add-zero) v
turns-IsBalanced n b (packet tid sno len ∷ ts) w v =
    let p : n + 1 + packets_of ts ≡ n + suc (packets_of ts) = omega arith in
    let q : b + len + bytes_of ts ≡ b + (len + bytes_of ts) = omega arith in
    subst₂ (λ n b. IsBalanced n b (turns ts (turn (packet tid sno len) w))) p q
      (turns-IsBalanced (n + 1) (b + len) ts _ (turn_packet-IsBalanced n b tid sno len w v))
turns-IsBalanced n b (report ∷ ts) w v =
    turns-IsBalanced n b ts _ (turn_report-IsBalanced n b w.rx w.saved v)
