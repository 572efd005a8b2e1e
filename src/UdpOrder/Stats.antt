-- ===== src/UdpOrder/Stats.antt =====
-- The statistics structs and the KPI functions: two cells for the current period, of which one is
-- counted into while the other is read.
use linux_interface_test.Base.{Two, cell, put, ℕ, ◌+◌, u32, u64}

-- `struct RxAllStatistics`
pub record RxAllStatistics : Type 0 where
  pub rx_all_packet : ℕ
  pub rx_all_byte : ℕ
  pub rx_all_error : ℕ

-- `struct RxAllStatisticsPer`
pub record RxAllStatisticsPer : Type 0 where
  pub rx_all_packet_per : ℕ
  pub rx_all_byte_per : ℕ
  pub rx_all_error_per : ℕ

-- `struct RxThdStatistics`
pub record RxThdStatistics : Type 0 where
  pub expect_sno : ℕ
  pub rx_packet : ℕ
  pub rx_byte : ℕ
  pub rx_error : ℕ

-- The globals that both threads of the receiver use. `cur_per` is the cell that `gpRxAllDataPer`
-- points to.
pub record RxKpi : Type 0 where
  pub all : RxAllStatistics
  pub per : Two RxAllStatisticsPer
  pub data_per_idx : ℕ
  pub cur_per : ℕ

-- `gDataPerIdxChange`
abbrev pub data_per_idx_change : Two ℕ
data_per_idx_change = record { first = 1; second = 0 }

abbrev pub ger_cur_data_per_idx : RxKpi → ℕ
ger_cur_data_per_idx k = k.data_per_idx

abbrev pub ger_bak_data_per_idx : RxKpi → ℕ
ger_bak_data_per_idx k = cell data_per_idx_change k.data_per_idx

-- `bzero`
abbrev pub zero_per : RxAllStatisticsPer
zero_per = record { rx_all_packet_per = 0; rx_all_byte_per = 0; rx_all_error_per = 0 }

unfoldable pub update_rx_data_per : RxKpi → RxKpi
update_rx_data_per k =
    let bak = ger_bak_data_per_idx k in
    record k { per = put k.per bak zero_per; data_per_idx = bak; cur_per = bak }

-- The cell that `gpRxAllDataPer` points to.
abbrev pub current : RxKpi → RxAllStatisticsPer
current k = cell k.per k.cur_per

-- `++gpRxAllDataPer->rxAllPacketPer; gpRxAllDataPer->rxAllBytePer += recvLen;`
unfoldable pub count_packet : ℕ → RxKpi → RxKpi
count_packet len k = record k {
  per = put k.per k.cur_per (record (current k) {
    rx_all_packet_per = u64 ((current k).rx_all_packet_per + 1);
    rx_all_byte_per = u64 ((current k).rx_all_byte_per + len);
  });
}

-- `++gpRxAllDataPer->rxAllErrorPer`
unfoldable pub count_error : RxKpi → RxKpi
count_error k = record k {
  per =
      put k.per k.cur_per
        (record (current k) { rx_all_error_per = u32 ((current k).rx_all_error_per + 1) });
}

-- A round of `ThreadRecvCount` up to its first `sleep`: the cell that it will read, and the swap.
unfoldable pub begin_period : RxKpi → ℕ × RxKpi
begin_period k = (ger_cur_data_per_idx k, update_rx_data_per k)

-- The rest of the round: the saved cell is added to the totals.
unfoldable pub end_period : ℕ → RxKpi → RxKpi
end_period saved k =
    let c = cell k.per saved in
    record k {
      all = record {
        rx_all_packet = u64 (k.all.rx_all_packet + c.rx_all_packet_per);
        rx_all_byte = u64 (k.all.rx_all_byte + c.rx_all_byte_per);
        rx_all_error = u32 (k.all.rx_all_error + c.rx_all_error_per);
      };
    }
