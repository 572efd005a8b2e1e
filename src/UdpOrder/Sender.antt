-- ===== src/UdpOrder/Sender.antt =====
-- The sending loop of `UdpOrderSendRecv_Tx`, and the reporting thread `ThreadSendCount`.
use linux_interface_test.Base.{
  if◌then◌else◌, leb, Two, cell, put, write_bytes, ℕ, ◌+◌, ◌==◌, ◌||◌, ltb, u16, u32, u64, List, [],
  ◌∷◌, true, false, Option, none, some, length, take, Endian, store16, store32, ntohs, ntohl,
}
use linux_interface_test.UdpOrder.Stats.{data_per_idx_change}
use linux_interface_test.UdpOrder.SendBuf.{get_send_len}

-- `struct TxAllStatisticsPer`
pub record TxAllStatisticsPer : Type 0 where
  pub tx_all_packet_per : ℕ
  pub tx_all_byte_per : ℕ
  pub is_need_clear_data : ℕ

-- `gTxAllData`, `gTxAllDataPer`, `gDataPerIdx` and the cell that `gpTxAllDataPer` points to
pub record TxKpi : Type 0 where
  pub tx_all_packet : ℕ
  pub per : Two TxAllStatisticsPer
  pub data_per_idx : ℕ
  pub cur_per : ℕ

abbrev pub zero_tx_per : TxAllStatisticsPer
zero_tx_per = record { tx_all_packet_per = 0; tx_all_byte_per = 0; is_need_clear_data = 0 }

unfoldable pub update_tx_data_per : TxKpi → TxKpi
update_tx_data_per k =
    let bak = cell data_per_idx_change k.data_per_idx in
    record k { per = put k.per bak zero_tx_per; data_per_idx = bak; cur_per = bak }

-- The cell that a round of `ThreadSendCount` will print, and the swap.
unfoldable pub begin_tx_period : TxKpi → ℕ × TxKpi
begin_tx_period k = (k.data_per_idx, update_tx_data_per k)

abbrev pub tx_current : TxKpi → TxAllStatisticsPer
tx_current k = cell k.per k.cur_per

unfoldable pub count_sent : ℕ → TxKpi → TxKpi
count_sent len k = record k {
  tx_all_packet = u64 (k.tx_all_packet + 1);
  per = put k.per k.cur_per (record (tx_current k) {
    tx_all_packet_per = u64 ((tx_current k).tx_all_packet_per + 1);
    tx_all_byte_per = u64 ((tx_current k).tx_all_byte_per + len);
  });
}

-- `*pIdx = htons(gSendThreadIdx)`; the conversion of the int to uint16_t cuts it.
abbrev pub write_tid : Endian → ℕ → List ℕ → Option (List ℕ)
write_tid e tid block = write_bytes block 0 (store16 e (ntohs e (u16 tid)))

-- `*pSno = htonl(sno)`
abbrev pub write_sno : Endian → ℕ → List ℕ → Option (List ℕ)
write_sno e sno block = write_bytes block 2 (store32 e (ntohl e sno))

-- `send` takes the datagram whole, or returns -1.
pub data SendRet : Type 0 where
  accepted refused : SendRet

pub record Sender : Type 0 where
  pub send_buf : List ℕ
  pub s_idx : ℕ
  pub kpi : TxKpi

-- A round with `sno` up to its `send`: the sender after it, and the datagram; `none` is an access
-- outside the block.
unfoldable pub fill_one : Endian → List ℕ → ℕ → Sender → Option (Sender × List ℕ)
unfolding write_bytes get_send_len
fill_one e lens sno s = elim (write_sno e sno s.send_buf) [
  | none ↦ none
  | some buf ↦
      let (len, s_idx) = get_send_len lens s.s_idx in
      if leb len (length buf)
      then some (record s { send_buf = buf; s_idx = s_idx }, take len buf)
      else none
]

abbrev pub sent : List ℕ → Sender → Sender
sent datagram s = record s { kpi = count_sent (length datagram) s.kpi }

-- The loop at `sno`, over what the calls of `send` return: the datagrams that go out. A refused one
-- ends the loop, and so does the limit unless it is 0.
unfoldable pub send_loop :
    Endian → List ℕ → ℕ → List SendRet → ℕ → Sender → Option (Sender × List (List ℕ))
send_loop e lens packet_num [] sno s = some (s, [])
send_loop e lens packet_num (o ∷ os) sno s = elim (packet_num == 0 || ltb sno packet_num) [
  | false ↦ some (s, [])
  | true ↦ elim (fill_one e lens sno s) [
    | none ↦ none
    | some (s', datagram) ↦ elim o [
      | refused ↦ some (s', [])
      | accepted ↦ elim (send_loop e lens packet_num os (u32 (sno + 1)) (sent datagram s')) [
        | none ↦ none
        | some (end, more) ↦ some (end, datagram ∷ more)
      ]
    ]
  ]
]
