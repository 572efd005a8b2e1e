-- ===== src/UdpOrder/Tests.antt =====
-- The theorems on the sender and the receiver at concrete inputs.
use linux_interface_test.Base.{
  ℕ, ◌+◌, ◌≡◌, refl, arith, u32, List, [], ◌∷◌, true, false, none, some, length, replicate, map,
  little, big, pos, store16, ntohs, ◌++◌,
}
use linux_interface_test.UdpOrder.Stats.{RxKpi, zero_per}
use linux_interface_test.UdpOrder.CheckSno.{Rx, Receiver, datagram, recv_loop, zero_thd, thd_at}
use linux_interface_test.UdpOrder.Periods.{
  Turn, packet, report, Watch, turns, IsBalanced, turns-IsBalanced,
}
use linux_interface_test.UdpOrder.Streams.{check_all, check_all-breaks}
use linux_interface_test.UdpOrder.SendBuf.{random_number_loop, fill_same}
use linux_interface_test.UdpOrder.Lengths.{fill_same-AllWithin, length-fill_same}
use linux_interface_test.UdpOrder.Sender.{
  Sender, TxKpi, zero_tx_per, SendRet, accepted, refused, send_loop,
}
use linux_interface_test.UdpOrder.Wire.{has_tid, AllFit}
use linux_interface_test.UdpOrder.EndToEnd.{send_loop-recv_loop}
use linux_interface_test.UdpOrder.Setup.{TxEnv, RxEnv}
use linux_interface_test.UdpOrder.Whole.{AllWithin-AllFit}

abbrev kpi0 : RxKpi
kpi0 = record {
  all = record { rx_all_packet = 0; rx_all_byte = 0; rx_all_error = 0 };
  per = record { first = zero_per; second = zero_per };
  data_per_idx = 0;
  cur_per = 0;
}

abbrev rx0 : Rx
rx0 = record { kpi = kpi0; thds = replicate 18 zero_thd; open_right_sno_record = true; log = [] }

abbrev tx0 : TxKpi
tx0 = record {
  tx_all_packet = 0;
  per = record { first = zero_tx_per; second = zero_tx_per };
  data_per_idx = 0;
  cur_per = 0;
}

abbrev receiver0 : Receiver
receiver0 = record { recv_buf = replicate 16 0; rx = rx0 }

abbrev lens0 : List ℕ
lens0 = fill_same 8 random_number_loop

lens0-AllFit : AllFit 9 lens0
lens0-AllFit =
    AllWithin-AllFit 8 9 lens0 (omega arith) (length-fill_same 8 random_number_loop)
      (fill_same-AllWithin 8 random_number_loop)

abbrev sender0 : Sender
sender0 = record {
  send_buf = store16 little (ntohs little 3) ++ (0 ∷ 0 ∷ 0 ∷ 0 ∷ 103 ∷ 104 ∷ 0 ∷ []);
  s_idx = 0;
  kpi = tx0;
}

abbrev three : List SendRet
three = accepted ∷ accepted ∷ accepted ∷ refused ∷ []

send_loop-recv_loop_example :
    (s' : Sender) × (ds : List (List ℕ)) × (send_loop little lens0 2 three 0 sender0
      ≡ some (s', ds))
    × (length ds ≡ 2)
    × (let (r', ended) = recv_loop big (map datagram ds) receiver0 in
        (ended ≡ false)
        × ((thd_at r'.rx 3).rx_error ≡ 0)
        × ((thd_at r'.rx 3).rx_packet ≡ u32 (0 + 2))
        × ((thd_at r'.rx 3).expect_sno ≡ u32 (0 + 2)))
send_loop-recv_loop_example =
    send_loop-recv_loop little big 3 2 9 lens0 three 0 sender0 receiver0 (omega arith) (omega arith)
      lens0-AllFit refl (omega arith) (has_tid 0 0 0 0 (103 ∷ 104 ∷ 0 ∷ [])) (omega arith) refl
      (omega arith) (omega arith) (omega arith) refl

-- Sender 2 loses its number 1, sender 5 repeats its number 0.
abbrev arrivals : List (ℕ × ℕ)
arrivals = (2, 0) ∷ (5, 0) ∷ (2, 2) ∷ (5, 0) ∷ (2, 3) ∷ (20, 7) ∷ []

check_all-breaks_example :
    let thd' = thd_at (check_all arrivals rx0) 2 in
    (thd'.rx_error ≡ 1) × (thd'.rx_packet ≡ 3) × (thd'.expect_sno ≡ 4)
check_all-breaks_example =
    check_all-breaks arrivals 2 rx0 refl (omega arith) (omega arith) (omega arith)

abbrev schedule : List Turn
schedule = packet 2 0 60 ∷ report ∷ packet 2 2 70 ∷ report ∷ packet 2 3 80 ∷ report ∷ []

abbrev watch0 : Watch
watch0 = record { rx = rx0; saved = none }

watch0-IsBalanced : IsBalanced 0 0 watch0
watch0-IsBalanced = record {
  idx = omega arith;
  ptr = refl;
  apart = λ i h. ground arith;
  packets = refl;
  bytes = refl;
  errors = refl;
}

turns-IsBalanced_example : IsBalanced 3 210 (turns schedule watch0)
turns-IsBalanced_example = turns-IsBalanced 0 0 schedule watch0 watch0-IsBalanced

abbrev env0 : TxEnv
env0 = record {
  argc = 12;
  cpu_no_str = 31;
  min_pack_len = 60;
  max_pack_len = 64;
  packet_num = 0;
  send_thread_idx = 3;
  sigint_set = true;
  sigterm_set = true;
  thread_created = true;
  online = λ i. true;
  connect_ret = pos 0;
  malloced = some (replicate 65 0);
  random = λ i. i;
  sends = three;
}

abbrev rx_env0 : RxEnv
rx_env0 = record {
  argc = 8;
  cpu_no_str = 11;
  sigint_set = true;
  sigterm_set = true;
  online = λ i. true;
  log_opened = true;
  recvs = datagram (0 ∷ 2 ∷ 0 ∷ 0 ∷ 0 ∷ 0 ∷ []) ∷ [];
}
