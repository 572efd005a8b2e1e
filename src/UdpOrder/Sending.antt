-- ===== src/UdpOrder/Sending.antt =====
-- The sending loop as a whole: how many datagrams go out, and with which numbers.
use linux_interface_test.Base.{
  ℕ, suc, ◌+◌, ◌-◌, ◌^◌, ◌≤◌, ◌<◌, ◌≡◌, refl, arith, ◌==◌, ◌||◌, ltb, if◌then◌else◌, u32, u64, List,
  [], ◌∷◌, true, false, Bool-cases, inl, inr, some, length, min, ap, ◌∙◌, sym, Endian,
}
use linux_interface_test.UdpOrder.SendBuf.{random_number_loop}
use linux_interface_test.UdpOrder.Sender.{
  TxKpi, Sender, SendRet, accepted, refused, fill_one, send_loop, count_sent, sent,
}
use linux_interface_test.UdpOrder.Wire.{
  HasTid, AllNumbered, accepted_first, AllFit, fill_one-HasHeader,
}

-- What the limit leaves: no limit is 0.
abbrev pub capped : ℕ → ℕ → ℕ → ℕ
capped packet_num sno n = if packet_num == 0 then n else min n (packet_num - sno)

capped-suc :
    (packet_num sno n : ℕ)
    → (packet_num == 0 || ltb sno packet_num) ≡ true
    → packet_num < 2 ^ 32
    → capped packet_num sno (suc n) ≡ suc (capped packet_num (u32 (sno + 1)) n)
capped-suc packet_num sno n h small = ground arith

capped-zero : (packet_num sno : ℕ) → capped packet_num sno 0 ≡ 0
capped-zero packet_num sno = ground arith

capped_full :
    (packet_num sno n : ℕ)
    → (packet_num == 0 || ltb sno packet_num) ≡ false
    → capped packet_num sno n ≡ 0
capped_full packet_num sno n h = ground arith

count_sent-total :
    (len : ℕ) (s : Sender) → (count_sent len s.kpi).tx_all_packet ≡ u64 (s.kpi.tx_all_packet + 1)
unfolding count_sent
count_sent-total len s = refl

module _ (e : Endian) (lens : List ℕ) (packet_num sno : ℕ) (os : List SendRet) (s : Sender) where
  loop_full :
      (o : SendRet)
      → (packet_num == 0 || ltb sno packet_num) ≡ false
      → send_loop e lens packet_num (o ∷ os) sno s ≡ some (s, [])
  unfolding send_loop
  loop_full o full = ground arith

  module _ (s1 : Sender) (d : List ℕ) (goes : (packet_num == 0 || ltb sno packet_num) ≡ true)
      (filled : fill_one e lens sno s ≡ some (s1, d)) where
    loop_refused : send_loop e lens packet_num (refused ∷ os) sno s ≡ some (s1, [])
    unfolding send_loop
    loop_refused = ground arith

    loop_accepted :
        (end : Sender) (ds : List (List ℕ))
        → send_loop e lens packet_num os (u32 (sno + 1)) (sent d s1) ≡ some (end, ds)
        → send_loop e lens packet_num (accepted ∷ os) sno s ≡ some (end, d ∷ ds)
    unfolding send_loop
    loop_accepted end ds run = ground arith

-- With the index in a block that has room for the header, lengths that keep the header and stay in the
-- block, a limit of 32 bits and a counter of 64 bits, the loop makes no access outside the block. The
-- datagrams that go out carry the index of the sender and consecutive numbers from `sno` on; there is
-- one for each call accepted before the first refusal, up to the limit, and each is counted.
pub send_loop-AllNumbered :
    (e : Endian) (tid packet_num room : ℕ) (lens : List ℕ) (os : List SendRet) (sno : ℕ)
    (s : Sender)
    → packet_num < 2 ^ 32
    → AllFit room lens
    → length s.send_buf ≡ room
    → s.s_idx ≤ random_number_loop
    → HasTid e tid s.send_buf
    → s.kpi.tx_all_packet < 2 ^ 64
    → (s' : Sender) × (ds : List (List ℕ)) × (send_loop e lens packet_num os sno s ≡ some (s', ds))
      × AllNumbered e tid sno ds
      × (length ds ≡ capped packet_num sno (accepted_first os))
      × (s'.kpi.tx_all_packet ≡ u64 (s.kpi.tx_all_packet + length ds))
unfolding send_loop
send_loop-AllNumbered e tid packet_num room lens [] sno s small fits size idx has total =
    (s, [], refl, tt, sym (capped-zero packet_num sno), omega arith)
send_loop-AllNumbered e tid packet_num room lens (refused ∷ os) sno s small fits size idx has
      total =
    let (s1, d, filled, has1, size1, header, idx1, kpi1) =
      fill_one-HasHeader e tid sno room lens s fits size idx has in
    elim (Bool-cases (packet_num == 0 || ltb sno packet_num)) [
      | inl goes ↦ (
        s1,
        [],
        loop_refused e lens packet_num sno os s s1 d goes filled,
        tt,
        sym (capped-zero packet_num sno),
        rw kpi1 (omega arith),
      )
      | inr full ↦ (
        s,
        [],
        loop_full e lens packet_num sno os s refused full,
        tt,
        sym (capped_full packet_num sno _ full),
        omega arith,
      )
    ]
send_loop-AllNumbered e tid packet_num room lens (accepted ∷ os) sno s small fits size idx has
      total =
    let (s1, d, filled, has1, size1, header, idx1, kpi1) =
      fill_one-HasHeader e tid sno room lens s fits size idx has in
    let one : (sent d s1).kpi.tx_all_packet ≡ u64 (s.kpi.tx_all_packet + 1) =
      count_sent-total (length d) s1 ∙ ap (λ (k : TxKpi). u64 (k.tx_all_packet + 1)) kpi1 in
    let (end, ds, run, numbered, count, total') =
      send_loop-AllNumbered e tid packet_num room lens os (u32 (sno + 1)) (sent d s1) small fits
        size1 idx1 has1 (omega (arith, one)) in
    elim (Bool-cases (packet_num == 0 || ltb sno packet_num)) [
      | inl goes ↦ (
        end,
        d ∷ ds,
        loop_accepted e lens packet_num sno os s s1 d goes filled end ds run,
        (header, numbered),
        ap suc count ∙ sym (capped-suc packet_num sno (accepted_first os) goes small),
        omega (arith, one, total'),
      )
      | inr full ↦ (
        s,
        [],
        loop_full e lens packet_num sno os s accepted full,
        tt,
        sym (capped_full packet_num sno _ full),
        omega arith,
      )
    ]
