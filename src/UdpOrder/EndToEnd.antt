-- ===== src/UdpOrder/EndToEnd.antt =====
-- Sender and receiver together: numbered datagrams that all arrive in order are counted as right.
use linux_interface_test.Base.{
  ◌++◌, subst, store16, store32, ntohs, ntohl, ℕ, zero, suc, ◌+◌, ◌^◌, ◌≤◌, ◌<◌, ◌≡◌, refl, arith,
  ◌==◌, u32, List, [], ◌∷◌, length, take, drop, false, some, ap, ◌∙◌, sym, Endian, little, big, map,
  ==_refl, Bool-cases, inl, inr,
}
use linux_interface_test.UdpOrder.Stats.{RxThdStatistics, count_packet}
use linux_interface_test.UdpOrder.SendBuf.{random_number_loop}
use linux_interface_test.UdpOrder.CheckSno.{
  Rx, Receiver, Recv, datagram, recv_size, receive, recv_loop, check_sno, thd_at,
  max_send_thread_num,
}
use linux_interface_test.UdpOrder.Sender.{Sender, SendRet, send_loop}
use linux_interface_test.UdpOrder.Wire.{
  HasHeader, has_header, HasHeader-reads, take-HasHeader, append-HasHeader, AllNumbered, HasTid,
  AllFit, accepted_first,
}
use linux_interface_test.UdpOrder.Sending.{send_loop-AllNumbered, capped}
use linux_interface_test.UdpOrder.Streams.{
  check_sno-length, check_sno-thd_at, snos_of, follow, follow-in_order, count_from,
}

-- One datagram with a header is read as such, whatever the buffer held.
receive-check_sno :
    (e : Endian) (tid sno : ℕ) (d : List ℕ) (r : Receiver)
    → tid < 2 ^ 16
    → sno < 2 ^ 32
    → HasHeader e tid sno d
    → (receive e d r).rx
      ≡ check_sno tid sno
          (record (r.rx) { kpi = count_packet (length (take recv_size d)) r.rx.kpi })
unfolding receive
receive-check_sno e tid sno d r ht hs h =
    let got = take recv_size d in
    let header =
      append-HasHeader e tid sno got (drop (length got) r.recv_buf)
        (take-HasHeader e tid sno recv_size d (omega arith) h) in
    let (t, n) = HasHeader-reads e tid sno _ ht hs header in rw (t, n)

-- Datagrams, each with the index and the number that it carries.
abbrev pub Headed : Endian → List (ℕ × ℕ) → List (List ℕ) → Type 0
Headed e [] [] = Unit {0}
Headed e ((tid, sno) ∷ ps) (d ∷ ds) =
    (tid < 2 ^ 16) × (sno < 2 ^ 32) × HasHeader e tid sno d × Headed e ps ds
Headed e _ _ = ⊥

-- The loop makes one call of `receive` for a datagram that has a header.
recv_loop-receive :
    (e : Endian) (tid sno : ℕ) (d : List ℕ) (os : List Recv) (r : Receiver)
    → HasHeader e tid sno d
    → recv_loop e (datagram d ∷ os) r ≡ recv_loop e os (receive e d r)
unfolding recv_loop
recv_loop-receive little tid sno _ os r (has_header rest) = refl
recv_loop-receive big tid sno _ os r (has_header rest) = refl

recv_loop-thd_at :
    (e : Endian) (t : ℕ) (ps : List (ℕ × ℕ)) (ds : List (List ℕ)) (r : Receiver)
    → length r.rx.thds ≡ max_send_thread_num
    → t < max_send_thread_num
    → Headed e ps ds
    → let (r', ended) = recv_loop e (map datagram ds) r in
      (ended ≡ false) × (thd_at r'.rx t ≡ follow (thd_at r.rx t) (snos_of t ps))
unfolding recv_loop follow
recv_loop-thd_at e t [] [] r size small h = (refl, refl)
recv_loop-thd_at e t [] (d ∷ ds) r size small h = absurd h
recv_loop-thd_at e t (p ∷ ps) [] r size small h = absurd h
recv_loop-thd_at e t ((tid, sno) ∷ ps) (d ∷ ds) r size small (ht, hs, header, rest) =
    let s = record (r.rx) { kpi = count_packet (length (take recv_size d)) r.rx.kpi } in
    let step : (receive e d r).rx ≡ check_sno tid sno s =
      receive-check_sno e tid sno d r ht hs header in
    let size' : length (receive e d r).rx.thds ≡ max_send_thread_num =
      ap (λ (s : Rx). length s.thds) step ∙ check_sno-length tid sno s ∙ size in
    let head = ap (λ s. thd_at s t) step ∙ check_sno-thd_at tid sno t s size small in
    let (open_, ih) = recv_loop-thd_at e t ps ds (receive e d r) size' small rest in
    rw (recv_loop-receive e tid sno d (map datagram ds) r header) (
      open_,
      elim (Bool-cases (tid == t)) [
        | inl same ↦ rw same (ih ∙ ap (λ thd. follow thd (snos_of t ps)) (rw same at head))
        | inr other ↦ rw other (ih ∙ ap (λ thd. follow thd (snos_of t ps)) (rw other at head))
      ],
    )

snos_of-single : (t k n : ℕ) → snos_of t (map (λ sno. (t, sno)) (count_from k n)) ≡ count_from k n
snos_of-single t k zero = refl
snos_of-single t k (suc n) = rw (==_refl t) (ap (λ l. k ∷ l) (snos_of-single t (u32 (k + 1)) n))

-- The header is in network order, whatever the order of the host that stored it.
store16-ntohs : (e e' : Endian) (tid : ℕ) → store16 e (ntohs e tid) ≡ store16 e' (ntohs e' tid)
store16-ntohs little little tid = refl
store16-ntohs little big tid = ground arith
store16-ntohs big little tid = ground arith
store16-ntohs big big tid = refl

store32-ntohl : (e e' : Endian) (sno : ℕ) → store32 e (ntohl e sno) ≡ store32 e' (ntohl e' sno)
store32-ntohl little little sno = refl
store32-ntohl little big sno = ground arith
store32-ntohl big little sno = ground arith
store32-ntohl big big sno = refl

HasHeader-order :
    (e e' : Endian) (tid sno : ℕ) (d : List ℕ) → HasHeader e tid sno d → HasHeader e' tid sno d
HasHeader-order e e' tid sno _ (has_header rest) =
    subst (HasHeader e' tid sno)
      (ap (λ b. b ++ (store32 e' (ntohl e' sno) ++ rest)) (store16-ntohs e' e tid)
        ∙ ap (λ b. store16 e (ntohs e tid) ++ (b ++ rest)) (store32-ntohl e' e sno))
      (has_header rest)

AllNumbered-Headed :
    (e e' : Endian) (tid sno : ℕ) (ds : List (List ℕ))
    → tid < 2 ^ 16
    → sno < 2 ^ 32
    → AllNumbered e tid sno ds
    → Headed e' (map (λ n. (tid, n)) (count_from sno (length ds))) ds
AllNumbered-Headed e e' tid sno [] ht hs h = tt
AllNumbered-Headed e e' tid sno (d ∷ ds) ht hs h = (
  ht,
  hs,
  HasHeader-order e e' tid sno d h.0,
  AllNumbered-Headed e e' tid (u32 (sno + 1)) ds ht (omega arith) h.1,
)

-- A sender of index below 18 whose block holds the index and has room for the header, and whose lengths
-- keep the header and stay in the block, all counters within their widths, sends `n` datagrams, one for each accepted call up to its limit. A receiver
-- on a host of either byte order that expects the first number and gets all of them in order goes on
-- receiving, counts no error and `n` packets for that sender, and expects the next number.
pub send_loop-recv_loop :
    (e e' : Endian) (tid packet_num room : ℕ) (lens : List ℕ) (os : List SendRet) (sno : ℕ)
    (s : Sender) (r : Receiver)
    → tid < max_send_thread_num
    → packet_num < 2 ^ 32
    → AllFit room lens
    → length s.send_buf ≡ room
    → s.s_idx ≤ random_number_loop
    → HasTid e tid s.send_buf
    → s.kpi.tx_all_packet < 2 ^ 64
    → length r.rx.thds ≡ max_send_thread_num
    → (thd_at r.rx tid).rx_error < 2 ^ 32
    → (thd_at r.rx tid).rx_packet < 2 ^ 32
    → sno < 2 ^ 32
    → (thd_at r.rx tid).expect_sno ≡ sno
    → let n = capped packet_num sno (accepted_first os) in
      (s' : Sender) × (ds : List (List ℕ)) × (send_loop e lens packet_num os sno s ≡ some (s', ds))
      × (length ds ≡ n)
      × (let (r', ended) = recv_loop e' (map datagram ds) r in
          (ended ≡ false)
          × ((thd_at r'.rx tid).rx_error ≡ (thd_at r.rx tid).rx_error)
          × ((thd_at r'.rx tid).rx_packet ≡ u32 ((thd_at r.rx tid).rx_packet + n))
          × ((thd_at r'.rx tid).expect_sno ≡ u32 (sno + n)))
send_loop-recv_loop e e' tid packet_num room lens os sno s r ht small fits block idx has total size
      he hp hs first =
    let (s', ds, run, numbered, count, total') =
      send_loop-AllNumbered e tid packet_num room lens os sno s small fits block idx has total in
    let ps : List (ℕ × ℕ) = map (λ n. (tid, n)) (count_from sno (length ds)) in
    let headed = AllNumbered-Headed e e' tid sno ds (omega arith) hs numbered in
    let (open_, seen) = recv_loop-thd_at e' tid ps ds r size ht headed in
    let seq : snos_of tid ps ≡ count_from (thd_at r.rx tid).expect_sno (length ds) =
      snos_of-single tid sno (length ds) ∙ ap (λ (k : ℕ). count_from k (length ds)) (sym first) in
    let (errors, packets, next) =
      follow-in_order (thd_at r.rx tid) (snos_of tid ps) (length ds) he hp (omega arith) seq in
    (
      s',
      ds,
      run,
      count,
      (
        open_,
        ap (λ (t : RxThdStatistics). t.rx_error) seen ∙ errors,
        ap (λ (t : RxThdStatistics). t.rx_packet) seen
            ∙ packets
            ∙ ap (λ (m : ℕ). u32 ((thd_at r.rx tid).rx_packet + m)) count,
        ap (λ (t : RxThdStatistics). t.expect_sno) seen
            ∙ next
            ∙ ap (λ (m : ℕ). u32 m) (omega (arith, first, count)),
      ),
    )
