-- ===== src/UdpOrder/Streams.antt =====
-- The numbers of each sender are checked on their own: what `CheckSno` keeps for a sender depends on
-- that sender's numbers, and its errors are the breaks in their sequence.
use linux_interface_test.Base.{
  ℕ, zero, suc, ◌+◌, ◌^◌, ◌<◌, ◌≡◌, ◌↔◌, refl, arith, ◌==◌, if◌then◌else◌, u32, List, [], ◌∷◌,
  Bool-cases, inl, inr, ap, ◌∙◌, sym, length, length-set, get_or-set_self, get_or-set_ne,
}
use linux_interface_test.UdpOrder.Stats.{RxThdStatistics}
use linux_interface_test.UdpOrder.CheckSno.{
  Rx, check_sno, next_thd, thd_at, zero_thd, max_send_thread_num,
}

-- The numbers of one sender among all that arrive.
abbrev pub snos_of : ℕ → List (ℕ × ℕ) → List ℕ
snos_of t [] = []
snos_of t ((tid, sno) ∷ ps) = if tid == t then sno ∷ snos_of t ps else snos_of t ps

pub check_all : List (ℕ × ℕ) → Rx → Rx
check_all [] s = s
check_all ((tid, sno) ∷ ps) s = check_all ps (check_sno tid sno s)

unfoldable pub follow : RxThdStatistics → List ℕ → RxThdStatistics
follow thd [] = thd
follow thd (sno ∷ snos) = follow (next_thd thd sno) snos

pub check_sno-length : (tid sno : ℕ) (s : Rx) → length (check_sno tid sno s).thds ≡ length s.thds
unfolding check_sno
check_sno-length tid sno s = ground (arith, length-set s.thds tid (next_thd (thd_at s tid) sno))

-- Its own statistics move on, the others stay.
pub check_sno-thd_at :
    (tid sno t : ℕ) (s : Rx)
    → length s.thds ≡ max_send_thread_num
    → t < max_send_thread_num
    → thd_at (check_sno tid sno s) t ≡ (if tid == t then next_thd (thd_at s t) sno else thd_at s t)
unfolding check_sno
check_sno-thd_at tid sno t s size small = ground (
  arith,
  get_or-set_self s.thds tid (next_thd (thd_at s tid) sno) zero_thd,
  get_or-set_ne s.thds tid t (next_thd (thd_at s tid) sno) zero_thd,
)

check_all-thd_at :
    (ps : List (ℕ × ℕ)) (t : ℕ) (s : Rx)
    → length s.thds ≡ max_send_thread_num
    → t < max_send_thread_num
    → thd_at (check_all ps s) t ≡ follow (thd_at s t) (snos_of t ps)
unfolding check_all follow
check_all-thd_at [] t s size small = refl
check_all-thd_at ((tid, sno) ∷ ps) t s size small =
    let rest =
      check_all-thd_at ps t (check_sno tid sno s) (check_sno-length tid sno s ∙ size) small in
    let head = check_sno-thd_at tid sno t s size small in
    elim (Bool-cases (tid == t)) [
      | inl same ↦ rw same (rest ∙ ap (λ thd. follow thd (snos_of t ps)) (rw same at head))
      | inr other ↦ rw other (rest ∙ ap (λ thd. follow thd (snos_of t ps)) (rw other at head))
    ]

-- How often a number is not the one after its predecessor, the first counting after `expect`.
abbrev pub breaks : ℕ → List ℕ → ℕ
breaks expect [] = 0
breaks expect (sno ∷ snos) = (if expect == sno then 0 else 1) + breaks (u32 (sno + 1)) snos

-- The number that should follow.
abbrev pub next_sno : ℕ → List ℕ → ℕ
next_sno expect [] = expect
next_sno expect (sno ∷ snos) = next_sno (u32 (sno + 1)) snos

pub follow_lem :
    (thd : RxThdStatistics) (snos : List ℕ)
    → thd.rx_error < 2 ^ 32
    → thd.rx_packet < 2 ^ 32
    → let thd' = follow thd snos in
      (thd'.rx_error ≡ u32 (thd.rx_error + breaks thd.expect_sno snos))
      × (thd'.rx_packet ≡ u32 (thd.rx_packet + length snos))
      × (thd'.expect_sno ≡ next_sno thd.expect_sno snos)
unfolding follow next_thd
follow_lem thd [] he hp = (omega arith, omega arith, refl)
follow_lem thd (sno ∷ snos) he hp =
    ground (arith, follow_lem (next_thd thd sno) snos (ground arith) (omega arith))

-- After any arrivals the errors counted for a sender below 18 are the breaks in the sequence of its
-- own numbers, the packets counted are its numbers (both modulo 2^32), and the number expected is the
-- one after its last; packets of other senders between them change nothing of this.
pub check_all-breaks :
    (ps : List (ℕ × ℕ)) (t : ℕ) (s : Rx)
    → length s.thds ≡ max_send_thread_num
    → t < max_send_thread_num
    → (thd_at s t).rx_error < 2 ^ 32
    → (thd_at s t).rx_packet < 2 ^ 32
    → let thd = thd_at s t in
      let thd' = thd_at (check_all ps s) t in
      let snos = snos_of t ps in
      (thd'.rx_error ≡ u32 (thd.rx_error + breaks thd.expect_sno snos))
      × (thd'.rx_packet ≡ u32 (thd.rx_packet + length snos))
      × (thd'.expect_sno ≡ next_sno thd.expect_sno snos)
check_all-breaks ps t s size small he hp =
    rw (check_all-thd_at ps t s size small) (follow_lem (thd_at s t) (snos_of t ps) he hp)

-- `n` numbers from `k` on, as a uint32_t counts.
abbrev pub count_from : ℕ → ℕ → List ℕ
count_from k zero = []
count_from k (suc n) = k ∷ count_from (u32 (k + 1)) n

-- A sequence has no break exactly when it counts up from the expected number.
pub breaks-zero_iff :
    (k : ℕ) (snos : List ℕ) → (breaks k snos ≡ 0) ↔ (snos ≡ count_from k (length snos))
breaks-zero_iff k [] = (λ h. refl, λ h. refl)
breaks-zero_iff k (sno ∷ snos) = ground (arith, breaks-zero_iff (u32 (sno + 1)) snos)

pub length-count_from : (k n : ℕ) → length (count_from k n) ≡ n
length-count_from k zero = refl
length-count_from k (suc n) = ap suc (length-count_from (u32 (k + 1)) n)

pub next_sno-count_from : (k n : ℕ) → k < 2 ^ 32 → next_sno k (count_from k n) ≡ u32 (k + n)
next_sno-count_from k zero h = omega arith
next_sno-count_from k (suc n) h = next_sno-count_from (u32 (k + 1)) n (omega arith) ∙ omega arith

-- Numbers in sequence leave the errors as they are and the number after the last expected.
pub follow-in_order :
    (thd : RxThdStatistics) (snos : List ℕ) (n : ℕ)
    → thd.rx_error < 2 ^ 32
    → thd.rx_packet < 2 ^ 32
    → thd.expect_sno < 2 ^ 32
    → snos ≡ count_from thd.expect_sno n
    → let thd' = follow thd snos in
      (thd'.rx_error ≡ thd.rx_error)
      × (thd'.rx_packet ≡ u32 (thd.rx_packet + n))
      × (thd'.expect_sno ≡ u32 (thd.expect_sno + n))
follow-in_order thd snos n he hp hx seq =
    let (errors, packets, next) = follow_lem thd snos he hp in
    let len : length snos ≡ n = ap length seq ∙ length-count_from thd.expect_sno n in
    let unbroken : breaks thd.expect_sno snos ≡ 0 =
      (breaks-zero_iff thd.expect_sno snos).1 (seq ∙ ap (count_from thd.expect_sno) (sym len)) in
    (
      omega (arith, errors, unbroken),
      packets ∙ ap (λ (m : ℕ). u32 (thd.rx_packet + m)) len,
      next ∙ ap (next_sno thd.expect_sno) seq ∙ next_sno-count_from thd.expect_sno n hx,
    )
