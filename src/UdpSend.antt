-- ===== src/UdpSend.antt =====
-- src/udp/udpSend.cpp: a text that is sent a number of times. What `send` and `malloc` return are parameters.
use linux_interface_test.Base.{
  ℕ, zero, suc, ◌+◌, ◌%◌, ◌≡◌, refl, ap, ◌∙◌, arith, List, [], ◌∷◌, ◌++◌, take, replicate, ◌==◌,
  Option, none, some, Bool, true, false,
}
use linux_interface_test.UdpMulti.{strlen}

-- The letters of `sendBuf` from `idx` on.
unfoldable pub fill_text : ℕ → ℕ → List ℕ
fill_text idx zero = []
fill_text idx (suc left) = (b'a' + idx % 25) ∷ fill_text (idx + 1) left

-- The loop, with what each `send` returns, none for -1: the datagrams that were sent, and `gPacketSend`. The
-- length of the next datagram is what `send` has returned for the last. It stops where the results stop.
unfoldable pub send_texts : List (Option ℕ) → ℕ → List ℕ → ℕ → ℕ → List (List ℕ) × ℕ
send_texts [] packet_num send_buf send_len packet_send = ([], packet_send)
send_texts (r ∷ rs) zero send_buf send_len packet_send = ([], packet_send)
send_texts (none ∷ rs) (suc left) send_buf send_len packet_send = ([], packet_send)
send_texts (some n ∷ rs) (suc left) send_buf send_len packet_send =
    let rest = send_texts rs left send_buf n (packet_send + 1) in
    (take send_len send_buf ∷ rest.0, rest.1)

-- `UdpSend_Send` on a connected socket, from its test of the length on; none is an exit.
unfoldable pub udp_send_send : ℕ → ℕ → Bool → List (Option ℕ) → Option (List (List ℕ) × ℕ)
unfolding fill_text send_texts
udp_send_send zero packet_num malloced rs = none
udp_send_send (suc n) packet_num false rs = none
udp_send_send (suc n) packet_num true rs =
    let send_buf = fill_text 0 (suc n) ++ (0 ∷ []) in
    some (send_texts rs packet_num send_buf (strlen send_buf) 0)

strlen-fill_text : (idx left : ℕ) → strlen (fill_text idx left ++ (0 ∷ [])) ≡ left
unfolding fill_text
strlen-fill_text idx zero = refl
strlen-fill_text idx (suc left) =
    let some_letter : (b'a' + idx % 25 == 0) ≡ false = ground arith in
    rw (some_letter, strlen-fill_text (idx + 1) left) refl

take-fill_text :
    (idx left : ℕ) (rest : List ℕ) → take left (fill_text idx left ++ rest) ≡ fill_text idx left
unfolding fill_text
take-fill_text idx zero rest = refl
take-fill_text idx (suc left) rest =
    ap (λ t. (b'a' + idx % 25) ∷ t) (take-fill_text (idx + 1) left rest)

send_texts-whole :
    (packet_num : ℕ) (more : List (Option ℕ)) (send_buf : List ℕ) (send_len packet_send : ℕ)
    → send_texts
        (replicate packet_num (some send_len) ++ more)
        packet_num
        send_buf
        send_len
        packet_send
      ≡ (replicate packet_num (take send_len send_buf), packet_send + packet_num)
unfolding send_texts
send_texts-whole zero [] send_buf send_len packet_send = ap (λ k. ([], k)) (omega arith)
send_texts-whole zero (m ∷ more) send_buf send_len packet_send = ap (λ k. ([], k)) (omega arith)
send_texts-whole (suc left) more send_buf send_len packet_send =
    let counted : packet_send + 1 + left ≡ packet_send + suc left = omega arith in
    rw (send_texts-whole left more send_buf send_len (packet_send + 1), counted) refl

-- If each `send` takes all that it is given, just the number of datagrams that was asked for is sent and
-- counted, whatever later calls would do, and each is the whole text.
pub udp_send_send_lem :
    (n packet_num : ℕ) (more : List (Option ℕ))
    → udp_send_send (suc n) packet_num true (replicate packet_num (some (suc n)) ++ more)
      ≡ some (replicate packet_num (fill_text 0 (suc n)), packet_num)
unfolding udp_send_send
udp_send_send_lem n packet_num more =
    let len = strlen-fill_text 0 (suc n) in
    let text = take-fill_text 0 (suc n) (0 ∷ []) in
    let counted : 0 + packet_num ≡ packet_num = omega arith in
    ap
      (λ k. some (
        send_texts (replicate packet_num (some (suc n)) ++ more) packet_num
          (fill_text 0 (suc n) ++ (0 ∷ [])) k 0))
      len
    ∙ ap some (send_texts-whole packet_num more (fill_text 0 (suc n) ++ (0 ∷ [])) (suc n) 0)
    ∙ (λ i. some (replicate packet_num (text i), counted i))
