-- ===== src/PackageTcp/Gaps.antt =====
-- What the receiver counts, and the sender's datagrams as it sees them.
use linux_interface_test.Base.{
  ℕ, zero, suc, ◌+◌, ◌%◌, ◌^◌, ◌<◌, ◌≡◌, refl, arith, ◌==◌, if◌then◌else◌, u8, u32, List, [], ◌∷◌,
  Bool, true, false, get_or, length, map, ap, ◌∙◌, replicate,
}
use linux_interface_test.PackageTcp.{
  Receiver, start, arrived, take_packet, receive_loop, send_rounds, udp_test_send,
}

-- Datagrams that are not empty.
abbrev pub AllFull : List (List ℕ) → Type 0
AllFull [] = Unit {0}
AllFull (d ∷ ds) = (0 < length d) × AllFull ds

-- How often a first byte is not the one after its predecessor.
abbrev pub gaps : ℕ → List (List ℕ) → ℕ
gaps old [] = 0
gaps old (d ∷ ds) = (if u8 (old + 1) == get_or d 0 0 then 0 else 1) + gaps (get_or d 0 0) ds

abbrev pub last_sno : ℕ → List (List ℕ) → ℕ
last_sno old [] = old
last_sno old (d ∷ ds) = last_sno (get_or d 0 0) ds

take_packet_lem :
    (b : ℕ) (bs : List ℕ) (r : Receiver)
    → let r' = take_packet (b ∷ bs) r in
      (r'.packet_error
        ≡ (if u8 (r.old_sno + 1) == b then r.packet_error else u32 (r.packet_error + 1)))
      × (r'.packet_recv ≡ u32 (r.packet_recv + 1))
      × (r'.old_sno ≡ b)
unfolding take_packet
take_packet_lem b bs r = (ground arith, refl, refl)

-- Over datagrams that are not empty the receiver stays open, counts each, and counts as errors the
-- gaps in the sequence of their first bytes, modulo 2^32.
pub receive_loop-gaps :
    (ds : List (List ℕ)) (r : Receiver)
    → AllFull ds
    → r.packet_error < 2 ^ 32
    → r.packet_recv < 2 ^ 32
    → let (r', ended) = receive_loop (map arrived ds) r in
      (ended ≡ false)
      × (r'.packet_error ≡ u32 (r.packet_error + gaps r.old_sno ds))
      × (r'.packet_recv ≡ u32 (r.packet_recv + length ds))
      × (r'.old_sno ≡ last_sno r.old_sno ds)
unfolding receive_loop
receive_loop-gaps [] r full he hp = (refl, omega arith, omega arith, refl)
receive_loop-gaps ([] ∷ ds) r full he hp = absurd (omega (arith, full.0))
receive_loop-gaps ((b ∷ bs) ∷ ds) r full he hp =
    let r1 = take_packet (b ∷ bs) r in
    let (errors, packets, sno) = take_packet_lem b bs r in
    let (open_, errors', packets', sno') =
      receive_loop-gaps ds r1 full.1 (ground (arith, errors)) (omega (arith, packets)) in
    let following = ap (λ (n : ℕ). gaps n ds) sno in
    (
      open_,
      ground (arith, errors, errors', following),
      omega (arith, packets, packets'),
      sno' ∙ ap (λ (n : ℕ). last_sno n ds) sno,
    )

-- Packets that all go out have their numbers modulo 256 without a gap.
send_rounds-gaps :
    (cpu : ℕ → ℕ) (sends : ℕ → Bool) (idx left b0 b1 old : ℕ) (rest : List ℕ)
    → ((i : ℕ) → sends i ≡ true)
    → u8 (old + 1) ≡ idx % 256
    → let ds = send_rounds cpu sends idx left (b0 ∷ b1 ∷ rest) in
      AllFull ds × (gaps old ds ≡ 0) × (length ds ≡ left)
unfolding send_rounds
send_rounds-gaps cpu sends idx zero b0 b1 old rest ok same = (tt, refl, refl)
send_rounds-gaps cpu sends idx (suc left) b0 b1 old rest ok same =
    let (full, none_, len) =
      send_rounds-gaps cpu sends (idx + 1) left (idx % 256) (u8 (cpu idx)) (idx % 256) rest ok
        (omega arith) in
    rw (ok idx) ((omega arith, full), ground (arith, same, none_), ap suc len)

-- A receiver counts no error for packets that are sent from `idx` on and all arrive, if its last number
-- is that before `idx` modulo 256: nothing is lost in between, or any multiple of 256 packets is.
pub receive_loop-send_rounds :
    (cpu : ℕ → ℕ) (sends : ℕ → Bool) (idx left b0 b1 : ℕ) (rest : List ℕ) (r : Receiver)
    → ((i : ℕ) → sends i ≡ true)
    → r.packet_error < 2 ^ 32
    → r.packet_recv < 2 ^ 32
    → u8 (r.old_sno + 1) ≡ idx % 256
    → let (r', ended) =
        receive_loop (map arrived (send_rounds cpu sends idx left (b0 ∷ b1 ∷ rest))) r in
      (ended ≡ false)
      × (r'.packet_error ≡ r.packet_error)
      × (r'.packet_recv ≡ u32 (r.packet_recv + left))
receive_loop-send_rounds cpu sends idx left b0 b1 rest r ok he hp same =
    let (full, unbroken, len) = send_rounds-gaps cpu sends idx left b0 b1 r.old_sno rest ok same in
    let (open_, errors, packets, _) =
      receive_loop-gaps (send_rounds cpu sends idx left (b0 ∷ b1 ∷ rest)) r full he hp in
    (open_, omega (arith, errors, unbroken), packets ∙ ap (λ (n : ℕ). u32 (r.packet_recv + n)) len)

-- A whole run of the sender, one packet more than its argument, at a receiver that has just started.
pub receive_loop-udp_test_send :
    (cpu : ℕ → ℕ) (sends : ℕ → Bool) (packet_num : ℕ)
    → ((i : ℕ) → sends i ≡ true)
    → let (r', ended) = receive_loop (map arrived (udp_test_send cpu sends packet_num)) start in
      (ended ≡ false) × (r'.packet_error ≡ 0) × (r'.packet_recv ≡ u32 (packet_num + 1))
unfolding udp_test_send
receive_loop-udp_test_send cpu sends packet_num ok =
    let (open_, errors, packets) =
      receive_loop-send_rounds cpu sends 0 (packet_num + 1) b'h' b'h' (replicate 1198 b'h') start ok
        (omega arith) (omega arith) (omega arith) in
    (open_, errors, packets ∙ omega arith)
