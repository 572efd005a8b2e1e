-- ===== src/Ping/Sending.antt =====
-- `SendIcmpPacket`: the block that is filled once, and a request for each round.
use linux_interface_test.Base.{
  ℕ, zero, suc, ◌+◌, ◌%◌, ◌≤◌, ◌≡◌, refl, arith, List, [], ◌∷◌, ◌++◌, Bool, true, false, Bool-cases,
  inl, inr, some, length, set, ap, ◌∙◌, sym, subst, length-append, length-set, Endian, little, big,
}
use linux_interface_test.Checksum.{calc_check_sum}
use linux_interface_test.Checksum.Spec.{IsBytes, IsByte}
use linux_interface_test.Checksum.Verify.{IsBytes-append}
use linux_interface_test.Ping.{
  icmp_head_len, set_icmp_head, fill_data, send_icmp_loop, send_icmp_packet,
}
use linux_interface_test.Ping.Request.{request, HasData, has_data, set_icmp_head_lem}

-- What goes out from round `idx` on: for each round whose `sendto` succeeds a request with the number
-- of the round and a checksum that verifies.
pub data Requests (e : Endian) (pid : ℕ) (sends : ℕ → Bool) : ℕ → ℕ → List (List ℕ) → Type 0 where
  over : (idx : ℕ) → Requests e pid sends idx 0 []
  taken :
      (idx left sum : ℕ) (payload : List ℕ) (ps : List (List ℕ))
      → sends idx ≡ true
      → calc_check_sum e (request e sum pid idx payload) ≡ some 0
      → Requests e pid sends (idx + 1) left ps
      → Requests e pid sends idx (suc left) (request e sum pid idx payload ∷ ps)
  lost :
      (idx left : ℕ) (ps : List (List ℕ))
      → sends idx ≡ false
      → Requests e pid sends (idx + 1) left ps
      → Requests e pid sends idx (suc left) ps

request-HasData :
    (e : Endian) (sum pid sno : ℕ) (payload : List ℕ)
    → HasData payload (request e sum pid sno payload)
request-HasData little sum pid sno payload = has_data _ _ _ _ _ _ _ _
request-HasData big sum pid sno payload = has_data _ _ _ _ _ _ _ _

module _ (e : Endian) (now : ℕ → List ℕ) (sends : ℕ → Bool) (pid t : ℕ) (rest : List ℕ)
    (size : (i : ℕ) → length (now i) ≡ t) (time_bytes : (i : ℕ) → IsBytes (now i))
    (rest_bytes : IsBytes rest) (small : 8 + (t + length rest) ≤ 65535) where
  send_icmp_loop-Requests :
      (idx left : ℕ) (old block : List ℕ)
      → HasData (old ++ rest) block
      → length old ≡ t
      → (ps : List (List ℕ)) × (send_icmp_loop e now sends pid (t + length rest) idx left block
          ≡ some ps)
        × Requests e pid sends idx left ps
  unfolding send_icmp_loop
  send_icmp_loop-Requests idx zero old block has same = ([], refl, over idx)
  send_icmp_loop-Requests idx (suc left) old block has same =
      let total : length (now idx ++ rest) ≡ t + length rest =
        length-append (now idx) rest ∙ ap (λ (n : ℕ). n + length rest) (size idx) in
      let (sum, made, verifies) =
        set_icmp_head_lem e (now idx) old rest block pid idx has (same ∙ sym (size idx))
          (IsBytes-append (now idx) rest (time_bytes idx) rest_bytes) (omega (arith, total)) in
      let made' : set_icmp_head e (now idx) block (t + length rest) idx pid
          ≡ some (request e sum pid idx (now idx ++ rest)) =
        ap (λ (n : ℕ). set_icmp_head e (now idx) block n idx pid) (sym total) ∙ made in
      let (ps, run, requests) =
        send_icmp_loop-Requests (idx + 1) left (now idx) (request e sum pid idx (now idx ++ rest))
          (request-HasData e sum pid idx (now idx ++ rest)) (size idx) in
      elim (Bool-cases (sends idx)) [
        | inl ok ↦ (
          request e sum pid idx (now idx ++ rest) ∷ ps,
          rw (made', run, ok) refl,
          taken idx left sum (now idx ++ rest) ps ok verifies requests,
        )
        | inr failed ↦ (ps, rw (made', run, failed) refl, lost idx left ps failed requests)
      ]

set-HasData :
    (payload block : List ℕ) (idx v : ℕ)
    → HasData payload block
    → HasData (set payload idx v) (set block (8 + idx) v)
set-HasData payload _ idx v (has_data b0 b1 b2 b3 b4 b5 b6 b7) =
    let eight : 8 + idx ≡ suc (suc (suc (suc (suc (suc (suc (suc idx))))))) = omega arith in
    rw eight (has_data b0 b1 b2 b3 b4 b5 b6 b7)

set-IsBytes : (xs : List ℕ) (i v : ℕ) → IsByte v → IsBytes xs → IsBytes (set xs i v)
set-IsBytes [] i v hv h = tt
set-IsBytes (x ∷ xs) zero v hv (hx, h) = (hv, h)
set-IsBytes (x ∷ xs) (suc i) v hv (hx, h) = (hx, set-IsBytes xs i v hv h)

fill_data-HasData :
    (idx left : ℕ) (payload block : List ℕ)
    → HasData payload block
    → IsBytes payload
    → (filled : List ℕ) × HasData filled (fill_data idx left block)
      × (length filled ≡ length payload)
      × IsBytes filled
unfolding fill_data
fill_data-HasData idx zero payload block has bytes = (payload, has, refl, bytes)
fill_data-HasData idx (suc left) payload block has bytes =
    let v = b'a' + idx % 26 in
    let (filled, has', same, bytes') =
      fill_data-HasData (idx + 1) left (set payload idx v) (set block (icmp_head_len + idx) v)
        (set-HasData payload block idx v has) (set-IsBytes payload idx v (omega arith) bytes) in
    (filled, has', same ∙ length-set payload idx v, bytes')

split-at :
    (n : ℕ) (xs : List ℕ)
    → n ≤ length xs
    → IsBytes xs
    → (ys : List ℕ) × (zs : List ℕ) × (xs ≡ ys ++ zs) × (length ys ≡ n) × IsBytes zs
split-at zero xs h bytes = ([], xs, refl, refl, bytes)
split-at (suc n) [] h bytes = absurd (omega arith)
split-at (suc n) (x ∷ xs) h bytes =
    let (ys, zs, eq, len, rest) = split-at n xs (omega arith) bytes.1 in
    (x ∷ ys, zs, ap (λ l. x ∷ l) eq, ap suc len, rest)

-- With room for the time, at most 65535 bytes and a process number of any size, `SendIcmpPacket`
-- stores nothing outside its block, the sum does not overflow, and for each round whose `sendto`
-- succeeds a request goes out that carries the number of the round and a checksum that verifies.
pub send_icmp_packet-Requests :
    (e : Endian) (now : ℕ → List ℕ) (sends : ℕ → Bool) (pid packet_num t : ℕ)
    (payload block : List ℕ)
    → ((i : ℕ) → length (now i) ≡ t)
    → ((i : ℕ) → IsBytes (now i))
    → HasData payload block
    → IsBytes payload
    → t ≤ length payload
    → 8 + length payload ≤ 65535
    → (ps : List (List ℕ)) × (send_icmp_packet e now sends pid packet_num (length payload) block
        ≡ some ps)
      × Requests e pid sends 0 packet_num ps
unfolding send_icmp_packet
send_icmp_packet-Requests e now sends pid packet_num t payload block size time_bytes has bytes room
      small =
    let (filled, has', same, bytes') =
      fill_data-HasData 0 (length payload) payload block has bytes in
    let (old, rest, eq, len, rest_bytes) = split-at t filled (omega (arith, same)) bytes' in
    let total : t + length rest ≡ length payload =
      omega (arith, len, same, length-append old rest, ap length eq) in
    let (ps, run, requests) =
      send_icmp_loop-Requests e now sends pid t rest size time_bytes rest_bytes
        (omega (arith, total)) 0 packet_num old (fill_data 0 (length payload) block)
        (subst (λ l. HasData l (fill_data 0 (length payload) block)) eq has') len in
    (
      ps,
      ap
            (λ (n : ℕ).
              send_icmp_loop e now sends pid n 0 packet_num (fill_data 0 (length payload) block))
            (sym total)
          ∙ run,
      requests,
    )
