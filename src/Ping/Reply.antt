-- ===== src/Ping/Reply.antt =====
-- `UnpackIcmpPacket`: which replies are taken, and what is read from them.
use linux_interface_test.Base.{
  ℕ, zero, suc, ◌+◌, ◌*◌, ◌%◌, ◌^◌, ◌≤◌, ◌<◌, ◌≡◌, refl, arith, u16, List, [], ◌∷◌, ◌++◌, none,
  some, length, get_or, drop, ap, ◌∙◌, length-append, Endian, little, big, load16, store16,
}
use linux_interface_test.Checksum.Spec.{IsBytes, IsByte}
use linux_interface_test.Checksum.Steps.{load16-lt}
use linux_interface_test.Ping.{icmp_echoreply, unpack_icmp_packet}
use linux_interface_test.Ping.Request.{request}

-- What a host answers to a request: type 0, a checksum of its own, and all else as it came.
abbrev pub echo_reply : Endian → ℕ → List ℕ → List ℕ
echo_reply e sum packet = (icmp_echoreply ∷ 0 ∷ []) ++ (store16 e sum ++ drop 4 packet)

get_or-append : (xs ys : List ℕ) (i : ℕ) → get_or (xs ++ ys) (length xs + i) 0 ≡ get_or ys i 0
get_or-append [] ys i = ap (λ (i : ℕ). get_or ys i 0) (omega arith)
get_or-append (x ∷ xs) ys i =
    let next : suc (length xs) + i ≡ suc (length xs + i) = omega arith in
    ap (λ (i : ℕ). get_or (x ∷ (xs ++ ys)) i 0) next ∙ get_or-append xs ys i

get_or-left : (xs ys : List ℕ) (i : ℕ) → i < length xs → get_or (xs ++ ys) i 0 ≡ get_or xs i 0
get_or-left [] ys i h = absurd (omega arith)
get_or-left (x ∷ xs) ys zero h = refl
get_or-left (x ∷ xs) ys (suc i) h = get_or-left xs ys i (omega arith)

reply_read :
    (e : Endian) (pid c1 c2 c3 c4 c5 c6 c7 : ℕ) (payload ip : List ℕ)
    → 20 ≤ length ip
    → get_or ip 0 0 % 16 * 4 ≡ length ip
    → load16 e c4 c5 ≡ pid
    → let buf = ip ++ (icmp_echoreply ∷ c1 ∷ c2 ∷ c3 ∷ c4 ∷ c5 ∷ c6 ∷ c7 ∷ payload) in
      unpack_icmp_packet e pid buf (length buf)
      ≡ some (record { bytes = length payload; seq = load16 e c6 c7; ttl = get_or ip 8 0 })
unfolding unpack_icmp_packet
reply_read e pid c1 c2 c3 c4 c5 c6 c7 payload ip head hl id =
    let bs = icmp_echoreply ∷ c1 ∷ c2 ∷ c3 ∷ c4 ∷ c5 ∷ c6 ∷ c7 ∷ payload in
    let start : get_or (ip ++ bs) 0 0 % 16 * 4 ≡ length ip =
      ap (λ (b : ℕ). b % 16 * 4) (get_or-left ip bs 0 (omega arith)) ∙ hl in
    rw start (
      ground (
        arith,
        id,
        get_or-append ip bs 0,
        get_or-append ip bs 4,
        get_or-append ip bs 5,
        get_or-append ip bs 6,
        get_or-append ip bs 7,
        get_or-left ip bs 8 (omega arith),
        length-append ip bs,
      ))

-- The reply to a request of a process whose number is below 2^16, behind an IP header of any legal length: its number modulo
-- 2^16, the length of its data and the time to live are read from it.
pub unpack_icmp_packet-echo_reply :
    (e : Endian) (pid sno sum sum' : ℕ) (payload ip : List ℕ)
    → pid < 2 ^ 16
    → 20 ≤ length ip
    → get_or ip 0 0 % 16 * 4 ≡ length ip
    → let buf = ip ++ echo_reply e sum' (request e sum pid sno payload) in
      unpack_icmp_packet e pid buf (length buf)
      ≡ some (record { bytes = length payload; seq = u16 sno; ttl = get_or ip 8 0 })
unfolding unpack_icmp_packet
unpack_icmp_packet-echo_reply little pid sno sum sum' payload ip small head hl =
    reply_read little pid _ _ _ _ _ _ _ payload ip head hl (omega arith)
    ∙ ap (λ (n : ℕ). some (record { bytes = length payload; seq = n; ttl = get_or ip 8 0 }))
        (omega arith)
unpack_icmp_packet-echo_reply big pid sno sum sum' payload ip small head hl =
    reply_read big pid _ _ _ _ _ _ _ payload ip head hl (omega arith)
    ∙ ap (λ (n : ℕ). some (record { bytes = length payload; seq = n; ttl = get_or ip 8 0 }))
        (omega arith)

get_or-IsByte : (xs : List ℕ) (i : ℕ) → IsBytes xs → IsByte (get_or xs i 0)
get_or-IsByte [] i h = omega arith
get_or-IsByte (x ∷ xs) zero (hx, h) = hx
get_or-IsByte (x ∷ xs) (suc i) (hx, h) = get_or-IsByte xs i h

-- A process whose number does not fit 16 bits takes no packet at all for a reply.
pub unpack_icmp_packet-large_pid :
    (e : Endian) (pid buf_len : ℕ) (buf : List ℕ)
    → IsBytes buf
    → 2 ^ 16 ≤ pid
    → unpack_icmp_packet e pid buf buf_len ≡ none
unfolding unpack_icmp_packet
unpack_icmp_packet-large_pid e pid buf_len buf bytes large =
    let h = get_or buf 0 0 % 16 * 4 in
    ground (
      arith,
      load16-lt e (get_or buf (h + 4) 0) (get_or buf (h + 5) 0) (get_or-IsByte buf (h + 4) bytes)
          (get_or-IsByte buf (h + 5) bytes),
    )
