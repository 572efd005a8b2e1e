-- ===== src/Ping/Request.antt =====
-- The request that `SetIcmpHead` makes, and the rounds of `SendIcmpPacket`.
use linux_interface_test.Base.{
  ℕ, zero, suc, ◌+◌, ◌≤◌, ◌<◌, ◌≡◌, refl, arith, u16, List, [], ◌∷◌, ◌++◌, none, some, length, take,
  ap, Endian, little, big, store16, write_bytes, write_bytes-splice, write_bytes-overflows,
}
use linux_interface_test.Checksum.{calc_check_sum}
use linux_interface_test.Checksum.Spec.{IsBytes}
use linux_interface_test.Checksum.Verify.{calc_check_sum_verifies, IsBytes-append, store16-IsBytes}
use linux_interface_test.Ping.{icmp_echo, set_icmp_head}

-- The head of a request and what follows it.
abbrev pub request : Endian → ℕ → ℕ → ℕ → List ℕ → List ℕ
request e sum pid sno payload =
    (icmp_echo ∷ 0 ∷ [])
    ++ (store16 e sum ++ (store16 e (u16 pid) ++ (store16 e (u16 sno) ++ payload)))

-- A block of at least eight bytes with a given part behind them.
pub data HasData (payload : List ℕ) : List ℕ → Type 0 where
  has_data :
      (b0 b1 b2 b3 b4 b5 b6 b7 : ℕ)
      → HasData payload (b0 ∷ b1 ∷ b2 ∷ b3 ∷ b4 ∷ b5 ∷ b6 ∷ b7 ∷ payload)

head_stored :
    (e : Endian) (pid sno : ℕ) (payload block : List ℕ)
    → HasData payload block
    → (b1 : List ℕ) × (b2 : List ℕ) × (write_bytes block 0 (icmp_echo ∷ 0 ∷ 0 ∷ 0 ∷ []) ≡ some b1)
      × (write_bytes b1 6 (store16 e (u16 sno)) ≡ some b2)
      × (write_bytes b2 4 (store16 e (u16 pid)) ≡ some (request e 0 pid sno payload))
unfolding write_bytes
head_stored little pid sno payload _ (has_data b0 b1 b2 b3 b4 b5 b6 b7) = (
  icmp_echo ∷ 0 ∷ 0 ∷ 0 ∷ b4 ∷ b5 ∷ b6 ∷ b7 ∷ payload,
  icmp_echo ∷ 0 ∷ 0 ∷ 0 ∷ b4 ∷ b5 ∷ (store16 little (u16 sno) ++ payload),
  ground arith,
  ground arith,
  ground arith,
)
head_stored big pid sno payload _ (has_data b0 b1 b2 b3 b4 b5 b6 b7) = (
  icmp_echo ∷ 0 ∷ 0 ∷ 0 ∷ b4 ∷ b5 ∷ b6 ∷ b7 ∷ payload,
  icmp_echo ∷ 0 ∷ 0 ∷ 0 ∷ b4 ∷ b5 ∷ (store16 big (u16 sno) ++ payload),
  ground arith,
  ground arith,
  ground arith,
)

time_stored :
    (e : Endian) (pid sno : ℕ) (now old rest : List ℕ)
    → length old ≡ length now
    → write_bytes (request e 0 pid sno (old ++ rest)) 8 now
      ≡ some (request e 0 pid sno (now ++ rest))
time_stored little pid sno now old rest same =
    write_bytes-splice (request little 0 pid sno []) old now rest same
time_stored big pid sno now old rest same =
    write_bytes-splice (request big 0 pid sno []) old now rest same

sum_stored :
    (e : Endian) (sum pid sno : ℕ) (payload : List ℕ)
    → write_bytes (request e 0 pid sno payload) 2 (store16 e sum)
      ≡ some (request e sum pid sno payload)
sum_stored little sum pid sno payload =
    write_bytes-splice (icmp_echo ∷ 0 ∷ []) (0 ∷ 0 ∷ []) (store16 little sum) _ refl
sum_stored big sum pid sno payload =
    write_bytes-splice (icmp_echo ∷ 0 ∷ []) (0 ∷ 0 ∷ []) (store16 big sum) _ refl

length-request :
    (e : Endian) (sum pid sno : ℕ) (payload : List ℕ)
    → length (request e sum pid sno payload) ≡ 8 + length payload
length-request little sum pid sno payload = omega arith
length-request big sum pid sno payload = omega arith

take-all : (n : ℕ) (xs : List ℕ) → length xs ≡ n → take n xs ≡ xs
take-all zero [] h = refl
take-all zero (x ∷ xs) h = absurd (omega arith)
take-all (suc n) [] h = refl
take-all (suc n) (x ∷ xs) h = ap (λ t. x ∷ t) (take-all n xs (omega arith))

request-IsBytes :
    (e : Endian) (pid sno : ℕ) (payload : List ℕ)
    → IsBytes payload
    → IsBytes (request e 0 pid sno payload)
request-IsBytes e pid sno payload h = (
  omega arith,
  (
    omega arith,
    IsBytes-append (store16 e 0) _ (store16-IsBytes e 0) (
        IsBytes-append (store16 e (u16 pid)) _ (store16-IsBytes e (u16 pid))
          (IsBytes-append (store16 e (u16 sno)) payload (store16-IsBytes e (u16 sno)) h)),
  ),
)

-- A request in a block with room for the time, of at most 65535 bytes: type 8, code 0, the index and
-- the number modulo 2^16, the time, the rest of the data as it was, and a checksum that verifies.
pub set_icmp_head_lem :
    (e : Endian) (now old rest block : List ℕ) (pid sno : ℕ)
    → HasData (old ++ rest) block
    → length old ≡ length now
    → IsBytes (now ++ rest)
    → 8 + length (now ++ rest) ≤ 65535
    → (sum : ℕ) × (set_icmp_head e now block (length (now ++ rest)) sno pid
        ≡ some (request e sum pid sno (now ++ rest)))
      × (calc_check_sum e (request e sum pid sno (now ++ rest)) ≡ some 0)
unfolding set_icmp_head
set_icmp_head_lem e now old rest block pid sno has same bytes small =
    let (b1, b2, h1, h2, h3) = head_stored e pid sno (old ++ rest) block has in
    let payload = now ++ rest in
    let (sum, summed, _, verifies) =
      calc_check_sum_verifies e (icmp_echo ∷ 0 ∷ [])
        (store16 e (u16 pid) ++ (store16 e (u16 sno) ++ payload)) refl
        (request-IsBytes e pid sno payload bytes)
        (omega (arith, length-request e 0 pid sno payload)) in
    let whole : take (8 + length payload) (request e 0 pid sno payload)
        ≡ request e 0 pid sno payload =
      take-all (8 + length payload) _ (length-request e 0 pid sno payload) in
    (
      sum,
      rw (h1, h2, h3, time_stored e pid sno now old rest same, whole, summed)
          (sum_stored e sum pid sno payload),
      verifies,
    )

-- When the data is shorter than the time, the time is stored past the packet.
pub set_icmp_head-short :
    (e : Endian) (now payload block : List ℕ) (pid sno : ℕ)
    → HasData payload block
    → length payload < length now
    → set_icmp_head e now block (length payload) sno pid ≡ none
unfolding set_icmp_head
set_icmp_head-short e now payload block pid sno has short =
    let (b1, b2, h1, h2, h3) = head_stored e pid sno payload block has in
    let over : write_bytes (request e 0 pid sno payload) 8 now ≡ none =
      write_bytes-overflows _ now 8 (omega (arith, length-request e 0 pid sno payload))
        (omega (arith, length-request e 0 pid sno payload)) in
    rw (h1, h2, h3, over) refl
