-- ===== src/Checksum.antt =====
-- The Internet checksums of the raw-socket programs (src/socketRaw/rawSocketDump.cpp and
-- src/socketRaw/rawSocketUdpSendTest.cpp, which hold the same two functions) and of src/icmp/ping.cpp.
-- A buffer is the list of its `len` bytes. An odd last byte is what is left in the list.
pub mod Spec
pub mod Steps
pub mod Result
pub mod Verify
mod Tests
use linux_interface_test.Base.{
  ℕ, zero, suc, ◌+◌, ◌-◌, ◌*◌, ◌/◌, ◌%◌, ◌^◌, Option, none, some, List, [], ◌∷◌, leb, ltb, ◌==◌,
  if◌then◌else◌, u16, u32, Endian, little, big, load16, ntohs,
}

-- `sum = (sum & 0xffff) + (sum >> 16)` in a uint32_t
pub fold_carry : ℕ → ℕ
fold_carry sum = u32 (sum % 65536 + sum / 65536)

-- `sum += *word++`, and the carries are added in as soon as bit 31 is set.
pub add_word : ℕ → ℕ → ℕ
unfolding fold_carry
add_word sum w = let sum' = u32 (sum + w) in if leb 0x80000000 sum' then fold_carry sum' else sum'

-- The loop of `CalcIpv4HdrCheckSum` and of `CalcUdpCheckSum`, with the odd byte after it.
pub add_words : Endian → ℕ → List ℕ → ℕ
unfolding add_word
add_words e sum [] = sum
add_words e sum (b ∷ []) = u32 (sum + b)
add_words e sum (b0 ∷ b1 ∷ rest) = add_words e (add_word sum (load16 e b0 b1)) rest

-- `(uint16_t)~sum`
abbrev pub not16 : ℕ → ℕ
not16 sum = 65535 - sum % 65536

unfoldable pub calc_ipv4_hdr_check_sum : Endian → List ℕ → ℕ
unfolding add_words
calc_ipv4_hdr_check_sum e buf =
    let sum = add_words e 0 buf in
    let sum' = u32 (sum / 65536 + sum % 65536) in not16 (u32 (sum' + sum' / 65536))

-- `while (sum >> 16) sum = (sum & 0xFFFF) + (sum >> 16);` with fuel; `none` means that it ran out.
pub add_carries : ℕ → ℕ → Option ℕ
unfolding fold_carry
add_carries zero sum = none
add_carries (suc fuel) sum =
    let rest = add_carries fuel (fold_carry sum) in if sum / 65536 == 0 then some sum else rest

abbrev pub carry_fuel : ℕ
carry_fuel = 3

abbrev pub ipproto_udp : ℕ
ipproto_udp = 17

-- An IPv4 address is a uint32_t in memory order, read as two words.
pub record Ipv4 : Type 0 where
  pub a0 : ℕ
  pub a1 : ℕ
  pub a2 : ℕ
  pub a3 : ℕ

-- `sum` with the pseudo-header added: the two addresses, the protocol and the length.
pub add_pseudo_header : Endian → ℕ → Ipv4 → Ipv4 → ℕ → ℕ
add_pseudo_header e sum src dst len =
    let s1 = u32 (sum + load16 e src.a0 src.a1) in
    let s2 = u32 (s1 + load16 e src.a2 src.a3) in
    let s3 = u32 (s2 + load16 e dst.a0 dst.a1) in
    let s4 = u32 (s3 + load16 e dst.a2 dst.a3) in
    let s5 = u32 (s4 + ntohs e ipproto_udp) in u32 (s5 + ntohs e len)

-- `len` is the length of `buf`, a uint16_t.
unfoldable pub calc_udp_check_sum : Endian → List ℕ → ℕ → Ipv4 → Ipv4 → Option ℕ
unfolding add_words add_pseudo_header add_carries
calc_udp_check_sum e buf len src dst =
    elim (add_carries carry_fuel (add_pseudo_header e (add_words e 0 buf) src dst len)) [
      | none ↦ none
      | some sum ↦ some (not16 sum)
    ]

-- `int` addition of non-negative values; `none` is the overflow that C leaves undefined.
pub add_int : ℕ → ℕ → Option ℕ
add_int a b = if ltb (a + b) (2 ^ 31) then some (a + b) else none

-- The loop of `CalcCheckSum` in ping.cpp. The odd byte is stored into the first byte of `answer`.
pub sum_ints : Endian → ℕ → List ℕ → Option ℕ
unfolding add_int
sum_ints e sum [] = some sum
sum_ints e sum (b ∷ []) = add_int sum (load16 e b 0)
sum_ints e sum (b0 ∷ b1 ∷ rest) = elim (add_int sum (load16 e b0 b1)) [
  | none ↦ none
  | some sum' ↦ sum_ints e sum' rest
]

unfoldable pub calc_check_sum : Endian → List ℕ → Option ℕ
unfolding sum_ints
calc_check_sum e buf = elim (sum_ints e 0 buf) [
  | none ↦ none
  | some sum ↦ let sum' = sum / 65536 + sum % 65536 in some (not16 (sum' + sum' / 65536))
]
