-- ===== src/UdpOrder/SendBuf.antt =====
-- `PrepareSendBuf`, `InitRandomLenBuf` and `GetSendLen`.
use linux_interface_test.Base.{
  ℕ, zero, suc, ◌+◌, ◌-◌, ◌%◌, ◌==◌, ltb, if◌then◌else◌, u16, List, [], ◌∷◌, Option, none, some,
  get_or, set,
}

-- A function returns, or ends the process by `exit(-1)`.
pub data Flow {ℓ} (A : Type ℓ) : Type ℓ where
  returns : A → Flow A
  exits : Flow A

-- The loop of `PrepareSendBuf` at `idx`, with `left` rounds to go.
unfoldable pub fill_letters : ℕ → ℕ → List ℕ → List ℕ
fill_letters idx zero buf = buf
fill_letters idx (suc left) buf = fill_letters (idx + 1) left (set buf idx (b'a' + idx % 25))

abbrev pub header_size : ℕ
header_size = 6

-- What `malloc` returned is a parameter: `none`, or `dataLen + 1` bytes of any content.
unfoldable pub prepare_send_buf : ℕ → Option (List ℕ) → Flow (Option (List ℕ))
unfolding fill_letters
prepare_send_buf data_len malloced = if data_len == 0 then returns none else elim malloced [
  | none ↦ exits
  | some block ↦
      returns
        (some (set (fill_letters header_size (data_len - header_size) block) (data_len - 1) 0))
]

abbrev pub random_number_loop : ℕ
random_number_loop = 10000

-- The first loop of `InitRandomLenBuf`.
unfoldable pub fill_same : ℕ → ℕ → List ℕ
fill_same min_len zero = []
fill_same min_len (suc left) = min_len ∷ fill_same min_len left

-- The second loop of `InitRandomLenBuf`; `random` gives the results of the calls in order.
unfoldable pub fill_random : (ℕ → ℕ) → ℕ → ℕ → ℕ → ℕ → List ℕ
fill_random random min_len delta_len idx zero = []
fill_random random min_len delta_len idx (suc left) =
    u16 (min_len + random idx % delta_len) ∷ fill_random random min_len delta_len (idx + 1) left

-- `gRandSendLen`. The lengths are uint16_t.
unfoldable pub init_random_len_buf : (ℕ → ℕ) → ℕ → ℕ → Flow (List ℕ)
init_random_len_buf random min_len max_len =
    let delta_len = u16 (max_len + 65536 - min_len) in
    if ltb max_len min_len
    then exits
    else if delta_len == 0
    then returns (fill_same min_len random_number_loop)
    else returns (fill_random random min_len delta_len 0 random_number_loop)

-- The length, and the next `sIdx`.
unfoldable pub get_send_len : List ℕ → ℕ → ℕ × ℕ
get_send_len lens s_idx =
    let i = if s_idx == random_number_loop then 0 else s_idx in (get_or lens i 0, u16 (i + 1))
