-- ===== src/UdpOrder/Block.antt =====
-- The block that `PrepareSendBuf` gives the sender: its content, and the stores of the header in it.
use linux_interface_test.Base.{
  length-store16, length-store32, write_bytes-fits, write_bytes-overflows, ℕ, zero, suc, ◌+◌, ◌-◌,
  ◌%◌, ◌≤◌, ◌<◌, ◌≡◌, ◌⊎◌, ◌↔◌, inl, inr, refl, arith, ltb, u16, List, Bool-cases, none, some,
  length, get_or, set, length-set, get_or-set_self, get_or-set_ne, ◌∙◌, sym, store16, store32,
  ntohs, ntohl, Endian,
}
use linux_interface_test.UdpOrder.SendBuf.{returns, prepare_send_buf, fill_letters, header_size}
use linux_interface_test.UdpOrder.Sender.{write_tid, write_sno}

length-fill_letters :
    (idx left : ℕ) (buf : List ℕ) → length (fill_letters idx left buf) ≡ length buf
unfolding fill_letters
length-fill_letters idx zero buf = refl
length-fill_letters idx (suc left) buf =
    length-fill_letters (idx + 1) left (set buf idx (b'a' + idx % 25)) ∙ length-set buf idx _

get_or-fill_letters :
    (idx left i : ℕ) (buf : List ℕ)
    → i < length buf
    → (idx ≤ i → i < idx + left → get_or (fill_letters idx left buf) i 0 ≡ b'a' + i % 25)
      × ((i < idx) ⊎ (idx + left ≤ i) → get_or (fill_letters idx left buf) i 0 ≡ get_or buf i 0)
unfolding fill_letters
get_or-fill_letters idx zero i buf h = (λ a b. absurd (omega arith), λ o. refl)
get_or-fill_letters idx (suc left) i buf h = ground (
  arith,
  length-set buf idx (b'a' + idx % 25),
  get_or-fill_letters (idx + 1) left i (set buf idx (b'a' + idx % 25)),
  get_or-set_self buf idx (b'a' + idx % 25) 0,
  get_or-set_ne buf idx i (b'a' + idx % 25) 0,
)

-- `PrepareSendBuf` for a length of at least 7 leaves the six header bytes as `malloc` gave them,
-- fills letters up to the last byte but one of the length, and ends them by a zero.
pub prepare_send_buf_lem :
    (data_len : ℕ) (block : List ℕ)
    → 7 ≤ data_len
    → length block ≡ data_len + 1
    → (buf : List ℕ) × (prepare_send_buf data_len (some block) ≡ returns (some buf))
      × (length buf ≡ data_len + 1)
      × ((i : ℕ) → i < header_size → get_or buf i 0 ≡ get_or block i 0)
      × ((i : ℕ) → header_size ≤ i → i < data_len - 1 → get_or buf i 0 ≡ b'a' + i % 25)
      × (get_or buf (data_len - 1) 0 ≡ 0)
unfolding prepare_send_buf
prepare_send_buf_lem data_len block h size =
    let filled = fill_letters header_size (data_len - header_size) block in
    let len : length filled ≡ data_len + 1 =
      length-fill_letters header_size (data_len - header_size) block ∙ size in
    (
      set filled (data_len - 1) 0,
      ground arith,
      length-set filled (data_len - 1) 0 ∙ len,
      λ i small.
          get_or-set_ne filled (data_len - 1) i 0 0 (ground arith)
          ∙ (get_or-fill_letters header_size (data_len - header_size) i block
                (omega (arith, size))).1
              (inl small),
      λ i large small.
          get_or-set_ne filled (data_len - 1) i 0 0 (ground arith)
          ∙ (get_or-fill_letters header_size (data_len - header_size) i block
                (omega (arith, size))).0
              large (omega arith),
      get_or-set_self filled (data_len - 1) 0 0 (omega (arith, len)),
    )

-- Both header fields can be stored in the block.
abbrev pub HoldsHeader : Endian → ℕ → ℕ → List ℕ → Type 0
HoldsHeader e tid sno buf =
    (b1 : List ℕ) × (b2 : List ℕ) × (write_tid e tid buf ≡ some b1) × (write_sno e sno b1 ≡ some b2)

HoldsHeader-iff :
    (e : Endian) (tid sno : ℕ) (buf : List ℕ)
    → 2 ≤ length buf
    → HoldsHeader e tid sno buf ↔ (6 ≤ length buf)
HoldsHeader-iff e tid sno buf two =
    let (b1, stored, len) =
      write_bytes-fits buf (store16 e (ntohs e (u16 tid))) 0
        (omega (arith, length-store16 e (ntohs e (u16 tid)))) in
    (
      λ (c1, c2, s1, s2). elim (Bool-cases (ltb (length buf) 6)) [
        | inl short ↦
            let over : write_sno e sno b1 ≡ none =
              write_bytes-overflows b1 (store32 e (ntohl e sno)) 2 (omega (arith, len))
                (ground (arith, len, length-store32 e (ntohl e sno))) in
            let same : some b1 ≡ some c1 = sym stored ∙ s1 in absurd (cc (over, same, s2))
        | inr fits ↦ ground arith
      ],
      λ six.
          let (b2, stored2, _) =
            write_bytes-fits b1 (store32 e (ntohl e sno)) 2
              (omega (arith, len, length-store32 e (ntohl e sno))) in
          (b1, b2, stored, stored2),
    )

-- `PrepareSendBuf` refuses only the length 0, but the header needs six bytes: both of its fields can
-- be stored in the block of `data_len + 1` bytes exactly when the length is at least 5.
pub prepare_send_buf-HoldsHeader :
    (e : Endian) (tid sno data_len : ℕ) (block : List ℕ)
    → 0 < data_len
    → length block ≡ data_len + 1
    → (buf : List ℕ) × (prepare_send_buf data_len (some block) ≡ returns (some buf))
      × (HoldsHeader e tid sno buf ↔ (5 ≤ data_len))
unfolding prepare_send_buf
prepare_send_buf-HoldsHeader e tid sno data_len block h size =
    let filled = fill_letters header_size (data_len - header_size) block in
    let len =
      length-set filled (data_len - 1) 0
      ∙ length-fill_letters header_size (data_len - header_size) block
      ∙ size in
    let (there, back) =
      HoldsHeader-iff e tid sno (set filled (data_len - 1) 0) (omega (arith, len)) in
    (
      set filled (data_len - 1) 0,
      ground arith,
      (λ holds. omega (arith, len, there holds), λ five. back (omega (arith, len))),
    )
