-- ===== src/UdpOrder/Wire.antt =====
-- What goes over the wire: the header of each datagram, from the sender's block to the receiver.
use linux_interface_test.Base.{
  ◌∙◌, write_bytes, ℕ, suc, ◌+◌, ◌-◌, ◌^◌, ◌≤◌, ◌<◌, ◌≡◌, refl, arith, ◌==◌, if◌then◌else◌, u16,
  u32, List, [], ◌∷◌, ◌++◌, some, length, take, get_or, Endian, little, big, store16, store32,
  ntohs, ntohl,
}
use linux_interface_test.UdpOrder.SendBuf.{get_send_len, random_number_loop}
use linux_interface_test.UdpOrder.CheckSno.{tid_in, sno_in}
use linux_interface_test.UdpOrder.Sender.{
  Sender, SendRet, accepted, refused, write_tid, write_sno, fill_one,
}

-- A block of at least six bytes that holds the two header fields of a datagram.
pub data HasHeader (e : Endian) (tid sno : ℕ) : List ℕ → Type 0 where
  has_header :
      (rest : List ℕ)
      → HasHeader e tid sno (store16 e (ntohs e tid) ++ (store32 e (ntohl e sno) ++ rest))

pub HasHeader-reads :
    (e : Endian) (tid sno : ℕ) (buf : List ℕ)
    → tid < 2 ^ 16
    → sno < 2 ^ 32
    → HasHeader e tid sno buf
    → (tid_in e buf ≡ tid) × (sno_in e buf ≡ sno)
HasHeader-reads little tid sno _ ht hs (has_header rest) = omega arith
HasHeader-reads big tid sno _ ht hs (has_header rest) = omega arith

-- A block of at least six bytes that begins with the index of its sender.
pub data HasTid (e : Endian) (tid : ℕ) : List ℕ → Type 0 where
  has_tid :
      (b2 b3 b4 b5 : ℕ) (rest : List ℕ)
      → HasTid e tid (store16 e (ntohs e tid) ++ (b2 ∷ b3 ∷ b4 ∷ b5 ∷ rest))

pub HasHeader-HasTid :
    (e : Endian) (tid sno : ℕ) (buf : List ℕ) → HasHeader e tid sno buf → HasTid e tid buf
HasHeader-HasTid little tid sno _ (has_header rest) = has_tid _ _ _ _ rest
HasHeader-HasTid big tid sno _ (has_header rest) = has_tid _ _ _ _ rest

pub write_sno-HasHeader :
    (e : Endian) (tid sno : ℕ) (buf : List ℕ)
    → HasTid e tid buf
    → (buf' : List ℕ) × (write_sno e sno buf ≡ some buf')
      × HasHeader e tid sno buf'
      × (length buf' ≡ length buf)
unfolding write_bytes
write_sno-HasHeader little tid sno _ (has_tid b2 b3 b4 b5 rest) = (
  store16 little (ntohs little tid) ++ (store32 little (ntohl little sno) ++ rest),
  ground arith,
  has_header rest,
  refl,
)
write_sno-HasHeader big tid sno _ (has_tid b2 b3 b4 b5 rest) = (
  store16 big (ntohs big tid) ++ (store32 big (ntohl big sno) ++ rest),
  ground arith,
  has_header rest,
  refl,
)

-- The index is stored once before the loop, if the block has room for it.
pub write_tid-HasTid :
    (e : Endian) (tid : ℕ) (buf : List ℕ)
    → tid < 2 ^ 16
    → 6 ≤ length buf
    → (buf' : List ℕ) × (write_tid e tid buf ≡ some buf')
      × HasTid e tid buf'
      × (length buf' ≡ length buf)
unfolding write_bytes
write_tid-HasTid e tid [] ht h = absurd (omega arith)
write_tid-HasTid e tid (b0 ∷ []) ht h = absurd (omega arith)
write_tid-HasTid e tid (b0 ∷ b1 ∷ []) ht h = absurd (omega arith)
write_tid-HasTid e tid (b0 ∷ b1 ∷ b2 ∷ []) ht h = absurd (omega arith)
write_tid-HasTid e tid (b0 ∷ b1 ∷ b2 ∷ b3 ∷ []) ht h = absurd (omega arith)
write_tid-HasTid e tid (b0 ∷ b1 ∷ b2 ∷ b3 ∷ b4 ∷ []) ht h = absurd (omega arith)
write_tid-HasTid little tid (b0 ∷ b1 ∷ b2 ∷ b3 ∷ b4 ∷ b5 ∷ rest) ht h = (
  store16 little (ntohs little tid) ++ (b2 ∷ b3 ∷ b4 ∷ b5 ∷ rest),
  ground arith,
  has_tid b2 b3 b4 b5 rest,
  refl,
)
write_tid-HasTid big tid (b0 ∷ b1 ∷ b2 ∷ b3 ∷ b4 ∷ b5 ∷ rest) ht h = (
  store16 big (ntohs big tid) ++ (b2 ∷ b3 ∷ b4 ∷ b5 ∷ rest),
  ground arith,
  has_tid b2 b3 b4 b5 rest,
  refl,
)

pub take-HasHeader :
    (e : Endian) (tid sno n : ℕ) (buf : List ℕ)
    → 6 ≤ n
    → HasHeader e tid sno buf
    → HasHeader e tid sno (take n buf)
take-HasHeader little tid sno n _ h (has_header rest) =
    let six : n ≡ suc (suc (suc (suc (suc (suc (n - 6)))))) = omega arith in
    rw six (has_header (take (n - 6) rest))
take-HasHeader big tid sno n _ h (has_header rest) =
    let six : n ≡ suc (suc (suc (suc (suc (suc (n - 6)))))) = omega arith in
    rw six (has_header (take (n - 6) rest))

pub append-HasHeader :
    (e : Endian) (tid sno : ℕ) (buf more : List ℕ)
    → HasHeader e tid sno buf
    → HasHeader e tid sno (buf ++ more)
append-HasHeader little tid sno _ more (has_header rest) = has_header (rest ++ more)
append-HasHeader big tid sno _ more (has_header rest) = has_header (rest ++ more)

-- Datagrams of one sender, numbered one after the other.
abbrev pub AllNumbered : Endian → ℕ → ℕ → List (List ℕ) → Type 0
AllNumbered e tid sno [] = Unit {0}
AllNumbered e tid sno (d ∷ ds) = HasHeader e tid sno d × AllNumbered e tid (u32 (sno + 1)) ds

-- How many calls of `send` are accepted before the first refusal.
abbrev pub accepted_first : List SendRet → ℕ
accepted_first [] = 0
accepted_first (refused ∷ os) = 0
accepted_first (accepted ∷ os) = suc (accepted_first os)

-- No length of the table cuts the header off, and none is longer than the block.
abbrev pub AllFit : ℕ → List ℕ → Type 0
AllFit room lens =
    (i : ℕ) → i < random_number_loop → (6 ≤ get_or lens i 0) × (get_or lens i 0 ≤ room)

pub fill_one-HasHeader :
    (e : Endian) (tid sno room : ℕ) (lens : List ℕ) (s : Sender)
    → AllFit room lens
    → length s.send_buf ≡ room
    → s.s_idx ≤ random_number_loop
    → HasTid e tid s.send_buf
    → (s' : Sender) × (d : List ℕ) × (fill_one e lens sno s ≡ some (s', d))
      × HasTid e tid s'.send_buf
      × (length s'.send_buf ≡ room)
      × HasHeader e tid sno d
      × (s'.s_idx ≤ random_number_loop)
      × (s'.kpi ≡ s.kpi)
unfolding fill_one get_send_len
fill_one-HasHeader e tid sno room lens s fits size small has =
    let (buf, written, header, same) = write_sno-HasHeader e tid sno s.send_buf has in
    let i = if s.s_idx == random_number_loop then 0 else s.s_idx in
    let len = get_or lens i 0 in
    (
      record s { send_buf = buf; s_idx = u16 (i + 1) },
      take len buf,
      ground (arith, fits i (ground arith)),
      HasHeader-HasTid e tid sno buf header,
      same ∙ size,
      take-HasHeader e tid sno len buf (fits i (ground arith)).0 header,
      ground arith,
      refl,
    )
