-- ===== src/Transmit/Receiving.antt =====
-- `TcpFileTransmitter_Receiver` from the accepted connection on: the buffer, the name, the chunks.
use linux_interface_test.Base.{
  ℕ, zero, suc, ◌==◌, leb, if◌then◌else◌, List, [], ◌∷◌, ◌++◌, Bool, true, false, not, ◌||◌, Option,
  none, some, length, get_or, replicate, take, drop, Endian, store32, load32,
}

-- `sizeof(recvBuf)`
abbrev pub buf_size : ℕ
buf_size = 512

-- `len` as an unsigned number, `recvBuf`, what is still in the stream, and what was written
-- to the file, from its start on.
pub record Incoming : Type 0 where
  pub len : ℕ
  pub recv_buf : List ℕ
  pub stream : List ℕ
  pub written : List ℕ

-- How the receiver ends: an access outside the buffer, `return 0`, or not yet.
pub data ReceiverEnd : Type 0 where
  fault : ReceiverEnd
  closed : (name : List ℕ) → (s : Incoming) → ReceiverEnd
  running : ReceiverEnd

-- The first bytes of a buffer or of a file are replaced.
abbrev pub overlay : List ℕ → List ℕ → List ℕ
overlay got buf = got ++ drop (length got) buf

-- What the file holds in the end, over what it held before: `open` does not cut it.
abbrev pub file_after : List ℕ → Incoming → List ℕ
file_after old s = overlay s.written old

-- `recv(clientFd, &len, sizeof(len), MSG_WAITALL)`: it stores as many of the four bytes as come. The
-- first result says whether any came.
unfoldable pub recv_len : Endian → Incoming → Bool × Incoming
recv_len e s =
    let got = take 4 s.stream in
    let mem = overlay got (store32 e s.len) in
    (
      not (length got == 0),
      record s {
        len = load32 e (get_or mem 0 0) (get_or mem 1 0) (get_or mem 2 0) (get_or mem 3 0);
        stream = drop 4 s.stream;
      },
    )

-- `recv(clientFd, recvBuf, len, MSG_WAITALL)`; `none` is a store past the buffer.
unfoldable pub recv_data : Incoming → Option (Bool × Incoming)
recv_data s =
    let got = take s.len s.stream in
    if leb (length got) buf_size
    then some (
      not (length got == 0),
      record s { recv_buf = overlay got s.recv_buf; stream = drop s.len s.stream },
    )
    else none

-- `write(recvFileFd, recvBuf, len)`; `none` is a read past the buffer. Without a file it fails.
unfoldable pub write_file : Bool → Incoming → Option Incoming
write_file opened s =
    if leb s.len buf_size
    then some (if opened then record s { written = s.written ++ take s.len s.recv_buf } else s)
    else none

-- A text up to its zero; `none` is a buffer without one.
unfoldable pub c_string : List ℕ → Option (List ℕ)
c_string [] = none
c_string (b ∷ bs) =
    let rest = c_string bs in
    if b == 0 then some [] else elim rest [ none ↦ none | some text ↦ some (b ∷ text) ]

-- The loop over the chunks, with fuel. A `recv` that brings nothing, the peer closed or the net
-- broken, ends it, and so does a length of 0.
unfoldable pub receive_file : Endian → Bool → List ℕ → ℕ → Incoming → ReceiverEnd
receive_file e opened name zero s = running
receive_file e opened name (suc fuel) s =
    let (any_len, s1) = recv_len e s in
    elim (not any_len || s1.len == 0) [
      | true ↦ closed name s1
      | false ↦ elim (recv_data s1) [
        | none ↦ fault
        | some (any_data, s2) ↦ elim any_data [
          | false ↦ closed name s2
          | true ↦ elim (write_file opened s2) [
            | none ↦ fault
            | some s3 ↦ receive_file e opened name fuel s3
          ]
        ]
      ]
    ]

-- From the accepted connection on, over all bytes that the peer sends before it closes or the net
-- breaks. `opens` says whether a file of a name can be made; `addr_len` is what `accept` left in `len`.
unfoldable pub tcp_file_transmitter_receiver :
    Endian → (List ℕ → Bool) → ℕ → ℕ → List ℕ → ReceiverEnd
unfolding receive_file c_string
tcp_file_transmitter_receiver e opens addr_len fuel stream =
    let s0 : Incoming = record {
      len = addr_len;
      recv_buf = replicate buf_size 0;
      stream = stream;
      written = [];
    } in
    let (_, s1) = recv_len e s0 in
    elim (recv_data s1) [
      | none ↦ fault
      | some (_, s2) ↦ elim (c_string s2.recv_buf) [
        | none ↦ fault
        | some name ↦ receive_file e (opens name) name fuel s2
      ]
    ]
