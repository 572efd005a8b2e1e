-- ===== src/Transmit/Rounds.antt =====
-- One round of the receiver's loop, and the bytes of a sequence of chunks on the stream.
use linux_interface_test.Base.{
  ℕ, suc, ◌^◌, ◌≤◌, ◌<◌, ◌≡◌, arith, List, [], ◌∷◌, ◌++◌, true, some, length, drop, ap, Endian,
  little, big, store32, take-length_append, drop-length_append,
}
use linux_interface_test.Transmit.Receiving.{
  Incoming, buf_size, recv_len, recv_data, write_file, receive_file, overlay,
}

-- Chunks, each behind its length, and what follows them.
abbrev pub wire : Endian → List (List ℕ) → List ℕ → List ℕ
wire e [] tail = tail
wire e (c ∷ cs) tail = store32 e (length c) ++ (c ++ wire e cs tail)

abbrev pub concat : List (List ℕ) → List ℕ
concat [] = []
concat (c ∷ cs) = c ++ concat cs

-- Results of `read` that are not the end of the file and fit a buffer.
abbrev pub AllChunks : ℕ → List (List ℕ) → Type 0
AllChunks n [] = Unit {0}
AllChunks n (c ∷ cs) = (0 < length c) × (length c ≤ n) × AllChunks n cs

abbrev pub incoming : ℕ → List ℕ → List ℕ → List ℕ → Incoming
incoming len buf stream file = record { len = len; recv_buf = buf; stream = stream; written = file }

pub recv_len-store32 :
    (e : Endian) (a w : ℕ) (buf rest file : List ℕ)
    → w < 2 ^ 32
    → recv_len e (incoming a buf (store32 e w ++ rest) file) ≡ (true, incoming w buf rest file)
unfolding recv_len
recv_len-store32 little a w buf rest file h =
    ap (λ (n : ℕ). (true, incoming n buf rest file)) (omega arith)
recv_len-store32 big a w buf rest file h =
    ap (λ (n : ℕ). (true, incoming n buf rest file)) (omega arith)

recv_data-append :
    (c buf rest file : List ℕ)
    → 0 < length c
    → length c ≤ buf_size
    → recv_data (incoming (length c) buf (c ++ rest) file)
      ≡ some (true, incoming (length c) (overlay c buf) rest file)
unfolding recv_data
recv_data-append c buf rest file h k =
    ground (arith, take-length_append c rest, drop-length_append c rest)

write_file-overlay :
    (c buf rest file : List ℕ)
    → length c ≤ buf_size
    → write_file true (incoming (length c) (overlay c buf) rest file)
      ≡ some (incoming (length c) (overlay c buf) rest (file ++ c))
unfolding write_file
write_file-overlay c buf rest file k = ground (arith, take-length_append c (drop (length c) buf))

-- A chunk goes into the file, and the buffer keeps it.
pub receive_file-chunk :
    (e : Endian) (name : List ℕ) (fuel a : ℕ) (c buf rest file : List ℕ)
    → 0 < length c
    → length c ≤ buf_size
    → receive_file e true name
        (suc fuel)
        (incoming a buf (store32 e (length c) ++ (c ++ rest)) file)
      ≡ receive_file e true name fuel (incoming (length c) (overlay c buf) rest (file ++ c))
unfolding receive_file
receive_file-chunk e name fuel a c buf rest file h k = ground (
  arith,
  recv_len-store32 e a (length c) buf (c ++ rest) file (omega arith),
  recv_data-append c buf rest file h k,
  write_file-overlay c buf rest file k,
)
