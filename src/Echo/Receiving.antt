-- ===== src/Echo/Receiving.antt =====
-- `ServerRecv` on messages of every length that its buffer takes.
use linux_interface_test.Base.{
  ℕ, zero, suc, ◌≤◌, ◌<◌, ◌≡◌, refl, arith, ◌==◌, if◌then◌else◌, List, [], ◌∷◌, ◌++◌, true,
  Bool-cases, inl, inr, none, some, length, get_or, drop, ap, ◌∙◌, append-nil, write_bytes,
  write_bytes-splice, write_bytes-overflows,
}
use linux_interface_test.Echo.{Reply, recv_buf_size, echo_answer, server_recv}

drop_cons : (xs : List ℕ) (n : ℕ) → n < length xs → drop n xs ≡ get_or xs n 0 ∷ drop (suc n) xs
drop_cons [] n h = absurd (omega arith)
drop_cons (x ∷ xs) zero h = refl
drop_cons (x ∷ xs) (suc n) h = drop_cons xs n (omega arith)

drop_all : (xs : List ℕ) (n : ℕ) → length xs ≤ n → drop n xs ≡ []
drop_all [] zero h = refl
drop_all [] (suc n) h = refl
drop_all (x ∷ xs) zero h = absurd (omega arith)
drop_all (x ∷ xs) (suc n) h = drop_all xs n (omega arith)

-- The answer to a message, with the message and a zero behind it in the buffer.
abbrev pub answer_to : List ℕ → List ℕ → Reply
answer_to recv_buf message = record {
  ok = true;
  sent = echo_answer;
  closes = true;
  printed = message ++ (0 ∷ drop (suc (length message)) recv_buf);
}

terminated :
    (recv_buf message : List ℕ)
    → length message < length recv_buf
    → write_bytes (message ++ drop (length message) recv_buf) (length message) (0 ∷ [])
      ≡ some (message ++ (0 ∷ drop (suc (length message)) recv_buf))
terminated recv_buf message h =
    ap (λ (t : List ℕ). write_bytes (message ++ t) (length message) (0 ∷ []))
      (drop_cons recv_buf (length message) h)
    ∙ write_bytes-splice message (get_or recv_buf (length message) 0 ∷ []) (0 ∷ [])
        (drop (suc (length message)) recv_buf) refl

no_room :
    (recv_buf message : List ℕ)
    → length message ≡ length recv_buf
    → write_bytes (message ++ drop (length message) recv_buf) (length message) (0 ∷ []) ≡ none
no_room recv_buf message h =
    rw (drop_all recv_buf (length message) (omega (arith, h)), append-nil message)
      (write_bytes-overflows message (0 ∷ []) (length message) (omega arith) (omega arith))

pub server_recv_short :
    (recv_buf : List ℕ) (b : ℕ) (bs : List ℕ)
    → length (b ∷ bs) < length recv_buf
    → server_recv recv_buf (some (b ∷ bs)) ≡ some (answer_to recv_buf (b ∷ bs))
unfolding server_recv
server_recv_short recv_buf b bs h = rw (server_recv, terminated recv_buf (b ∷ bs) h) refl

-- `ServerRecv` answers every message of at most 511 bytes: it stores a zero behind the bytes, sends
-- "666", closes the socket and returns 0. A message that fills `recvBuf` makes it store its zero
-- behind the buffer.
pub server_recv_lem :
    (recv_buf : List ℕ) (b : ℕ) (bs : List ℕ)
    → length recv_buf ≡ recv_buf_size
    → length (b ∷ bs) ≤ recv_buf_size
    → server_recv recv_buf (some (b ∷ bs))
      ≡ (if length (b ∷ bs) == recv_buf_size then none else some (answer_to recv_buf (b ∷ bs)))
unfolding server_recv
server_recv_lem recv_buf b bs size fits = elim (Bool-cases (length (b ∷ bs) == recv_buf_size)) [
  | inl full ↦ rw (server_recv, no_room recv_buf (b ∷ bs) (ground (arith, full, size)), full) refl
  | inr short ↦ rw (short, server_recv_short recv_buf b bs (ground (arith, short, size, fits))) refl
]
