-- ===== src/Transmit/RoundTrip.antt =====
-- The sender's stream, read by the receiver.
use linux_interface_test.Base.{
  drop, length, ℕ, zero, suc, ◌+◌, ◌^◌, ◌≤◌, ◌<◌, ◌≡◌, refl, arith, List, [], ◌∷◌, ◌++◌, Bool, true,
  false, some, length, replicate, ap, ◌∙◌, sym, Endian, store32, append_assoc, append-nil,
  is_minus_one, to_u32,
}
use linux_interface_test.Transmit.Sending.{
  LastRead, eof, read_error, size_of_last, Outgoing, SenderEnv, send_file, sent_all,
  tcp_file_transmitter_sender,
}
use linux_interface_test.Transmit.Receiving.{
  Incoming, closed, buf_size, recv_data, receive_file, overlay, file_after,
  tcp_file_transmitter_receiver,
}
use linux_interface_test.Transmit.Rounds.{
  wire, concat, AllChunks, incoming, recv_len-store32, receive_file-chunk,
}
use linux_interface_test.Transmit.Names.{AllNonzero, receiver-name}

-- What the sender ends the stream with.
abbrev pub last_bytes : Endian → LastRead → List ℕ
last_bytes e last = store32 e (to_u32 (size_of_last last))

send_file-wire :
    (e : Endian) (sends : ℕ → Bool) (last : LastRead) (n : ℕ) (cs : List (List ℕ)) (w : Outgoing)
    → ((i : ℕ) → sends i ≡ true)
    → AllChunks n cs
    → (w' : Outgoing) × (send_file e sends last cs w ≡ sent_all w')
      × (w'.stream ≡ w.stream ++ wire e cs (last_bytes e last))
unfolding send_file
send_file-wire e sends last n [] w ok all = (_, refl, rw (ok w.calls) refl)
send_file-wire e sends last n ([] ∷ cs) w ok all = absurd (omega (arith, all.0))
send_file-wire e sends last n ((b ∷ bs) ∷ cs) w ok (_, _, all) =
    let w1 : Outgoing = record {
      stream = w.stream ++ store32 e (length (b ∷ bs));
      calls = w.calls + 1;
    } in
    let w2 : Outgoing = record { stream = w1.stream ++ (b ∷ bs); calls = w1.calls + 1 } in
    let (w', run, bytes) = send_file-wire e sends last n cs w2 ok all in
    (
      w',
      rw (ok w.calls, ok (w.calls + 1)) run,
      bytes
          ∙ append_assoc (w.stream ++ store32 e (length (b ∷ bs))) (b ∷ bs)
              (wire e cs (last_bytes e last))
          ∙ append_assoc w.stream (store32 e (length (b ∷ bs)))
              ((b ∷ bs) ++ wire e cs (last_bytes e last)),
    )

pub recv_data-nil :
    (n : ℕ) (buf file : List ℕ)
    → 0 < n
    → recv_data (incoming n buf [] file) ≡ some (false, incoming n buf [] file)
unfolding recv_data
recv_data-nil zero buf file h = absurd (omega arith)
recv_data-nil (suc n) buf file h = refl

-- A length with nothing behind it ends the receiver.
pub receive_file-cut :
    (e : Endian) (opened : Bool) (name : List ℕ) (fuel a w : ℕ) (buf file : List ℕ)
    → w < 2 ^ 32
    → receive_file e opened name (suc fuel) (incoming a buf (store32 e w ++ []) file)
      ≡ closed name (incoming w buf [] file)
unfolding receive_file
receive_file-cut e opened name fuel a zero buf file small =
    ground (arith, recv_len-store32 e a 0 buf [] file small)
receive_file-cut e opened name fuel a (suc w) buf file small = ground (
  arith,
  recv_len-store32 e a (suc w) buf [] file small,
  recv_data-nil (suc w) buf file (omega arith),
)

receive_file-last :
    (e : Endian) (name : List ℕ) (fuel a : ℕ) (last : LastRead) (buf file : List ℕ)
    → (s : Incoming) × (receive_file e true name
          (suc fuel)
          (incoming a buf (last_bytes e last) file)
        ≡ closed name s)
      × (s.written ≡ file)
receive_file-last e name fuel a last buf file = (
  incoming (to_u32 (size_of_last last)) buf [] file,
  ap (λ st. receive_file e true name (suc fuel) (incoming a buf st file))
        (sym (append-nil (last_bytes e last)))
      ∙ receive_file-cut e true name fuel a (to_u32 (size_of_last last)) buf file
          (to_u32-small last),
  refl,
)
  where
    to_u32-small : (last : LastRead) → to_u32 (size_of_last last) < 2 ^ 32
    to_u32-small eof = omega arith
    to_u32-small read_error = omega arith

receive_file-wire :
    (e : Endian) (name : List ℕ) (fuel a : ℕ) (last : LastRead) (cs : List (List ℕ))
    (buf file : List ℕ)
    → AllChunks buf_size cs
    → length cs < fuel
    → (s : Incoming) × (receive_file e true name fuel
          (incoming a buf (wire e cs (last_bytes e last)) file)
        ≡ closed name s)
      × (s.written ≡ file ++ concat cs)
receive_file-wire e name zero a last cs buf file all h = absurd (omega arith)
receive_file-wire e name (suc fuel) a last [] buf file all h =
    let (s, run, same) = receive_file-last e name fuel a last buf file in
    (s, run, same ∙ sym (append-nil file))
receive_file-wire e name (suc fuel) a last (c ∷ cs) buf file (some_, fits, all) h =
    let (s, run, bytes) =
      receive_file-wire e name fuel (length c) last cs (overlay c buf) (file ++ c) all
        (omega arith) in
    (
      s,
      receive_file-chunk e name fuel a c buf (wire e cs (last_bytes e last)) file some_ fits ∙ run,
      bytes ∙ append_assoc file c (concat cs),
    )

-- The whole stream of a sender none of whose calls fails.
sender-wire :
    (e : Endian) (env : SenderEnv) (n : ℕ)
    → env.argc ≡ 2
    → is_minus_one env.socket_ret ≡ false
    → is_minus_one env.connect_ret ≡ false
    → is_minus_one env.open_ret ≡ false
    → ((i : ℕ) → env.sends i ≡ true)
    → AllChunks n env.reads
    → (w : Outgoing) × (tcp_file_transmitter_sender e env ≡ sent_all w)
      × (w.stream
          ≡ store32 e (length env.file_name)
            ++ (env.file_name ++ wire e env.reads (last_bytes e env.last)))
unfolding tcp_file_transmitter_sender
sender-wire e env n argc socket connect open_ sends chunks =
    let w2 : Outgoing = record {
      stream = store32 e (length env.file_name) ++ env.file_name;
      calls = 2;
    } in
    let (w, run, bytes) = send_file-wire e env.sends env.last n env.reads w2 sends chunks in
    (
      w,
      rw (argc, socket, connect, open_, sends 0, sends 1) run,
      bytes ∙ append_assoc (store32 e (length env.file_name)) env.file_name _,
    )

AllChunks-le : (m n : ℕ) (cs : List (List ℕ)) → m ≤ n → AllChunks m cs → AllChunks n cs
AllChunks-le m n [] h all = tt
AllChunks-le m n (c ∷ cs) h (some_, fits, all) = (some_, omega arith, AllChunks-le m n cs h all)

-- When no call of the sender fails and the receiver can open the file, the receiver writes, under the
-- name, all that the sender has read from the file in pieces of 1 to 128 bytes, on hosts of one byte
-- order and for a name of at most 511 bytes, none of them zero. The file then holds this, and behind it
-- what an older, longer file of the name held there: a new file, or one that was not longer, holds just this. A file whose reading failed halfway is stored in
-- the same way, so that the receiver does not see the failure.
pub receiver-sender :
    (e : Endian) (env : SenderEnv) (opens : List ℕ → Bool) (addr_len fuel : ℕ) (old : List ℕ)
    → env.argc ≡ 2
    → is_minus_one env.socket_ret ≡ false
    → is_minus_one env.connect_ret ≡ false
    → is_minus_one env.open_ret ≡ false
    → ((i : ℕ) → env.sends i ≡ true)
    → AllChunks 128 env.reads
    → AllNonzero env.file_name
    → length env.file_name < buf_size
    → opens env.file_name ≡ true
    → length env.reads < fuel
    → (w : Outgoing) × (s : Incoming) × (tcp_file_transmitter_sender e env ≡ sent_all w)
      × (tcp_file_transmitter_receiver e opens addr_len fuel w.stream ≡ closed env.file_name s)
      × (file_after old s ≡ concat env.reads ++ drop (length (concat env.reads)) old)
unfolding tcp_file_transmitter_sender
receiver-sender e env opens addr_len fuel old argc socket connect open_ sends chunks nonzero fits
      opened enough =
    let (w, sent, bytes) = sender-wire e env 128 argc socket connect open_ sends chunks in
    let (s, received, stored) =
      receive_file-wire e env.file_name fuel (length env.file_name) env.last env.reads
        (overlay env.file_name (replicate buf_size 0)) []
        (AllChunks-le 128 buf_size env.reads (omega arith) chunks) enough in
    (
      w,
      s,
      sent,
      ap (tcp_file_transmitter_receiver e opens addr_len fuel) bytes
          ∙ receiver-name e opens addr_len fuel env.file_name
              (wire e env.reads (last_bytes e env.last)) nonzero fits
          ∙ rw opened received,
      ap (λ t. overlay t old) stored,
    )
