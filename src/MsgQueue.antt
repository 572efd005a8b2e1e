-- ===== src/MsgQueue.antt =====
-- src/msgQueue/msgQueueTest.cpp and src/msgQueue/msgQueueRecv.cpp: the loop that sends numbered messages
-- to a queue, and the loop that receives them. A queue is the list of its messages, all of one priority.
use linux_interface_test.Base.{
  ◌^◌, ◌&&◌, length-store32, ℕ, zero, suc, ◌+◌, ◌-◌, ◌*◌, ◌/◌, ◌%◌, ◌≡◌, ◌≤◌, ◌<◌, refl, arith, leb,
  ltb, lt→ltb, write_bytes-overflows, if◌then◌else◌, List, [], ◌∷◌, ◌++◌, append_assoc, append-nil,
  Bool, true, false, Bool-cases, Option, none, some, length, length-append, take, write_bytes,
  write_bytes-fits, write_bytes-splice, Endian, little, big, store32, inl, inr, ap, ◌∙◌, sym,
}
mod Tests

-- The digits of `sendBuf` from `idx` on.
unfoldable pub fill_digits : ℕ → ℕ → List ℕ
fill_digits idx zero = []
fill_digits idx (suc left) = (48 + idx % 10) ∷ fill_digits (idx + 1) left

-- The loop of `MsgQueueSendLoop`, at its round `times`, with whether each `mq_send` succeeds: the
-- messages in the queue, and false when it returns -1. A store outside `sendBuf` is none.
unfoldable pub send_loop : Endian → (ℕ → Bool) → ℕ → ℕ → List ℕ → Option (List (List ℕ) × Bool)
send_loop e accepts times zero send_buf = some ([], true)
send_loop e accepts times (suc left) send_buf = elim (write_bytes send_buf 0 (store32 e times)) [
  | none ↦ none
  | some stamped ↦ elim (accepts times) [
    | false ↦ some ([], false)
    | true ↦ elim (send_loop e accepts (times + 1) left stamped) [
      | none ↦ none
      | some more ↦ some (stamped ∷ more.0, more.1)
    ]
  ]
]

-- `MsgQueueSendLoop` on a buffer and a queue that are there.
unfoldable pub msg_queue_send_loop : Endian → (ℕ → Bool) → ℕ → ℕ → Option (List (List ℕ) × Bool)
unfolding fill_digits send_loop
msg_queue_send_loop e accepts zero send_loops = some ([], false)
msg_queue_send_loop e accepts (suc n) zero = some ([], false)
msg_queue_send_loop e accepts (suc n) (suc loops) =
    send_loop e accepts 0 (suc loops) (fill_digits 0 (suc n))

-- `gTotalMsgNum` and `gTotalMsgLen`
pub record Totals : Type 0 where
  pub total_msg_num : ℕ
  pub total_msg_len : ℕ

-- The loop of `MsgQueueRecv_RecvMsg` with `left` of its rounds to go. `mq_receive` fails when the length
-- that it is given, the queue's greatest number of messages, is below the size of its messages; on
-- an empty queue the loop waits. A store behind `recvBuf` and an overflow of a total, an int, are none.
unfoldable pub recv_loop : ℕ → ℕ → ℕ → List (List ℕ) → Totals → Option Totals
recv_loop mq_maxmsg mq_msgsize zero queue t = some t
recv_loop mq_maxmsg mq_msgsize (suc left) [] t = some t
recv_loop mq_maxmsg mq_msgsize (suc left) ([] ∷ queue) t =
    let rest = recv_loop mq_maxmsg mq_msgsize left queue t in
    if ltb mq_maxmsg mq_msgsize then some t else rest
recv_loop mq_maxmsg mq_msgsize (suc left) ((b ∷ bs) ∷ queue) t =
    let rest = recv_loop mq_maxmsg mq_msgsize left queue (record {
      total_msg_num = t.total_msg_num + 1;
      total_msg_len = t.total_msg_len + length (b ∷ bs);
    }) in
    if ltb mq_maxmsg mq_msgsize
    then some t
    else if ltb (length (b ∷ bs)) 512
        && ltb (t.total_msg_num + 1) (2 ^ 31)
        && ltb (t.total_msg_len + length (b ∷ bs)) (2 ^ 31)
    then rest
    else none

-- The messages: each number, and digits behind it.
abbrev pub stamped_from : Endian → ℕ → ℕ → List ℕ → List (List ℕ)
stamped_from e times zero rest = []
stamped_from e times (suc left) rest =
    (store32 e times ++ rest) ∷ stamped_from e (times + 1) left rest

abbrev pub all_accepted : ℕ → Bool
all_accepted times = true

send_loop-stamped :
    (e : Endian) (times left : ℕ) (old rest : List ℕ)
    → length old ≡ 4
    → send_loop e all_accepted times left (old ++ rest)
      ≡ some (stamped_from e times left rest, true)
unfolding send_loop
send_loop-stamped e times zero old rest four = refl
send_loop-stamped e times (suc left) old rest four =
    let stored : write_bytes (old ++ rest) 0 (store32 e times) ≡ some (store32 e times ++ rest) =
      write_bytes-splice [] old (store32 e times) rest (four ∙ sym (length-store32 e times)) in
    rw
      (
        send_loop,
        stored,
        send_loop-stamped e (times + 1) left (store32 e times) rest (length-store32 e times),
      )
      refl

length-fill_digits : (idx left : ℕ) → length (fill_digits idx left) ≡ left
unfolding fill_digits
length-fill_digits idx zero = refl
length-fill_digits idx (suc left) = ap suc (length-fill_digits (idx + 1) left)

abbrev pub with_totals : ℕ → ℕ → Totals
with_totals num len = record { total_msg_num = num; total_msg_len = len }

one_more :
    (num len left more : ℕ)
    → some (with_totals (num + 1 + left) (len + more + left * more))
      ≡ some (with_totals (num + suc left) (len + suc left * more))
one_more num len left more =
    let a : num + 1 + left ≡ num + suc left = omega arith in
    let b : len + more + left * more ≡ len + suc left * more = omega arith in
    λ i. some (with_totals (a i) (b i))

-- A message that fits is counted.
recv_one :
    (maxmsg size left num len more : ℕ) (message : List ℕ) (queue : List (List ℕ))
    → ltb maxmsg size ≡ false
    → length message ≡ more
    → 0 < more
    → more < 512
    → num + 1 < 2 ^ 31
    → len + more < 2 ^ 31
    → recv_loop maxmsg size (suc left) (message ∷ queue) (with_totals num len)
      ≡ recv_loop maxmsg size left queue (with_totals (num + 1) (len + more))
unfolding recv_loop
recv_one maxmsg size left num len more [] queue fits same some_bytes small few short =
    absurd (omega (arith, same))
recv_one maxmsg size left num len more (b ∷ bs) queue fits same some_bytes small few short =
    rw
      (
        fits,
        lt→ltb (length (b ∷ bs)) 512 (omega (arith, same)),
        lt→ltb (num + 1) (2 ^ 31) few,
        lt→ltb (len + length (b ∷ bs)) (2 ^ 31) (omega (arith, same, short)),
      )
      (ap (λ n. recv_loop maxmsg size left queue (with_totals (num + 1) (len + n))) same)

recv_stamped :
    (e : Endian) (maxmsg size times left num len : ℕ) (rest : List ℕ)
    → ltb maxmsg size ≡ false
    → 4 + length rest < 512
    → num + left < 2 ^ 31
    → len + left * (4 + length rest) < 2 ^ 31
    → recv_loop maxmsg size left (stamped_from e times left rest) (with_totals num len)
      ≡ some (with_totals (num + left) (len + left * (4 + length rest)))
unfolding recv_loop
recv_stamped e maxmsg size times zero num len rest fits small few short =
    let a : num ≡ num + 0 = omega arith in
    let b : len ≡ len + 0 * (4 + length rest) = omega arith in λ i. some (with_totals (a i) (b i))
recv_stamped e maxmsg size times (suc left) num len rest fits small few short =
    recv_one maxmsg size left num len (4 + length rest) (store32 e times ++ rest)
      (stamped_from e (times + 1) left rest) fits
      (length-append (store32 e times) rest ∙ ap (λ n. n + length rest) (length-store32 e times))
      (omega arith) small (omega (arith, few)) (omega (arith, short))
    ∙ recv_stamped e maxmsg size (times + 1) left (num + 1) (len + (4 + length rest)) rest fits
        small (omega (arith, few)) (omega (arith, short))
    ∙ one_more num len left (4 + length rest)

-- From a queue that takes them all, the receiver counts just the messages that the sender was asked for
-- and their bytes, if the messages have 4 to 511 bytes, the queue holds at least as many
-- messages as a message has bytes, and all bytes together are fewer than 2^31.
pub recv_loop-msg_queue_send_loop :
    (e : Endian) (size loops maxmsg : ℕ)
    → 4 ≤ size
    → size < 512
    → size ≤ maxmsg
    → 0 < loops
    → loops * size < 2 ^ 31
    → (queue : List (List ℕ)) × (msg_queue_send_loop e all_accepted size loops ≡ some (queue, true))
      × (recv_loop maxmsg size loops queue (with_totals 0 0)
          ≡ some (with_totals loops (loops * size)))
unfolding msg_queue_send_loop
recv_loop-msg_queue_send_loop e size zero maxmsg four small fits some_loops total =
    absurd (omega arith)
recv_loop-msg_queue_send_loop e zero (suc loops) maxmsg four small fits some_loops total =
    absurd (omega arith)
recv_loop-msg_queue_send_loop e (suc zero) (suc loops) maxmsg four small fits some_loops total =
    absurd (omega arith)
recv_loop-msg_queue_send_loop e (suc (suc zero)) (suc loops) maxmsg four small fits some_loops
      total =
    absurd (omega arith)
recv_loop-msg_queue_send_loop e (suc (suc (suc zero))) (suc loops) maxmsg four small fits some_loops
      total =
    absurd (omega arith)
recv_loop-msg_queue_send_loop e (suc (suc (suc (suc m)))) (suc loops) maxmsg four small fits
      some_loops total =
    let rest : List ℕ = fill_digits 4 m in
    let len : length rest ≡ m = length-fill_digits 4 m in
    let num_is : 0 + suc loops ≡ suc loops = omega arith in
    let size_is : 4 + length rest ≡ suc (suc (suc (suc m))) = omega (arith, len) in
    let len_is : 0 + suc loops * (4 + length rest) ≡ suc loops * suc (suc (suc (suc m))) =
      ap (λ n. 0 + suc loops * n) size_is ∙ omega arith in
    (
      stamped_from e 0 (suc loops) rest,
      send_loop-stamped e 0 (suc loops) (48 ∷ 49 ∷ 50 ∷ 51 ∷ []) rest refl,
      recv_stamped e maxmsg (suc (suc (suc (suc m)))) 0 (suc loops) 0 0 rest (ground (arith, fits))
            (omega (arith, len)) (omega (arith, total)) (omega (arith, total, len_is))
          ∙ (λ i. some (with_totals (num_is i) (len_is i))),
    )

-- The receiver gives `mq_receive` the queue's greatest number of messages as the length of its buffer:
-- when this is below the size of a message, it receives none, whatever is in the queue.
pub recv_loop_small :
    (maxmsg size left b : ℕ) (bs : List ℕ) (queue : List (List ℕ)) (t : Totals)
    → maxmsg < size
    → recv_loop maxmsg size left ((b ∷ bs) ∷ queue) t ≡ some t
unfolding recv_loop
recv_loop_small maxmsg size zero b bs queue t small = refl
recv_loop_small maxmsg size (suc left) b bs queue t small = rw (lt→ltb maxmsg size small) refl

-- A buffer of fewer than 4 bytes is too short for the number that the sender stores into it.
pub msg_queue_send_loop_short :
    (e : Endian) (accepts : ℕ → Bool) (n loops : ℕ)
    → suc n < 4
    → msg_queue_send_loop e accepts (suc n) (suc loops) ≡ none
unfolding msg_queue_send_loop send_loop
msg_queue_send_loop_short e accepts n loops short =
    let over : write_bytes (fill_digits 0 (suc n)) 0 (store32 e 0) ≡ none =
      write_bytes-overflows (fill_digits 0 (suc n)) (store32 e 0) 0 (omega arith)
        (omega (arith, length-fill_digits 0 (suc n), length-store32 e 0)) in
    rw (send_loop, over) refl
