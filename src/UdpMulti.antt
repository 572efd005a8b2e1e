-- ===== src/UdpMulti.antt =====
-- src/udp/udpMuliSendOneRecv.cpp: threads that send datagrams of one letter each, and the thread that
-- looks whether the first and the last byte of a datagram are equal.
use linux_interface_test.Base.{
  ℕ, zero, suc, ◌+◌, ◌-◌, ◌*◌, ◌%◌, ◌≡◌, ◌≢◌, ◌≤◌, ◌<◌, refl, arith, ◌==◌, ==_refl, if◌then◌else◌,
  List, [], ◌∷◌, ◌++◌, Bool, true, false, Option, none, some, length, replicate, length-replicate,
  take, get_or, ap, ◌∙◌, sym,
}
mod Tests

-- `sizeof(sendBuf) - 1` and `sizeof(recvBuf) - 1`
abbrev pub text_max : ℕ
text_max = 1023

-- `strlen`
abbrev pub strlen : List ℕ → ℕ
strlen [] = 0
strlen (c ∷ cs) = if c == 0 then 0 else suc (strlen cs)

-- `memset` on all but the last byte of `sendBuf`, and what `strlen` leaves of it to send.
unfoldable pub text : ℕ → ℕ → List ℕ
text n c = take (strlen (replicate n c)) (replicate n c)

-- `'0' + num` as `memset` stores it; `num` has 16 bits of what the thread read through its argument.
abbrev pub letter_of : ℕ → ℕ
letter_of num = (48 + num % 65536) % 256

-- `ThreadSend`: the datagram that it sends again and again.
unfoldable pub send_text : ℕ → List ℕ
unfolding text
send_text num = text text_max (letter_of num)

-- What `ThreadRecv` comes to: it waits on, calls `exit`, or leaves its loop.
pub data Ending : Type 0 where
  waiting exits breaks : Ending

-- The loop of `ThreadRecv` over what `recvfrom` gives, none for -1, and the number of datagrams.
unfoldable pub recv_loop : List (Option (List ℕ)) → ℕ → Ending × ℕ
recv_loop [] i = (waiting, i)
recv_loop (none ∷ arrivals) i = (breaks, i)
recv_loop (some [] ∷ arrivals) i = (breaks, i)
recv_loop (some (b ∷ bs) ∷ arrivals) i = elim (b == get_or (b ∷ bs) (length bs) 0) [
  | false ↦ (exits, i)
  | true ↦ recv_loop arrivals (i + 1)
]

-- The datagrams of any threads, in any order, by what each thread has read for its number.
abbrev pub arrivals_of : List ℕ → List (Option (List ℕ))
arrivals_of [] = []
arrivals_of (num ∷ nums) = some (send_text num) ∷ arrivals_of nums

-- The threads whose letter is not the zero byte, with which `strlen` would be 0.
abbrev pub AllLetters : List ℕ → Type 0
AllLetters [] = Unit {0}
AllLetters (num ∷ nums) = (letter_of num ≢ 0) × AllLetters nums

strlen-replicate : (n c : ℕ) → c ≢ 0 → strlen (replicate n c) ≡ n
strlen-replicate zero c h = refl
strlen-replicate (suc n) c h = ground (arith, h, strlen-replicate n c h)

take-replicate : (n c : ℕ) → take n (replicate n c) ≡ replicate n c
take-replicate zero c = refl
take-replicate (suc n) c = ap (λ t. c ∷ t) (take-replicate n c)

get_or-replicate : (n c : ℕ) → get_or (replicate (suc n) c) n 0 ≡ c
get_or-replicate zero c = refl
get_or-replicate (suc n) c = get_or-replicate n c

-- A datagram of one letter is taken.
uniform :
    (n c i : ℕ) (arrivals : List (Option (List ℕ)))
    → recv_loop (some (replicate (suc n) c) ∷ arrivals) i ≡ recv_loop arrivals (i + 1)
unfolding recv_loop
uniform n c i arrivals =
    let ends : get_or (c ∷ replicate n c) (length (replicate n c)) 0 ≡ c =
      ap (λ k. get_or (c ∷ replicate n c) k 0) (length-replicate n c) ∙ get_or-replicate n c in
    rw (recv_loop, ends) (rw (==_refl c) refl)

text-replicate : (n c : ℕ) → c ≢ 0 → text n c ≡ replicate n c
unfolding text
text-replicate n c h =
    ap (λ k. take k (replicate n c)) (strlen-replicate n c h) ∙ take-replicate n c

recv_text :
    (n c i : ℕ) (arrivals : List (Option (List ℕ)))
    → c ≢ 0
    → recv_loop (some (text (suc n) c) ∷ arrivals) i ≡ recv_loop arrivals (i + 1)
recv_text n c i arrivals h =
    ap (λ t. recv_loop (some t ∷ arrivals) i) (text-replicate (suc n) c h) ∙ uniform n c i arrivals

-- Datagrams of any threads, in any order and with any losses, keep the receiver in its loop, and it
-- counts each; whatever number a thread has read through the pointer that all threads share, unless
-- its letter is the zero byte.
pub recv_loop-arrivals :
    (nums : List ℕ) (i : ℕ)
    → AllLetters nums
    → recv_loop (arrivals_of nums) i ≡ (waiting, i + length nums)
unfolding send_text recv_loop
recv_loop-arrivals [] i all = ap (λ n. (waiting, n)) (omega arith)
recv_loop-arrivals (num ∷ nums) i (letter, all) =
    recv_text 1022 (letter_of num) i (arrivals_of nums) letter
    ∙ recv_loop-arrivals nums (i + 1) all
    ∙ ap (λ n. (waiting, n)) (omega arith)

-- A datagram whose first byte is not its last ends the whole process, whatever came before it kept the
-- receiver in its loop.
pub recv_loop-exits :
    (nums : List ℕ) (i b : ℕ) (bs : List ℕ) (later : List (Option (List ℕ)))
    → AllLetters nums
    → (b == get_or (b ∷ bs) (length bs) 0) ≡ false
    → recv_loop (arrivals_of nums ++ (some (b ∷ bs) ∷ later)) i ≡ (exits, i + length nums)
unfolding send_text recv_loop
recv_loop-exits [] i b bs later all differ =
    rw (recv_loop, differ) (ap (λ n. (exits, n)) (omega arith))
recv_loop-exits (num ∷ nums) i b bs later (letter, all) differ =
    recv_text 1022 (letter_of num) i (arrivals_of nums ++ (some (b ∷ bs) ∷ later)) letter
    ∙ recv_loop-exits nums (i + 1) b bs later all differ
    ∙ ap (λ n. (exits, n)) (omega arith)
