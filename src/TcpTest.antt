-- ===== src/TcpTest.antt =====
-- src/tcp/tcpTest.cpp: the client that sends a hundred lines, and the server that receives them in
-- pieces of a given length. What `recv` with `MSG_WAITALL` takes from the stream is written out.
use linux_interface_test.Base.{
  ◌==◌, length-take, min, take-drop, length-drop, ℕ, zero, suc, ◌+◌, ◌-◌, ◌*◌, ◌/◌, ◌%◌, ◌≡◌, ◌≤◌,
  ◌<◌, refl, arith, ltb, lt→ltb, if◌then◌else◌, List, [], ◌∷◌, ◌++◌, Bool, true, false, Option,
  none, some, length, length-append, take, drop, take-length_append, drop-length_append, ap, ◌∙◌,
  sym,
}
mod Tests

-- ":aaaaaaaaabbbbbbbbbcccccccccdddddddddeeeeeeeee\n", nine of each letter
abbrev pub nine : ℕ → List ℕ → List ℕ
nine c rest = c ∷ c ∷ c ∷ c ∷ c ∷ c ∷ c ∷ c ∷ c ∷ rest

abbrev pub line_rest : List ℕ
line_rest = 58 ∷ nine 97 (nine 98 (nine 99 (nine 100 (nine 101 (10 ∷ [])))))

-- The line number i of `TcpTest_Client`, below 1000: three digits in brackets.
unfoldable pub line : ℕ → List ℕ
line i = 91 ∷ (48 + i / 100 % 10) ∷ (48 + i / 10 % 10) ∷ (48 + i % 10) ∷ 93 ∷ line_rest

abbrev pub lines : ℕ → ℕ → List (List ℕ)
lines i zero = []
lines i (suc left) = line i ∷ lines (i + 1) left

-- What the calls of `send` put into the stream.
abbrev pub concat : List (List ℕ) → List ℕ
concat [] = []
concat (l ∷ ls) = l ++ concat ls

-- What `printf` prints for `%s`: up to the first zero.
abbrev pub printed : List ℕ → List ℕ
printed [] = []
printed (b ∷ bs) = if b == 0 then [] else b ∷ printed bs

-- The loop of `TcpTest_ServerAcceptOneClient` on a stream that ends, with fuel: the texts that it
-- prints. A piece that fills `recvBuf` makes it store a zero behind it: none.
unfoldable pub recv_loop : ℕ → ℕ → List ℕ → Option (List (List ℕ))
recv_loop zero len stream = none
recv_loop (suc fuel) zero stream = some []
recv_loop (suc fuel) (suc n) [] = some []
recv_loop (suc fuel) (suc n) (b ∷ bs) =
    let got = take (suc n) (b ∷ bs) in
    let rest = recv_loop fuel (suc n) (drop (suc n) (b ∷ bs)) in
    if ltb (length got) 1024
    then elim rest [ none ↦ none | some pieces ↦ some (printed got ∷ pieces) ]
    else none

abbrev pub NoZero : List ℕ → Type 0
NoZero [] = Unit {0}
NoZero (b ∷ bs) = (0 < b) × NoZero bs

printed-NoZero : (bs : List ℕ) → NoZero bs → printed bs ≡ bs
printed-NoZero [] h = refl
printed-NoZero (b ∷ bs) (some_byte, h) = ground (arith, some_byte, printed-NoZero bs h)

NoZero-take : (n : ℕ) (bs : List ℕ) → NoZero bs → NoZero (take n bs)
NoZero-take zero bs h = tt
NoZero-take (suc n) [] h = tt
NoZero-take (suc n) (b ∷ bs) (some_byte, h) = (some_byte, NoZero-take n bs h)

NoZero-drop : (n : ℕ) (bs : List ℕ) → NoZero bs → NoZero (drop n bs)
NoZero-drop zero bs h = h
NoZero-drop (suc n) [] h = tt
NoZero-drop (suc n) (b ∷ bs) (some_byte, h) = NoZero-drop n bs h

abbrev pub AllOf : ℕ → List (List ℕ) → Type 0
AllOf n [] = Unit {0}
AllOf n (l ∷ ls) = (length l ≡ n) × NoZero l × AllOf n ls

-- Lines of one length below 1024 without a zero come out one by one, when the server is given this length.
recv_loop-AllOf :
    (n : ℕ) (ls : List (List ℕ)) (fuel : ℕ)
    → suc n < 1024
    → AllOf (suc n) ls
    → length ls < fuel
    → recv_loop fuel (suc n) (concat ls) ≡ some ls
unfolding recv_loop
recv_loop-AllOf n ls zero small all enough = absurd (omega arith)
recv_loop-AllOf n [] (suc fuel) small all enough = refl
recv_loop-AllOf n ([] ∷ ls) (suc fuel) small (len, nonzero, all) enough =
    absurd (omega (arith, len))
recv_loop-AllOf n ((b ∷ bs) ∷ ls) (suc fuel) small (len, nonzero, all) enough =
    let same : length bs ≡ n = omega (arith, len) in
    let taken : take n (bs ++ concat ls) ≡ bs =
      ap (λ k. take k (bs ++ concat ls)) (sym same) ∙ take-length_append bs (concat ls) in
    let dropped : drop n (bs ++ concat ls) ≡ concat ls =
      ap (λ k. drop k (bs ++ concat ls)) (sym same) ∙ drop-length_append bs (concat ls) in
    rw
      (
        taken,
        dropped,
        recv_loop-AllOf n ls fuel small all (omega arith),
        lt→ltb (suc (length bs)) 1024 (omega arith),
      )
      (ap (λ t. some (printed (b ∷ t) ∷ ls)) taken
        ∙ ap (λ t. some (t ∷ ls)) (printed-NoZero (b ∷ bs) nonzero))

lines-AllOf : (i left : ℕ) → AllOf 52 (lines i left)
unfolding line
lines-AllOf i zero = tt
lines-AllOf i (suc left) = (refl, omega arith, lines-AllOf (i + 1) left)

length-lines : (i left : ℕ) → length (lines i left) ≡ left
length-lines i zero = refl
length-lines i (suc left) = ap suc (length-lines (i + 1) left)

-- A server that is given 52 receives the lines of the client one by one, however many they are and
-- whatever their first number; fuel for each line and one more is enough.
pub recv_loop-lines :
    (i left fuel : ℕ)
    → left < fuel
    → recv_loop fuel 52 (concat (lines i left)) ≡ some (lines i left)
recv_loop-lines i left fuel enough =
    recv_loop-AllOf 51 (lines i left) fuel (omega arith) (lines-AllOf i left)
      (omega (arith, length-lines i left))

-- With any length from 1 to 1023 the server comes to the end of every stream without a zero byte, stores
-- nothing behind its buffer, and the texts that it prints are the stream, in order and with no byte
-- lost; one more round than there are bytes is enough.
pub recv_loop-concat :
    (n fuel : ℕ) (stream : List ℕ)
    → suc n < 1024
    → NoZero stream
    → length stream < fuel
    → (pieces : List (List ℕ)) × (recv_loop fuel (suc n) stream ≡ some pieces)
      × (concat pieces ≡ stream)
unfolding recv_loop
recv_loop-concat n zero stream small nonzero enough = absurd (omega arith)
recv_loop-concat n (suc fuel) [] small nonzero enough = ([], refl, refl)
recv_loop-concat n (suc fuel) (b ∷ bs) small (some_byte, nonzero) enough =
    let (pieces, ran, whole) =
      recv_loop-concat n fuel (drop n bs) small (NoZero-drop n bs nonzero)
        (omega (arith, length-drop n bs)) in
    let text = printed-NoZero (b ∷ take n bs) (some_byte, NoZero-take n bs nonzero) in
    (
      printed (b ∷ take n bs) ∷ pieces,
      rw (lt→ltb (suc (length (take n bs))) 1024 (omega (arith, length-take n bs)), ran) refl,
      ap (λ t. t ++ concat pieces) text
          ∙ ap (λ t. b ∷ (take n bs ++ t)) whole
          ∙ ap (λ t. b ∷ t) (take-drop n bs),
    )
