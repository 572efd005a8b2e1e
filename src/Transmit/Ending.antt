-- ===== src/Transmit/Ending.antt =====
-- How the receiver ends: on any bytes, on a stream that is cut off, on a name that is too long.
use linux_interface_test.Base.{
  ℕ, zero, suc, ◌-◌, ◌^◌, ◌≤◌, ◌<◌, ◌≡◌, ◌≢◌, refl, arith, ◌==◌, List, [], ◌∷◌, ◌++◌, Bool, true,
  false, not, ◌||◌, Option, none, some, length, take, drop, replicate, ap, ◌∙◌, Endian, little, big,
  load32, get_or, store32, Bool-cases, inl, inr, take-length_append, length-take,
}
use linux_interface_test.Transmit.Receiving.{
  Incoming, fault, closed, running, buf_size, recv_len, recv_data, write_file, receive_file,
  c_string, overlay, tcp_file_transmitter_receiver,
}
use linux_interface_test.Transmit.Rounds.{incoming, recv_len-store32}
use linux_interface_test.Transmit.Names.{AllNonzero, drop-replicate}

length-drop : (n : ℕ) (xs : List ℕ) → length (drop n xs) ≡ length xs - n
length-drop zero xs = omega arith
length-drop (suc n) [] = omega arith
length-drop (suc n) (x ∷ xs) = length-drop n xs ∙ omega arith

recv_len-shrinks :
    (e : Endian) (s : Incoming)
    → (recv_len e s).0 ≡ true
    → length (recv_len e s).1.stream < length s.stream
unfolding recv_len
recv_len-shrinks e s h = ground (arith, length-drop 4 s.stream, length-take 4 s.stream)

recv_data-keeps :
    (s s' : Incoming) (any : Bool)
    → recv_data s ≡ some (any, s')
    → length s'.stream ≤ length s.stream
unfolding recv_data
recv_data-keeps s s' any h = ground (arith, length-drop s.len s.stream)

write_file-keeps :
    (opened : Bool) (s s' : Incoming) → write_file opened s ≡ some s' → s'.stream ≡ s.stream
unfolding write_file
write_file-keeps opened s s' h = ground arith

module _ (e : Endian) (opened : Bool) (name : List ℕ) (fuel : ℕ)
    (ih : (s : Incoming)
      → length s.stream < fuel
      → receive_file e opened name fuel s ≢ running) where
  written-ends :
      (w : Option Incoming)
      → ((s : Incoming) → w ≡ some s → length s.stream < fuel)
      → elim w [ none ↦ fault | some s ↦ receive_file e opened name fuel s ] ≢ running
  written-ends none h run = ground arith
  written-ends (some s) h run = ih s (h s refl) run

  data-ends :
      (d : Option (Bool × Incoming))
      → ((any : Bool) (s : Incoming) → d ≡ some (any, s) → length s.stream < fuel)
      → elim d [
        | none ↦ fault
        | some (any, s) ↦ elim any [
          | false ↦ closed name s
          | true ↦ elim (write_file opened s) [
            | none ↦ fault
            | some s' ↦ receive_file e opened name fuel s'
          ]
        ]
      ]
        ≢ running
  data-ends none h run = ground arith
  data-ends (some (false, s)) h run = ground arith
  data-ends (some (true, s)) h run =
      written-ends (write_file opened s)
        (λ s' eq. omega (arith, h true s refl, ap length (write_file-keeps opened s s' eq))) run

-- The loop ends on any stream: one more round than bytes is enough.
pub receive_file-ends :
    (e : Endian) (opened : Bool) (name : List ℕ) (fuel : ℕ) (s : Incoming)
    → length s.stream < fuel
    → receive_file e opened name fuel s ≢ running
unfolding receive_file
receive_file-ends e opened name zero s h run = absurd (omega arith)
receive_file-ends e opened name (suc fuel) s h run =
    elim (Bool-cases (not (recv_len e s).0 || (recv_len e s).1.len == 0)) [
      | inl over ↦ ground arith
      | inr more ↦
          data-ends e opened name fuel (receive_file-ends e opened name fuel)
            (recv_data (recv_len e s).1)
            (λ any s' eq. omega (
              arith,
              recv_data-keeps (recv_len e s).1 s' any eq,
              recv_len-shrinks e s (ground arith),
            ))
            (rw (receive_file, more) at run)
    ]

-- A short `recv`: all that is left in the stream.
recv_data-short :
    (part buf file : List ℕ) (n : ℕ)
    → 0 < length part
    → length part < n
    → length part ≤ buf_size
    → recv_data (incoming n buf part file) ≡ some (true, incoming n (overlay part buf) [] file)
unfolding recv_data
recv_data-short part buf file n some_ short fits =
    ground (arith, take-long n part (omega arith), drop-long n part (omega arith))
  where
    take-long : (n : ℕ) (xs : List ℕ) → length xs ≤ n → take n xs ≡ xs
    take-long zero [] h = refl
    take-long zero (x ∷ xs) h = absurd (omega arith)
    take-long (suc n) [] h = refl
    take-long (suc n) (x ∷ xs) h = ap (λ t. x ∷ t) (take-long n xs (omega arith))

    drop-long : (n : ℕ) (xs : List ℕ) → length xs ≤ n → drop n xs ≡ []
    drop-long zero [] h = refl
    drop-long zero (x ∷ xs) h = absurd (omega arith)
    drop-long (suc n) [] h = refl
    drop-long (suc n) (x ∷ xs) h = drop-long n xs (omega arith)

take-append :
    (n : ℕ) (xs ys : List ℕ) → length xs ≤ n → take n (xs ++ ys) ≡ xs ++ take (n - length xs) ys
take-append n [] ys h = ap (λ (m : ℕ). take m ys) (omega arith)
take-append zero (x ∷ xs) ys h = absurd (omega arith)
take-append (suc n) (x ∷ xs) ys h =
    let same : n - length xs ≡ suc n - suc (length xs) = omega arith in
    ap (λ t. x ∷ t) (take-append n xs ys (omega arith) ∙ ap (λ (m : ℕ). xs ++ take m ys) same)

load32-store32 :
    (e : Endian) (w : ℕ)
    → w < 2 ^ 32
    → load32 e
        (get_or (store32 e w) 0 0)
        (get_or (store32 e w) 1 0)
        (get_or (store32 e w) 2 0)
        (get_or (store32 e w) 3 0)
      ≡ w
load32-store32 little w h = omega arith
load32-store32 big w h = omega arith

-- When the stream ends inside a chunk, the receiver still writes as many bytes as were announced: the
-- missing ones are what the buffer held at their places.
pub receive_file-stale :
    (e : Endian) (name : List ℕ) (fuel a n : ℕ) (part buf file : List ℕ)
    → 0 < length part
    → length part < n
    → n ≤ buf_size
    → receive_file e true name (suc (suc fuel)) (incoming a buf (store32 e n ++ part) file)
      ≡ closed name (
          incoming n
            (overlay part buf)
            []
            (file ++ (part ++ take (n - length part) (drop (length part) buf))))
unfolding receive_file
receive_file-stale e name fuel a n part buf file some_ short fits = ground (
  arith,
  recv_len-store32 e a n buf part file (omega arith),
  recv_data-short part buf file n some_ short (omega arith),
  write_file-stale,
  receive_file-empty,
)
  where
    write_file-stale :
        write_file true (incoming n (overlay part buf) [] file)
        ≡ some (
            incoming n
              (overlay part buf)
              []
              (file ++ (part ++ take (n - length part) (drop (length part) buf))))
    write_file-stale =
        unfold write_file in
        ground (arith, take-append n part (drop (length part) buf) (omega arith))

    receive_file-empty :
        receive_file e true name (suc fuel) (
          incoming n
            (overlay part buf)
            []
            (file ++ (part ++ take (n - length part) (drop (length part) buf))))
        ≡ closed name (
            incoming n
              (overlay part buf)
              []
              (file ++ (part ++ take (n - length part) (drop (length part) buf))))
    receive_file-empty =
        unfold recv_len in
        ap
          (λ (m : ℕ). closed name (
            incoming m (overlay part buf) []
              (file ++ (part ++ take (n - length part) (drop (length part) buf)))))
          (load32-store32 e n (omega arith))

c_string-none : (name : List ℕ) → AllNonzero name → c_string (name ++ []) ≡ none
unfolding c_string
c_string-none [] h = refl
c_string-none (b ∷ name) (h, hs) = ground (arith, c_string-none name hs)

c_string-full :
    (name : List ℕ)
    → AllNonzero name
    → (length name == buf_size) ≡ true
    → c_string (overlay name (replicate buf_size 0)) ≡ none
c_string-full name h full =
    let same : buf_size - length name ≡ 0 = ground arith in
    ap (λ r. c_string (name ++ r))
      (drop-replicate (length name) buf_size 0 ∙ ap (λ (m : ℕ). replicate m 0) same)
    ∙ c_string-none name h

-- A name of 512 bytes or more makes the receiver leave its buffer: the bytes that arrive do not fit,
-- or fill it to the last so that `open` finds no end of the text.
pub receiver-long_name :
    (e : Endian) (opens : List ℕ → Bool) (addr_len fuel : ℕ) (name rest : List ℕ)
    → AllNonzero name
    → buf_size ≤ length name
    → length name < 2 ^ 32
    → tcp_file_transmitter_receiver e opens addr_len fuel
        (store32 e (length name) ++ (name ++ rest))
      ≡ fault
unfolding tcp_file_transmitter_receiver recv_data
receiver-long_name e opens addr_len fuel name rest nonzero long small =
    elim (Bool-cases (length name == buf_size)) [
      | inl full ↦ ground (
        arith,
        recv_len-store32 e addr_len (length name) (replicate buf_size 0) (name ++ rest) [] small,
        take-length_append name rest,
        c_string-full name nonzero full,
      )
      | inr over ↦ ground (
        arith,
        recv_len-store32 e addr_len (length name) (replicate buf_size 0) (name ++ rest) [] small,
        take-length_append name rest,
      )
    ]
