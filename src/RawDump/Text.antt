-- ===== src/RawDump/Text.antt =====
-- The printed forms: the dotted addresses fit their 16 bytes, and a dump shows every byte once.
use linux_interface_test.Base.{
  length-replicate, ℕ, zero, suc, ◌+◌, ◌-◌, ◌/◌, ◌%◌, ◌<◌, ◌≤◌, ◌≡◌, refl, arith, List, [], ◌∷◌,
  ◌++◌, none, some, length, length-append, replicate, take, drop, get_elem?, ap, ◌∙◌, sym,
  Bool-cases, inl, inr, ◌==◌, if◌then◌else◌, Option-cases,
}
use linux_interface_test.Checksum.{Ipv4}
use linux_interface_test.RawDump.Packet.{
  PacketParseResult, store_addrs, ipv4_at, decimal, inet_ntoa, strncpy, ipv4_addr_str_len,
}
use linux_interface_test.RawDump.Loop.{
  Token, line_head, hex, end_line, separator, dump_loop, dump_buffer,
}

decimal-length : (n : ℕ) → (1 ≤ length (decimal n)) × (length (decimal n) ≤ 3)
unfolding decimal
decimal-length n = ground arith

inet_ntoa-length : (a : Ipv4) → (7 ≤ length (inet_ntoa a)) × (length (inet_ntoa a) ≤ 15)
unfolding inet_ntoa
inet_ntoa-length a = omega (
  arith,
  decimal-length a.a0,
  decimal-length a.a1,
  decimal-length a.a2,
  decimal-length a.a3,
  length-append (decimal a.a0)
      (b'.' ∷ (decimal a.a1 ++ (b'.' ∷ (decimal a.a2 ++ (b'.' ∷ decimal a.a3))))),
  length-append (decimal a.a1) (b'.' ∷ (decimal a.a2 ++ (b'.' ∷ decimal a.a3))),
  length-append (decimal a.a2) (b'.' ∷ decimal a.a3),
)

take-append {ℓ} :
    {A : Type ℓ} (n : ℕ) (xs ys : List A)
    → length xs ≤ n
    → take n (xs ++ ys) ≡ xs ++ take (n - length xs) ys
take-append n [] ys h = ap (λ (m : ℕ). take m ys) (omega arith)
take-append zero (x ∷ xs) ys h = absurd (omega arith)
take-append (suc n) (x ∷ xs) ys h =
    ap (λ t. x ∷ t)
      (take-append n xs ys (omega arith) ∙ ap (λ (m : ℕ). xs ++ take m ys) (omega arith))

take-replicate {ℓ} : {A : Type ℓ} (k n : ℕ) (a : A) → k ≤ n → take k (replicate n a) ≡ replicate k a
take-replicate zero n a h = refl
take-replicate (suc k) zero a h = absurd (omega arith)
take-replicate (suc k) (suc n) a h = ap (λ t. a ∷ t) (take-replicate k n a (omega arith))

strncpy-inet_ntoa :
    (a : Ipv4)
    → (k : ℕ) × (strncpy ipv4_addr_str_len (inet_ntoa a) ≡ inet_ntoa a ++ replicate (suc k) 0)
      × (length (inet_ntoa a) + suc k ≡ ipv4_addr_str_len)
strncpy-inet_ntoa a =
    let bound = inet_ntoa-length a in
    let n = length (inet_ntoa a) in
    let room : suc (15 - n) ≡ 16 - n = omega arith in
    (
      15 - n,
      take-append 16 (inet_ntoa a) (replicate 16 0) (omega arith)
          ∙ ap (λ t. inet_ntoa a ++ t)
              (take-replicate (16 - n) 16 0 (omega arith)
                ∙ ap (λ (m : ℕ). replicate m 0) (sym room)),
      omega arith,
    )

-- The texts that `ParseIpv4Hdr` stores are those of the two addresses, whole, and each ends in at
-- least one zero within its 16 bytes.
pub store_addrs-texts :
    (ip : List ℕ) (r : PacketParseResult)
    → let r' = store_addrs ip r in
      ((k : ℕ) × (r'.src_ipv4_addr_str ≡ inet_ntoa r'.src_ipv4_addr ++ replicate (suc k) 0)
        × (length r'.src_ipv4_addr_str ≡ ipv4_addr_str_len))
      × ((k : ℕ) × (r'.dst_ipv4_addr_str ≡ inet_ntoa r'.dst_ipv4_addr ++ replicate (suc k) 0)
          × (length r'.dst_ipv4_addr_str ≡ ipv4_addr_str_len))
store_addrs-texts ip r = (text (ipv4_at ip 12), text (ipv4_at ip 16))
  where
    text :
        (a : Ipv4)
        → (k : ℕ) × (strncpy ipv4_addr_str_len (inet_ntoa a) ≡ inet_ntoa a ++ replicate (suc k) 0)
          × (length (strncpy ipv4_addr_str_len (inet_ntoa a)) ≡ ipv4_addr_str_len)
    text a =
        let (k, copied, size) = strncpy-inet_ntoa a in
        (
          k,
          copied,
          ap length copied
              ∙ omega (
                arith,
                length-append (inet_ntoa a) (replicate (suc k) 0),
                length-replicate {A = ℕ} (suc k) 0,
                size,
              ),
        )

-- The bytes that a dump shows, and the offsets that begin its lines.
abbrev pub bytes_of : List Token → List ℕ
bytes_of [] = []
bytes_of (hex b ∷ ts) = b ∷ bytes_of ts
bytes_of (_ ∷ ts) = bytes_of ts

abbrev pub heads_of : List Token → List ℕ
heads_of [] = []
heads_of (line_head i ∷ ts) = i ∷ heads_of ts
heads_of (_ ∷ ts) = heads_of ts

bytes_of-separator :
    (idx b : ℕ) (ts : List Token) → bytes_of (separator idx ++ hex b ∷ ts) ≡ b ∷ bytes_of ts
bytes_of-separator idx b ts = elim (Bool-cases (idx % 16 == 0)) [
  | inl p ↦ rw p
  | inr p ↦ elim (Bool-cases (idx % 8 == 0)) [ inl q ↦ rw (p, q) | inr q ↦ rw (p, q) ]
]

heads_of-separator :
    (idx b : ℕ) (ts : List Token)
    → length (heads_of (separator idx ++ hex b ∷ ts))
      ≡ (if idx % 16 == 0 then 1 else 0) + length (heads_of ts)
heads_of-separator idx b ts = elim (Bool-cases (idx % 16 == 0)) [
  | inl p ↦ rw p (omega arith)
  | inr p ↦ elim (Bool-cases (idx % 8 == 0)) [
    | inl q ↦ rw (p, q) (omega arith)
    | inr q ↦ rw (p, q) (omega arith)
  ]
]

get_elem?-some {ℓ} :
    {A : Type ℓ} (xs : List A) (i : ℕ)
    → i < length xs
    → (a : A) × (get_elem? xs i ≡ some a) × (drop i xs ≡ a ∷ drop (suc i) xs)
get_elem?-some [] i h = absurd (omega arith)
get_elem?-some (x ∷ xs) zero h = (x, refl, refl)
get_elem?-some (x ∷ xs) (suc i) h =
    let (a, found, rest) = get_elem?-some xs i (omega arith) in (a, found, rest)

get_elem?-none {ℓ} : {A : Type ℓ} (xs : List A) (i : ℕ) → length xs ≤ i → get_elem? xs i ≡ none
get_elem?-none [] i h = refl
get_elem?-none (x ∷ xs) zero h = absurd (omega arith)
get_elem?-none (x ∷ xs) (suc i) h = get_elem?-none xs i (omega arith)

dump_loop_lem :
    (buf : List ℕ) (idx left : ℕ)
    → idx + left ≤ length buf
    → (ts : List Token) × (dump_loop buf idx left ≡ some ts)
      × (bytes_of ts ≡ take left (drop idx buf))
      × (length (heads_of ts) + (idx + 15) / 16 ≡ (idx + left + 15) / 16)
unfolding dump_loop
dump_loop_lem buf idx zero h = (end_line ∷ [], refl, refl, omega arith)
dump_loop_lem buf idx (suc left) h =
    let (b, found, split) = get_elem?-some buf idx (omega arith) in
    let (ts, run, bytes, heads) = dump_loop_lem buf (idx + 1) left (omega arith) in
    let next : idx + 1 ≡ suc idx = omega arith in
    (
      separator idx ++ hex b ∷ ts,
      ground arith,
      bytes_of-separator idx b ts
          ∙ ap (λ t. b ∷ t) (bytes ∙ ap (λ (n : ℕ). take left (drop n buf)) next)
          ∙ ap (λ (t : List ℕ). take (suc left) t) (sym split),
      ground (arith, heads_of-separator idx b ts),
    )

dump_loop_fault :
    (buf : List ℕ) (idx left : ℕ)
    → idx ≤ length buf
    → length buf < idx + left
    → dump_loop buf idx left ≡ none
unfolding dump_loop
dump_loop_fault buf idx zero h k = absurd (omega arith)
dump_loop_fault buf idx (suc left) h k = elim (Option-cases (get_elem? buf idx)) [
  | inl e ↦ ground arith
  | inr (b, e) ↦ ground (arith, dump_loop_fault buf (idx + 1) left (in_range b e) (omega arith))
]
  where
    in_range : (b : ℕ) → get_elem? buf idx ≡ some b → idx + 1 ≤ length buf
    in_range b e = grind (arith, get_elem?-none buf idx)

-- A dump within the buffer shows its first `len` bytes in order, each once, with a line head before
-- every sixteenth; a dump of more bytes than the buffer has reads past it.
pub dump_buffer_lem :
    (buf : List ℕ) (len : ℕ)
    → (len ≤ length buf
        → (ts : List Token) × (dump_buffer buf len ≡ some ts)
          × (bytes_of ts ≡ take len buf)
          × (length (heads_of ts) ≡ (len + 15) / 16))
      × (length buf < len → dump_buffer buf len ≡ none)
unfolding dump_buffer
dump_buffer_lem buf len = (
  λ h.
      let (ts, run, bytes, heads) = dump_loop_lem buf 0 len (omega arith) in
      (ts, run, bytes, omega arith),
  λ h. dump_loop_fault buf 0 len (omega arith) (omega arith),
)
