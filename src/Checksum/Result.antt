-- ===== src/Checksum/Result.antt =====
-- What each checksum function returns, against the sum of RFC 1071.
use linux_interface_test.Base.{
  ℕ, ◌+◌, ◌-◌, ◌*◌, ◌/◌, ◌%◌, ◌^◌, ◌<◌, ◌≤◌, ◌≡◌, refl, arith, ◌==◌, Endian, little, big, load16,
  ntohs, some, u32, ap, ◌∙◌, Bool-cases, inl, inr, List, [], ◌∷◌, length, ◌⊎◌,
}
use linux_interface_test.Checksum.{
  fold_carry, add_word, add_words, add_carries, carry_fuel, Ipv4, not16, calc_ipv4_hdr_check_sum,
  add_pseudo_header, calc_udp_check_sum, add_int, sum_ints, calc_check_sum, ipproto_udp,
}
use linux_interface_test.Checksum.Spec.{IsBytes, IsIpv4, word_sum, ones, pseudo_sum}
use linux_interface_test.Checksum.Steps.{load16-lt, ones-add, ones-fold_carry, ones-add_word}

-- The code adds an odd last byte as it is: the padded word on a little-endian host only.
abbrev pub TailFits : Endian → List ℕ → Type 0
TailFits e buf = (e ≡ little) ⊎ (length buf % 2 ≡ 0)

TailFits-tail :
    (e : Endian) (b0 b1 : ℕ) (buf : List ℕ) → TailFits e (b0 ∷ b1 ∷ buf) → TailFits e buf
TailFits-tail e b0 b1 buf (inl h) = inl h
TailFits-tail e b0 b1 buf (inr h) = inr (omega arith)

TailFits-last : (e : Endian) (b : ℕ) → TailFits e (b ∷ []) → load16 e b 0 ≡ b
TailFits-last little b h = omega arith
TailFits-last big b (inl h) = cc
TailFits-last big b (inr h) = absurd (omega arith)

ones-add_words :
    (e : Endian) (s : ℕ) (buf : List ℕ)
    → s < 2 ^ 31
    → IsBytes buf
    → TailFits e buf
    → (ones (add_words e s buf) ≡ ones (s + word_sum e buf)) × (add_words e s buf < 2 ^ 31 + 256)
unfolding add_words word_sum
ones-add_words e s [] hs hb t = ground arith
ones-add_words e s (b ∷ []) hs hb t = ground (arith, TailFits-last e b t)
ones-add_words e s (b0 ∷ b1 ∷ rest) hs hb t =
    let w = load16 e b0 b1 in
    let small = load16-lt e b0 b1 hb.0 hb.1.0 in
    let (same, fits) = ones-add_word s w hs small in
    let (ih, bound) =
      ones-add_words e (add_word s w) rest fits hb.1.1 (TailFits-tail e b0 b1 rest t) in
    (
      ih ∙ ones-add (add_word s w) (s + w) (word_sum e rest) same ∙ ap (λ t. ones t) (omega arith),
      bound,
    )

not16_folded :
    (s : ℕ)
    → s < 2 ^ 31 + 256
    → (let s' = u32 (s / 65536 + s % 65536) in not16 (u32 (s' + s' / 65536))) ≡ 65535 - ones s
not16_folded s h = ground arith

pub calc_ipv4_hdr_check_sum_lem :
    (e : Endian) (buf : List ℕ)
    → IsBytes buf
    → TailFits e buf
    → calc_ipv4_hdr_check_sum e buf ≡ 65535 - ones (word_sum e buf)
unfolding calc_ipv4_hdr_check_sum
calc_ipv4_hdr_check_sum_lem e buf hb t =
    let (same, bound) = ones-add_words e 0 buf (omega arith) hb t in
    not16_folded _ bound ∙ ap (λ t. 65535 - t) (same ∙ ap (λ t. ones t) (omega arith))

-- From below 2^32 three tests are enough: two folds bring the sum under 2^16.
add_carries_lem :
    (s : ℕ)
    → s < 2 ^ 32
    → (r : ℕ) × (add_carries carry_fuel s ≡ some r) × (r < 65536) × (ones r ≡ ones s)
unfolding add_carries fold_carry
add_carries_lem s h = elim (Bool-cases (s / 65536 == 0)) [
  | inl done ↦ (s, rw done, ground arith, refl)
  | inr more ↦
      let t = fold_carry s in
      elim (Bool-cases (t / 65536 == 0)) [
        | inl done ↦ (t, rw (more, done), ground arith, ones-fold_carry s h)
        | inr again ↦ (
          fold_carry t,
          ground arith,
          ground arith,
          ones-fold_carry t (ground arith) ∙ ones-fold_carry s h,
        )
      ]
]

ntohs-lt : (e : Endian) (w : ℕ) → ntohs e w < 65536
ntohs-lt little w = omega arith
ntohs-lt big w = omega arith

add_pseudo_header_lem :
    (e : Endian) (s : ℕ) (src dst : Ipv4) (len : ℕ)
    → s < 2 ^ 31 + 256
    → IsIpv4 src
    → IsIpv4 dst
    → add_pseudo_header e s src dst len
      ≡ s + pseudo_sum e src dst (ntohs e ipproto_udp) (ntohs e len)
unfolding add_pseudo_header pseudo_sum
add_pseudo_header_lem e s src dst len hs a b = omega (
  arith,
  load16-lt e src.a0 src.a1 a.0 a.1,
  load16-lt e src.a2 src.a3 a.2 a.3,
  load16-lt e dst.a0 dst.a1 b.0 b.1,
  load16-lt e dst.a2 dst.a3 b.2 b.3,
  ntohs-lt e ipproto_udp,
  ntohs-lt e len,
)

pseudo_sum-lt :
    (e : Endian) (src dst : Ipv4) (proto len : ℕ)
    → IsIpv4 src
    → IsIpv4 dst
    → proto < 65536
    → len < 65536
    → pseudo_sum e src dst proto len < 6 * 65536
unfolding pseudo_sum
pseudo_sum-lt e src dst proto len a b p l = omega (
  arith,
  load16-lt e src.a0 src.a1 a.0 a.1,
  load16-lt e src.a2 src.a3 a.2 a.3,
  load16-lt e dst.a0 dst.a1 b.0 b.1,
  load16-lt e dst.a2 dst.a3 b.2 b.3,
)

not16-ones : (r v : ℕ) → r < 65536 → ones r ≡ v → not16 r ≡ 65535 - v
not16-ones r v h e = ground arith

-- On a datagram of even length, and of any length on a little-endian host, `CalcUdpCheckSum` ends, and
-- returns the complement of the sum over the datagram and its pseudo-header.
pub calc_udp_check_sum_lem :
    (e : Endian) (buf : List ℕ) (len : ℕ) (src dst : Ipv4)
    → IsBytes buf
    → TailFits e buf
    → IsIpv4 src
    → IsIpv4 dst
    → calc_udp_check_sum e buf len src dst
      ≡ some
          (65535 - ones (word_sum e buf + pseudo_sum e src dst (ntohs e ipproto_udp) (ntohs e len)))
unfolding calc_udp_check_sum
calc_udp_check_sum_lem e buf len src dst hb t a b =
    let (same, bound) = ones-add_words e 0 buf (omega arith) hb t in
    let s = add_words e 0 buf in
    let p = pseudo_sum e src dst (ntohs e ipproto_udp) (ntohs e len) in
    let total = add_pseudo_header e s src dst len in
    let sum_eq : total ≡ s + p = add_pseudo_header_lem e s src dst len bound a b in
    let p_small = pseudo_sum-lt e src dst _ _ a b (ntohs-lt e ipproto_udp) (ntohs-lt e len) in
    let (r, ends, small, kept) = add_carries_lem total (omega arith) in
    let value : ones r ≡ ones (word_sum e buf + p) =
      kept
      ∙ ap (λ t. ones t) sum_eq
      ∙ ones-add s (word_sum e buf) p (same ∙ ap (λ t. ones t) (omega arith)) in
    rw (ends, calc_udp_check_sum) (ap some (not16-ones r _ small value))

word_sum-le :
    (e : Endian) (buf : List ℕ) → IsBytes buf → word_sum e buf ≤ 65535 * ((length buf + 1) / 2)
unfolding word_sum
word_sum-le e [] h = omega arith
word_sum-le e (b ∷ []) h = omega (arith, load16-lt e b 0 h.0 (omega arith))
word_sum-le e (b0 ∷ b1 ∷ rest) h =
    omega (arith, load16-lt e b0 b1 h.0 h.1.0, word_sum-le e rest h.1.1)

sum_ints_lem :
    (e : Endian) (s : ℕ) (buf : List ℕ)
    → s + word_sum e buf < 2 ^ 31
    → sum_ints e s buf ≡ some (s + word_sum e buf)
unfolding sum_ints add_int word_sum
sum_ints_lem e s [] h = ground arith
sum_ints_lem e s (b ∷ []) h = ground arith
sum_ints_lem e s (b0 ∷ b1 ∷ rest) h =
    ground (arith, sum_ints_lem e (s + load16 e b0 b1) rest (omega arith))

-- On any message of at most 65535 bytes the `int` sum of `CalcCheckSum` does not overflow.
pub calc_check_sum_lem :
    (e : Endian) (buf : List ℕ)
    → IsBytes buf
    → length buf ≤ 65535
    → calc_check_sum e buf ≡ some (65535 - ones (word_sum e buf))
unfolding calc_check_sum
calc_check_sum_lem e buf hb small =
    let sum : sum_ints e 0 buf ≡ some (0 + word_sum e buf) =
      sum_ints_lem e 0 buf (omega (arith, word_sum-le e buf hb)) in
    let bound : word_sum e buf < 2 ^ 31 = omega (arith, word_sum-le e buf hb) in
    rw (sum, calc_check_sum) (ground arith)
