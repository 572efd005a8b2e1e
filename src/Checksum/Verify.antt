-- ===== src/Checksum/Verify.antt =====
-- The receiver's side: a buffer that carries its own checksum sums to zero, and a changed word is seen.
use linux_interface_test.Base.{
  ℕ, ◌+◌, ◌-◌, ◌%◌, ◌<◌, ◌≤◌, ◌≡◌, ◌≢◌, refl, arith, Endian, little, big, store16, ntohs, some, ap,
  ◌∙◌, inl, inr, List, [], ◌∷◌, ◌++◌, length, length-append, sym, ◌↔◌,
}
use linux_interface_test.Checksum.{
  Ipv4, calc_ipv4_hdr_check_sum, calc_udp_check_sum, calc_check_sum, ipproto_udp,
}
use mathlib.Core.Option.{some-injective}
use linux_interface_test.Checksum.Spec.{IsBytes, IsIpv4, word_sum, ones, pseudo_sum}
use linux_interface_test.Checksum.Result.{
  TailFits, calc_ipv4_hdr_check_sum_lem, calc_udp_check_sum_lem, calc_check_sum_lem,
}

pub IsBytes-append : (xs ys : List ℕ) → IsBytes xs → IsBytes ys → IsBytes (xs ++ ys)
IsBytes-append [] ys a b = b
IsBytes-append (x ∷ xs) ys a b = (a.0, IsBytes-append xs ys a.1 b)

IsBytes-left : (xs ys : List ℕ) → IsBytes (xs ++ ys) → IsBytes xs
IsBytes-left [] ys h = tt
IsBytes-left (x ∷ xs) ys h = (h.0, IsBytes-left xs ys h.1)

IsBytes-right : (xs ys : List ℕ) → IsBytes (xs ++ ys) → IsBytes ys
IsBytes-right [] ys h = h
IsBytes-right (x ∷ xs) ys h = IsBytes-right xs ys h.1

pub store16-IsBytes : (e : Endian) (w : ℕ) → IsBytes (store16 e w)
store16-IsBytes little w = omega arith
store16-IsBytes big w = omega arith

-- A word at an even offset is a term of the sum.
word_sum-splice :
    (e : Endian) (pre : List ℕ) (w : ℕ) (post : List ℕ)
    → length pre % 2 ≡ 0
    → w < 65536
    → word_sum e (pre ++ (store16 e w ++ post)) ≡ word_sum e (pre ++ post) + w
unfolding word_sum
word_sum-splice little [] w post h hw = omega arith
word_sum-splice big [] w post h hw = omega arith
word_sum-splice e (b ∷ []) w post h hw = absurd (omega arith)
word_sum-splice e (b0 ∷ b1 ∷ pre) w post h hw =
    omega (arith, word_sum-splice e pre w post (omega arith) hw)

-- Whether a sum closes to all ones, as the receiver tests it.
abbrev pub Closes : ℕ → Type 0
Closes s = (0 < s) × (s % 65535 ≡ 0)

Closes-iff : (s : ℕ) → (65535 - ones s ≡ 0) ↔ Closes s
Closes-iff s = ground arith

Closes-ones : (s : ℕ) → Closes (s + (65535 - ones s))
Closes-ones s = ground arith

TailFits-splice :
    (e : Endian) (pre : List ℕ) (v w : ℕ) (post : List ℕ)
    → TailFits e (pre ++ (store16 e v ++ post))
    → TailFits e (pre ++ (store16 e w ++ post))
TailFits-splice e pre v w post (inl h) = inl h
TailFits-splice little pre v w post (inr h) = inl refl
TailFits-splice big pre v w post (inr h) = inr (
    omega
      (arith, length-append pre (store16 big v ++ post), length-append pre (store16 big w ++ post)))

IsBytes-splice :
    (e : Endian) (pre : List ℕ) (v w : ℕ) (post : List ℕ)
    → IsBytes (pre ++ (store16 e v ++ post))
    → IsBytes (pre ++ (store16 e w ++ post))
IsBytes-splice e pre v w post h =
    IsBytes-append pre (store16 e w ++ post) (IsBytes-left pre (store16 e v ++ post) h) (
      IsBytes-append (store16 e w) post (store16-IsBytes e w)
        (IsBytes-right (store16 e v) post (IsBytes-right pre (store16 e v ++ post) h)))

module _ (e : Endian) (pre post : List ℕ) (even : length pre % 2 ≡ 0) where
  -- A header whose checksum field, at an even offset, was zero when the checksum was computed and
  -- now holds it in memory order has the checksum 0.
  pub calc_ipv4_hdr_check_sum_verifies :
      IsBytes (pre ++ (store16 e 0 ++ post))
      → TailFits e (pre ++ (store16 e 0 ++ post))
      → calc_ipv4_hdr_check_sum e
          (pre ++ (store16 e (calc_ipv4_hdr_check_sum e (pre ++ (store16 e 0 ++ post))) ++ post))
        ≡ 0
  calc_ipv4_hdr_check_sum_verifies hb t =
      let c = calc_ipv4_hdr_check_sum e (pre ++ (store16 e 0 ++ post)) in
      let s = word_sum e (pre ++ post) in
      let zero_field : word_sum e (pre ++ (store16 e 0 ++ post)) ≡ s =
        word_sum-splice e pre 0 post even (omega arith) ∙ omega arith in
      let c_eq : c ≡ 65535 - ones s =
        calc_ipv4_hdr_check_sum_lem e (pre ++ (store16 e 0 ++ post)) hb t
        ∙ ap (λ t. 65535 - ones t) zero_field in
      let filled : word_sum e (pre ++ (store16 e c ++ post)) ≡ s + (65535 - ones s) =
        word_sum-splice e pre c post even (omega arith) ∙ ap (λ t. s + t) c_eq in
      calc_ipv4_hdr_check_sum_lem e (pre ++ (store16 e c ++ post))
        (IsBytes-splice e pre 0 c post hb) (TailFits-splice e pre 0 c post t)
      ∙ ap (λ t. 65535 - ones t) filled
      ∙ (Closes-iff (s + (65535 - ones s))).1 (Closes-ones s)

  -- A header with checksum 0, one word of which is replaced by a word that differs modulo 65535,
  -- no longer has checksum 0.
  pub calc_ipv4_hdr_check_sum_detects :
      (v w : ℕ)
      → v < 65536
      → w < 65536
      → v % 65535 ≢ w % 65535
      → IsBytes (pre ++ (store16 e v ++ post))
      → TailFits e (pre ++ (store16 e v ++ post))
      → calc_ipv4_hdr_check_sum e (pre ++ (store16 e v ++ post)) ≡ 0
      → calc_ipv4_hdr_check_sum e (pre ++ (store16 e w ++ post)) ≢ 0
  calc_ipv4_hdr_check_sum_detects v w hv hw differ hb t good bad =
      let s = word_sum e (pre ++ post) in
      let before : Closes (word_sum e (pre ++ (store16 e v ++ post))) =
        (Closes-iff _).0
          (sym (calc_ipv4_hdr_check_sum_lem e (pre ++ (store16 e v ++ post)) hb t) ∙ good) in
      let after : Closes (word_sum e (pre ++ (store16 e w ++ post))) = (Closes-iff _).0 (
        sym (
          calc_ipv4_hdr_check_sum_lem e (pre ++ (store16 e w ++ post))
            (IsBytes-splice e pre v w post hb) (TailFits-splice e pre v w post t))
        ∙ bad) in
      differ
        (omega (arith, word_sum-splice e pre v post even hv, word_sum-splice e pre w post even hw))

  -- A UDP datagram whose check field, zero when the checksum was computed, now holds the result
  -- has checksum 0 under the same addresses and length.
  pub calc_udp_check_sum_verifies :
      (len : ℕ) (src dst : Ipv4) (c : ℕ)
      → IsBytes (pre ++ (store16 e 0 ++ post))
      → TailFits e (pre ++ (store16 e 0 ++ post))
      → IsIpv4 src
      → IsIpv4 dst
      → calc_udp_check_sum e (pre ++ (store16 e 0 ++ post)) len src dst ≡ some c
      → calc_udp_check_sum e (pre ++ (store16 e c ++ post)) len src dst ≡ some 0
  calc_udp_check_sum_verifies len src dst c hb t a b run =
      let p = pseudo_sum e src dst (ntohs e ipproto_udp) (ntohs e len) in
      let s = word_sum e (pre ++ post) in
      let c_some =
        sym run ∙ calc_udp_check_sum_lem e (pre ++ (store16 e 0 ++ post)) len src dst hb t a b in
      let c_eq : c ≡ 65535 - ones (s + p) =
        some-injective _ _ c_some
        ∙ ap (λ t. 65535 - ones t)
            (omega (arith, word_sum-splice e pre 0 post even (omega arith))) in
      let filled : word_sum e (pre ++ (store16 e c ++ post)) + p ≡ s + p + (65535 - ones (s + p)) =
        omega (arith, word_sum-splice e pre c post even (omega arith), c_eq) in
      calc_udp_check_sum_lem e (pre ++ (store16 e c ++ post)) len src dst
        (IsBytes-splice e pre 0 c post hb) (TailFits-splice e pre 0 c post t) a b
      ∙ ap (λ t. some (65535 - ones t)) filled
      ∙ ap some ((Closes-iff (s + p + (65535 - ones (s + p)))).1 (Closes-ones (s + p)))

  -- A message whose checksum field, at an even offset, was zero when `CalcCheckSum` ran over it and
  -- now holds the result has the checksum 0.
  pub calc_check_sum_verifies :
      IsBytes (pre ++ (store16 e 0 ++ post))
      → length (pre ++ (store16 e 0 ++ post)) ≤ 65535
      → (c : ℕ) × (calc_check_sum e (pre ++ (store16 e 0 ++ post)) ≡ some c)
        × (c < 65536)
        × (calc_check_sum e (pre ++ (store16 e c ++ post)) ≡ some 0)
  calc_check_sum_verifies hb small =
      let s = word_sum e (pre ++ post) in
      let c = 65535 - ones s in
      let zero_field : word_sum e (pre ++ (store16 e 0 ++ post)) ≡ s =
        word_sum-splice e pre 0 post even (omega arith) ∙ omega arith in
      (
        c,
        calc_check_sum_lem e (pre ++ (store16 e 0 ++ post)) hb small
            ∙ ap (λ t. some (65535 - ones t)) zero_field,
        omega arith,
        calc_check_sum_lem e (pre ++ (store16 e c ++ post)) (IsBytes-splice e pre 0 c post hb)
              (omega (arith, length-splice))
            ∙ ap (λ t. some (65535 - ones t)) (word_sum-splice e pre c post even (omega arith))
            ∙ ap some ((Closes-iff (s + c)).1 (Closes-ones s)),
      )
    where
      length-store16 : (e : Endian) (v w : ℕ) → length (store16 e v) ≡ length (store16 e w)
      length-store16 little v w = refl
      length-store16 big v w = refl

      length-splice :
          length (pre ++ (store16 e (65535 - ones (word_sum e (pre ++ post))) ++ post))
          ≡ length (pre ++ (store16 e 0 ++ post))
      length-splice =
          let c = 65535 - ones (word_sum e (pre ++ post)) in
          omega (
            arith,
            length-append pre (store16 e c ++ post),
            length-append pre (store16 e 0 ++ post),
            length-append (store16 e c) post,
            length-append (store16 e 0) post,
            length-store16 e c 0,
          )
