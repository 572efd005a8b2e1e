-- ===== src/UdpOrder/Lengths.antt =====
-- The table of send lengths is read in a cycle, and its entries lie between the two bounds.
use linux_interface_test.Base.{
  ◌⊎◌, ltb, ℕ, zero, suc, ◌+◌, ◌-◌, ◌^◌, ◌≤◌, ◌<◌, ◌≡◌, refl, arith, ◌==◌, if◌then◌else◌, u16, List,
  [], ◌∷◌, Bool-cases, inl, inr, subst, length, ap,
}
use native.Mathlib.Nat.{mod-lt}
use linux_interface_test.UdpOrder.SendBuf.{
  returns, exits, random_number_loop, fill_same, fill_random, init_random_len_buf,
}

-- Every entry is at least the one bound and below the other.
abbrev pub AllWithin : ℕ → ℕ → List ℕ → Type 0
AllWithin lo hi [] = Unit {0}
AllWithin lo hi (x ∷ xs) = (lo ≤ x) × (x < hi) × AllWithin lo hi xs

fill_random-AllWithin :
    (random : ℕ → ℕ) (lo delta idx n : ℕ)
    → 0 < delta
    → lo + delta < 2 ^ 16
    → AllWithin lo (lo + delta) (fill_random random lo delta idx n)
unfolding fill_random
fill_random-AllWithin random lo delta idx zero h k = tt
fill_random-AllWithin random lo delta idx (suc n) h k = (
  ground (arith, mod-lt (random idx) h),
  ground (arith, mod-lt (random idx) h),
  fill_random-AllWithin random lo delta (idx + 1) n h k,
)

length-fill_random :
    (random : ℕ → ℕ) (lo delta idx n : ℕ) → length (fill_random random lo delta idx n) ≡ n
unfolding fill_random
length-fill_random random lo delta idx zero = refl
length-fill_random random lo delta idx (suc n) =
    ap suc (length-fill_random random lo delta (idx + 1) n)

pub fill_same-AllWithin : (a n : ℕ) → AllWithin a (a + 1) (fill_same a n)
unfolding fill_same
fill_same-AllWithin a zero = tt
fill_same-AllWithin a (suc n) = (omega arith, omega arith, fill_same-AllWithin a n)

pub length-fill_same : (a n : ℕ) → length (fill_same a n) ≡ n
unfolding fill_same
length-fill_same a zero = refl
length-fill_same a (suc n) = ap suc (length-fill_same a n)

-- The table for bounds that are not crossed.
pub init_random_len_buf-AllWithin :
    (random : ℕ → ℕ) (lo hi : ℕ)
    → hi < 2 ^ 16
    → lo ≤ hi
    → (lens : List ℕ) × (init_random_len_buf random lo hi ≡ returns lens)
      × (length lens ≡ random_number_loop)
      × AllWithin lo (if lo == hi then hi + 1 else hi) lens
unfolding init_random_len_buf
init_random_len_buf-AllWithin random lo hi small h = elim (Bool-cases (lo == hi)) [
  | inl same ↦ (
    fill_same lo random_number_loop,
    ground arith,
    length-fill_same lo random_number_loop,
    subst (λ b. AllWithin lo b (fill_same lo random_number_loop)) (ground arith)
        (fill_same-AllWithin lo random_number_loop),
  )
  | inr differ ↦
      let delta = u16 (hi + 65536 - lo) in
      (
        fill_random random lo delta 0 random_number_loop,
        ground arith,
        length-fill_random random lo delta 0 random_number_loop,
        subst (λ b. AllWithin lo b (fill_random random lo delta 0 random_number_loop))
            (ground arith)
            (fill_random-AllWithin random lo delta 0 random_number_loop (ground arith)
              (ground arith)),
      )
]

-- `InitRandomLenBuf` ends the process when the bounds are crossed, and else fills all 10000 entries:
-- with the bound where the two are equal, and with lengths from the smaller bound to one below the
-- larger where they differ, so that the larger is never sent.
pub init_random_len_buf_lem :
    (random : ℕ → ℕ) (lo hi : ℕ)
    → hi < 2 ^ 16
    → ((hi < lo) × (init_random_len_buf random lo hi ≡ exits))
      ⊎ ((lo ≤ hi)
          × ((lens : List ℕ) × (init_random_len_buf random lo hi ≡ returns lens)
              × (length lens ≡ random_number_loop)
              × AllWithin lo (if lo == hi then hi + 1 else hi) lens))
unfolding init_random_len_buf
init_random_len_buf_lem random lo hi small = elim (Bool-cases (ltb hi lo)) [
  | inl crossed ↦ inl (ground arith, ground arith)
  | inr open_ ↦ inr (ground arith, init_random_len_buf-AllWithin random lo hi small (ground arith))
]
