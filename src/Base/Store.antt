-- ===== src/Base/Store.antt =====
-- Stores of bytes into a block of memory.
use Prim.Native.Nat.{ℕ, suc, ◌+◌, ◌<◌, ◌≤◌}
use mathlib.Core.Path.{◌≡◌, refl, sym, ap, ◌∙◌}
use mathlib.Core.Logic.{inl, inr}
use mathlib.Core.Bool.{true, false}
use mathlib.Core.List.{List, [], ◌∷◌, ◌++◌, append_assoc}
use mathlib.Core.Option.{Option, none, some}
use native.Mathlib.Omega.{arith}
use linux_interface_test.Base.Tests.{ltb, Bool-cases, some_inj}
use linux_interface_test.Base.Word.{Endian, little, big, store16, store32}
use linux_interface_test.Base.Lists.{length, set, length-set, length-append}

-- A store through a pointer into a block; `none` is a store outside it.
unfoldable pub write_bytes : List ℕ → ℕ → List ℕ → Option (List ℕ)
write_bytes block i [] = some block
write_bytes block i (b ∷ bs) = elim (ltb i (length block)) [
  | true ↦ write_bytes (set block i b) (i + 1) bs
  | false ↦ none
]

pub write_bytes-fits :
    (block bs : List ℕ) (i : ℕ)
    → i + length bs ≤ length block
    → (buf : List ℕ) × (write_bytes block i bs ≡ some buf) × (length buf ≡ length block)
unfolding write_bytes
write_bytes-fits block [] i h = (block, refl, refl)
write_bytes-fits block (b ∷ bs) i h =
    let (buf, run, len) =
      write_bytes-fits (set block i b) bs (i + 1) (omega (arith, length-set block i b)) in
    (buf, ground (arith, run), len ∙ length-set block i b)

pub write_bytes-overflows :
    (block bs : List ℕ) (i : ℕ)
    → i ≤ length block
    → length block < i + length bs
    → write_bytes block i bs ≡ none
unfolding write_bytes
write_bytes-overflows block [] i k h = absurd (omega arith)
write_bytes-overflows block (b ∷ bs) i k h = elim (Bool-cases (ltb i (length block))) [
  | inl inside ↦ ground (
    arith,
    write_bytes-overflows (set block i b) bs (i + 1) (ground (arith, length-set block i b))
        (omega (arith, length-set block i b)),
  )
  | inr outside ↦ ground arith
]

-- Bytes that replace as many bytes behind a prefix.
pub write_bytes-splice :
    (pre old bs post : List ℕ)
    → length old ≡ length bs
    → write_bytes (pre ++ (old ++ post)) (length pre) bs ≡ some (pre ++ (bs ++ post))
unfolding write_bytes
write_bytes-splice pre [] [] post h = refl
write_bytes-splice pre [] (b ∷ bs) post h = absurd (omega arith)
write_bytes-splice pre (o ∷ old) [] post h = absurd (omega arith)
write_bytes-splice pre (o ∷ old) (b ∷ bs) post h =
    let longer : length (pre ++ (b ∷ [])) ≡ length pre + 1 =
      omega (arith, length-append pre (b ∷ [])) in
    let rest =
      ap (λ l. write_bytes l (length pre + 1) bs) (sym (append_assoc pre (b ∷ []) (old ++ post)))
      ∙ ap (λ (i : ℕ). write_bytes ((pre ++ (b ∷ [])) ++ (old ++ post)) i bs) (sym longer)
      ∙ write_bytes-splice (pre ++ (b ∷ [])) old bs post (omega arith)
      ∙ ap some (append_assoc pre (b ∷ []) (bs ++ post)) in
    ground (arith, length-append pre (o ∷ (old ++ post)), set-append pre, rest)
  where
    set-append :
        (pre : List ℕ)
        → set (pre ++ (o ∷ (old ++ post))) (length pre) b ≡ pre ++ (b ∷ (old ++ post))
    set-append [] = refl
    set-append (x ∷ pre) = ap (λ l. x ∷ l) (set-append pre)

write_bytes-cons :
    (x : ℕ) (xs ys bs : List ℕ) (i : ℕ)
    → write_bytes xs i bs ≡ some ys
    → write_bytes (x ∷ xs) (suc i) bs ≡ some (x ∷ ys)
unfolding write_bytes
write_bytes-cons x xs ys [] i h = ap (λ l. some (x ∷ l)) (some_inj h)
write_bytes-cons x xs ys (b ∷ bs) i h = elim (Bool-cases (ltb i (length xs))) [
  | inl inside ↦
      let rest : write_bytes (set xs i b) (i + 1) bs ≡ some ys = ground (arith, h, inside) in
      ground (arith, inside, write_bytes-cons x (set xs i b) ys bs (i + 1) rest)
  | inr outside ↦ absurd (ground (arith, h, outside))
]

-- A store behind a prefix leaves it.
pub write_bytes-under :
    (pre xs ys bs : List ℕ) (i k : ℕ)
    → length pre + i ≡ k
    → write_bytes xs i bs ≡ some ys
    → write_bytes (pre ++ xs) k bs ≡ some (pre ++ ys)
write_bytes-under [] xs ys bs i k at h = ap (λ j. write_bytes xs j bs) (omega (arith, at)) ∙ h
write_bytes-under (x ∷ pre) xs ys bs i k at h =
    ap (λ j. write_bytes (x ∷ (pre ++ xs)) j bs) (omega (arith, at))
    ∙ write_bytes-cons x (pre ++ xs) (pre ++ ys) bs (length pre + i)
        (write_bytes-under pre xs ys bs i (length pre + i) refl h)

pub length-store16 : (e : Endian) (w : ℕ) → length (store16 e w) ≡ 2
length-store16 little w = refl
length-store16 big w = refl

pub length-store32 : (e : Endian) (w : ℕ) → length (store32 e w) ≡ 4
length-store32 little w = refl
length-store32 big w = refl
