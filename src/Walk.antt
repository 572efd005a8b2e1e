-- ===== src/Walk.antt =====
-- src/backtrace/realizeBacktraceByself.cpp and src/backtrace/mipsBacktraceByself.cpp: the walk over the
-- frames of the stack. Memory is a parameter, with a word of four bytes at each address.
use linux_interface_test.Base.{
  ℕ, zero, suc, ◌+◌, ◌≡◌, ◌≢◌, ◌≤◌, ◌<◌, refl, arith, ◌==◌, if◌then◌else◌, List, [], ◌∷◌, Bool,
  true, false, Option, none, some, length, ap, ◌∙◌, sym,
}
mod Tests

-- The loop `while (ebp)`, with fuel: the return addresses that it prints, none when it goes on.
unfoldable pub walk : ℕ → (ℕ → ℕ) → ℕ → Option (List ℕ)
walk fuel memory zero = some []
walk zero memory (suc ebp) = none
walk (suc fuel) memory (suc ebp) = elim (walk fuel memory (memory (suc ebp))) [
  | none ↦ none
  | some frames ↦ some (memory (suc ebp + 4) ∷ frames)
]

-- Frames from `ebp` on that end: each holds the address of the next and, in the word behind it, its
-- return address.
pub data Chain (memory : ℕ → ℕ) : ℕ → List ℕ → Type 0 where
  last : Chain memory 0 []
  frame :
      (ebp : ℕ) (ret : ℕ) (rets : List ℕ)
      → memory (suc ebp + 4) ≡ ret
      → Chain memory (memory (suc ebp)) rets
      → Chain memory (suc ebp) (ret ∷ rets)

-- The walk prints the return addresses of the frames, from the innermost, and ends, when the frames
-- end in one whose next is 0; fuel for each frame is enough.
pub walk-Chain :
    (memory : ℕ → ℕ) (ebp : ℕ) (rets : List ℕ) (fuel : ℕ)
    → Chain memory ebp rets
    → length rets ≤ fuel
    → walk fuel memory ebp ≡ some rets
unfolding walk
walk-Chain memory _ _ fuel last enough = refl
walk-Chain memory _ _ zero (frame ebp ret rets at chain) enough = absurd (omega arith)
walk-Chain memory _ _ (suc fuel) (frame ebp ret rets at chain) enough =
    rw (walk, walk-Chain memory (memory (suc ebp)) rets fuel chain (omega arith))
      (ap (λ r. some (r ∷ rets)) at)

-- A frame that is its own next, as in a stack that was overwritten, keeps the walk going for ever.
pub walk-cycle :
    (memory : ℕ → ℕ) (ebp fuel : ℕ) → memory (suc ebp) ≡ suc ebp → walk fuel memory (suc ebp) ≡ none
unfolding walk
walk-cycle memory ebp zero cyclic = refl
walk-cycle memory ebp (suc fuel) cyclic =
    let next : walk fuel memory (memory (suc ebp)) ≡ none =
      ap (walk fuel memory) cyclic ∙ walk-cycle memory ebp fuel cyclic in
    rw (walk, next) refl
