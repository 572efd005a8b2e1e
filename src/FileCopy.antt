-- ===== src/FileCopy.antt =====
-- src/file/fileCopy.cpp: the loop of `FileCopy`. What `read` and `write` return is a parameter.
use linux_interface_test.Base.{
  take-all, ℕ, zero, suc, ◌+◌, ◌-◌, ◌≡◌, ◌≤◌, ◌<◌, refl, arith, List, [], ◌∷◌, ◌++◌, append_assoc,
  append-nil, Bool, true, false, Option, none, some, length, length-append, length-take, min, take,
  ap, ◌∙◌, sym,
}
mod Tests

-- How the loop ends: at the end of the file, by `exit` behind a call that fails, or not within what is
-- given of the results of `read`.
pub data Ending : Type 0 where
  end_copy read_error write_error reading : Ending

-- The loop at round `i`: the results of `read`, none for -1, and of `write`, with what the new file
-- holds so far.
unfoldable pub copy_loop : List (Option (List ℕ)) → (ℕ → Option ℕ) → ℕ → List ℕ → Ending × List ℕ
copy_loop [] written i fd_new = (reading, fd_new)
copy_loop (none ∷ reads) written i fd_new = (read_error, fd_new)
copy_loop (some [] ∷ reads) written i fd_new = (end_copy, fd_new)
copy_loop (some (b ∷ bs) ∷ reads) written i fd_new = elim (written i) [
  | none ↦ (write_error, fd_new)
  | some n ↦ copy_loop reads written (i + 1) (fd_new ++ take n (b ∷ bs))
]

-- The results of `read` on a file: its bytes in parts that are not empty, then 0.
abbrev pub reads_of : List (ℕ × List ℕ) → List (Option (List ℕ))
reads_of [] = some [] ∷ []
reads_of ((b, bs) ∷ parts) = some (b ∷ bs) ∷ reads_of parts

abbrev pub bytes_of : List (ℕ × List ℕ) → List ℕ
bytes_of [] = []
bytes_of ((b, bs) ∷ parts) = (b ∷ bs) ++ bytes_of parts

-- How many bytes the calls of `write` leave out, from round `i` on.
abbrev pub left_out : List (ℕ × List ℕ) → (ℕ → ℕ) → ℕ → ℕ
left_out [] accepts i = 0
left_out ((b, bs) ∷ parts) accepts i =
    (suc (length bs) - accepts i) + left_out parts accepts (i + 1)

copied :
    (parts : List (ℕ × List ℕ)) (accepts : ℕ → ℕ) (i : ℕ) (fd_new : List ℕ)
    → ((copy_loop (reads_of parts) (λ k. some (accepts k)) i fd_new).0 ≡ end_copy)
      × (length (copy_loop (reads_of parts) (λ k. some (accepts k)) i fd_new).1
            + left_out parts accepts i
          ≡ length fd_new + length (bytes_of parts))
      × (left_out parts accepts i ≡ 0
          → (copy_loop (reads_of parts) (λ k. some (accepts k)) i fd_new).1
            ≡ fd_new ++ bytes_of parts)
unfolding copy_loop
copied [] accepts i fd_new = (refl, omega arith, (λ h. sym (append-nil fd_new)))
copied ((b, bs) ∷ parts) accepts i fd_new =
    let part : List ℕ = b ∷ bs in
    let (ended, lengths, whole) = copied parts accepts (i + 1) (fd_new ++ take (accepts i) part) in
    (
      ended,
      omega (
        arith,
        lengths,
        length-append fd_new (take (accepts i) part),
        length-take (accepts i) part,
        length-append part (bytes_of parts),
      ),
      (λ h.
          whole (omega (arith, h))
          ∙ append_assoc fd_new (take (accepts i) part) (bytes_of parts)
          ∙ ap (λ (t : List ℕ). fd_new ++ (t ++ bytes_of parts))
              (take-all (accepts i) part (omega (arith, h)))),
    )

-- A copy none of whose calls fails, and whose calls of `write` take all that they are given, ends with
-- the bytes of the file in the new file, whatever parts `read` gives.
pub copy_loop-whole :
    (parts : List (ℕ × List ℕ)) (accepts : ℕ → ℕ)
    → left_out parts accepts 0 ≡ 0
    → copy_loop (reads_of parts) (λ k. some (accepts k)) 0 [] ≡ (end_copy, bytes_of parts)
copy_loop-whole parts accepts full =
    let (ended, lengths, whole) = copied parts accepts 0 [] in λ i. (ended i, whole full i)

-- Bytes that a call of `write` leaves out are lost: the copy ends as if it was right, and the new file
-- is shorter than the file by just as many bytes.
pub copy_loop-short :
    (parts : List (ℕ × List ℕ)) (accepts : ℕ → ℕ)
    → 0 < left_out parts accepts 0
    → ((copy_loop (reads_of parts) (λ k. some (accepts k)) 0 []).0 ≡ end_copy)
      × (length (copy_loop (reads_of parts) (λ k. some (accepts k)) 0 []).1
          ≡ length (bytes_of parts) - left_out parts accepts 0)
      × (length (copy_loop (reads_of parts) (λ k. some (accepts k)) 0 []).1
          < length (bytes_of parts))
copy_loop-short parts accepts short =
    let (ended, lengths, whole) = copied parts accepts 0 [] in
    (ended, omega (arith, lengths), omega (arith, lengths))
