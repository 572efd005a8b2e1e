-- ===== src/UdpWrite.antt =====
-- src/udp/udpSendTest.cpp: `writeData`, which sends until all bytes are taken, and the time that it took.
-- What `sendto` returns is a parameter.
use linux_interface_test.Base.{
  ℕ, zero, suc, ◌+◌, ◌-◌, ◌*◌, ◌≡◌, ◌≤◌, ◌<◌, refl, arith, leb, ltb, if◌then◌else◌, List, [], ◌∷◌,
  ◌++◌, append_assoc, Bool, true, false, Bool-cases, Option, none, some, length, take, drop,
  length-take, length-drop, take-drop, min, some_inj, inl, inr, ap, ◌∙◌, sym,
}
mod Tests

-- `sendto` takes bytes, at least one, fails with EINTR or EWOULDBLOCK, or fails otherwise.
pub data Sendto : Type 0 where
  takes : (n : ℕ) → Sendto
  again fails : Sendto

-- How `writeData` ends: with a number of bytes, with -1, or not within the given results.
pub data Ending : Type 0 where
  sent : (bytes_sent : ℕ) → Ending
  error sending : Ending

-- The loop of `writeData`, at what is left of the buffer, with what `sendto` has taken each time.
unfoldable pub write_loop : List Sendto → List ℕ → ℕ → Ending × List (List ℕ)
write_loop results [] bytes_sent = (sent bytes_sent, [])
write_loop [] (b ∷ bs) bytes_sent = (sending, [])
write_loop (again ∷ results) (b ∷ bs) bytes_sent = write_loop results (b ∷ bs) bytes_sent
write_loop (fails ∷ results) (b ∷ bs) bytes_sent = (error, [])
write_loop (takes n ∷ results) (b ∷ bs) bytes_sent =
    let rest =
      write_loop results (drop (suc n) (b ∷ bs)) (bytes_sent + length (take (suc n) (b ∷ bs))) in
    (rest.0, take (suc n) (b ∷ bs) ∷ rest.1)

-- `writeData`, of a buffer and a socket that are there.
unfoldable pub write_data : List Sendto → List ℕ → Ending × List (List ℕ)
unfolding write_loop
write_data results [] = (error, [])
write_data results (b ∷ bs) = write_loop results (b ∷ bs) 0

abbrev pub concat : List (List ℕ) → List ℕ
concat [] = []
concat (l ∷ ls) = l ++ concat ls

-- How many calls take bytes.
abbrev pub taking : List Sendto → ℕ
taking [] = 0
taking (takes n ∷ results) = suc (taking results)
taking (again ∷ results) = taking results
taking (fails ∷ results) = taking results

abbrev pub NoneFails : List Sendto → Type 0
NoneFails [] = Unit {0}
NoneFails (takes n ∷ results) = NoneFails results
NoneFails (again ∷ results) = NoneFails results
NoneFails (fails ∷ results) = ⊥

-- `struct timeval`
pub record Timeval : Type 0 where
  pub tv_sec : ℕ
  pub tv_usec : ℕ

-- The difference that `UdpSendTest` prints.
unfoldable pub diff : Timeval → Timeval → Timeval
diff old now =
    if leb old.tv_usec now.tv_usec
    then record { tv_sec = now.tv_sec - old.tv_sec; tv_usec = now.tv_usec - old.tv_usec }
    else record {
      tv_sec = now.tv_sec - old.tv_sec - 1;
      tv_usec = 1000000 + now.tv_usec - old.tv_usec;
    }

abbrev pub micros : Timeval → ℕ
micros t = t.tv_sec * 1000000 + t.tv_usec

written :
    (results : List Sendto) (rest : List ℕ) (bytes_sent : ℕ)
    → NoneFails results
    → length rest ≤ taking results
    → ((write_loop results rest bytes_sent).0 ≡ sent (bytes_sent + length rest))
      × (concat (write_loop results rest bytes_sent).1 ≡ rest)
unfolding write_loop
written results [] bytes_sent none_fails enough = (ap sent (omega arith), refl)
written [] (b ∷ bs) bytes_sent none_fails enough = absurd (omega arith)
written (again ∷ results) (b ∷ bs) bytes_sent none_fails enough =
    written results (b ∷ bs) bytes_sent none_fails enough
written (fails ∷ results) (b ∷ bs) bytes_sent none_fails enough = elim none_fails [ ]
written (takes n ∷ results) (b ∷ bs) bytes_sent none_fails enough =
    let (ended, whole) =
      written results (drop n bs) (bytes_sent + length (take (suc n) (b ∷ bs))) none_fails
        (omega (arith, enough, length-drop n bs)) in
    (
      ended ∙ ap sent (omega (arith, length-take n bs, length-drop n bs)),
      ap (λ t. b ∷ (take n bs ++ t)) whole ∙ ap (λ t. b ∷ t) (take-drop n bs),
    )

-- When no call of `sendto` fails otherwise than with EINTR or EWOULDBLOCK, and as many take bytes as the
-- buffer has, however many each takes and wherever the others fall, `writeData` returns the length
-- of its buffer, and what was taken is the buffer, in order.
pub write_data-whole :
    (results : List Sendto) (b : ℕ) (bs : List ℕ)
    → NoneFails results
    → length (b ∷ bs) ≤ taking results
    → ((write_data results (b ∷ bs)).0 ≡ sent (length (b ∷ bs)))
      × (concat (write_data results (b ∷ bs)).1 ≡ b ∷ bs)
unfolding write_data
write_data-whole results b bs none_fails enough =
    let (ended, whole) = written results (b ∷ bs) 0 none_fails enough in
    (ended ∙ ap sent (omega arith), whole)

-- The difference of a time and a later one, whose microseconds are below a million, is the time between
-- them, and its own microseconds are below a million.
pub diff-micros :
    (old now : Timeval)
    → old.tv_usec < 1000000
    → now.tv_usec < 1000000
    → micros old ≤ micros now
    → (micros (diff old now) ≡ micros now - micros old) × ((diff old now).tv_usec < 1000000)
unfolding diff
diff-micros old now old_small now_small later = elim (Bool-cases (leb old.tv_usec now.tv_usec)) [
  | inl e ↦
      let order : old.tv_usec ≤ now.tv_usec = ground (arith, e) in
      rw e (omega (arith, order, later), omega (arith, order, now_small))
  | inr e ↦
      let order : now.tv_usec < old.tv_usec = ground (arith, e) in
      rw e (omega (arith, order, later, old_small, now_small), omega (arith, order, old_small))
]
