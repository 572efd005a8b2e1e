-- ===== src/SelectServer/Scan.antt =====
-- The scan over the descriptors that are ready: that it may stop after the number that `select` gave.
use linux_interface_test.Base.{
  ℕ, zero, suc, ◌+◌, ◌≡◌, refl, arith, ◌==◌, ltb, leb, ◌&&◌, if◌then◌else◌, List, [], ◌∷◌, ◌++◌,
  ◌⊎◌, Bool, true, false, Bool-cases, inl, inr, none, some, ap, ◌∙◌,
}
use linux_interface_test.SelectServer.{
  Received, message, ended, again, failed, recv_loop, Selecting, Answers, forget, scan, round,
}

-- How many of the `n` descriptors from `lo` on are set.
abbrev pub count_set : (ℕ → Bool) → ℕ → ℕ → ℕ
count_set is_set lo zero = 0
count_set is_set lo (suc n) = (if is_set lo then 1 else 0) + count_set is_set (lo + 1) n

-- `j` is one of the `n` descriptors from `lo` on, and set.
abbrev pub set_in : (ℕ → Bool) → ℕ → ℕ → ℕ → Bool
set_in is_set lo n j = leb lo j && (ltb j (lo + n) && is_set j)

-- Exactly the descriptors that are set among `n` from `lo` on were forgotten and closed.
pub record Handled (is_set : ℕ → Bool) (lo n : ℕ) (s s' : Selecting) : Type 0 where
  pub saves :
      (j : ℕ)
      → s'.save_client_fd_set j ≡ (if set_in is_set lo n j then none else s.save_client_fd_set j)
  pub opens : (j : ℕ) → s'.opened j ≡ (if set_in is_set lo n j then false else s.opened j)
  pub same_max : s'.max_fd ≡ s.max_fd
  pub same_alive : s'.alive ≡ s.alive

set_in-suc :
    (is_set : ℕ → Bool) (lo n j : ℕ)
    → set_in is_set lo (suc n) j ≡ (if j == lo then is_set lo else set_in is_set (lo + 1) n j)
set_in-suc is_set lo n j = elim (Bool-cases (j == lo)) [
  | inl e ↦ let same : j ≡ lo = ground (arith, e) in ground (arith, e, ap is_set same)
  | inr e ↦ ground (arith, e)
]

none_set :
    (is_set : ℕ → Bool) (lo n j : ℕ) → count_set is_set lo n ≡ 0 → set_in is_set lo n j ≡ false
none_set is_set lo zero j h = ground arith
none_set is_set lo (suc n) j h =
    set_in-suc is_set lo n j ∙ ground (arith, h, none_set is_set (lo + 1) n j)

nothing_left :
    (is_set : ℕ → Bool) (lo n : ℕ) (s : Selecting)
    → count_set is_set lo n ≡ 0
    → Handled is_set lo n s s
nothing_left is_set lo n s h = record {
  saves = λ j. rw (none_set is_set lo n j h) refl;
  opens = λ j. rw (none_set is_set lo n j h) refl;
  same_max = refl;
  same_alive = refl;
}

unset_first :
    (is_set : ℕ → Bool) (lo n : ℕ) (s s' : Selecting)
    → is_set lo ≡ false
    → Handled is_set (lo + 1) n s s'
    → Handled is_set lo (suc n) s s'
unset_first is_set lo n s s' h rest = record {
  saves = λ j. rw (set_in-suc is_set lo n j) (ground (arith, h, rest.saves j));
  opens = λ j. rw (set_in-suc is_set lo n j) (ground (arith, h, rest.opens j));
  same_max = rest.same_max;
  same_alive = rest.same_alive;
}

set_first :
    (is_set : ℕ → Bool) (lo n : ℕ) (s s' : Selecting)
    → is_set lo ≡ true
    → Handled is_set (lo + 1) n (forget s lo) s'
    → Handled is_set lo (suc n) s s'
set_first is_set lo n s s' h rest = record {
  saves = λ j. rw (set_in-suc is_set lo n j) (ground (arith, h, rest.saves j));
  opens = λ j. rw (set_in-suc is_set lo n j) (ground (arith, h, rest.opens j));
  same_max = rest.same_max;
  same_alive = rest.same_alive;
}

-- The scan from `sock_fd` on over `left` descriptors, of which `fd_cnt` less those that were found are
-- set, when each of these has a loop that ends: it handles exactly those that are set.
scan-handles :
    (is_set : ℕ → Bool) (recvs : ℕ → List Received) (fd_cnt left sock_fd i_times : ℕ)
    (s : Selecting)
    → i_times + count_set is_set sock_fd left ≡ fd_cnt
    → ((j : ℕ) → is_set j ≡ true → recv_loop (recvs j) ≡ true)
    → (s' : Selecting) × (scan is_set recvs fd_cnt left sock_fd i_times s ≡ some s')
      × Handled is_set sock_fd left s s'
unfolding scan
scan-handles is_set recvs fd_cnt zero sock_fd i_times s cnt ends =
    (s, refl, nothing_left is_set sock_fd 0 s refl)
scan-handles is_set recvs fd_cnt (suc left) sock_fd i_times s cnt ends =
    elim (Bool-cases (ltb i_times fd_cnt)) [
      | inr stop ↦ (
        s,
        rw (scan, stop) refl,
        nothing_left is_set sock_fd (suc left) s (ground (arith, stop, cnt)),
      )
      | inl more ↦ elim (Bool-cases (is_set sock_fd)) [
        | inr unset ↦
            let (s', ran, handled) =
              scan-handles is_set recvs fd_cnt left (sock_fd + 1) i_times s
                (ground (arith, unset, cnt)) ends in
            (s', rw (scan, more, unset) ran, unset_first is_set sock_fd left s s' unset handled)
        | inl set ↦
            let (s', ran, handled) =
              scan-handles is_set recvs fd_cnt left (sock_fd + 1) (i_times + 1) (forget s sock_fd)
                (ground (arith, set, cnt)) ends in
            (
              s',
              rw (scan, more, set, ends sock_fd set) ran,
              set_first is_set sock_fd left s s' set handled,
            )
      ]
    ]

-- A round in which `select` reports clients only: when it counts the descriptors below `maxFd` that it
-- leaves set, and the client of each ends or fails at last, the round comes to its end, every
-- descriptor that is set has been forgotten and closed, and no other has, though the scan stops at the
-- last of them.
pub round-clients :
    (server_fd n : ℕ) (a : Answers) (s : Selecting)
    → a.fd_cnt ≡ some n
    → a.is_set server_fd ≡ false
    → count_set a.is_set 0 s.max_fd ≡ n
    → ((j : ℕ) → a.is_set j ≡ true → recv_loop (a.recvs j) ≡ true)
    → (s' : Selecting) × (round server_fd a s ≡ some s') × Handled a.is_set 0 s.max_fd s s'
unfolding round
round-clients server_fd zero a s got quiet cnt ends =
    (s, rw (round, got) refl, nothing_left a.is_set 0 s.max_fd s cnt)
round-clients server_fd (suc n) a s got quiet cnt ends =
    let (s', ran, handled) =
      scan-handles a.is_set a.recvs (suc n) s.max_fd 0 0 s (omega (arith, cnt)) ends in
    (s', rw (round, got, quiet) ran, handled)

-- The loop over a client comes to its end only when the client ends or its socket fails: after any
-- messages and any calls that would block, it calls `recv` on.
pub recv_loop_waits :
    (outcomes : List Received)
    → recv_loop outcomes ≡ true
    → (before : List Received) × (last : Received) × (behind : List Received) × (outcomes
        ≡ before ++ (last ∷ behind))
      × ((last ≡ ended) ⊎ (last ≡ failed))
unfolding recv_loop
recv_loop_waits [] h = absurd (ground (arith, h))
recv_loop_waits (message bs ∷ rest) h =
    let (before, last, behind, same, ends) = recv_loop_waits rest (ground (arith, h)) in
    (message bs ∷ before, last, behind, ap (λ l. message bs ∷ l) same, ends)
recv_loop_waits (ended ∷ rest) h = ([], ended, rest, refl, inl refl)
recv_loop_waits (again ∷ rest) h =
    let (before, last, behind, same, ends) = recv_loop_waits rest h in
    (again ∷ before, last, behind, ap (λ l. again ∷ l) same, ends)
recv_loop_waits (failed ∷ rest) h = ([], failed, rest, refl, inr refl)
