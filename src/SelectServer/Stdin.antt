-- ===== src/SelectServer/Stdin.antt =====
-- Descriptor 0, which the initial slots make `select` watch.
use linux_interface_test.Base.{
  ℕ, zero, suc, ◌+◌, ◌<◌, ◌≡◌, refl, arith, ◌==◌, if◌then◌else◌, List, ◌∷◌, Bool, true, false,
  Bool-cases, inl, inr, Option, none, some, subst, ap, ◌∙◌,
}
use linux_interface_test.SelectServer.Scan.{count_set, round-clients}
use linux_interface_test.SelectServer.{
  Received, failed, recv_loop, Selecting, Answers, start, in_slots, watched, round, select_rounds,
}

in_slots-member :
    (save : ℕ → Option ℕ) (n i fd : ℕ) → i < n → save i ≡ some fd → in_slots save n fd ≡ true
unfolding in_slots
in_slots-member save zero i fd h e = absurd (omega arith)
in_slots-member save (suc n) i fd h e = elim (Bool-cases (i == n)) [
  | inl same ↦
      let eq : n ≡ i = ground (arith, same) in
      let here : save n ≡ some fd = ap save eq ∙ e in ground (arith, here)
  | inr other ↦ ground (arith, in_slots-member save n i fd (ground (arith, other, h)) e)
]

-- The slots as they are at the start.
abbrev start_slots : ℕ → Option ℕ
start_slots idx = if idx == 0 then none else some 0

in_slots-start : (n fd : ℕ) → in_slots start_slots (suc (suc n)) fd ≡ (fd == 0)
unfolding in_slots
in_slots-start zero fd = ground arith
in_slots-start (suc n) fd = ground (arith, in_slots-start n fd)

-- From its first round on the server has `select` watch its listening socket and descriptor 0, and
-- nothing else, when the listening socket is not descriptor 0 itself: the elements of
-- `saveClientFdSet` that are not given are 0, not -1.
pub watched-start :
    (opened : ℕ → Bool) (k fd : ℕ)
    → watched (suc k) (start opened (suc k)) fd ≡ (if fd == suc k then true else fd == 0)
unfolding watched start
watched-start opened k fd = ground (arith, in_slots-start k fd)

-- Only descriptor 0.
none_above :
    (is_set : ℕ → Bool) (lo n : ℕ)
    → ((j : ℕ) → is_set j ≡ (j == 0))
    → count_set is_set (suc lo) n ≡ 0
none_above is_set lo zero only = refl
none_above is_set lo (suc n) only = ground (arith, only (suc lo), none_above is_set (suc lo) n only)

module _ (server_fd : ℕ) (env : Selecting → Answers) where
  -- `select` fails with `EBADF` when a descriptor that it is asked about is not open.
  abbrev pub ReportsClosed : Type 0
  ReportsClosed =
      (s : Selecting) (fd : ℕ)
      → watched server_fd s fd ≡ true
      → s.opened fd ≡ false
      → (env s).fd_cnt ≡ none

  pub rounds_end :
      (s : Selecting) (fd n : ℕ)
      → ReportsClosed
      → s.alive ≡ true
      → watched server_fd s fd ≡ true
      → s.opened fd ≡ false
      → select_rounds server_fd env (suc n) s ≡ some (record s { alive = false })
  unfolding select_rounds round
  rounds_end s fd zero closed alive seen shut =
      rw (select_rounds, alive, closed s fd seen shut) refl
  rounds_end s fd (suc n) closed alive seen shut =
      rw (select_rounds, alive, closed s fd seen shut) refl

  pub one_round :
      (s s' : Selecting) (n : ℕ)
      → s.alive ≡ true
      → round server_fd (env s) s ≡ some s'
      → select_rounds server_fd env (suc n) s ≡ select_rounds server_fd env n s'
  unfolding select_rounds
  one_round s s' n alive ran = rw (select_rounds, alive, ran) refl

-- After the first round.
module _ (opened : ℕ → Bool) (k : ℕ) (a : Answers) (rest : List Received) where
  abbrev begin : Selecting
  begin = start opened (suc k)

  first_round :
      a.fd_cnt ≡ some 1
      → ((j : ℕ) → a.is_set j ≡ (j == 0))
      → a.recvs 0 ≡ failed ∷ rest
      → (s' : Selecting) × (round (suc k) a begin ≡ some s')
        × (watched (suc k) s' 0 ≡ true)
        × (s'.opened 0 ≡ false)
        × (s'.alive ≡ true)
  unfolding start watched recv_loop
  first_round cnt only fails =
      let (s', ran, handled) =
        round-clients (suc k) 1 a begin cnt (ground (arith, only (suc k)))
          (ground (arith, only 0, none_above a.is_set 0 (k + 1) only)) (λ j set. only_zero j set) in
      let slot : s'.save_client_fd_set 1 ≡ some 0 = handled.saves 1 ∙ ground (arith, only 1) in
      (
        s',
        ran,
        ground (
          arith,
          in_slots-member s'.save_client_fd_set s'.max_fd 1 0 (omega (arith, handled.same_max))
              slot,
        ),
        handled.opens 0 ∙ ground (arith, only 0),
        handled.same_alive,
      )
    where
      only_zero : (j : ℕ) → a.is_set j ≡ true → recv_loop (a.recvs j) ≡ true
      only_zero j set =
          let zero_fd : 0 ≡ j = ground (arith, set, only j) in
          subst (λ i. recv_loop (a.recvs i) ≡ true) zero_fd (rw fails refl)

-- If descriptor 0 is no socket, so that `recv` on it fails, and `select` reports it alone in the first
-- round, as it does when there is input or an end of file on standard input, then the server exits in
-- the second round: the first closes descriptor 0 and clears element 0 of `saveClientFdSet` only, the
-- other elements have `select` watch it again, and it fails.
pub select_rounds-stdin :
    (opened : ℕ → Bool) (k n : ℕ) (env : Selecting → Answers) (rest : List Received)
    → ReportsClosed (suc k) env
    → (env (start opened (suc k))).fd_cnt ≡ some 1
    → ((j : ℕ) → (env (start opened (suc k))).is_set j ≡ (j == 0))
    → (env (start opened (suc k))).recvs 0 ≡ failed ∷ rest
    → (s' : Selecting) × (select_rounds (suc k) env (suc (suc n)) (start opened (suc k)) ≡ some s')
      × (s'.alive ≡ false)
unfolding start
select_rounds-stdin opened k n env rest closed cnt only fails =
    let s : Selecting = start opened (suc k) in
    let (s', ran, seen, shut, alive) = first_round opened k (env s) rest cnt only fails in
    (
      record s' { alive = false },
      one_round (suc k) env s s' (suc n) refl ran
          ∙ rounds_end (suc k) env s' 0 n closed alive seen shut,
      refl,
    )
