-- ===== src/SelectServer/Tests.antt =====
-- The server with `select` at concrete answers of the system.
use linux_interface_test.Base.{
  ℕ, zero, suc, ◌≡◌, refl, sym, ap, ◌∙◌, arith, ◌==◌, ◌&&◌, ◌||◌, if◌then◌else◌, [], ◌∷◌, Bool,
  true, false, Bool-cases, inl, inr, Option, none, some,
}
use linux_interface_test.SelectServer.{
  message, ended, again, failed, recv_loop, Selecting, Answers, start, is_slot, in_slots, watched,
  forget, accept_one, round, select_rounds,
}
use linux_interface_test.SelectServer.Scan.{Handled, round-clients}
use linux_interface_test.SelectServer.Stdin.{ReportsClosed, select_rounds-stdin}
use linux_interface_test.SelectServer.Listener.{select_rounds-listener}

abbrev slot_open : (ℕ → Bool) → Option ℕ → Bool
slot_open opened none = true
slot_open opened (some fd) = opened fd

abbrev slots_open : (ℕ → Bool) → (ℕ → Option ℕ) → ℕ → Bool
slots_open opened save zero = true
slots_open opened save (suc n) = slot_open opened (save n) && slots_open opened save n

-- A system that answers `a` as long as what is watched is open.
abbrev env_of : ℕ → Answers → Selecting → Answers
env_of server_fd a s =
    if s.opened server_fd && slots_open s.opened s.save_client_fd_set s.max_fd
    then a
    else record a { fd_cnt = none }

slot_open-is :
    (opened : ℕ → Bool) (o : Option ℕ) (fd : ℕ)
    → is_slot o fd ≡ true
    → opened fd ≡ false
    → slot_open opened o ≡ false
slot_open-is opened none fd h c = ground (arith, h)
slot_open-is opened (some x) fd h c = let same : x ≡ fd = ground (arith, h) in ap opened same ∙ c

slots_open-shut :
    (opened : ℕ → Bool) (save : ℕ → Option ℕ) (n fd : ℕ)
    → in_slots save n fd ≡ true
    → opened fd ≡ false
    → slots_open opened save n ≡ false
unfolding in_slots
slots_open-shut opened save zero fd h c = ground (arith, h)
slots_open-shut opened save (suc n) fd h c = elim (Bool-cases (is_slot (save n) fd)) [
  | inl e ↦ ground (arith, slot_open-is opened (save n) fd e c)
  | inr e ↦ ground (arith, e, h, slots_open-shut opened save n fd (ground (arith, e, h)) c)
]

env_of-ReportsClosed : (server_fd : ℕ) (a : Answers) → ReportsClosed server_fd (env_of server_fd a)
unfolding watched
env_of-ReportsClosed server_fd a s fd seen shut = elim (Bool-cases (fd == server_fd)) [
  | inl e ↦
      let same : fd ≡ server_fd = ground (arith, e) in
      let shut' : s.opened server_fd ≡ false = ap s.opened (sym same) ∙ shut in rw shut' refl
  | inr e ↦ ground (
    arith,
    slots_open-shut s.opened s.save_client_fd_set s.max_fd fd (ground (arith, e, seen)) shut,
  )
]

abbrev all_open : ℕ → Bool
all_open fd = true

abbrev stdin_answers : Answers
stdin_answers = record {
  fd_cnt = some 1;
  is_set = λ j. j == 0;
  accept_fd = none;
  recvs = λ j. failed ∷ [];
}

abbrev listener_answers : Answers
listener_answers = record {
  fd_cnt = some 2;
  is_set = λ j. (j == 3) || (j == 5);
  accept_fd = some 6;
  recvs = λ j. failed ∷ [];
}

abbrev client_answers : Answers
client_answers = record {
  fd_cnt = some 1;
  is_set = λ j. j == 5;
  accept_fd = none;
  recvs = λ j. message (104 ∷ 105 ∷ []) ∷ again ∷ ended ∷ [];
}

abbrev one_client : Selecting
one_client = accept_one 5 (start all_open 3)

round-clients_example :
    (s' : Selecting) × (round 3 client_answers one_client ≡ some s')
    × Handled client_answers.is_set 0 6 one_client s'
unfolding start recv_loop
round-clients_example = round-clients 3 1 client_answers one_client refl refl refl (λ j h. refl)

select_rounds-stdin_example :
    (s' : Selecting) × (select_rounds 3 (env_of 3 stdin_answers) 2 (start all_open 3) ≡ some s')
    × (s'.alive ≡ false)
unfolding start
select_rounds-stdin_example =
    select_rounds-stdin all_open 2 0 (env_of 3 stdin_answers) []
      (env_of-ReportsClosed 3 stdin_answers) refl (λ j. refl) refl

select_rounds-listener_example :
    select_rounds 3 (env_of 3 listener_answers) 2 one_client
    ≡ some (record (forget (accept_one 6 one_client) 3) { alive = false })
unfolding start
select_rounds-listener_example =
    select_rounds-listener 3 6 0 (env_of 3 listener_answers) one_client []
      (env_of-ReportsClosed 3 listener_answers) refl (omega arith) refl refl
      (λ j h. ground (arith, h)) refl refl
