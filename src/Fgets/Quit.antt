-- ===== src/Fgets/Quit.antt =====
-- Whether the thread ends after `q`.
use linux_interface_test.Base.{
  ℕ, zero, suc, ◌≤◌, ◌≡◌, ◌≢◌, ◌⊎◌, inl, inr, refl, arith, List, [], ◌∷◌, ◌++◌, Bool, true, false,
  not, ap, ◌∙◌,
}
use linux_interface_test.Fgets.{
  ThreadStatus, thread_init, thread_init_done, thread_quit, thread_running, thread_sleeping,
  thread_suspend, thread_block, Pc, at_switch, storing, blocked, exited, Worker, Event, stores,
  works, worker_step, step, run, created,
}

-- The thread goes on `n` times, with a message in the queue each time it waits.
abbrev pub works_for : ℕ → List Event
works_for zero = []
works_for (suc n) = works true ∷ works_for n

abbrev pub is_exited : Pc → Bool
is_exited exited = true
is_exited at_switch = false
is_exited storing = false
is_exited blocked = false

abbrev pub is_storing : Pc → Bool
is_storing storing = true
is_storing at_switch = false
is_storing exited = false
is_storing blocked = false

exited_stays :
    (n : ℕ) (status : ThreadStatus)
    → is_exited ((run (works_for n) (record { status = status; pc = exited })).pc) ≡ true
unfolding run
exited_stays zero status = refl
exited_stays (suc n) status = exited_stays n status

running_stays :
    (n : ℕ)
    → is_exited ((run (works_for n) (record { status = thread_running; pc = at_switch })).pc)
      ≡ false
unfolding run
running_stays zero = refl
running_stays (suc n) = running_stays n

-- The thread ends after `q`, in two steps at most, exactly when the store of THREAD_QUIT does not
-- fall between its test for THREAD_INIT and its store of THREAD_RUNNING; there the store is lost and
-- it runs on for ever. It is taken that `mq_receive` gets a message when the thread waits in it.
pub run-quit :
    (w : Worker) (n : ℕ)
    → is_exited ((run (stores thread_quit ∷ works_for (suc (suc n))) w).pc) ≡ not (is_storing w.pc)
unfolding run
run-quit w n = by_pc w.pc n
  where
    by_pc :
        (pc : Pc) (n : ℕ)
        → is_exited ((run (works_for (suc (suc n))) (record { status = thread_quit; pc = pc })).pc)
          ≡ not (is_storing pc)
    by_pc at_switch n = exited_stays (suc n) thread_quit
    by_pc storing n = running_stays (suc n)
    by_pc blocked n = exited_stays n thread_quit
    by_pc exited n = exited_stays (suc (suc n)) thread_quit

-- No command stores THREAD_INIT.
abbrev pub AllCommands : List Event → Type 0
AllCommands [] = Unit {0}
AllCommands (stores status ∷ evs) = (status ≢ thread_init) × AllCommands evs
AllCommands (works message ∷ evs) = AllCommands evs

abbrev pub works_count : List Event → ℕ
works_count [] = 0
works_count (stores status ∷ evs) = works_count evs
works_count (works message ∷ evs) = suc (works_count evs)

-- The thread has its first store behind it, or has no need of it.
abbrev IsSettled : Worker → Type 0
IsSettled w = (w.status ≢ thread_init) × (is_storing w.pc ≡ false)

work_IsSettled :
    (message : Bool) (status : ThreadStatus) (pc : Pc)
    → IsSettled (record { status = status; pc = pc })
    → IsSettled (worker_step message status pc)
unfolding worker_step
work_IsSettled message thread_init at_switch (used, h) = absurd (used refl)
work_IsSettled message thread_init_done at_switch (used, h) = (used, refl)
work_IsSettled message thread_quit at_switch (used, h) = (used, refl)
work_IsSettled message thread_running at_switch (used, h) = (used, refl)
work_IsSettled message thread_sleeping at_switch (used, h) = (used, refl)
work_IsSettled message thread_suspend at_switch (used, h) = (used, refl)
work_IsSettled message thread_block at_switch (used, h) = (used, refl)
work_IsSettled message status storing (used, h) = absurd (ground (arith, h))
work_IsSettled true status blocked (used, h) = (used, refl)
work_IsSettled false status blocked (used, h) = (used, refl)
work_IsSettled message status exited (used, h) = (used, refl)

run-IsSettled :
    (evs : List Event) (w : Worker) → AllCommands evs → IsSettled w → IsSettled (run evs w)
unfolding run step
run-IsSettled [] w all settled = settled
run-IsSettled (stores status ∷ evs) w (used, all) (old, h) =
    run-IsSettled evs (record w { status = status }) all (used, h)
run-IsSettled (works message ∷ evs) w all settled =
    run-IsSettled evs (worker_step message w.status w.pc) all
      (work_IsSettled message w.status w.pc settled)

-- Before its store of THREAD_RUNNING.
from_storing :
    (evs : List Event) (status : ThreadStatus)
    → AllCommands evs
    → 1 ≤ works_count evs
    → IsSettled (run evs (record { status = status; pc = storing }))
unfolding run step worker_step
from_storing [] status all many = absurd (omega arith)
from_storing (stores status ∷ evs) old (used, all) many = from_storing evs status all many
from_storing (works message ∷ evs) status all many =
    run-IsSettled evs _ all ((λ h. ground (arith, h)), refl)

init_or_not : (status : ThreadStatus) → (status ≡ thread_init) ⊎ (status ≢ thread_init)
init_or_not thread_init = inl refl
init_or_not thread_init_done = inr (λ h. ground (arith, h))
init_or_not thread_quit = inr (λ h. ground (arith, h))
init_or_not thread_running = inr (λ h. ground (arith, h))
init_or_not thread_sleeping = inr (λ h. ground (arith, h))
init_or_not thread_suspend = inr (λ h. ground (arith, h))
init_or_not thread_block = inr (λ h. ground (arith, h))

from_created :
    (evs : List Event) (status : ThreadStatus)
    → AllCommands evs
    → 2 ≤ works_count evs
    → IsSettled (run evs (record { status = status; pc = at_switch }))
unfolding run step worker_step
from_created [] status all many = absurd (omega arith)
from_created (stores status ∷ evs) old (used, all) many = from_created evs status all many
from_created (works message ∷ evs) status all many = elim (init_or_not status) [
  | inl e ↦ rw e (from_storing evs thread_init all (omega arith))
  | inr used ↦ run-IsSettled evs _ all (work_IsSettled message status at_switch (used, refl))
]

run-append : (evs evs' : List Event) (w : Worker) → run (evs ++ evs') w ≡ run evs' (run evs w)
unfolding run
run-append [] evs' w = refl
run-append (ev ∷ evs) evs' w = run-append evs evs' (step ev w)

-- Whatever commands are given and however they fall between the thread's steps: once the thread has
-- made two of these since it was created, `q` ends it in two more at most. None of the commands stores
-- THREAD_INIT, and `mq_receive` gets a message when the thread waits in it behind the `q`.
pub run-created :
    (evs : List Event) (n : ℕ)
    → AllCommands evs
    → 2 ≤ works_count evs
    → is_exited ((run (evs ++ (stores thread_quit ∷ works_for (suc (suc n)))) created).pc) ≡ true
run-created evs n all many =
    let (used, safe) = from_created evs thread_init all many in
    ap (λ (w : Worker). is_exited w.pc)
      (run-append evs (stores thread_quit ∷ works_for (suc (suc n))) created)
    ∙ run-quit (run evs created) n
    ∙ rw safe refl
