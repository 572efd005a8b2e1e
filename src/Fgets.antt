-- ===== src/Fgets.antt =====
-- src/stdio/fgetsTest.cpp: a loop that reads commands from standard input and stores them in the status
-- of a thread, and the thread that acts on its status. What `mq_receive` does is a parameter.
use linux_interface_test.Base.{
  ℕ, zero, suc, ◌+◌, ◌==◌, ◌&&◌, if◌then◌else◌, List, [], ◌∷◌, ◌++◌, Bool, true, false, Option,
  none, some, get_or,
}
pub mod Lines
pub mod Quit
mod Tests

abbrev pub max_input_buf : ℕ
max_input_buf = 10

-- `enum ThreadStatus`
pub data ThreadStatus : Type 0 where
  thread_init thread_init_done thread_quit thread_running thread_sleeping thread_suspend
        thread_block :
      ThreadStatus

-- `fgets` with room for `left` characters: what it stores, and what stays in the stream.
unfoldable pub fgets : ℕ → List ℕ → List ℕ × List ℕ
fgets zero stream = ([], stream)
fgets (suc left) [] = ([], [])
fgets (suc left) (c ∷ cs) =
    let rest = fgets left cs in if c == 10 then (c ∷ [], cs) else (c ∷ rest.0, rest.1)

-- The `switch` of `InputLoop`: the status that a command stores, none when it stores none.
abbrev pub status_of : ℕ → Option ThreadStatus
status_of in_char =
    if in_char == 113
    then some thread_quit
    else if in_char == 115
    then some thread_sleeping
    else if in_char == 114
    then some thread_running
    else if in_char == 98
    then some thread_block
    else none

abbrev pub option_list : {A : Type 0} → Option A → List A
option_list none = []
option_list (some a) = a ∷ []

-- `InputLoop` on what the stream holds, with fuel: the statuses that it stores, and true when it
-- returns. At the end of the stream `fgets` fails from then on and it does not return.
unfoldable pub input_loop : ℕ → List ℕ → List ThreadStatus × Bool
unfolding fgets
input_loop zero stream = ([], false)
input_loop (suc fuel) [] = ([], false)
input_loop (suc fuel) (c ∷ cs) =
    let rest = input_loop fuel (fgets max_input_buf (c ∷ cs)).1 in
    let in_char = get_or (fgets max_input_buf (c ∷ cs)).0 0 0 in
    if in_char == 113
    then (thread_quit ∷ [], true)
    else (option_list (status_of in_char) ++ rest.0, rest.1)

-- Where `ThreadBlockRecv` is: at its `switch`, before the store of THREAD_RUNNING, in `mq_receive`, or
-- at its end.
pub data Pc : Type 0 where
  at_switch storing blocked exited : Pc

pub record Worker : Type 0 where
  pub status : ThreadStatus
  pub pc : Pc

-- What the `switch` goes on to.
abbrev pub after_switch : ThreadStatus → Pc
after_switch thread_init = storing
after_switch thread_init_done = at_switch
after_switch thread_quit = exited
after_switch thread_running = at_switch
after_switch thread_sleeping = at_switch
after_switch thread_suspend = at_switch
after_switch thread_block = blocked

-- What happens next: `InputLoop` stores a status, or the thread goes on, with whether there is a
-- message for it in the queue.
pub data Event : Type 0 where
  stores : (status : ThreadStatus) → Event
  works : (message : Bool) → Event

unfoldable pub worker_step : Bool → ThreadStatus → Pc → Worker
worker_step message status at_switch = record { status = status; pc = after_switch status }
worker_step message status storing = record { status = thread_running; pc = at_switch }
worker_step message status blocked = record {
  status = status;
  pc = if message then at_switch else blocked;
}
worker_step message status exited = record { status = status; pc = exited }

unfoldable pub step : Event → Worker → Worker
unfolding worker_step
step (stores status) w = record w { status = status }
step (works message) w = worker_step message w.status w.pc

-- Events one after another.
unfoldable pub run : List Event → Worker → Worker
unfolding step
run [] w = w
run (ev ∷ evs) w = run evs (step ev w)

-- `FgetsTest_fgets` creates the thread.
abbrev pub created : Worker
created = record { status = thread_init; pc = at_switch }
