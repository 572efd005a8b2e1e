-- ===== src/Echo/Race.antt =====
-- Two connections that are accepted before the thread of the first has read `clientFd`.
use linux_interface_test.Base.{
  ℕ, ◌+◌, ◌<◌, ◌≡◌, ◌≢◌, refl, arith, List, [], ◌∷◌, true, false, none, some, length, ◌∙◌,
}
use linux_interface_test.Echo.{
  Server, Event, accepted, reads, calls, receives, waiting, finished, update, step, run,
  recv_buf_size,
}
use linux_interface_test.Echo.Receiving.{answer_to, server_recv_short}
use linux_interface_test.Echo.Served.{update_self, after_accept, after_read}
use linux_interface_test.Echo.Ordered.{
  step-accepted, step-reads, step-calls, step-calls_closed, step-receives, run_one, finish_ok,
}

-- Two connections come in, both threads read their descriptor, the first receives a message and
-- returns, and then the second calls `recv`.
abbrev pub race : Server → ℕ → ℕ → List ℕ → List ℕ → List Event
race s fd fd' recv_buf message =
    accepted fd
    ∷ accepted fd'
    ∷ reads s.thread_cnt
    ∷ reads (s.thread_cnt + 1)
    ∷ calls s.thread_cnt
    ∷ receives s.thread_cnt recv_buf (some message)
    ∷ calls (s.thread_cnt + 1)
    ∷ []

-- The states on the way.
module _ (s : Server) (fd fd' : ℕ) where
  abbrev both_accepted : Server
  both_accepted = after_accept fd' (after_accept fd s)

  abbrev first_read : Server
  first_read = after_read s.thread_cnt both_accepted

  abbrev both_read : Server
  both_read = after_read (s.thread_cnt + 1) first_read

  -- The first thread waits for the second connection.
  abbrev first_called : Server
  first_called = record both_read {
    threads = update both_read.threads s.thread_cnt (waiting fd' (s.thread_cnt + 1));
  }

  -- The first thread has answered the second connection.
  abbrev first_done : Server
  first_done = record first_called {
    table = update first_called.table fd' none;
    threads = update first_called.threads s.thread_cnt finished;
    answered = (s.thread_cnt + 1) ∷ s.answered;
  }

  abbrev pub after_race : Server
  after_race = record first_done { alive = false }

  to_both_read :
      (evs : List Event)
      → s.alive ≡ true
      → s.table fd ≡ none
      → s.table fd' ≡ none
      → fd ≢ fd'
      → run (accepted fd ∷ accepted fd' ∷ reads s.thread_cnt ∷ reads (s.thread_cnt + 1) ∷ evs) s
        ≡ run evs both_read
  to_both_read evs alive free free' other =
      run_one (accepted fd) (accepted fd' ∷ reads s.thread_cnt ∷ reads (s.thread_cnt + 1) ∷ evs) s
        (after_accept fd s) alive (step-accepted s fd free)
      ∙ run_one (accepted fd') (reads s.thread_cnt ∷ reads (s.thread_cnt + 1) ∷ evs)
          (after_accept fd s) both_accepted alive
          (step-accepted (after_accept fd s) fd' (ground (arith, free', other)))
      ∙ run_one (reads s.thread_cnt) (reads (s.thread_cnt + 1) ∷ evs) both_accepted first_read alive
          (step-reads both_accepted s.thread_cnt (ground arith))
      ∙ run_one (reads (s.thread_cnt + 1)) evs first_read both_read alive
          (step-reads first_read (s.thread_cnt + 1) (ground arith))

  first_calls : step (calls s.thread_cnt) both_read ≡ some first_called
  first_calls =
      step-calls both_read s.thread_cnt fd' (s.thread_cnt + 1) (ground arith)
        (update_self (after_accept fd s).table fd' (some (s.thread_cnt + 1)))

  first_receives :
      (b : ℕ) (recv_buf bs : List ℕ)
      → length (b ∷ bs) < length recv_buf
      → step (receives s.thread_cnt recv_buf (some (b ∷ bs))) first_called ≡ some first_done
  first_receives b recv_buf bs short =
      step-receives first_called s.thread_cnt fd' (s.thread_cnt + 1) recv_buf (some (b ∷ bs))
        (update_self both_read.threads s.thread_cnt (waiting fd' (s.thread_cnt + 1)))
      ∙ rw
          (
            update_self (after_accept fd s).table fd' (some (s.thread_cnt + 1)),
            server_recv_short recv_buf b bs short,
          )
          (finish_ok first_called s.thread_cnt fd' (s.thread_cnt + 1) (answer_to recv_buf (b ∷ bs))
            refl)

  second_calls : step (calls (s.thread_cnt + 1)) first_done ≡ some after_race
  second_calls =
      step-calls_closed first_done (s.thread_cnt + 1) fd' (ground arith)
        (update_self first_called.table fd' none)

-- Two connections come in on unused descriptors before the first of the two threads has read `clientFd`,
-- both threads read it, and the first receives a message of at most 511 bytes before the second calls
-- recv. In this order both threads have the second connection: the first answers it and closes it,
-- the first connection gets no answer, and the recv of the second thread fails, so that the whole
-- server exits. This is so in every state of the server.
pub run-race :
    (s : Server) (fd fd' b : ℕ) (recv_buf bs : List ℕ)
    → s.alive ≡ true
    → s.table fd ≡ none
    → s.table fd' ≡ none
    → fd ≢ fd'
    → length recv_buf ≡ recv_buf_size
    → length (b ∷ bs) < recv_buf_size
    → run (race s fd fd' recv_buf (b ∷ bs)) s ≡ some (after_race s fd fd')
unfolding run
run-race s fd fd' b recv_buf bs alive free free' other size short =
    to_both_read s fd fd'
      (calls s.thread_cnt
        ∷ receives s.thread_cnt recv_buf (some (b ∷ bs))
        ∷ calls (s.thread_cnt + 1)
        ∷ [])
      alive free free' other
    ∙ run_one (calls s.thread_cnt)
        (receives s.thread_cnt recv_buf (some (b ∷ bs)) ∷ calls (s.thread_cnt + 1) ∷ [])
        (both_read s fd fd') (first_called s fd fd') alive (first_calls s fd fd')
    ∙ run_one (receives s.thread_cnt recv_buf (some (b ∷ bs))) (calls (s.thread_cnt + 1) ∷ [])
        (first_called s fd fd') (first_done s fd fd') alive
        (first_receives s fd fd' b recv_buf bs (omega arith))
    ∙ run_one (calls (s.thread_cnt + 1)) [] (first_done s fd fd') (after_race s fd fd') alive
        (second_calls s fd fd')
