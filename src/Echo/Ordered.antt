-- ===== src/Echo/Ordered.antt =====
-- Each event of the echo server of threads, and that the states reached in order keep the invariant.
use linux_interface_test.Base.{
  false, none_or_some, some_inj, ℕ, ◌<◌, ◌≡◌, refl, arith, if◌then◌else◌, List, [], ◌∷◌, ◌++◌,
  write_bytes, drop, true, Option-cases, subst, inl, inr, Option, none, some, length, ◌∙◌, sym,
}
use linux_interface_test.Echo.Receiving.{answer_to, server_recv_short}
use linux_interface_test.Echo.{
  Reply, Thread, absent, fresh, finished, holding, waiting, Server, Event, accepted, accept_failed,
  reads, calls, receives, update, server_recv, finish, step, run, recv_buf_size,
}
use linux_interface_test.Echo.Served.{
  update_self, Orderly, Reached, start, next, Within, Served, after_accept, after_read, after_call,
  after_answer, after_accept-Served, after_read-Served, after_call-Served, after_answer-Served,
}

-- What `ServerRecv` does with a message or the end of a connection.
pub ok_reply :
    (recv_buf got : List ℕ) (r : Reply) → server_recv recv_buf (some got) ≡ some r → r.ok ≡ true
unfolding server_recv
ok_reply recv_buf [] r h = ground (arith, h)
ok_reply recv_buf (b ∷ bs) r h =
    elim (Option-cases
      (write_bytes ((b ∷ bs) ++ drop (length (b ∷ bs)) recv_buf) (length (b ∷ bs)) (0 ∷ []))) [
        | inl e ↦ absurd (ground (arith, h, e))
        | inr (stored, e) ↦ ground (arith, h, e)
      ]

module _ (s : Server) where
  pub step-accepted : (fd : ℕ) → s.table fd ≡ none → step (accepted fd) s ≡ some (after_accept fd s)
  unfolding step
  step-accepted fd free = rw (step, free) refl

  pub step-reads : (t : ℕ) → s.threads t ≡ fresh → step (reads t) s ≡ some (after_read t s)
  unfolding step
  step-reads t is_fresh = rw (step, is_fresh) refl

  pub step-calls :
      (t fd c : ℕ)
      → s.threads t ≡ holding fd
      → s.table fd ≡ some c
      → step (calls t) s ≡ some (record s { threads = update s.threads t (waiting fd c) })
  unfolding step
  step-calls t fd c holds open_there = rw (step, holds, open_there) refl

  pub step-calls_closed :
      (t fd : ℕ)
      → s.threads t ≡ holding fd
      → s.table fd ≡ none
      → step (calls t) s ≡ some (record s { alive = false })
  unfolding step
  step-calls_closed t fd holds closed_there = rw (step, holds, closed_there) refl

  pub step-receives :
      (t fd c : ℕ) (recv_buf : List ℕ) (got : Option (List ℕ))
      → s.threads t ≡ waiting fd c
      → step (receives t recv_buf got) s ≡ finish s t fd (s.table fd) (server_recv recv_buf got)
  unfolding step
  step-receives t fd c recv_buf got waits = rw (step, waits) refl

  pub finish_ok :
      (t fd c : ℕ) (r : Reply)
      → r.ok ≡ true
      → finish s t fd (some c) (some r)
        ≡ some (record s {
          table = if r.closes then update s.table fd none else s.table;
          threads = update s.threads t finished;
          answered = if r.closes then c ∷ s.answered else s.answered;
        })
  unfolding finish
  finish_ok t fd c r h = rw (finish, h) refl

  step-receives_own :
      (t fd c : ℕ) (recv_buf got : List ℕ) (r : Reply)
      → Served s
      → s.threads t ≡ waiting fd c
      → server_recv recv_buf (some got) ≡ some r
      → step (receives t recv_buf (some got)) s ≡ some (after_answer t fd r.closes s)
  step-receives_own t fd c recv_buf got r inv waits reply =
      step-receives t fd c recv_buf (some got) waits
      ∙ rw ((inv.own_waiting t fd c waits).0, reply)
          (finish_ok t fd t r (ok_reply recv_buf got r reply))

  step_overflow :
      (t fd c : ℕ) (recv_buf got : List ℕ)
      → Served s
      → s.threads t ≡ waiting fd c
      → server_recv recv_buf (some got) ≡ none
      → step (receives t recv_buf (some got)) s ≡ none
  unfolding finish
  step_overflow t fd c recv_buf got inv waits reply =
      step-receives t fd c recv_buf (some got) waits
      ∙ rw ((inv.own_waiting t fd c waits).0, reply) refl

reads_Served :
    (s s' : Server) (t : ℕ) (x : Thread)
    → s.threads t ≡ x
    → Served s
    → step (reads t) s ≡ some s'
    → Served s'
unfolding step
reads_Served s s' t fresh e inv h =
    subst Served (some_inj (sym (step-reads s t e) ∙ h)) (after_read-Served s inv t e)
reads_Served s s' t absent e inv h = absurd (none_or_some _ s' (rw (step, e) refl) h)
reads_Served s s' t finished e inv h = absurd (none_or_some _ s' (rw (step, e) refl) h)
reads_Served s s' t (holding fd) e inv h = absurd (none_or_some _ s' (rw (step, e) refl) h)
reads_Served s s' t (waiting fd c) e inv h = absurd (none_or_some _ s' (rw (step, e) refl) h)

calls_Served :
    (s s' : Server) (t : ℕ) (x : Thread)
    → s.threads t ≡ x
    → Served s
    → step (calls t) s ≡ some s'
    → Served s'
unfolding step
calls_Served s s' t (holding fd) e inv h =
    subst Served (some_inj (sym (step-calls s t fd t e (inv.own t fd e)) ∙ h))
      (after_call-Served s inv t fd e)
calls_Served s s' t fresh e inv h = absurd (none_or_some _ s' (rw (step, e) refl) h)
calls_Served s s' t absent e inv h = absurd (none_or_some _ s' (rw (step, e) refl) h)
calls_Served s s' t finished e inv h = absurd (none_or_some _ s' (rw (step, e) refl) h)
calls_Served s s' t (waiting fd c) e inv h = absurd (none_or_some _ s' (rw (step, e) refl) h)

receives_Served :
    (s s' : Server) (t : ℕ) (recv_buf got : List ℕ) (x : Thread)
    → s.threads t ≡ x
    → Served s
    → step (receives t recv_buf (some got)) s ≡ some s'
    → Served s'
unfolding step
receives_Served s s' t recv_buf got (waiting fd c) e inv h =
    elim (Option-cases (server_recv recv_buf (some got))) [
      | inl over ↦ absurd (none_or_some _ s' (step_overflow s t fd c recv_buf got inv e over) h)
      | inr (r, reply) ↦
          subst Served (some_inj (sym (step-receives_own s t fd c recv_buf got r inv e reply) ∙ h))
            (after_answer-Served s inv t fd c r.closes e)
    ]
receives_Served s s' t recv_buf got (holding fd) e inv h =
    absurd (none_or_some _ s' (rw (step, e) refl) h)
receives_Served s s' t recv_buf got fresh e inv h = absurd (none_or_some _ s' (rw (step, e) refl) h)
receives_Served s s' t recv_buf got absent e inv h =
    absurd (none_or_some _ s' (rw (step, e) refl) h)
receives_Served s s' t recv_buf got finished e inv h =
    absurd (none_or_some _ s' (rw (step, e) refl) h)

step-Served :
    (ev : Event) (s s' : Server) → Served s → Orderly ev s → step ev s ≡ some s' → Served s'
unfolding step
step-Served (accepted fd) s s' inv orderly h = elim (Option-cases (s.table fd)) [
  | inl free ↦
      subst Served (some_inj (sym (step-accepted s fd free) ∙ h))
        (after_accept-Served s inv fd free orderly)
  | inr (c, busy) ↦ absurd (none_or_some _ s' (rw (step, busy) refl) h)
]
step-Served accept_failed s s' inv orderly h = elim orderly [ ]
step-Served (reads t) s s' inv orderly h = reads_Served s s' t (s.threads t) refl inv h
step-Served (calls t) s s' inv orderly h = calls_Served s s' t (s.threads t) refl inv h
step-Served (receives t recv_buf none) s s' inv orderly h = elim orderly [ ]
step-Served (receives t recv_buf (some got)) s s' inv orderly h =
    receives_Served s s' t recv_buf got (s.threads t) refl inv h

-- In every state that the server of threads reaches when each thread reads its descriptor before the
-- next connection is accepted, no call fails and no message fills the buffer: a thread that has read
-- its descriptor has that of its own connection, also while it waits there, one that has not finds it in `clientFd`, only
-- connections whose thread has returned were answered, threads that are not made do not run, and the
-- process lives.
pub Reached-Served : (s : Server) → Reached s → Served s
Reached-Served s (start _ absent_all no_answer alive) = record {
  own = λ t fd h. absurd (ground (arith, h, absent_all t));
  own_waiting = λ t fd c h. absurd (ground (arith, h, absent_all t));
  own_fresh = λ t h. absurd (ground (arith, h, absent_all t));
  done = λ c h. absurd (subst (Within c) no_answer h);
  later = λ t h. absent_all t;
  lives = alive;
}
Reached-Served s' (next ev s _ reached orderly h) =
    step-Served ev s s' (Reached-Served s reached) orderly h

pub run_one :
    (ev : Event) (evs : List Event) (s s' : Server)
    → s.alive ≡ true
    → step ev s ≡ some s'
    → run (ev ∷ evs) s ≡ run evs s'
unfolding run
run_one ev evs s s' alive h = rw (run, alive, h) refl

-- From such a state, a thread that has just been made and a message of at most 511 bytes: the thread
-- reads its descriptor, waits for the message, answers its own connection and closes it.
pub run-fresh :
    (s : Server) (t b : ℕ) (recv_buf bs : List ℕ)
    → Reached s
    → s.threads t ≡ fresh
    → length recv_buf ≡ recv_buf_size
    → length (b ∷ bs) < recv_buf_size
    → run (reads t ∷ calls t ∷ receives t recv_buf (some (b ∷ bs)) ∷ []) s
      ≡ some (after_answer t s.client_fd true (after_call t s.client_fd (after_read t s)))
unfolding run
run-fresh s t b recv_buf bs reached is_fresh size short =
    let inv = Reached-Served s reached in
    let s1 = after_read t s in
    let read : Served s1 = after_read-Served s inv t is_fresh in
    let holds = update_self s.threads t (holding s.client_fd) in
    let s2 = after_call t s.client_fd s1 in
    let called : Served s2 = after_call-Served s1 read t s.client_fd holds in
    run_one (reads t) (calls t ∷ receives t recv_buf (some (b ∷ bs)) ∷ []) s s1 inv.lives
      (step-reads s t is_fresh)
    ∙ run_one (calls t) (receives t recv_buf (some (b ∷ bs)) ∷ []) s1 s2 inv.lives
        (step-calls s1 t s.client_fd t holds (read.own t s.client_fd holds))
    ∙ run_one (receives t recv_buf (some (b ∷ bs))) [] s2 (after_answer t s.client_fd true s2)
        inv.lives
        (step-receives_own s2 t s.client_fd t recv_buf (b ∷ bs) (answer_to recv_buf (b ∷ bs)) called
          (update_self s1.threads t (waiting s.client_fd t))
          (server_recv_short recv_buf b bs (omega arith)))
