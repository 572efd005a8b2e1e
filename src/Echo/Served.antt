-- ===== src/Echo/Served.antt =====
-- The threads of the echo server when each reads `clientFd` before the next `accept` returns: the states
-- that are reached, the invariant, and that the states after each event keep it.
use linux_interface_test.Base.{
  ℕ, ◌+◌, ◌≤◌, ◌≡◌, ◌≢◌, ◌⊎◌, refl, arith, ◌==◌, ==_refl, if◌then◌else◌, List, [], ◌∷◌, Bool, true,
  false, Bool-cases, inl, inr, none, some,
}
use linux_interface_test.Echo.{
  absent, fresh, finished, holding, waiting, Server, Event, accepted, accept_failed, reads, calls,
  receives, update, step,
}

pub update_self : {A : Type 0} (f : ℕ → A) (i : ℕ) (a : A) → update f i a i ≡ a
update_self f i a = rw (==_refl i) refl

pub update_ne : {A : Type 0} (f : ℕ → A) (i j : ℕ) (a : A) → j ≢ i → update f i a j ≡ f j
update_ne f i j a h = elim (Bool-cases (j == i)) [
  | inl e ↦ absurd (h (ground (arith, e)))
  | inr e ↦ rw e refl
]

-- All goes as the system calls promise, and no connection is accepted while a thread has not read its
-- descriptor.
abbrev pub Orderly : Event → Server → Type 0
Orderly (accepted fd) s = (t : ℕ) → s.threads t ≢ fresh
Orderly accept_failed s = ⊥
Orderly (reads t) s = Unit {0}
Orderly (calls t) s = Unit {0}
Orderly (receives t recv_buf none) s = ⊥
Orderly (receives t recv_buf (some got)) s = Unit {0}

-- The states that are reached from one that has no thread.
pub data Reached : Server → Type 0 where
  start :
      (s : Server) → ((t : ℕ) → s.threads t ≡ absent) → s.answered ≡ [] → s.alive ≡ true → Reached s
  next : (ev : Event) (s s' : Server) → Reached s → Orderly ev s → step ev s ≡ some s' → Reached s'

abbrev pub Within : ℕ → List ℕ → Type 0
Within c [] = ⊥
Within c (d ∷ ds) = (c ≡ d) ⊎ Within c ds

-- Thread t has the descriptor of connection t, and waits for nothing but what comes from there.
pub record Served (s : Server) : Type 0 where
  pub own : (t fd : ℕ) → s.threads t ≡ holding fd → s.table fd ≡ some t
  pub own_waiting : (t fd c : ℕ) → s.threads t ≡ waiting fd c → (s.table fd ≡ some t) × (c ≡ t)
  pub own_fresh : (t : ℕ) → s.threads t ≡ fresh → s.table s.client_fd ≡ some t
  pub done : (c : ℕ) → Within c (s.answered) → s.threads c ≡ finished
  pub later : (t : ℕ) → s.thread_cnt ≤ t → s.threads t ≡ absent
  pub lives : s.alive ≡ true

-- The states after an event.
abbrev pub after_accept : ℕ → Server → Server
after_accept fd s = record s {
  table = update s.table fd (some s.thread_cnt);
  client_fd = fd;
  threads = update s.threads s.thread_cnt fresh;
  thread_cnt = s.thread_cnt + 1;
}

abbrev pub after_read : ℕ → Server → Server
after_read t s = record s { threads = update s.threads t (holding s.client_fd) }

abbrev pub after_call : ℕ → ℕ → Server → Server
after_call t fd s = record s { threads = update s.threads t (waiting fd t) }

abbrev pub after_answer : ℕ → ℕ → Bool → Server → Server
after_answer t fd closes s = record s {
  table = if closes then update s.table fd none else s.table;
  threads = update s.threads t finished;
  answered = if closes then t ∷ s.answered else s.answered;
}

module _ (s : Server) (inv : Served s) where
  pub after_accept-Served :
      (fd : ℕ) → s.table fd ≡ none → ((t : ℕ) → s.threads t ≢ fresh) → Served (after_accept fd s)
  after_accept-Served fd free none_fresh = record {
    own = λ t fd' h. ground (arith, h, free, inv.own t fd');
    own_waiting = λ t fd' c h. ground (arith, h, free, inv.own_waiting t fd' c);
    own_fresh = λ t h. ground (arith, h, none_fresh t);
    done = λ c h. ground (arith, inv.done c h, inv.later c);
    later = λ t h. ground (arith, inv.later t, h);
    lives = inv.lives;
  }

  pub after_read-Served : (t : ℕ) → s.threads t ≡ fresh → Served (after_read t s)
  after_read-Served t is_fresh = record {
    own = λ t' fd' h. ground (arith, h, inv.own t' fd', inv.own_fresh t is_fresh);
    own_waiting = λ t' fd' c h. ground (arith, h, inv.own_waiting t' fd' c);
    own_fresh = λ t' h. ground (arith, h, inv.own_fresh t');
    done = λ c h. ground (arith, inv.done c h, is_fresh);
    later = λ t' h. ground (arith, inv.later t', h, is_fresh);
    lives = inv.lives;
  }

  pub after_call-Served : (t fd : ℕ) → s.threads t ≡ holding fd → Served (after_call t fd s)
  after_call-Served t fd holds = record {
    own = λ t' fd' h. ground (arith, h, inv.own t' fd');
    own_waiting = λ t' fd' c h. ground (arith, h, inv.own_waiting t' fd' c, inv.own t fd holds);
    own_fresh = λ t' h. ground (arith, h, inv.own_fresh t');
    done = λ c h. ground (arith, inv.done c h, holds);
    later = λ t' h. ground (arith, inv.later t', h, holds);
    lives = inv.lives;
  }

  pub after_answer-Served :
      (t fd c : ℕ) (closes : Bool)
      → s.threads t ≡ waiting fd c
      → Served (after_answer t fd closes s)
  after_answer-Served t fd c closes waits = record {
    own = λ t' fd' h. ground (arith, h, inv.own t' fd', (inv.own_waiting t fd c waits).0);
    own_waiting = λ t' fd' c' h.
        ground (arith, h, inv.own_waiting t' fd' c', (inv.own_waiting t fd c waits).0);
    own_fresh =
        λ t' h. ground (arith, h, inv.own_fresh t', (inv.own_waiting t fd c waits).0, waits);
    done = answered_done t fd closes;
    later = λ t' h. ground (arith, inv.later t', h, waits);
    lives = inv.lives;
  }
    where
      answered_done :
          (t fd : ℕ) (closes : Bool) (c : ℕ)
          → Within c ((after_answer t fd closes s).answered)
          → (after_answer t fd closes s).threads c ≡ finished
      answered_done t fd true c (inl e) = ground (arith, e)
      answered_done t fd true c (inr h) = ground (arith, inv.done c h)
      answered_done t fd false c h = ground (arith, inv.done c h)
