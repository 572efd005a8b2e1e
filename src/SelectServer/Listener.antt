-- ===== src/SelectServer/Listener.antt =====
-- The listening socket, which the scan over the clients takes for one of them.
use linux_interface_test.Base.{
  ℕ, zero, suc, ◌+◌, ◌-◌, ◌<◌, ◌≡◌, refl, arith, ==_refl, ltb, lt→ltb, List, ◌∷◌, Bool, true, false,
  some, ap, ◌∙◌,
}
use linux_interface_test.SelectServer.Stdin.{ReportsClosed, rounds_end, one_round}
use linux_interface_test.SelectServer.{
  Received, failed, recv_loop, Selecting, Answers, watched, forget, accept_one, scan, round,
  select_rounds,
}

-- Descriptors that are not set are passed over.
scan_over :
    (is_set : ℕ → Bool) (recvs : ℕ → List Received) (fd_cnt n left lo i_times : ℕ) (s : Selecting)
    → i_times < fd_cnt
    → ((j : ℕ) → j < lo + n → is_set j ≡ false)
    → scan is_set recvs fd_cnt (n + left) lo i_times s
      ≡ scan is_set recvs fd_cnt left (lo + n) i_times s
unfolding scan
scan_over is_set recvs fd_cnt zero left lo i_times s more unset =
    let a : zero + left ≡ left = omega arith in
    let b : lo + zero ≡ lo = omega arith in rw (a, b) refl
scan_over is_set recvs fd_cnt (suc n) left lo i_times s more unset =
    let a : suc n + left ≡ suc (n + left) = omega arith in
    let b : lo + suc n ≡ lo + 1 + n = omega arith in
    rw (a, b)
      (rw (scan, lt→ltb i_times fd_cnt more, unset lo (omega arith))
        (scan_over is_set recvs fd_cnt n left (lo + 1) i_times s more
          (λ j h. unset j (omega arith))))

scan_stop :
    (is_set : ℕ → Bool) (recvs : ℕ → List Received) (fd_cnt left fd i_times : ℕ) (s : Selecting)
    → ltb i_times fd_cnt ≡ false
    → scan is_set recvs fd_cnt left fd i_times s ≡ some s
unfolding scan
scan_stop is_set recvs fd_cnt zero fd i_times s stop = refl
scan_stop is_set recvs fd_cnt (suc left) fd i_times s stop = rw (scan, stop) refl

-- The last descriptor that is wanted.
scan_last :
    (is_set : ℕ → Bool) (recvs : ℕ → List Received) (fd_cnt left fd i_times : ℕ) (s : Selecting)
    → i_times + 1 ≡ fd_cnt
    → is_set fd ≡ true
    → recv_loop (recvs fd) ≡ true
    → scan is_set recvs fd_cnt (suc left) fd i_times s ≡ some (forget s fd)
unfolding scan
scan_last is_set recvs fd_cnt left fd i_times s cnt set ends =
    rw (scan, lt→ltb i_times fd_cnt (omega arith), set, ends)
      (scan_stop is_set recvs fd_cnt left (fd + 1) (i_times + 1) (forget s fd)
        (ground (arith, cnt)))

-- A round in which a connection has come and a client above the listening socket is ready.
round-listener :
    (server_fd fd : ℕ) (a : Answers) (s : Selecting)
    → a.fd_cnt ≡ some 2
    → a.is_set server_fd ≡ true
    → ((j : ℕ) → j < server_fd → a.is_set j ≡ false)
    → a.accept_fd ≡ some fd
    → server_fd < s.max_fd
    → recv_loop (a.recvs server_fd) ≡ true
    → round server_fd a s ≡ some (forget (accept_one fd s) server_fd)
unfolding round
round-listener server_fd fd a s cnt set below accepts small ends =
    let max : ℕ = (accept_one fd s).max_fd in
    let fits : server_fd < max = ground arith in
    let parts : max ≡ server_fd + suc (max - server_fd - 1) = omega (arith, fits) in
    rw (round, cnt, set, accepts)
      (ap (λ n. scan a.is_set a.recvs 1 n 0 0 (accept_one fd s)) parts
        ∙ scan_over a.is_set a.recvs 1 server_fd (suc (max - server_fd - 1)) 0 0 (accept_one fd s)
            (omega arith) (λ j h. below j (omega arith))
        ∙ ap (λ j. scan a.is_set a.recvs 1 (suc (max - server_fd - 1)) j 0 (accept_one fd s))
            (omega arith)
        ∙ scan_last a.is_set a.recvs 1 (max - server_fd - 1) server_fd 0 (accept_one fd s) refl set
            ends)

-- If `select` reports the listening socket and one client above it in the same round, the server
-- exits in the next: the scan comes to the listening socket first, whose `recv` fails, closes it, and
-- does not read the client; then `select` fails, since the listening socket is always watched. This is
-- so for every state, with whatever clients, whose `maxFd` is above the listening socket.
pub select_rounds-listener :
    (server_fd fd n : ℕ) (env : Selecting → Answers) (s : Selecting) (rest : List Received)
    → ReportsClosed server_fd env
    → s.alive ≡ true
    → server_fd < s.max_fd
    → (env s).fd_cnt ≡ some 2
    → (env s).is_set server_fd ≡ true
    → ((j : ℕ) → j < server_fd → (env s).is_set j ≡ false)
    → (env s).accept_fd ≡ some fd
    → (env s).recvs server_fd ≡ failed ∷ rest
    → select_rounds server_fd env (suc (suc n)) s
      ≡ some (record (forget (accept_one fd s) server_fd) { alive = false })
unfolding watched recv_loop
select_rounds-listener server_fd fd n env s rest closed alive small cnt set below accepts fails =
    one_round server_fd env s (forget (accept_one fd s) server_fd) (suc n) alive
      (round-listener server_fd fd (env s) s cnt set below accepts small (rw fails refl))
    ∙ rounds_end server_fd env (forget (accept_one fd s) server_fd) server_fd n closed alive
        (rw (==_refl server_fd) refl) (rw (==_refl server_fd) refl)
