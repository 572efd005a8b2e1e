-- ===== src/Echo/Tests.antt =====
-- The echo servers at concrete clients.
use linux_interface_test.Base.{
  false, ℕ, ◌≡◌, refl, arith, List, [], ◌∷◌, true, none, some, replicate,
}
use linux_interface_test.Echo.{
  Server, absent, accepted, reads, calls, receives, run, Parent, Accepting, client, fork_loop,
}
use linux_interface_test.Echo.Served.{
  Reached, start, next, Served, after_accept, after_read, after_call, after_answer,
}
use linux_interface_test.Echo.Ordered.{Reached-Served, run-fresh, step-accepted}
use linux_interface_test.Echo.Race.{race, after_race, run-race}
use linux_interface_test.Echo.Forked.{own_children, fork_loop-children}

abbrev test_buf : List ℕ
test_buf = replicate 512 0

abbrev hello : List ℕ
hello = 104 ∷ 105 ∷ []

-- Descriptors 0 to 3 belong to nothing here; no client yet.
abbrev test_server : Server
test_server = record {
  table = λ fd. none;
  client_fd = 0;
  threads = λ t. absent;
  thread_cnt = 0;
  answered = [];
  alive = true;
}

test_server-Reached : Reached (after_accept 4 test_server)
test_server-Reached =
    next (accepted 4) test_server (after_accept 4 test_server)
      (start test_server (λ t. refl) refl refl) (λ t h. ground (arith, h))
      (step-accepted test_server 4 refl)

abbrev test_parent : Parent
test_parent = record { table = λ fd. none; accepted_cnt = 0; children = []; alive = true }

abbrev test_clients : List Accepting
test_clients =
    client 4 true test_buf (some hello)
    ∷ client 4 false test_buf none
    ∷ client 4 true test_buf none
    ∷ []

Reached-Served_example : Served (after_accept 4 test_server)
Reached-Served_example = Reached-Served (after_accept 4 test_server) test_server-Reached

run-fresh_example :
    run (reads 0 ∷ calls 0 ∷ receives 0 test_buf (some hello) ∷ []) (after_accept 4 test_server)
    ≡ some (after_answer 0 4 true (after_call 0 4 (after_read 0 (after_accept 4 test_server))))
run-fresh_example =
    run-fresh (after_accept 4 test_server) 0 104 test_buf (105 ∷ []) test_server-Reached refl refl
      (omega arith)

run-race_example :
    run (race test_server 4 5 test_buf hello) test_server ≡ some (after_race test_server 4 5)
run-race_example =
    run-race test_server 4 5 104 test_buf (105 ∷ []) refl refl refl (λ h. ground (arith, h)) refl
      (omega arith)

fork_loop-children_example :
    ((fork_loop test_clients test_parent).children ≡ own_children 0 test_clients)
    × ((j : ℕ) → (fork_loop test_clients test_parent).table j ≡ none)
    × ((fork_loop test_clients test_parent).accepted_cnt ≡ 3)
    × ((fork_loop test_clients test_parent).alive ≡ true)
fork_loop-children_example = fork_loop-children test_clients test_parent (refl, (refl, (refl, tt)))
