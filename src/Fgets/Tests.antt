-- ===== src/Fgets/Tests.antt =====
-- Commands at concrete inputs.
use linux_interface_test.Base.{ℕ, ◌≡◌, arith, List, [], ◌∷◌, ◌++◌, true, not}
use linux_interface_test.Fgets.{
  thread_quit, thread_sleeping, thread_block, storing, stores, works, input_loop, run, created,
  thread_init,
}
use linux_interface_test.Fgets.Lines.{text, input_loop-obey}
use linux_interface_test.Fgets.Quit.{is_exited, is_storing, works_for, run-quit, run-created}

-- "s", an empty line, "quit".
abbrev test_lines : List (List ℕ)
test_lines = (115 ∷ []) ∷ [] ∷ (113 ∷ 117 ∷ 105 ∷ 116 ∷ []) ∷ []

abbrev ten_s : List ℕ
ten_s = 115 ∷ 115 ∷ 115 ∷ 115 ∷ 115 ∷ 115 ∷ 115 ∷ 115 ∷ 115 ∷ []

input_loop-obey_example :
    input_loop 3 (text test_lines) ≡ (thread_sleeping ∷ thread_quit ∷ [], true)
input_loop-obey_example = input_loop-obey test_lines 3 (ground arith) (omega arith)

run-quit_example :
    is_exited
      ((run (stores thread_quit ∷ works_for 2) (record { status = thread_init; pc = storing })).pc)
    ≡ not (is_storing storing)
run-quit_example = run-quit (record { status = thread_init; pc = storing }) 0

run-created_example :
    is_exited (
      (run
        ((works true ∷ works true ∷ stores thread_block ∷ []) ++ (stores thread_quit ∷ works_for 2))
        created).pc)
    ≡ true
run-created_example =
    run-created (works true ∷ works true ∷ stores thread_block ∷ []) 0
      ((λ h. ground (arith, h)), tt) (omega arith)
