-- ===== src/Logger/Tests.antt =====
-- A log of at most 4 bytes and a line.
use linux_interface_test.Base.{ℕ, ◌≡◌, refl, arith, List, [], ◌∷◌, some}
use linux_interface_test.Logger.{LogInfo, init_log, log_lines}
use linux_interface_test.Logger.Rolling.{Rolls, log_lines-init}

abbrev test_log : LogInfo
test_log = record { file = []; position = 0; max_file_size = 4 }

abbrev test_lines : List (List ℕ)
test_lines = (1 ∷ 2 ∷ 3 ∷ []) ∷ (4 ∷ 5 ∷ []) ∷ (6 ∷ []) ∷ []

-- The third line is written over the start of the first.
written : (log_lines test_lines test_log).file ≡ 6 ∷ 2 ∷ 3 ∷ 4 ∷ 5 ∷ []
unfolding log_lines
written = refl

test_set_up : init_log 4 ≡ some test_log
unfolding init_log
test_set_up = refl

log_lines-init_example : Rolls 3 test_lines (log_lines test_lines test_log)
log_lines-init_example = log_lines-init 3 3 test_lines test_log test_set_up (ground arith)
