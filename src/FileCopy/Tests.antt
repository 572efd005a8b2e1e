-- ===== src/FileCopy/Tests.antt =====
-- Copies at concrete results of the calls.
use linux_interface_test.Base.{ℕ, List, [], ◌∷◌}

abbrev test_parts : List (ℕ × List ℕ)
test_parts = (1, 2 ∷ 3 ∷ []) ∷ (4, []) ∷ []
