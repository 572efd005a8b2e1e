-- ===== src/Walk/Tests.antt =====
-- A walk over two frames.
use linux_interface_test.Base.{ℕ, ◌==◌, if◌then◌else◌}

-- Frames at 100 and 200.
abbrev test_memory : ℕ → ℕ
test_memory a = if a == 100 then 200 else if a == 104 then 7 else if a == 200 then 0 else 9
