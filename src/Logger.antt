-- ===== src/Logger.antt =====
-- src/logger/logger.cpp, the macros of src/logger/logger.h and the size argument of
-- src/logger/loggerTest.cpp: a log file that is written from its start again once it is large enough.
use linux_interface_test.Base.{
  ℕ, zero, suc, ◌+◌, ◌*◌, ◌^◌, leb, ltb, if◌then◌else◌, List, [], ◌∷◌, ◌++◌, Bool, true, false,
  Option, none, some, length, take, drop,
}
pub mod Rolling
mod Tests

-- `LogInfo` with the file: its bytes and the position in it.
pub record LogInfo : Type 0 where
  pub file : List ℕ
  pub position : ℕ
  pub max_file_size : ℕ

-- The units that the program is given for the size.
pub data Unit_ : Type 0 where
  bytes kilobytes megabytes other_unit : Unit_

-- A product of `int`s, none when it overflows.
abbrev pub mul_int : ℕ → ℕ → Option ℕ
mul_int a b = if ltb (a * b) (2 ^ 31) then some (a * b) else none

-- The size argument of `LoggerTest_OneThread` and `LoggerTest_MuliThread`, a number that is not
-- negative: the inner none is a wrong unit, on which they return; the outer one is an overflow.
unfoldable pub file_size : ℕ → Unit_ → Option (Option ℕ)
file_size n bytes = some (some n)
file_size n kilobytes = elim (mul_int n 1024) [ none ↦ none | some size ↦ some (some size) ]
file_size n megabytes = elim (mul_int n 1024) [
  | none ↦ none
  | some k ↦ elim (mul_int k 1024) [ none ↦ none | some size ↦ some (some size) ]
]
file_size n other_unit = some none

-- `InitLog`, whose pointers are not NULL and whose `fopen` makes an empty file: none when it refuses.
unfoldable pub init_log : ℕ → Option LogInfo
init_log zero = none
init_log (suc n) = some (record { file = []; position = 0; max_file_size = suc n })

-- `isNeedRoll`, on a file whose position `ftell` tells.
unfoldable pub is_need_roll : LogInfo → LogInfo
is_need_roll log = if leb log.max_file_size log.position then record log { position = 0 } else log

-- `fprintf`: a line, over what stands at the position.
unfoldable pub fprintf : List ℕ → LogInfo → LogInfo
fprintf line log = record log {
  file = take log.position log.file ++ (line ++ drop (log.position + length line) log.file);
  position = log.position + length line;
}

-- `LOG_DBG` and the others, with the text of the whole line.
unfoldable pub log_line : List ℕ → LogInfo → LogInfo
unfolding is_need_roll fprintf
log_line line log = fprintf line (is_need_roll log)

-- The loop of a test, over its lines.
unfoldable pub log_lines : List (List ℕ) → LogInfo → LogInfo
unfolding log_line
log_lines [] log = log
log_lines (line ∷ lines) log = log_lines lines (log_line line log)
