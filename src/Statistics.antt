-- ===== src/Statistics.antt =====
-- src/statistics/statisticsTest.cpp: a counter in two cells, one counted into while the other is read,
-- one access of memory at a time.
use linux_interface_test.Base.{ℕ, ◌+◌, ◌%◌, ◌^◌, ◌≢◌, u64, Two, cell, put}
pub mod Counting
pub mod Invariant
mod Tests

-- `gData`, `gDataPer`, `gDataPerIdx`, and the cell that `gpDataPer` points to.
pub record Shared : Type 0 where
  pub count : ℕ
  pub data_per : Two ℕ
  pub data_per_idx : ℕ
  pub p_data_per : ℕ

-- `gIdxArray`
abbrev pub idx_array : Two ℕ
idx_array = record { first = 1; second = 0 }

abbrev pub get_cur_data_per_idx : Shared → ℕ
get_cur_data_per_idx s = s.data_per_idx

abbrev pub get_bak_data_per_idx : Shared → ℕ
get_bak_data_per_idx s = cell idx_array s.data_per_idx

-- `bzero(GetBakDataPer(), sizeof(struct StatisticsPer))`
unfoldable pub clear_bak : Shared → Shared
clear_bak s = record s { data_per = put s.data_per (get_bak_data_per_idx s) 0 }

-- The two stores of `UpdateDataPer`.
unfoldable pub change_idx : Shared → Shared
change_idx s = record s { data_per_idx = cell idx_array s.data_per_idx }

unfoldable pub change_pointer : Shared → Shared
change_pointer s = record s { p_data_per = get_cur_data_per_idx s }

-- `gData.count += GetBakDataPer()->countPer`
unfoldable pub collect : Shared → Shared
collect s = record s { count = u64 (s.count + cell s.data_per (get_bak_data_per_idx s)) }

-- The store of `(*pCountPer)++`, after the value was loaded.
unfoldable pub store_count : ℕ → ℕ → Shared → Shared
store_count i value s = record s { data_per = put s.data_per i (u64 (value + 1)) }

-- The counting thread: before it reads `gpDataPer`, with the pointer in hand, with the value loaded.
pub data Counter : Type 0 where
  fetching : Counter
  holding : (i : ℕ) → Counter
  loaded : (i value : ℕ) → Counter

-- The reporting thread, by the statement that comes next.
pub data Reporter : Type 0 where
  clearing changing repointing collecting : Reporter

-- `counted` is how often the counter was incremented; the program does not keep it.
pub record System : Type 0 where
  pub shared : Shared
  pub counter : Counter
  pub reporter : Reporter
  pub counted : ℕ

-- The counting thread does not have the cell in hand.
abbrev pub Off : ℕ → Counter → Type 0
Off i fetching = Unit {0}
Off i (holding j) = j ≢ i
Off i (loaded j value) = j ≢ i

-- One access of either thread. The sleep of `CONFLICT_TIME_S` before the cell is collected outlasts the
-- 100 ms that the counting thread keeps a pointer: then it no longer has that cell in hand.
pub data Step : System → System → Type 0 where
  fetch :
      (s : Shared) (r : Reporter) (n : ℕ)
      → Step
          (record { shared = s; counter = fetching; reporter = r; counted = n })
          (record { shared = s; counter = holding s.p_data_per; reporter = r; counted = n })
  load :
      (s : Shared) (i : ℕ) (r : Reporter) (n : ℕ)
      → Step
          (record { shared = s; counter = holding i; reporter = r; counted = n })
          (record { shared = s; counter = loaded i (cell s.data_per i); reporter = r; counted = n })
  store :
      (s : Shared) (i value : ℕ) (r : Reporter) (n : ℕ)
      → Step
          (record { shared = s; counter = loaded i value; reporter = r; counted = n })
          (record {
            shared = store_count i value s;
            counter = fetching;
            reporter = r;
            counted = n + 1;
          })
  clear :
      (s : Shared) (c : Counter) (n : ℕ)
      → Step
          (record { shared = s; counter = c; reporter = clearing; counted = n })
          (record { shared = clear_bak s; counter = c; reporter = changing; counted = n })
  change :
      (s : Shared) (c : Counter) (n : ℕ)
      → Step
          (record { shared = s; counter = c; reporter = changing; counted = n })
          (record { shared = change_idx s; counter = c; reporter = repointing; counted = n })
  repoint :
      (s : Shared) (c : Counter) (n : ℕ)
      → Step
          (record { shared = s; counter = c; reporter = repointing; counted = n })
          (record { shared = change_pointer s; counter = c; reporter = collecting; counted = n })
  collected :
      (s : Shared) (c : Counter) (n : ℕ)
      → Off (get_bak_data_per_idx s) c
      → Step
          (record { shared = s; counter = c; reporter = collecting; counted = n })
          (record { shared = collect s; counter = c; reporter = clearing; counted = n })

-- Any number of steps.
pub data Steps : System → System → Type 0 where
  stay : (a : System) → Steps a a
  next : (a b c : System) → Step a b → Steps b c → Steps a c
