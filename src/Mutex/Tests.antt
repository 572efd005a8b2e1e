-- ===== src/Mutex/Tests.antt =====
-- The theorems on the counting threads at concrete inputs.
use linux_interface_test.Base.{ℕ, ◌≡◌, refl, ◌==◌, if◌then◌else◌, List, [], ◌∷◌, none, length}
use linux_interface_test.Mutex.{
  cnt_add, cnt_sub, ThreadInfo, create_class, create_threads, outside, System, locked, load_cnt,
  store_cnt, unlocked, lock, load, store, unlock, Steps, stay, next, ErrorStat,
}
use linux_interface_test.Mutex.Exclusion.{Exclusive, Steps-Exclusive}
use linux_interface_test.Mutex.Errors.{Event, lock_call, unlock_call, shown}

length-create_threads : length create_threads ≡ 11
unfolding create_threads create_class
length-create_threads = refl

abbrev infos0 : ℕ → ThreadInfo
infos0 t = record {
  thread_id = t;
  cnt_type = if t == 0 then cnt_add else cnt_sub;
  class_ = 0;
  thread_prio = 90;
}

abbrev system0 : System
system0 = record { owner = none; pc = λ t. outside; cnt_num = λ c. 0; ups = λ c. 0; downs = λ c. 0 }

system0-Exclusive : Exclusive infos0 system0
system0-Exclusive = record { owns = λ t. tt; sums = λ c. refl }

-- Thread 1 counts down from 0.
abbrev system4 : System
system4 = unlocked 1 (store_cnt (infos0 1) 1 0 (load_cnt (infos0 1) 1 (locked 1 system0)))

run : Steps infos0 system0 system4
unfolding locked load_cnt store_cnt unlocked
run = next _ _ _ (lock 1 system0 refl refl) (
    next _ _ _ (load 1 (locked 1 system0) refl) (
      next _ _ _ (store 1 0 (load_cnt (infos0 1) 1 (locked 1 system0)) refl) (
        next _ _ _
          (unlock 1 (store_cnt (infos0 1) 1 0 (load_cnt (infos0 1) 1 (locked 1 system0))) refl)
          (stay _))))

Steps-Exclusive_example : Exclusive infos0 system4
Steps-Exclusive_example = Steps-Exclusive infos0 system0 system4 run system0-Exclusive

abbrev stat0 : ErrorStat
stat0 = record {
  lock_errno = 0;
  per_lock_error = 0;
  all_lock_error = 0;
  unlock_errno = 0;
  per_unlock_error = 0;
  all_unlock_error = 0;
}

abbrev calls : List Event
calls = lock_call 22 22 ∷ shown ∷ unlock_call 1 1 ∷ lock_call 0 0 ∷ lock_call 35 35 ∷ shown ∷ []
