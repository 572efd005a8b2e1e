-- ===== src/Mutex.antt =====
-- src/sync/mutexTest.cpp: threads that count up or down under one mutex, and the statistics of the
-- calls of the mutex that fail.
use linux_interface_test.Base.{
  ℕ, zero, suc, ◌+◌, ◌-◌, ◌/◌, ◌%◌, ◌^◌, ◌≡◌, ◌==◌, ltb, if◌then◌else◌, u32, u64, List, [], ◌∷◌,
  ◌++◌, Option, none, some,
}
pub mod Table
pub mod Exclusion
pub mod Errors
mod Tests

-- `E_CNTTYPE`
pub data CntType : Type 0 where
  cnt_add cnt_sub : CntType

-- `struct ThreadInfo`; `class_` says which counter `pCntNum` points to.
pub record ThreadInfo : Type 0 where
  pub thread_id : ℕ
  pub cnt_type : CntType
  pub class_ : ℕ
  pub thread_prio : ℕ

-- The type of the thread number `loops` of a class.
abbrev pub cnt_type_of : ℕ → ℕ → CntType
cnt_type_of thread_num loops = if ltb (thread_num / (loops + 1)) 2 then cnt_add else cnt_sub

-- The inner loop of `MutexTest_PrioMutex`, with `left` threads to go.
unfoldable pub create_class : ℕ → ℕ → ℕ → ℕ → ℕ → ℕ → List ThreadInfo
create_class class_ prio thread_num thread_cnt loops zero = []
create_class class_ prio thread_num thread_cnt loops (suc left) =
    record {
      thread_id = thread_cnt;
      cnt_type = cnt_type_of thread_num loops;
      class_ = class_;
      thread_prio = prio;
    }
    ∷ create_class class_ prio thread_num (thread_cnt + 1) (loops + 1) left

-- All threads, in the order in which they are made.
unfoldable pub create_threads : List ThreadInfo
unfolding create_class
create_threads =
    create_class 0 90 4 0 0 4 ++ (create_class 1 86 6 4 0 6 ++ create_class 2 80 1 10 0 1)

-- What a thread does next: lock, load the counter, store it, unlock.
pub data Pc : Type 0 where
  outside inside stored : Pc
  loaded : (value : ℕ) → Pc

-- `++(*pCntNum)` and `--(*pCntNum)` on 32 bits.
abbrev pub count : CntType → ℕ → ℕ
count cnt_add value = u32 (value + 1)
count cnt_sub value = u32 (value + (2 ^ 32 - 1))

-- A family with one member replaced.
abbrev pub update {ℓ} : {A : Type ℓ} → (ℕ → A) → ℕ → A → ℕ → A
update f i a j = if j == i then a else f j

-- The mutex, the threads and the counters. `ups` and `downs` are how often each counter was counted;
-- the program does not keep them.
pub record System : Type 0 where
  pub owner : Option ℕ
  pub pc : ℕ → Pc
  pub cnt_num : ℕ → ℕ
  pub ups : ℕ → ℕ
  pub downs : ℕ → ℕ

abbrev pub bump : CntType → CntType → ℕ → ℕ
bump cnt_add cnt_add n = n + 1
bump cnt_sub cnt_sub n = n + 1
bump _ _ n = n

unfoldable pub locked : ℕ → System → System
locked t s = record s { owner = some t; pc = update s.pc t inside }

unfoldable pub load_cnt : ThreadInfo → ℕ → System → System
load_cnt i t s = record s { pc = update s.pc t (loaded (s.cnt_num i.class_)) }

unfoldable pub store_cnt : ThreadInfo → ℕ → ℕ → System → System
store_cnt i t value s = record s {
  pc = update s.pc t stored;
  cnt_num = update s.cnt_num i.class_ (count i.cnt_type value);
  ups = update s.ups i.class_ (bump cnt_add i.cnt_type (s.ups i.class_));
  downs = update s.downs i.class_ (bump cnt_sub i.cnt_type (s.downs i.class_));
}

unfoldable pub unlocked : ℕ → System → System
unlocked t s = record s { owner = none; pc = update s.pc t outside }

-- One step of `ThreadCnt` in thread `t`, which `infos` describes, when the mutex works: it is given to
-- one thread at a time.
pub data Step (infos : ℕ → ThreadInfo) : System → System → Type 0 where
  lock : (t : ℕ) (s : System) → s.pc t ≡ outside → s.owner ≡ none → Step infos s (locked t s)
  load : (t : ℕ) (s : System) → s.pc t ≡ inside → Step infos s (load_cnt (infos t) t s)
  store :
      (t value : ℕ) (s : System)
      → s.pc t ≡ loaded value
      → Step infos s (store_cnt (infos t) t value s)
  unlock : (t : ℕ) (s : System) → s.pc t ≡ stored → Step infos s (unlocked t s)

pub data Steps (infos : ℕ → ThreadInfo) : System → System → Type 0 where
  stay : (s : System) → Steps infos s s
  next : (a b c : System) → Step infos a b → Steps infos b c → Steps infos a c

-- `struct ErrorStat`, and the calls of the mutex that fill it.
pub record ErrorStat : Type 0 where
  pub lock_errno : ℕ
  pub per_lock_error : ℕ
  pub all_lock_error : ℕ
  pub unlock_errno : ℕ
  pub per_unlock_error : ℕ
  pub all_unlock_error : ℕ

-- `Lock` and `Unlock` with what the call returned; the thread goes on in either case.
unfoldable pub lock_result : ℕ → ℕ → ErrorStat → ErrorStat
lock_result ret errno e =
    if ret == 0
    then e
    else record e { lock_errno = errno; per_lock_error = u32 (e.per_lock_error + 1) }

unfoldable pub unlock_result : ℕ → ℕ → ErrorStat → ErrorStat
unlock_result ret errno e =
    if ret == 0
    then e
    else record e { unlock_errno = errno; per_unlock_error = u32 (e.per_unlock_error + 1) }

-- A round of the display loop for one thread.
unfoldable pub display : ErrorStat → ErrorStat
display e =
    let e1 = if e.per_lock_error == 0 then e else record e {
      all_lock_error = u64 (e.all_lock_error + e.per_lock_error);
      per_lock_error = 0;
    } in
    if e1.per_unlock_error == 0 then e1 else record e1 {
      all_unlock_error = u64 (e1.all_unlock_error + e1.per_unlock_error);
      per_unlock_error = 0;
    }
