-- ===== src/Mutex/Errors.antt =====
-- The statistics of failed calls lose none between the display rounds.
use linux_interface_test.Base.{ℕ, ◌+◌, ◌≡◌, arith, ◌==◌, if◌then◌else◌, u32, List, [], ◌∷◌}
use linux_interface_test.Mutex.{ErrorStat, lock_result, unlock_result, display}

-- A call of the mutex with what it returned, or a round of the display loop.
pub data Event : Type 0 where
  lock_call : (ret errno : ℕ) → Event
  unlock_call : (ret errno : ℕ) → Event
  shown : Event

pub events : List Event → ErrorStat → ErrorStat
events [] e = e
events (lock_call ret errno ∷ es) e = events es (lock_result ret errno e)
events (unlock_call ret errno ∷ es) e = events es (unlock_result ret errno e)
events (shown ∷ es) e = events es (display e)

abbrev pub failed_locks : List Event → ℕ
failed_locks [] = 0
failed_locks (lock_call ret errno ∷ es) = (if ret == 0 then 0 else 1) + failed_locks es
failed_locks (_ ∷ es) = failed_locks es

abbrev pub failed_unlocks : List Event → ℕ
failed_unlocks [] = 0
failed_unlocks (unlock_call ret errno ∷ es) = (if ret == 0 then 0 else 1) + failed_unlocks es
failed_unlocks (_ ∷ es) = failed_unlocks es

-- In any order of calls and display rounds, what is shown and what is to be shown of one thread are
-- its failed locks and failed unlocks, modulo 2^32.
pub events_lem :
    (es : List Event) (e : ErrorStat)
    → let e' = events es e in
      (u32 (e'.all_lock_error + e'.per_lock_error)
        ≡ u32 (e.all_lock_error + e.per_lock_error + failed_locks es))
      × (u32 (e'.all_unlock_error + e'.per_unlock_error)
          ≡ u32 (e.all_unlock_error + e.per_unlock_error + failed_unlocks es))
unfolding events lock_result unlock_result display
events_lem [] e = (omega arith, omega arith)
events_lem (lock_call ret errno ∷ es) e = ground (arith, events_lem es (lock_result ret errno e))
events_lem (unlock_call ret errno ∷ es) e =
    ground (arith, events_lem es (unlock_result ret errno e))
events_lem (shown ∷ es) e = ground (arith, events_lem es (display e))
