-- ===== src/Cas/Tests.antt =====
-- Two threads of one round each, which lose an addition.
use linux_interface_test.Base.{◌*◌, ◌≡◌, ◌≤◌, refl, [], ◌∷◌}
use linux_interface_test.Cas.{
  adding, loading, storing, Counters, begin, step, Steps, stop, go, Steps-AllDone,
}

abbrev both_loaded : Counters
both_loaded = record { count_sync = 2; count_no_sync = 0; threads = storing 0 0 ∷ storing 0 0 ∷ [] }

abbrev at_end : Counters
at_end = record { count_sync = 2; count_no_sync = 1; threads = adding 0 ∷ adding 0 ∷ [] }

loaded : Steps (begin 2 1) both_loaded
unfolding step
loaded =
    go 1 (begin 2 1)
      (record { count_sync = 2; count_no_sync = 0; threads = storing 0 0 ∷ loading 0 ∷ [] })
      both_loaded
      (go 1 (begin 2 1)
        (record { count_sync = 1; count_no_sync = 0; threads = storing 0 0 ∷ adding 1 ∷ [] })
        (record { count_sync = 2; count_no_sync = 0; threads = storing 0 0 ∷ loading 0 ∷ [] })
        (go 0 (begin 2 1)
          (record { count_sync = 1; count_no_sync = 0; threads = loading 0 ∷ adding 1 ∷ [] })
          (record { count_sync = 1; count_no_sync = 0; threads = storing 0 0 ∷ adding 1 ∷ [] })
          (go 0 (begin 2 1) (begin 2 1)
            (record { count_sync = 1; count_no_sync = 0; threads = loading 0 ∷ adding 1 ∷ [] })
            (stop (begin 2 1)) refl)
          refl)
        refl)
      refl

stored : Steps (begin 2 1) at_end
unfolding step
stored =
    go 1 (begin 2 1)
      (record { count_sync = 2; count_no_sync = 1; threads = adding 0 ∷ storing 0 0 ∷ [] }) at_end
      (go 0 (begin 2 1) both_loaded
        (record { count_sync = 2; count_no_sync = 1; threads = adding 0 ∷ storing 0 0 ∷ [] }) loaded
        refl)
      refl

Steps-AllDone_example : (2 ≡ 2 * 1) × (1 ≤ 2 * 1)
Steps-AllDone_example = Steps-AllDone 2 1 at_end stored (refl, (refl, tt))
