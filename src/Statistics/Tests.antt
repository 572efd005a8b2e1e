-- ===== src/Statistics/Tests.antt =====
-- A run of the two threads.
use linux_interface_test.Base.{refl, arith}
use linux_interface_test.Statistics.{
  Shared, clear_bak, change_idx, change_pointer, collect, store_count, fetching, holding, loaded,
  clearing, repointing, collecting, System, fetch, load, store, clear, change, repoint, collected,
  Steps, stay, next,
}
use linux_interface_test.Statistics.Counting.{Counts}
use linux_interface_test.Statistics.Invariant.{Steps-Counts}

abbrev shared0 : Shared
shared0 = record {
  count = 0;
  data_per = record { first = 0; second = 0 };
  data_per_idx = 0;
  p_data_per = 0;
}

abbrev system0 : System
system0 = record { shared = shared0; counter = fetching; reporter = clearing; counted = 0 }

system0-Counts : Counts system0
system0-Counts = record { idx = omega arith; placed = (refl, tt); in_hand = tt; sum = refl }

-- An increment that begins before the cells change and ends after it, and the collection.
abbrev shared3 : Shared
shared3 = change_pointer (change_idx (clear_bak shared0))

abbrev system7 : System
system7 = record {
  shared = collect (store_count 0 0 shared3);
  counter = fetching;
  reporter = clearing;
  counted = 1;
}

run : Steps system0 system7
unfolding clear_bak change_idx change_pointer collect store_count
run = next _ _ _ (fetch shared0 clearing 0) (
    next _ _ _ (clear shared0 (holding 0) 0) (
      next _ _ _ (change (clear_bak shared0) (holding 0) 0) (
        next _ _ _ (load (change_idx (clear_bak shared0)) 0 repointing 0) (
          next _ _ _ (repoint (change_idx (clear_bak shared0)) (loaded 0 0) 0) (
            next _ _ _ (store shared3 0 0 collecting 0)
              (next _ _ _ (collected (store_count 0 0 shared3) fetching 1 tt) (stay _)))))))

Steps-Counts_example : Counts system7
Steps-Counts_example = Steps-Counts system0 system7 run system0-Counts
