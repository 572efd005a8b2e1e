-- ===== src/Statistics/Invariant.antt =====
-- No increment is lost and none is counted twice, in any interleaving of the two threads.
use linux_interface_test.Base.{ℕ, refl, arith, cell}
use linux_interface_test.Statistics.{
  Shared, get_bak_data_per_idx, clear_bak, change_idx, change_pointer, collect, Counter, fetching,
  holding, loaded, clearing, changing, repointing, collecting, System, Off, Step, fetch, load,
  store, clear, change, repoint, collected, Steps, stay, next,
}
use linux_interface_test.Statistics.Counting.{
  InHand, Counts, fetch-Counts, load-Counts, store-Counts,
}

module _ (s : Shared) (n : ℕ) where
  clear-Counts :
      (c : Counter)
      → Counts (record { shared = s; counter = c; reporter = clearing; counted = n })
      → Counts (record { shared = clear_bak s; counter = c; reporter = changing; counted = n })
  unfolding clear_bak
  clear-Counts fetching v = record {
    idx = v.idx;
    placed = (v.placed.0, tt, ground (arith, v.idx));
    in_hand = tt;
    sum = ground (arith, v.idx, v.sum);
  }
  clear-Counts (holding i) v = record {
    idx = v.idx;
    placed = (v.placed.0, v.placed.1, ground (arith, v.idx));
    in_hand = v.in_hand;
    sum = ground (arith, v.idx, v.sum);
  }
  clear-Counts (loaded i value) v = record {
    idx = v.idx;
    placed = (v.placed.0, v.placed.1, ground (arith, v.idx));
    in_hand = (v.in_hand.0, ground (arith, v.idx, v.placed.1, v.in_hand.0, v.in_hand.1));
    sum = ground (arith, v.idx, v.sum);
  }

  change-Counts :
      (c : Counter)
      → Counts (record { shared = s; counter = c; reporter = changing; counted = n })
      → Counts (record { shared = change_idx s; counter = c; reporter = repointing; counted = n })
  unfolding change_idx
  change-Counts c v = record {
    idx = ground (arith, v.idx);
    placed = (ground (arith, v.idx, v.placed.0), v.placed.1, v.placed.2);
    in_hand = in_hand c v.in_hand;
    sum = ground (arith, v.idx, v.placed.2, v.sum);
  }
    where
      in_hand :
          (c : Counter)
          → InHand s c
          → InHand
              (record s { data_per_idx = cell (record { first = 1; second = 0 }) s.data_per_idx })
              c
      in_hand fetching h = tt
      in_hand (holding i) h = h
      in_hand (loaded i value) h = h

  repoint-Counts :
      (c : Counter)
      → Counts (record { shared = s; counter = c; reporter = repointing; counted = n })
      → Counts
          (record { shared = change_pointer s; counter = c; reporter = collecting; counted = n })
  unfolding change_pointer
  repoint-Counts fetching v = record {
    idx = v.idx;
    placed = refl;
    in_hand = v.in_hand;
    sum = v.sum;
  }
  repoint-Counts (holding i) v = record {
    idx = v.idx;
    placed = refl;
    in_hand = v.in_hand;
    sum = v.sum;
  }
  repoint-Counts (loaded i value) v = record {
    idx = v.idx;
    placed = refl;
    in_hand = v.in_hand;
    sum = v.sum;
  }

  collected-Counts :
      (c : Counter)
      → Off (get_bak_data_per_idx s) c
      → Counts (record { shared = s; counter = c; reporter = collecting; counted = n })
      → Counts (record { shared = collect s; counter = c; reporter = clearing; counted = n })
  unfolding collect
  collected-Counts fetching off v = record {
    idx = v.idx;
    placed = (v.placed, tt);
    in_hand = tt;
    sum = ground (arith, v.idx, v.sum);
  }
  collected-Counts (holding i) off v = record {
    idx = v.idx;
    placed = (v.placed, off);
    in_hand = v.in_hand;
    sum = ground (arith, v.idx, v.sum);
  }
  collected-Counts (loaded i value) off v = record {
    idx = v.idx;
    placed = (v.placed, off);
    in_hand = v.in_hand;
    sum = ground (arith, v.idx, v.sum);
  }

Step-Counts : (a b : System) → Step a b → Counts a → Counts b
Step-Counts _ _ (fetch s r n) v = fetch-Counts s r n v
Step-Counts _ _ (load s i r n) v = load-Counts s i r n v
Step-Counts _ _ (store s i value r n) v = store-Counts s i value r n v
Step-Counts _ _ (clear s c n) v = clear-Counts s n c v
Step-Counts _ _ (change s c n) v = change-Counts s n c v
Step-Counts _ _ (repoint s c n) v = repoint-Counts s n c v
Step-Counts _ _ (collected s c n off) v = collected-Counts s n c off v

-- In any run of the two threads, one access of memory at a time, from a state where this holds: what
-- the program has collected and what waits in its cells are all increments so far, modulo 2^64.
pub Steps-Counts : (a b : System) → Steps a b → Counts a → Counts b
Steps-Counts _ _ (stay a) v = v
Steps-Counts _ _ (next a b c s ss) v = Steps-Counts b c ss (Step-Counts a b s v)
