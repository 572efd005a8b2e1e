-- ===== src/Statistics/Counting.antt =====
-- What is counted and not yet collected, and the steps of the counting thread.
use linux_interface_test.Base.{ℕ, ◌+◌, ◌≤◌, ◌≡◌, refl, arith, u64, cell}
use linux_interface_test.Statistics.{
  Shared, get_bak_data_per_idx, store_count, Counter, fetching, holding, loaded, Reporter, clearing,
  changing, repointing, collecting, System, Off,
}

-- What is still to be collected: the current cell, and the other between the change of the index and
-- its collection.
abbrev pub uncollected : Reporter → Shared → ℕ
uncollected clearing s = cell s.data_per s.data_per_idx
uncollected changing s = cell s.data_per s.data_per_idx
uncollected repointing s = s.data_per.first + s.data_per.second
uncollected collecting s = s.data_per.first + s.data_per.second

-- Where the pointer is, and where the counting thread may be.
abbrev pub Placed : Reporter → Shared → Counter → Type 0
Placed clearing s c = (s.p_data_per ≡ s.data_per_idx) × Off (get_bak_data_per_idx s) c
Placed changing s c =
    (s.p_data_per ≡ s.data_per_idx)
    × Off (get_bak_data_per_idx s) c
    × (cell s.data_per (get_bak_data_per_idx s) ≡ 0)
Placed repointing s c =
    (s.p_data_per ≡ get_bak_data_per_idx s)
    × Off s.data_per_idx c
    × (cell s.data_per s.data_per_idx ≡ 0)
Placed collecting s c = s.p_data_per ≡ s.data_per_idx

-- The thread has one of the two cells, and the value it has loaded is still there.
abbrev pub InHand : Shared → Counter → Type 0
InHand s fetching = Unit {0}
InHand s (holding i) = i ≤ 1
InHand s (loaded i value) = (i ≤ 1) × (value ≡ cell s.data_per i)

pub record Counts (a : System) : Type 0 where
  pub idx : a.shared.data_per_idx ≤ 1
  pub placed : Placed a.reporter a.shared a.counter
  pub in_hand : InHand a.shared a.counter
  pub sum : u64 (a.shared.count + uncollected a.reporter a.shared) ≡ u64 a.counted

pub fetch-Counts :
    (s : Shared) (r : Reporter) (n : ℕ)
    → Counts (record { shared = s; counter = fetching; reporter = r; counted = n })
    → Counts (record { shared = s; counter = holding s.p_data_per; reporter = r; counted = n })
fetch-Counts s clearing n v = record {
  idx = v.idx;
  placed = (v.placed.0, ground (arith, v.idx));
  in_hand = omega (arith, v.idx, v.placed.0);
  sum = v.sum;
}
fetch-Counts s changing n v = record {
  idx = v.idx;
  placed = (v.placed.0, ground (arith, v.idx), v.placed.2);
  in_hand = omega (arith, v.idx, v.placed.0);
  sum = v.sum;
}
fetch-Counts s repointing n v = record {
  idx = v.idx;
  placed = (v.placed.0, ground (arith, v.idx, v.placed.0), v.placed.2);
  in_hand = ground (arith, v.idx, v.placed.0);
  sum = v.sum;
}
fetch-Counts s collecting n v = record {
  idx = v.idx;
  placed = v.placed;
  in_hand = omega (arith, v.idx, v.placed);
  sum = v.sum;
}

pub load-Counts :
    (s : Shared) (i : ℕ) (r : Reporter) (n : ℕ)
    → Counts (record { shared = s; counter = holding i; reporter = r; counted = n })
    → Counts
        (record { shared = s; counter = loaded i (cell s.data_per i); reporter = r; counted = n })
load-Counts s i clearing n v = record {
  idx = v.idx;
  placed = v.placed;
  in_hand = (v.in_hand, refl);
  sum = v.sum;
}
load-Counts s i changing n v = record {
  idx = v.idx;
  placed = v.placed;
  in_hand = (v.in_hand, refl);
  sum = v.sum;
}
load-Counts s i repointing n v = record {
  idx = v.idx;
  placed = v.placed;
  in_hand = (v.in_hand, refl);
  sum = v.sum;
}
load-Counts s i collecting n v = record {
  idx = v.idx;
  placed = v.placed;
  in_hand = (v.in_hand, refl);
  sum = v.sum;
}

pub store-Counts :
    (s : Shared) (i value : ℕ) (r : Reporter) (n : ℕ)
    → Counts (record { shared = s; counter = loaded i value; reporter = r; counted = n })
    → Counts (record {
      shared = store_count i value s;
      counter = fetching;
      reporter = r;
      counted = n + 1;
    })
unfolding store_count
store-Counts s i value clearing n v = record {
  idx = v.idx;
  placed = (v.placed.0, tt);
  in_hand = tt;
  sum = ground (arith, v.idx, v.placed.1, v.in_hand.0, v.in_hand.1, v.sum);
}
store-Counts s i value changing n v = record {
  idx = v.idx;
  placed = (v.placed.0, tt, ground (arith, v.idx, v.placed.1, v.placed.2, v.in_hand.0));
  in_hand = tt;
  sum = ground (arith, v.idx, v.placed.1, v.in_hand.0, v.in_hand.1, v.sum);
}
store-Counts s i value repointing n v = record {
  idx = v.idx;
  placed = (v.placed.0, tt, ground (arith, v.idx, v.placed.1, v.placed.2, v.in_hand.0));
  in_hand = tt;
  sum = ground (arith, v.idx, v.placed.1, v.in_hand.0, v.in_hand.1, v.sum);
}
store-Counts s i value collecting n v = record {
  idx = v.idx;
  placed = v.placed;
  in_hand = tt;
  sum = ground (arith, v.in_hand.0, v.in_hand.1, v.sum);
}
