-- ===== src/Cas.antt =====
-- src/cas/casBaseOnGcc.cpp: threads that add to one counter atomically and to another in two steps.
use linux_interface_test.Base.{
  none_or_some, some_inj, ℕ, zero, suc, ◌+◌, ◌-◌, ◌*◌, ◌≡◌, ◌≤◌, ◌<◌, refl, arith, List, [], ◌∷◌,
  Bool, true, false, Option, none, some, Option-cases, inl, inr, length, get_elem?, set, replicate,
  subst, ap, ◌∙◌, sym,
}
mod Tests

-- Where `ThreadFunc` is: before `__sync_fetch_and_add` with as many rounds to go, before its load of
-- `countNoSync`, or before its store, with as many rounds behind this one.
pub data Thread : Type 0 where
  adding loading : (left : ℕ) → Thread
  storing : (value : ℕ) → (left : ℕ) → Thread

pub record Counters : Type 0 where
  pub count_sync : ℕ
  pub count_no_sync : ℕ
  pub threads : List Thread

-- What thread i does next; none at the end of its loop.
abbrev pub move : Thread → ℕ → Counters → Option Counters
move (adding zero) i s = none
move (adding (suc n)) i s =
    some (record s { count_sync = s.count_sync + 1; threads = set s.threads i (loading n) })
move (loading n) i s = some (record s { threads = set s.threads i (storing s.count_no_sync n) })
move (storing v n) i s =
    some (record s { count_no_sync = v + 1; threads = set s.threads i (adding n) })

unfoldable pub step : ℕ → Counters → Option Counters
step i s = elim (get_elem? s.threads i) [ none ↦ none | some thread ↦ move thread i s ]

-- The threads that `CaseBaseOnGcc__sync_fetch_and_add` makes.
abbrev pub begin : ℕ → ℕ → Counters
begin thread_num loop_num = record {
  count_sync = 0;
  count_no_sync = 0;
  threads = replicate thread_num (adding loop_num);
}

-- Steps of the threads in any order.
pub data Steps : Counters → Counters → Type 0 where
  stop : (s : Counters) → Steps s s
  go : (i : ℕ) (s s' s'' : Counters) → Steps s s' → step i s' ≡ some s'' → Steps s s''

abbrev total : (Thread → ℕ) → List Thread → ℕ
total f [] = 0
total f (x ∷ xs) = f x + total f xs

-- The additions to `countSync` that are to come.
abbrev to_come : Thread → ℕ
to_come (adding n) = n
to_come (loading n) = n
to_come (storing v n) = n

-- Whether a thread is between its two additions.
abbrev between : Thread → ℕ
between (adding n) = 0
between (loading n) = 1
between (storing v n) = 1

abbrev IsBelow : ℕ → Thread → Type 0
IsBelow d (adding n) = Unit {0}
IsBelow d (loading n) = Unit {0}
IsBelow d (storing v n) = v ≤ d

abbrev AllBelow : ℕ → List Thread → Type 0
AllBelow d [] = Unit {0}
AllBelow d (x ∷ xs) = IsBelow d x × AllBelow d xs

total-set :
    (f : Thread → ℕ) (xs : List Thread) (i : ℕ) (x y : Thread)
    → get_elem? xs i ≡ some x
    → total f (set xs i y) + f x ≡ total f xs + f y
total-set f [] i x y h = absurd (ground (arith, h))
total-set f (z ∷ xs) zero x y h =
    let same : f z ≡ f x = ap (λ o. elim o [ none ↦ 0 | some t ↦ f t ]) h in omega (arith, same)
total-set f (z ∷ xs) (suc i) x y h = omega (arith, total-set f xs i x y h)

AllBelow-set :
    (d : ℕ) (xs : List Thread) (i : ℕ) (y : Thread)
    → AllBelow d xs
    → IsBelow d y
    → AllBelow d (set xs i y)
AllBelow-set d [] i y all h = tt
AllBelow-set d (x ∷ xs) zero y (old, all) h = (h, all)
AllBelow-set d (x ∷ xs) (suc i) y (old, all) h = (old, AllBelow-set d xs i y all h)

AllBelow-suc : (d : ℕ) (xs : List Thread) → AllBelow d xs → AllBelow (d + 1) xs
AllBelow-suc d [] all = tt
AllBelow-suc d (adding n ∷ xs) (h, all) = (tt, AllBelow-suc d xs all)
AllBelow-suc d (loading n ∷ xs) (h, all) = (tt, AllBelow-suc d xs all)
AllBelow-suc d (storing v n ∷ xs) (h, all) = (omega arith, AllBelow-suc d xs all)

AllBelow-get :
    (d : ℕ) (xs : List Thread) (i v n : ℕ)
    → AllBelow d xs
    → get_elem? xs i ≡ some (storing v n)
    → v ≤ d
AllBelow-get d [] i v n all h = absurd (ground (arith, h))
AllBelow-get d (x ∷ xs) zero v n (old, all) h =
    let same : x ≡ storing v n = cc h in subst (IsBelow d) same old
AllBelow-get d (x ∷ xs) (suc i) v n (old, all) h = AllBelow-get d xs i v n all h

-- All additions are done or to come; the second additions are `done` at most.
record Exact (all : ℕ) (s : Counters) : Type 0 where
  pub done : ℕ
  pub counts : s.count_sync + total to_come s.threads ≡ all
  pub behind : done + total between s.threads ≡ s.count_sync
  pub at_most : s.count_no_sync ≤ done
  pub values : AllBelow done s.threads

move-Exact :
    (all i : ℕ) (thread : Thread) (s s' : Counters)
    → get_elem? s.threads i ≡ some thread
    → Exact all s
    → move thread i s ≡ some s'
    → Exact all s'
move-Exact all i (adding zero) s s' at e h = absurd (ground (arith, h))
move-Exact all i (adding (suc n)) s s' at e h = subst (Exact all) (some_inj h) (record {
  done = e.done;
  counts = omega (arith, e.counts, total-set to_come s.threads i (adding (suc n)) (loading n) at);
  behind = omega (arith, e.behind, total-set between s.threads i (adding (suc n)) (loading n) at);
  at_most = e.at_most;
  values = AllBelow-set e.done s.threads i (loading n) e.values tt;
})
move-Exact all i (loading n) s s' at e h = subst (Exact all) (some_inj h) (record {
  done = e.done;
  counts =
      omega
        (arith, e.counts, total-set to_come s.threads i (loading n) (storing s.count_no_sync n) at);
  behind =
      omega
        (arith, e.behind, total-set between s.threads i (loading n) (storing s.count_no_sync n) at);
  at_most = e.at_most;
  values = AllBelow-set e.done s.threads i (storing s.count_no_sync n) e.values e.at_most;
})
move-Exact all i (storing v n) s s' at e h = subst (Exact all) (some_inj h) (record {
  done = e.done + 1;
  counts = omega (arith, e.counts, total-set to_come s.threads i (storing v n) (adding n) at);
  behind = omega (arith, e.behind, total-set between s.threads i (storing v n) (adding n) at);
  at_most = omega (arith, AllBelow-get e.done s.threads i v n e.values at);
  values =
      AllBelow-set (e.done + 1) s.threads i (adding n) (AllBelow-suc e.done s.threads e.values) tt;
})

step-none : (i : ℕ) (s : Counters) → get_elem? s.threads i ≡ none → step i s ≡ none
unfolding step
step-none i s h = rw (step, h) refl

step-move :
    (i : ℕ) (s : Counters) (thread : Thread)
    → get_elem? s.threads i ≡ some thread
    → step i s ≡ move thread i s
unfolding step
step-move i s thread h = rw (step, h) refl

Steps-Exact : (all : ℕ) (s s' : Counters) → Exact all s → Steps s s' → Exact all s'
Steps-Exact all s _ e (stop _) = e
Steps-Exact all s _ e (go i _ s' s'' before h) = elim (Option-cases (get_elem? s'.threads i)) [
  | inl no_thread ↦ absurd (none_or_some (step i s') s'' (step-none i s' no_thread) h)
  | inr (thread, at) ↦
      move-Exact all i thread s' s'' at (Steps-Exact all s s' e before)
        (sym (step-move i s' thread at) ∙ h)
]

total-begin : (n loops : ℕ) → total to_come (replicate n (adding loops)) ≡ n * loops
total-begin zero loops = omega arith
total-begin (suc n) loops = omega (arith, total-begin n loops)

between-begin : (n loops : ℕ) → total between (replicate n (adding loops)) ≡ 0
between-begin zero loops = refl
between-begin (suc n) loops = omega (arith, between-begin n loops)

AllBelow-begin : (n loops : ℕ) → AllBelow 0 (replicate n (adding loops))
AllBelow-begin zero loops = tt
AllBelow-begin (suc n) loops = (tt, AllBelow-begin n loops)

-- Every thread is at the end of its loop.
abbrev pub AllDone : List Thread → Type 0
AllDone [] = Unit {0}
AllDone (x ∷ xs) = (x ≡ adding 0) × AllDone xs

total-AllDone : (xs : List Thread) → AllDone xs → total to_come xs ≡ 0
total-AllDone [] all = refl
total-AllDone (x ∷ xs) (h, all) = omega (arith, ap to_come h, total-AllDone xs all)

begin-Exact : (n loops : ℕ) → Exact (n * loops) (begin n loops)
begin-Exact n loops = record {
  done = 0;
  counts = omega (arith, total-begin n loops);
  behind = omega (arith, between-begin n loops);
  at_most = omega arith;
  values = AllBelow-begin n loops;
}

-- In whatever order the threads take their steps: when all are at the end of their loops, `countSync`
-- is the number of threads times the rounds of each, and `countNoSync` is at most that.
pub Steps-AllDone :
    (n loops : ℕ) (s : Counters)
    → Steps (begin n loops) s
    → AllDone s.threads
    → (s.count_sync ≡ n * loops) × (s.count_no_sync ≤ n * loops)
Steps-AllDone n loops s steps all =
    let e = Steps-Exact (n * loops) (begin n loops) s (begin-Exact n loops) steps in
    (
      omega (arith, e.counts, total-AllDone s.threads all),
      omega (arith, e.counts, total-AllDone s.threads all, e.behind, e.at_most),
    )
