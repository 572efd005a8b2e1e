-- ===== src/Echo/Forked.antt =====
-- The echo server that forks: its parent and its children do not disturb each other.
use linux_interface_test.Echo.Served.{update_self}
use linux_interface_test.Base.{
  ap, Bool, true, false, if◌then◌else◌, ℕ, ◌+◌, ◌≡◌, refl, arith, List, [], ◌∷◌, ◌++◌, append_assoc,
  append-nil, Option, none, some, length, ◌∙◌, sym,
}
use linux_interface_test.Echo.{
  server_recv, reply_ok, Child, child_part, Parent, Accepting, fails, client, fork_loop, update,
}

-- Every client's descriptor is one that is not open in the parent.
abbrev pub AllUnused : List Accepting → (ℕ → Option ℕ) → Type 0
AllUnused [] table = Unit {0}
AllUnused (fails ∷ rest) table = ⊥
AllUnused (client fd forks recv_buf got ∷ rest) table = (table fd ≡ none) × AllUnused rest table

-- A child for each client whose fork succeeds: it has the connection with the number of the client and
-- does what `ServerRecv` does with what came in there.
abbrev pub own_children : ℕ → List Accepting → List Child
own_children n [] = []
own_children n (fails ∷ rest) = []
own_children n (client fd false recv_buf got ∷ rest) = own_children (n + 1) rest
own_children n (client fd true recv_buf got ∷ rest) =
    record {
      conn = some n;
      reply = server_recv recv_buf got;
      exits_ok = reply_ok (server_recv recv_buf got);
    }
    ∷ own_children (n + 1) rest

own_child :
    (table : ℕ → Option ℕ) (fd n : ℕ) (recv_buf : List ℕ) (got : Option (List ℕ))
    → child_part (update table fd (some n)) fd recv_buf got ≡ record {
      conn = some n;
      reply = server_recv recv_buf got;
      exits_ok = reply_ok (server_recv recv_buf got);
    }
unfolding child_part
own_child table fd n recv_buf got = rw (update_self table fd (some n)) refl

AllUnused-same :
    (cs : List Accepting) (t t' : ℕ → Option ℕ)
    → ((j : ℕ) → t' j ≡ t j)
    → AllUnused cs t
    → AllUnused cs t'
AllUnused-same [] t t' same h = tt
AllUnused-same (fails ∷ rest) t t' same h = elim h [ ]
AllUnused-same (client fd forks recv_buf got ∷ rest) t t' same (free, h) =
    (same fd ∙ free, AllUnused-same rest t t' same h)

-- However many clients come, on descriptors that the parent does not have open, and whatever each
-- sends, a failing `recv` included: each whose fork succeeds gets a child that serves the connection of this
-- client and no other, one whose fork fails gets none, the parent has the descriptors open that it had
-- before, and it goes on running.
pub fork_loop-children :
    (cs : List Accepting) (s : Parent)
    → AllUnused cs s.table
    → ((fork_loop cs s).children ≡ s.children ++ own_children s.accepted_cnt cs)
      × ((j : ℕ) → (fork_loop cs s).table j ≡ s.table j)
      × ((fork_loop cs s).accepted_cnt ≡ s.accepted_cnt + length cs)
      × ((fork_loop cs s).alive ≡ s.alive)
unfolding fork_loop
fork_loop-children [] s free = (sym (append-nil s.children), (λ j. refl), omega arith, refl)
fork_loop-children (fails ∷ rest) s free = elim free [ ]
fork_loop-children (client fd forks recv_buf got ∷ rest) s (free, unused) =
    let opened = update s.table fd (some s.accepted_cnt) in
    let s' : Parent = record s {
      table = update opened fd none;
      accepted_cnt = s.accepted_cnt + 1;
      children = s.children ++ (if forks then child_part opened fd recv_buf got ∷ [] else []);
    } in
    let same = λ (j : ℕ). same_table s.table fd s.accepted_cnt free j in
    let (kids, tables, count, alive) =
      fork_loop-children rest s' (AllUnused-same rest s.table s'.table same unused) in
    (
      kids
          ∙ append_assoc s.children _ _
          ∙ ap (λ ks. s.children ++ ks) (all_own forks s.table s.accepted_cnt),
      (λ j. tables j ∙ same j),
      omega (arith, count),
      alive,
    )
  where
    same_table :
        (t : ℕ → Option ℕ) (fd n : ℕ)
        → t fd ≡ none
        → (j : ℕ) → update (update t fd (some n)) fd none j ≡ t j
    same_table t fd n free j = ground (arith, free)

    all_own :
        (b : Bool) (t : ℕ → Option ℕ) (n : ℕ)
        → (if b then child_part (update t fd (some n)) fd recv_buf got ∷ [] else [])
            ++ own_children (n + 1) rest
          ≡ own_children n (client fd b recv_buf got ∷ rest)
    all_own false t n = refl
    all_own true t n = ap (λ c. c ∷ own_children (n + 1) rest) (own_child t fd n recv_buf got)
