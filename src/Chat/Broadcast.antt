-- ===== src/Chat/Broadcast.antt =====
-- Who gets a message of the chat server: the loop over the array in a process that a state can have.
use linux_interface_test.Base.{
  none_or_some, ℕ, zero, suc, ◌+◌, ◌-◌, ◌≤◌, ◌<◌, ◌≡◌, refl, arith, ◌==◌, ltb, lt→ltb, ◌&&◌,
  if◌then◌else◌, List, [], ◌∷◌, ◌++◌, append-nil, Bool, true, false, Bool-cases, Option-cases, inl,
  inr, Option, none, some, length, subst, ap, ◌∙◌, sym,
}
use linux_interface_test.Echo.{update}
use linux_interface_test.Chat.{
  client_max, Chat, Event, accepted, fork_failed, accept_failed, receives, leaves, broadcast,
  after_fork, after_broadcast, step,
}
use linux_interface_test.Chat.Table.{Reached, Orderly, start, next, IsStart, Tables, fork_Tables}

IsStart-Tables : (s : Chat) → IsStart s → Tables s
IsStart-Tables s st = record {
  at_most = omega (arith, st.first);
  beyond = λ j h. st.empty j;
  has = λ k j h h' h''. absurd (omega (arith, st.first));
  lacks = λ k j fd h h' h''. absurd (omega (arith, st.first));
  inherits = λ k c fd h h'. absurd (ground (arith, h', st.nothing_open k fd));
}

-- What does not touch the array or a table.
same-Tables :
    (s s' : Chat)
    → Tables s
    → ((j : ℕ) → s'.client_socket_fd j ≡ s.client_socket_fd j)
    → s'.fds_of ≡ s.fds_of
    → s'.index ≡ s.index
    → Tables s'
same-Tables s s' t a b c = record {
  at_most = omega (arith, c, t.at_most);
  beyond = λ j h. a j ∙ t.beyond j (omega (arith, c));
  has = λ k j h h' h''.
      let (fd, x, y) = t.has k j (omega (arith, c)) h' (omega (arith, c)) in
      (fd, a j ∙ x, ap (λ (f : ℕ → ℕ → Option ℕ). f k fd) b ∙ y);
  lacks = λ k j fd h h' h''.
      ap (λ (f : ℕ → ℕ → Option ℕ). f k fd) b
      ∙ t.lacks k j fd h (omega (arith, c)) (sym (a j) ∙ h'');
  inherits = λ k q fd h h'.
      ap (λ (f : ℕ → ℕ → Option ℕ). f s'.index fd) b
      ∙ ap (λ i. s.fds_of i fd) c
      ∙ t.inherits k q fd (omega (arith, c)) (sym (ap (λ (f : ℕ → ℕ → Option ℕ). f k fd) b) ∙ h');
}

if_some : {A : Type 0} {x y : A} (b : Bool) → (if b then some x else none) ≡ some y → x ≡ y
if_some true h = cc h
if_some false h = absurd (ground (arith, h))

step-Tables : (ev : Event) (s s' : Chat) → Tables s → Orderly ev s → step ev s ≡ some s' → Tables s'
unfolding step
step-Tables (fork_failed fd) s s' t orderly h = elim orderly [ ]
step-Tables (accepted fd) s s' t orderly h = elim (Bool-cases (s.runs s.index)) [
  | inl may ↦ elim (Option-cases (s.fds_of s.index fd)) [
    | inl free ↦
        let ran : step (accepted fd) s ≡ some (after_fork fd s) = rw (step, may, free) refl in
        let same : after_fork fd s ≡ s' = cc (ran, h) in
        subst Tables same (fork_Tables s fd t free orderly)
    | inr (c, busy) ↦ absurd (none_or_some (step (accepted fd) s) s' (rw (step, may, busy) refl) h)
  ]
  | inr not ↦ absurd (none_or_some (step (accepted fd) s) s' (rw (step, not) refl) h)
]
step-Tables accept_failed s s' t orderly h = subst Tables (if_some (s.runs s.index) h) (
    same-Tables s
      (record s {
        client_socket_fd = update s.client_socket_fd s.index none;
        runs = update s.runs s.index false;
      })
      t (λ j. ground (arith, ap s.client_socket_fd, t.beyond s.index (omega arith))) refl refl)
step-Tables (receives k message_buf send_ok) s s' t orderly h =
    subst Tables (if_some ((s.runs k && ltb k s.index) && ltb (length message_buf) 1024) h) (
      same-Tables s
        (after_broadcast k message_buf
          (broadcast s.client_socket_fd (s.fds_of k) send_ok client_max 0) s)
        t (λ j. refl) refl refl)
step-Tables (leaves k) s s' t orderly h =
    subst Tables (if_some (s.runs k && ltb k s.index) h)
      (same-Tables s (record s { runs = update s.runs k false }) t (λ j. refl) refl refl)

pub Reached-Tables : (s : Chat) → Reached s → Tables s
Reached-Tables s (start _ is_start) = IsStart-Tables s is_start
Reached-Tables s' (next ev s _ reached orderly h) =
    step-Tables ev s s' (Reached-Tables s reached) orderly h

-- The numbers from `lo` on.
abbrev pub numbers : ℕ → ℕ → List ℕ
numbers lo zero = []
numbers lo (suc n) = lo ∷ numbers (lo + 1) n

module _ (s : Chat) (t : Tables s) (k : ℕ) (k<n : k < s.index) (send_ok : ℕ → Bool) where
  abbrev from : ℕ → ℕ → List ℕ × Bool
  from left i = broadcast s.client_socket_fd (s.fds_of k) send_ok left i

  -- Those that the process has.
  reaches :
      (d left i : ℕ)
      → i + d ≡ k + 1
      → ((c : ℕ) → send_ok c ≡ true)
      → from (d + left) i ≡ (numbers i d ++ (from left (k + 1)).0, (from left (k + 1)).1)
  unfolding broadcast
  reaches zero left i h ok =
      let a : 0 + left ≡ left = omega arith in
      let b : i ≡ k + 1 = omega arith in ap (λ n. from n i) a ∙ ap (from left) b
  reaches (suc d) left i h ok =
      let a : suc d + left ≡ suc (d + left) = omega arith in
      let (fd, shown, open_there) = t.has k i (omega arith) (omega arith) (omega arith) in
      ap (λ n. from n i) a
      ∙ rw (broadcast, shown, open_there, ok i)
          (ap (λ (r : List ℕ × Bool). (i ∷ r.0, r.1)) (reaches d left (i + 1) (omega arith) ok))

  -- Nothing is left.
  empties : (left i : ℕ) → s.index ≤ i → from left i ≡ ([], true)
  unfolding broadcast
  empties zero i h = refl
  empties (suc left) i h = rw (broadcast, t.beyond i h) (empties left (i + 1) (omega arith))

  -- The first that it lacks.
  breaks : (left : ℕ) → k + 1 < s.index → from (suc left) (k + 1) ≡ ([], false)
  unfolding broadcast
  breaks left h =
      let (fd, shown, open_there) = t.has s.index (k + 1) (omega arith) (omega arith) h in
      rw (broadcast, shown, t.lacks k (k + 1) fd (omega arith) h shown) refl

  sent_to : ((c : ℕ) → send_ok c ≡ true) → from client_max 0 ≡ (numbers 0 (k + 1), k + 1 == s.index)
  sent_to ok =
      let parts : client_max ≡ (k + 1) + (client_max - (k + 1)) = omega (arith, t.at_most) in
      ap (λ n. from n 0) parts
      ∙ reaches (k + 1) (client_max - (k + 1)) 0 (omega arith) ok
      ∙ elim (Bool-cases (k + 1 == s.index)) [
        | inl last ↦
            let behind = empties (client_max - (k + 1)) (k + 1) (ground (arith, last)) in
            ap (λ (r : List ℕ × Bool). (numbers 0 (k + 1) ++ r.0, r.1)) behind
            ∙ rw (append-nil (numbers 0 (k + 1)), last) refl
        | inr more ↦
            let below : k + 1 < s.index = ground (arith, more, k<n) in
            let one : client_max - (k + 1) ≡ suc (client_max - (k + 1) - 1) =
              omega (arith, t.at_most, below) in
            let behind = ap (λ n. from n (k + 1)) one ∙ breaks (client_max - (k + 1) - 1) below in
            ap (λ (r : List ℕ × Bool). (numbers 0 (k + 1) ++ r.0, r.1)) behind
            ∙ rw (append-nil (numbers 0 (k + 1)), more) refl
      ]

-- In a state that is reached with at most 100 connections and without a fork that fails, what a client of
-- the chat server says, a message of fewer than 1024 bytes whose sends all succeed, goes to the connections 0 to its own, in this order. To the later ones it does not go, and the
-- process of the client exits when there are any: their descriptors in the array are not open in it.
-- Only the process of the newest connection sends to all and goes on.
pub step-receives :
    (s : Chat) (k : ℕ) (message_buf : List ℕ) (send_ok : ℕ → Bool)
    → Reached s
    → s.runs k ≡ true
    → k < s.index
    → length message_buf < 1024
    → ((c : ℕ) → send_ok c ≡ true)
    → step (receives k message_buf send_ok) s
      ≡ some (after_broadcast k message_buf (numbers 0 (k + 1), k + 1 == s.index) s)
unfolding step
step-receives s k message_buf send_ok reached run k<n short ok =
    rw (step, run, lt→ltb k s.index k<n, lt→ltb (length message_buf) 1024 short)
      (ap (λ (r : List ℕ × Bool). some (after_broadcast k message_buf r s))
        (sent_to s (Reached-Tables s reached) k k<n send_ok ok))
