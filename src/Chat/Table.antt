-- ===== src/Chat/Table.antt =====
-- Which connections a process of the chat server has open, and which the shared array shows it.
use linux_interface_test.Base.{
  ℕ, ◌+◌, ◌≤◌, ◌<◌, ◌≡◌, arith, ◌==◌, ltb, if◌then◌else◌, false, Bool-cases, Option-cases, inl, inr,
  none, some, ap, ◌∙◌, sym,
}
use linux_interface_test.Chat.{
  client_max, Chat, Event, accepted, fork_failed, accept_failed, receives, leaves, after_fork, step,
}

-- The server at its start: an empty array, one process, no connection.
pub record IsStart (s : Chat) : Type 0 where
  pub empty : (i : ℕ) → s.client_socket_fd i ≡ none
  pub nothing_open : (k fd : ℕ) → s.fds_of k fd ≡ none
  pub first : s.index ≡ 0

-- A connection finds room in the array, and no `fork` fails.
abbrev pub Orderly : Event → Chat → Type 0
Orderly (accepted fd) s = s.index < client_max
Orderly (fork_failed fd) s = ⊥
Orderly accept_failed s = Unit {0}
Orderly (receives k message_buf send_ok) s = Unit {0}
Orderly (leaves k) s = Unit {0}

-- The states that are reached with at most 100 connections and without a `fork` that fails.
pub data Reached : Chat → Type 0 where
  start : (s : Chat) → IsStart s → Reached s
  next : (ev : Event) (s s' : Chat) → Reached s → Orderly ev s → step ev s ≡ some s' → Reached s'

-- Process k has the connections up to its own, under the descriptors in the array; those that were
-- accepted later are in the array under descriptors that it does not have.
pub record Tables (s : Chat) : Type 0 where
  pub at_most : s.index ≤ client_max
  pub beyond : (j : ℕ) → s.index ≤ j → s.client_socket_fd j ≡ none
  pub has :
      (k j : ℕ)
      → k ≤ s.index
      → j ≤ k
      → j < s.index
      → (fd : ℕ) × (s.client_socket_fd j ≡ some fd) × (s.fds_of k fd ≡ some j)
  pub lacks :
      (k j fd : ℕ) → k < j → j < s.index → s.client_socket_fd j ≡ some fd → s.fds_of k fd ≡ none
  -- What a process has open, a later one has, too.
  pub inherits : (k c fd : ℕ) → k ≤ s.index → s.fds_of k fd ≡ some c → s.fds_of s.index fd ≡ some c

module _ (s : Chat) (fd : ℕ) (t : Tables s) (free : s.fds_of s.index fd ≡ none)
    (room : s.index < client_max) where
  -- The two processes behind `fork`, and the earlier ones.
  young :
      (k g : ℕ)
      → s.index ≤ k
      → k ≤ s.index + 1
      → (after_fork fd s).fds_of k g ≡ (if g == fd then some s.index else s.fds_of s.index g)
  young k g h h' = ground (arith, h, h')

  old : (k g : ℕ) → k < s.index → (after_fork fd s).fds_of k g ≡ s.fds_of k g
  old k g h = ground (arith, h)

  not_the_new : (j g : ℕ) → s.fds_of s.index g ≡ some j → (g == fd) ≡ false
  not_the_new j g h = elim (Bool-cases (g == fd)) [
    | inl e ↦
        let same : g ≡ fd = ground (arith, e) in
        absurd (ground (arith, ap (s.fds_of s.index) same, h, free))
    | inr e ↦ e
  ]

  fork_has_own :
      (k : ℕ)
      → s.index ≤ k
      → k ≤ s.index + 1
      → ((after_fork fd s).client_socket_fd s.index ≡ some fd)
        × ((after_fork fd s).fds_of k fd ≡ some s.index)
  fork_has_own k h h' = (ground arith, young k fd h h' ∙ ground arith)

  fork_has :
      (k j : ℕ)
      → k ≤ s.index + 1
      → j ≤ k
      → j < s.index + 1
      → (g : ℕ) × ((after_fork fd s).client_socket_fd j ≡ some g)
        × ((after_fork fd s).fds_of k g ≡ some j)
  fork_has k j hk hj hi = elim (Bool-cases (j == s.index)) [
    | inl e ↦
        let same : s.index ≡ j = ground (arith, e) in
        let (a, b) = fork_has_own k (ground (arith, e, hj)) hk in
        (fd, ap (after_fork fd s).client_socket_fd (sym same) ∙ a, b ∙ ap (λ (i : ℕ). some i) same)
    | inr e ↦ elim (Bool-cases (ltb k s.index)) [
      | inl below ↦
          let (g, a, b) = t.has k j (ground (arith, below)) hj (ground (arith, e, hi)) in
          (g, ground (arith, e, a), old k g (ground (arith, below)) ∙ b)
      | inr above ↦
          let (g, a, b) =
            t.has s.index j (omega arith) (ground (arith, e, hi)) (ground (arith, e, hi)) in
          (g, ground (arith, e, a), young k g (ground (arith, above)) hk ∙ rw (not_the_new j g b) b)
    ]
  ]

  fork_lacks :
      (k j g : ℕ)
      → k < j
      → j < s.index + 1
      → (after_fork fd s).client_socket_fd j ≡ some g
      → (after_fork fd s).fds_of k g ≡ none
  fork_lacks k j g hk hj h = old k g (omega arith) ∙ elim (Bool-cases (j == s.index)) [
    | inl e ↦
        let same : g ≡ fd = ground (arith, e, h) in
        elim (Option-cases (s.fds_of k g)) [
          | inl nothing ↦ nothing
          | inr (c, open_there) ↦
              absurd
                (ground (arith, not_the_new c g (t.inherits k c g (omega arith) open_there), same))
        ]
    | inr e ↦ t.lacks k j g hk (ground (arith, e, hj)) (ground (arith, e, h))
  ]

  fork_inherits :
      (k c g : ℕ)
      → k ≤ s.index + 1
      → (after_fork fd s).fds_of k g ≡ some c
      → (after_fork fd s).fds_of (s.index + 1) g ≡ some c
  fork_inherits k c g hk h = elim (Bool-cases (ltb k s.index)) [
    | inl below ↦
        let before : s.fds_of s.index g ≡ some c =
          t.inherits k c g (ground (arith, below)) (sym (old k g (ground (arith, below))) ∙ h) in
        young (s.index + 1) g (omega arith) (omega arith) ∙ rw (not_the_new c g before) before
    | inr above ↦
        young (s.index + 1) g (omega arith) (omega arith)
        ∙ sym (young k g (ground (arith, above)) hk)
        ∙ h
  ]

  pub fork_Tables : Tables (after_fork fd s)
  fork_Tables = record {
    at_most = omega arith;
    beyond = λ j h. ground (arith, h, t.beyond j);
    has = fork_has;
    lacks = fork_lacks;
    inherits = fork_inherits;
  }
