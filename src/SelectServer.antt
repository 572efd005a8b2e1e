-- ===== src/SelectServer.antt =====
-- src/tcp/tcpEchoServerSelect.cpp: the echo server that waits by `select` for its listening socket and
-- its clients. What `select`, `accept` and `recv` return is a parameter.
use linux_interface_test.Base.{
  ℕ, zero, suc, ◌+◌, ◌-◌, ◌==◌, ltb, ◌&&◌, not, if◌then◌else◌, List, [], ◌∷◌, Bool, true, false,
  Option, none, some, length,
}
use linux_interface_test.Echo.{update}
pub mod Scan
pub mod Stdin
pub mod Listener
mod Tests

-- What a `recv` with `MSG_DONTWAIT` returns: bytes, 0, -1 with one of the three errors after which the
-- code goes on, or -1 with another.
pub data Received : Type 0 where
  message : (recv_buf : List ℕ) → Received
  ended again failed : Received

-- The loop `while (1)` over one descriptor: true when it comes to its `break`. With a message that
-- fills `recvBuf` it stores a zero behind it and nothing is said.
unfoldable pub recv_loop : List Received → Bool
recv_loop [] = false
recv_loop (message bs ∷ others) =
    let rest = recv_loop others in if ltb (length bs) 1024 then rest else false
recv_loop (ended ∷ rest) = true
recv_loop (again ∷ rest) = recv_loop rest
recv_loop (failed ∷ rest) = true

-- The descriptors that are open, `saveClientFdSet` with none for -1, `maxFd`, and whether the process
-- has not exited.
pub record Selecting : Type 0 where
  pub opened : ℕ → Bool
  pub save_client_fd_set : ℕ → Option ℕ
  pub max_fd : ℕ
  pub alive : Bool

-- `int saveClientFdSet[1024] = {-1}` gives -1 to the first element and 0 to the others.
unfoldable pub start : (ℕ → Bool) → ℕ → Selecting
start opened server_fd = record {
  opened = opened;
  save_client_fd_set = λ idx. if idx == 0 then none else some 0;
  max_fd = server_fd + 1;
  alive = true;
}

abbrev pub is_slot : Option ℕ → ℕ → Bool
is_slot none fd = false
is_slot (some saved) fd = saved == fd

-- The loop that sets the bits of `sockFdSet`, over the first `n` slots.
unfoldable pub in_slots : (ℕ → Option ℕ) → ℕ → ℕ → Bool
in_slots save zero fd = false
in_slots save (suc n) fd = if is_slot (save n) fd then true else in_slots save n fd

-- The descriptors that `select` is asked about.
unfoldable pub watched : ℕ → Selecting → ℕ → Bool
unfolding in_slots
watched server_fd s fd = if fd == server_fd then true else in_slots s.save_client_fd_set s.max_fd fd

-- Both ends of the inner loop forget the descriptor and close it.
abbrev pub forget : Selecting → ℕ → Selecting
forget s sock_fd = record s {
  opened = update s.opened sock_fd false;
  save_client_fd_set = update s.save_client_fd_set sock_fd none;
}

-- The loop over `sockFd`, with `left` to go, until `fd_cnt` descriptors were found; none when a
-- descriptor's loop does not come to its end.
unfoldable pub scan :
    (ℕ → Bool) → (ℕ → List Received) → ℕ → ℕ → ℕ → ℕ → Selecting → Option Selecting
unfolding recv_loop
scan is_set recvs fd_cnt zero sock_fd i_times s = some s
scan is_set recvs fd_cnt (suc left) sock_fd i_times s = elim (ltb i_times fd_cnt) [
  | false ↦ some s
  | true ↦ elim (is_set sock_fd) [
    | false ↦ scan is_set recvs fd_cnt left (sock_fd + 1) i_times s
    | true ↦ elim (recv_loop (recvs sock_fd)) [
      | false ↦ none
      | true ↦ scan is_set recvs fd_cnt left (sock_fd + 1) (i_times + 1) (forget s sock_fd)
    ]
  ]
]

-- What a round gets: the result of `select`, none for -1, the bits that it leaves, the result of
-- `accept`, and what each descriptor's `recv` calls return.
pub record Answers : Type 0 where
  pub fd_cnt : Option ℕ
  pub is_set : ℕ → Bool
  pub accept_fd : Option ℕ
  pub recvs : ℕ → List Received

abbrev pub accept_one : ℕ → Selecting → Selecting
accept_one accept_fd s = record s {
  opened = update s.opened accept_fd true;
  save_client_fd_set = update s.save_client_fd_set accept_fd (some accept_fd);
  max_fd = if ltb accept_fd s.max_fd then s.max_fd else accept_fd + 1;
}

-- A round of the outer loop of `TcpEchoServerSelect_Server`.
unfoldable pub round : ℕ → Answers → Selecting → Option Selecting
unfolding scan
round server_fd a s = elim a.fd_cnt [
  | none ↦ some (record s { alive = false })
  | some zero ↦ some s
  | some (suc n) ↦ elim (a.is_set server_fd) [
    | false ↦ scan a.is_set a.recvs (suc n) s.max_fd 0 0 s
    | true ↦ elim a.accept_fd [
      | none ↦ some (record s { opened = update s.opened server_fd false; alive = false })
      | some fd ↦ scan a.is_set a.recvs n (accept_one fd s).max_fd 0 0 (accept_one fd s)
    ]
  ]
]

-- The outer loop, for `n` rounds at most: `exit` ends it. What the calls return may depend on the state.
unfoldable pub select_rounds : ℕ → (Selecting → Answers) → ℕ → Selecting → Option Selecting
unfolding round
select_rounds server_fd env zero s = some s
select_rounds server_fd env (suc n) s = elim (s.alive) [
  | false ↦ some s
  | true ↦ elim (round server_fd (env s) s) [
    | none ↦ none
    | some s' ↦ select_rounds server_fd env n s'
  ]
]
