-- ===== src/Echo.antt =====
-- src/tcp/tcpEchoServerMultiProcess.cpp: the echo server that makes a thread for each client, the one
-- that forks a process for each, and what both do with a client. Which descriptor `accept` returns and
-- what `recv` reads are parameters.
use linux_interface_test.Base.{
  ℕ, zero, suc, ◌+◌, ◌==◌, ◌&&◌, if◌then◌else◌, List, [], ◌∷◌, ◌++◌, Bool, true, false, Option,
  none, some, length, write_bytes, drop,
}
pub mod Receiving
pub mod Served
pub mod Ordered
pub mod Race
pub mod Forked
mod Tests

-- `sizeof(recvBuf)`
abbrev pub recv_buf_size : ℕ
recv_buf_size = 512

-- "666"
abbrev pub echo_answer : List ℕ
echo_answer = 54 ∷ 54 ∷ 54 ∷ []

-- What `ServerRecv` does: it returns 0 or -1, sends, closes the socket, prints `recvBuf`.
pub record Reply : Type 0 where
  pub ok : Bool
  pub sent : List ℕ
  pub closes : Bool
  pub printed : List ℕ

-- `ServerRecv`, by its buffer and what `recv` reads: no bytes when the client has closed, none for an
-- error. A store behind the buffer is none.
unfoldable pub server_recv : List ℕ → Option (List ℕ) → Option Reply
server_recv recv_buf none = some (record { ok = false; sent = []; closes = false; printed = [] })
server_recv recv_buf (some []) =
    some (record { ok = true; sent = []; closes = false; printed = [] })
server_recv recv_buf (some (b ∷ bs)) =
    elim (write_bytes ((b ∷ bs) ++ drop (length (b ∷ bs)) recv_buf) (length (b ∷ bs)) (0 ∷ [])) [
      | none ↦ none
      | some stored ↦
          some (record { ok = true; sent = echo_answer; closes = true; printed = stored })
    ]

-- A thread has not been made, is made, has read its descriptor from `*arg`, waits in `recv` for what
-- comes from a connection, or has returned.
pub data Thread : Type 0 where
  absent fresh finished : Thread
  holding : (sock_fd : ℕ) → Thread
  waiting : (sock_fd conn : ℕ) → Thread

-- `TcpEchoServerMultiThread_Server`: the descriptors with the connections behind them, the one variable
-- `clientFd`, the threads by their number, how many there are, the connections that were answered, and
-- whether the process has not called `exit`.
pub record Server : Type 0 where
  pub table : ℕ → Option ℕ
  pub client_fd : ℕ
  pub threads : ℕ → Thread
  pub thread_cnt : ℕ
  pub answered : List ℕ
  pub alive : Bool

abbrev pub update : {A : Type 0} → (ℕ → A) → ℕ → A → ℕ → A
update f i a j = if j == i then a else f j

-- What the threads do: `accept` returns a descriptor or fails, a thread reads `clientFd`, it calls
-- `recv`, its `recv` returns.
pub data Event : Type 0 where
  accepted : (fd : ℕ) → Event
  accept_failed : Event
  reads : (t : ℕ) → Event
  calls : (t : ℕ) → Event
  receives : (t : ℕ) → (recv_buf : List ℕ) → (got : Option (List ℕ)) → Event

-- `ThreadServerResponse` behind its call of `ServerRecv`.
unfoldable pub finish : Server → ℕ → ℕ → Option ℕ → Option Reply → Option Server
finish s t sock_fd conn none = none
finish s t sock_fd conn (some r) =
    if r.ok
    then some (record s {
      table = if r.closes then update s.table sock_fd none else s.table;
      threads = update s.threads t finished;
      answered = elim conn [
        | none ↦ s.answered
        | some c ↦ if r.closes then c ∷ s.answered else s.answered
      ];
    })
    else some (record s { alive = false })

-- `recv` on a descriptor that is not open fails.
abbrev pub recv_on : Option ℕ → Option (List ℕ) → Option (List ℕ)
recv_on none got = none
recv_on (some c) got = got

-- An event, when it can happen: `accept` returns a descriptor that was not open. A `recv` that waits goes
-- on with its connection when the descriptor is closed meanwhile; on a descriptor that is not
-- open it fails, and `ServerRecv` returns -1.
unfoldable pub step : Event → Server → Option Server
unfolding finish server_recv
step (accepted fd) s = elim (s.table fd) [
  | some c ↦ none
  | none ↦ some (record s {
    table = update s.table fd (some s.thread_cnt);
    client_fd = fd;
    threads = update s.threads s.thread_cnt fresh;
    thread_cnt = s.thread_cnt + 1;
  })
]
step accept_failed s = some (record s { alive = false })
step (reads t) s = elim (s.threads t) [
  | fresh ↦ some (record s { threads = update s.threads t (holding s.client_fd) })
  | _ ↦ none
]
step (calls t) s = elim (s.threads t) [
  | holding fd ↦ elim (s.table fd) [
    | none ↦ some (record s { alive = false })
    | some c ↦ some (record s { threads = update s.threads t (waiting fd c) })
  ]
  | _ ↦ none
]
step (receives t recv_buf got) s = elim (s.threads t) [
  | waiting fd c ↦ finish s t fd (s.table fd) (server_recv recv_buf got)
  | _ ↦ none
]

-- Events one after another; there are none once the process has ended.
unfoldable pub run : List Event → Server → Option Server
unfolding step
run [] s = some s
run (ev ∷ evs) s = elim (s.alive) [
  | false ↦ none
  | true ↦ elim (step ev s) [ none ↦ none | some s' ↦ run evs s' ]
]

-- What a child of `TcpEchoServerMultiProcess_Server` did: the connection behind its descriptor, what
-- `ServerRecv` did there, none when it stored behind its buffer, and the exit status 0 or not. Its end
-- closes what it has open.
pub record Child : Type 0 where
  pub conn : Option ℕ
  pub reply : Option Reply
  pub exits_ok : Bool

abbrev pub reply_ok : Option Reply → Bool
reply_ok none = false
reply_ok (some r) = r.ok

-- The child's part behind `fork`, which has copied the descriptors.
unfoldable pub child_part : (ℕ → Option ℕ) → ℕ → List ℕ → Option (List ℕ) → Child
unfolding server_recv
child_part table client_fd recv_buf got =
    let reply = server_recv recv_buf (recv_on (table client_fd) got) in
    record { conn = table client_fd; reply = reply; exits_ok = reply_ok reply }

-- The parent: its descriptors, the connections so far, the children, whether it has not exited.
pub record Parent : Type 0 where
  pub table : ℕ → Option ℕ
  pub accepted_cnt : ℕ
  pub children : List Child
  pub alive : Bool

-- `accept` fails, or returns a descriptor: then whether `fork` makes a child, the child's buffer and
-- what its `recv` reads.
pub data Accepting : Type 0 where
  fails : Accepting
  client : (fd : ℕ) → (forks : Bool) → (recv_buf : List ℕ) → (got : Option (List ℕ)) → Accepting

-- The loop of `TcpEchoServerMultiProcess_Server` over what `accept` gives. The parent closes the
-- descriptor, with a child or without.
unfoldable pub fork_loop : List Accepting → Parent → Parent
unfolding child_part
fork_loop [] s = s
fork_loop (fails ∷ rest) s = record s { alive = false }
fork_loop (client fd forks recv_buf got ∷ rest) s =
    let opened = update s.table fd (some s.accepted_cnt) in
    fork_loop rest (record s {
      table = update opened fd none;
      accepted_cnt = s.accepted_cnt + 1;
      children = s.children ++ (if forks then child_part opened fd recv_buf got ∷ [] else []);
    })
