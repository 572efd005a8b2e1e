-- ===== src/Chat.antt =====
-- src/tcp/tcpChatMultiProcess.cpp: the chat server, in which each connection forks the process that
-- accepts the next one, and the process that is left reads this client and sends what it says to all.
-- The descriptors that `accept` returns and the results of `recv` and `send` are parameters.
use linux_interface_test.Base.{
  ℕ, zero, suc, ◌+◌, ◌==◌, ltb, ◌&&◌, if◌then◌else◌, List, [], ◌∷◌, ◌++◌, Bool, true, false, Option,
  none, some, length,
}
use linux_interface_test.Echo.{update}
pub mod Table
pub mod Broadcast
mod Tests

-- `clientSocketFd` is mapped for `sizeof(int) * 100` bytes; the loop over it takes 100 elements.
abbrev pub client_max : ℕ
client_max = 100

-- The shared array `clientSocketFd`, none for -1, with the memory behind its 100 elements as further ones; by the number of the process, its descriptors with
-- the connections behind them, and whether it runs; the number of the process that accepts; who was
-- sent what. A process has the number of the connection it reads, its `index`.
pub record Chat : Type 0 where
  pub client_socket_fd : ℕ → Option ℕ
  pub fds_of : ℕ → ℕ → Option ℕ
  pub runs : ℕ → Bool
  pub index : ℕ
  pub delivered : List (ℕ × List ℕ)

-- The loop over the 100 elements in a process, with `left` to go: the connections that were sent to,
-- and false when a `send` has failed, on which the process exits.
unfoldable pub broadcast : (ℕ → Option ℕ) → (ℕ → Option ℕ) → (ℕ → Bool) → ℕ → ℕ → List ℕ × Bool
broadcast client_socket_fd fds send_ok zero i = ([], true)
broadcast client_socket_fd fds send_ok (suc left) i = elim (client_socket_fd i) [
  | none ↦ broadcast client_socket_fd fds send_ok left (i + 1)
  | some fd ↦ elim (fds fd) [
    | none ↦ ([], false)
    | some conn ↦ elim (send_ok conn) [
      | false ↦ ([], false)
      | true ↦
          let rest = broadcast client_socket_fd fds send_ok left (i + 1) in (conn ∷ rest.0, rest.1)
    ]
  ]
]

-- `accept` returns in the process that accepts, and `fork` makes the next one or fails; `ServerRecv` returns a message in another, or finds
-- the connection closed or broken.
pub data Event : Type 0 where
  accepted : (fd : ℕ) → Event
  fork_failed : (fd : ℕ) → Event
  accept_failed : Event
  receives : (k : ℕ) → (message_buf : List ℕ) → (send_ok : ℕ → Bool) → Event
  leaves : (k : ℕ) → Event

unfoldable pub to_each : List ℕ → List ℕ → List (ℕ × List ℕ)
to_each message [] = []
to_each message (c ∷ cs) = (c, message) ∷ to_each message cs

-- The array, and both processes behind `fork`, which share what was open.
abbrev pub after_fork : ℕ → Chat → Chat
after_fork fd s =
    let opened = update (s.fds_of s.index) fd (some s.index) in
    record s {
      client_socket_fd = update s.client_socket_fd s.index (some fd);
      fds_of = update (update s.fds_of s.index opened) (s.index + 1) opened;
      runs = update s.runs (s.index + 1) true;
      index = s.index + 1;
    }

-- A process behind its loop over the clients.
abbrev pub after_broadcast : ℕ → List ℕ → List ℕ × Bool → Chat → Chat
after_broadcast k message_buf sent s = record s {
  runs = update s.runs k sent.1;
  delivered = s.delivered ++ to_each message_buf sent.0;
}

-- A step of `TcpChatMultiProcess_Server`, when it can happen. A store behind `messageBuf` is none. `index`
-- is not compared with 100.
unfoldable pub step : Event → Chat → Option Chat
unfolding broadcast to_each
step (accepted fd) s =
    if s.runs s.index
    then elim (s.fds_of s.index fd) [ some c ↦ none | none ↦ some (after_fork fd s) ]
    else none
step (fork_failed fd) s =
    if s.runs s.index
    then elim (s.fds_of s.index fd) [
      | some c ↦ none
      | none ↦ some (record s {
        client_socket_fd = update s.client_socket_fd s.index (some fd);
        runs = update s.runs s.index false;
      })
    ]
    else none
step accept_failed s =
    if s.runs s.index
    then some (record s {
      client_socket_fd = update s.client_socket_fd s.index none;
      runs = update s.runs s.index false;
    })
    else none
step (receives k message_buf send_ok) s =
    if (s.runs k && ltb k s.index) && ltb (length message_buf) 1024
    then some (
        after_broadcast k message_buf
          (broadcast s.client_socket_fd (s.fds_of k) send_ok client_max 0) s)
    else none
step (leaves k) s =
    if s.runs k && ltb k s.index then some (record s { runs = update s.runs k false }) else none
