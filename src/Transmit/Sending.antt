-- ===== src/Transmit/Sending.antt =====
-- `TcpFileTransmitter_Sender`. What the system calls return is a parameter.
use linux_interface_test.Base.{
  ℕ, ◌+◌, ◌==◌, if◌then◌else◌, List, [], ◌∷◌, ◌++◌, Bool, true, false, not, length, Endian, store32,
  ℤ, pos, negsuc, is_minus_one, to_u32,
}

-- The `read` that ends the loop: 0 or -1.
pub data LastRead : Type 0 where
  eof read_error : LastRead

abbrev pub size_of_last : LastRead → ℤ
size_of_last eof = pos 0
size_of_last read_error = negsuc 0

-- The stream as far as it is sent, and the number of calls of `send`.
pub record Outgoing : Type 0 where
  pub stream : List ℕ
  pub calls : ℕ

-- Arguments, what the calls up to `open` return, the results of `read`, and whether the call of
-- `send` with a given number succeeds.
pub record SenderEnv : Type 0 where
  pub argc : ℕ
  pub file_name : List ℕ
  pub socket_ret : ℤ
  pub connect_ret : ℤ
  pub open_ret : ℤ
  pub reads : List (List ℕ)
  pub last : LastRead
  pub sends : ℕ → Bool

-- `send` of a whole buffer: false is -1.
abbrev pub send : (ℕ → Bool) → List ℕ → Outgoing → Bool × Outgoing
send sends bs w =
    let w' = record w { calls = w.calls + 1 } in
    if sends w.calls then (true, record w' { stream = w.stream ++ bs }) else (false, w')

-- How the sender ends: `return 0` or `exit(-1)`.
pub data SenderEnd : Type 0 where
  sent_all : Outgoing → SenderEnd
  gave_up : Outgoing → SenderEnd

-- Behind the loop: the last size is sent, whatever comes of it.
abbrev pub send_last : Endian → (ℕ → Bool) → LastRead → Outgoing → SenderEnd
send_last e sends last w = sent_all (send sends (store32 e (to_u32 (size_of_last last))) w).1

-- The loop over the results of `read`. An empty one is the end of the file too.
unfoldable pub send_file : Endian → (ℕ → Bool) → LastRead → List (List ℕ) → Outgoing → SenderEnd
send_file e sends last [] w = send_last e sends last w
send_file e sends last ([] ∷ cs) w = send_last e sends eof w
send_file e sends last ((b ∷ bs) ∷ cs) w =
    let (size_ok, w1) = send sends (store32 e (length (b ∷ bs))) w in
    let (data_ok, w2) = send sends (b ∷ bs) w1 in
    let rest = send_file e sends last cs w2 in
    if not size_ok then gave_up w1 else if not data_ok then gave_up w2 else rest

unfoldable pub tcp_file_transmitter_sender : Endian → SenderEnv → SenderEnd
unfolding send_file
tcp_file_transmitter_sender e env =
    let w0 : Outgoing = record { stream = []; calls = 0 } in
    let (len_ok, w1) = send env.sends (store32 e (length env.file_name)) w0 in
    let (name_ok, w2) = send env.sends env.file_name w1 in
    if not (env.argc == 2)
    then gave_up w0
    else if is_minus_one env.socket_ret
    then gave_up w0
    else if is_minus_one env.connect_ret
    then gave_up w0
    else if is_minus_one env.open_ret
    then gave_up w0
    else if not len_ok
    then gave_up w1
    else if not name_ok
    then gave_up w2
    else send_file e env.sends env.last env.reads w2
