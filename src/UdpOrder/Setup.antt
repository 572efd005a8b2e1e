-- ===== src/UdpOrder/Setup.antt =====
-- The start of `UdpOrderSendRecv_Tx` and `UdpOrderSendRecv_Rx`: arguments, signals, the choice of the
-- processor, the socket, and the buffers. What the system calls return is a parameter.
use linux_interface_test.Base.{
  ℕ, zero, suc, ◌/◌, ◌%◌, ◌==◌, ltb, if◌then◌else◌, u16, List, [], ◌∷◌, Bool, true, false, not,
  Option, none, some, Endian, ℤ, pos, negsuc, is_minus_one, eq_ℤ,
}
use linux_interface_test.UdpOrder.SendBuf.{
  Flow, returns, exits, prepare_send_buf, init_random_len_buf,
}
use linux_interface_test.UdpOrder.Sender.{Sender, TxKpi, SendRet, write_tid, send_loop}
use linux_interface_test.UdpOrder.CheckSno.{Recv, Receiver, recv_loop}

infixl 5 ◌>>=◌ ◌>>◌
abbrev pub ◌>>=◌ {ℓ κ} : {A : Type ℓ} {B : Type κ} → Flow A → (A → Flow B) → Flow B
returns a >>= f = f a
exits >>= f = exits

abbrev pub ◌>>◌ {ℓ} : {B : Type ℓ} → Flow (Unit {0}) → Flow B → Flow B
m >> k = m >>= λ _. k

-- `if (!ok) exit(-1);`
abbrev pub require : Bool → Flow (Unit {0})
require true = returns tt
require false = exits

-- `SetCpu`: the mask of the process becomes the one processor, if the kernel accepts it.
unfoldable pub set_cpu : (ℕ → Bool) → ℕ → List ℕ → List ℕ
set_cpu online cpu_no mask = if online cpu_no then cpu_no ∷ [] else mask

-- `for (; cpuNoStr > 0; cpuNoStr /= 10) SetCpu(cpuNoStr % 10);` with fuel.
unfoldable pub bind_cpus : (ℕ → Bool) → ℕ → ℕ → List ℕ → List ℕ
unfolding set_cpu
bind_cpus online zero cpu_no_str mask = mask
bind_cpus online (suc fuel) cpu_no_str mask = elim (ltb 0 cpu_no_str) [
  | true ↦ bind_cpus online fuel (cpu_no_str / 10) (set_cpu online (cpu_no_str % 10) mask)
  | false ↦ mask
]

-- An `int` has at most ten digits.
abbrev pub cpu_fuel : ℕ
cpu_fuel = 11

-- `InitInetSocket` up to the `exit(-1)` in its middle; what stands below that never runs.
unfoldable pub init_inet_socket : ℤ → ℤ → Flow ℤ
init_inet_socket socket_ret setsockopt_ret =
    if is_minus_one socket_ret
    then returns (negsuc 0)
    else if is_minus_one setsockopt_ret
    then returns (negsuc 0)
    else exits

-- The arguments of the sender as numbers, and what its system calls return.
pub record TxEnv : Type 0 where
  pub argc : ℕ
  pub cpu_no_str : ℕ
  pub min_pack_len : ℕ
  pub max_pack_len : ℕ
  pub packet_num : ℕ
  pub send_thread_idx : ℕ
  pub sigint_set : Bool
  pub sigterm_set : Bool
  pub thread_created : Bool
  pub online : ℕ → Bool
  pub connect_ret : ℤ
  pub malloced : Option (List ℕ)
  pub random : ℕ → ℕ
  pub sends : List SendRet

-- How the sender ends: the early `return -1`, a store outside the buffer, or its last datagram.
pub data TxEnd : Type 0 where
  no_thread : TxEnd
  fault : TxEnd
  finished : (mask : List ℕ) → (s : Sender) → (sent : List (List ℕ)) → TxEnd

-- The part behind the buffers.
unfoldable pub run_sender : Endian → TxEnv → TxKpi → List ℕ → List ℕ → List ℕ → TxEnd
run_sender e env kpi mask block lens = elim (write_tid e env.send_thread_idx block) [
  | none ↦ fault
  | some buf ↦
      elim (send_loop e lens env.packet_num env.sends 0
        (record { send_buf = buf; s_idx = 0; kpi = kpi })) [
          | none ↦ fault
          | some (s, sent) ↦ finished mask s sent
        ]
]

-- `UdpOrderSendRecv_Tx` up to what its `InitInetSocket` does, which is an argument.
unfoldable pub tx_with_socket : Endian → Flow ℤ → TxEnv → TxKpi → List ℕ → Flow TxEnd
unfolding bind_cpus run_sender
tx_with_socket e socket env kpi mask = do
  require (env.argc == 12)
  require env.sigint_set
  require env.sigterm_set
  let go = do
    require (not (env.max_pack_len == 0))
    let mask' =
        if env.cpu_no_str == 11 then mask else bind_cpus env.online cpu_fuel env.cpu_no_str mask
    fd ← socket
    require (not (is_minus_one fd))
    require (eq_ℤ env.connect_ret (pos 0))
    block ← prepare_send_buf env.max_pack_len env.malloced
    lens ← init_random_len_buf env.random (u16 env.min_pack_len) (u16 env.max_pack_len)
    returns (elim block [ none ↦ fault | some b ↦ run_sender e env kpi mask' b lens ])
  if env.thread_created then go else returns no_thread

-- `UdpOrderSendRecv_Tx`, with what the two calls of its `InitInetSocket` return.
unfoldable pub udp_order_send_recv_tx : Endian → ℤ → ℤ → TxEnv → TxKpi → List ℕ → Flow TxEnd
unfolding tx_with_socket init_inet_socket
udp_order_send_recv_tx e socket_ret setsockopt_ret env kpi mask =
    tx_with_socket e (init_inet_socket socket_ret setsockopt_ret) env kpi mask

-- The arguments of the receiver, and what its system calls return.
pub record RxEnv : Type 0 where
  pub argc : ℕ
  pub cpu_no_str : ℕ
  pub sigint_set : Bool
  pub sigterm_set : Bool
  pub online : ℕ → Bool
  pub log_opened : Bool
  pub recvs : List Recv

-- How the receiver ends: `return -1` without its log, or what the loop leaves and whether it ended.
pub data RxEnd : Type 0 where
  no_log : RxEnd
  received : (mask : List ℕ) → (r : Receiver) → (ended : Bool) → RxEnd

-- `UdpOrderSendRecv_Rx`, likewise.
unfoldable pub udp_order_send_recv_rx : Endian → ℤ → ℤ → RxEnv → List ℕ → Receiver → Flow RxEnd
unfolding bind_cpus init_inet_socket
udp_order_send_recv_rx e socket_ret setsockopt_ret env mask r = do
  require (env.argc == 8)
  require env.sigint_set
  require env.sigterm_set
  let mask' =
      if env.cpu_no_str == 11 then mask else bind_cpus env.online cpu_fuel env.cpu_no_str mask
  fd ← init_inet_socket socket_ret setsockopt_ret
  require (not (is_minus_one fd))
  let (r', ended) = recv_loop e env.recvs r
  returns (if env.log_opened then received mask' r' ended else no_log)
