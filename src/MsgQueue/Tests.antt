-- ===== src/MsgQueue/Tests.antt =====
-- Three messages of 6 bytes.
use linux_interface_test.Base.{ℕ, ◌*◌, ◌≡◌, arith, List, true, some, little}
use linux_interface_test.MsgQueue.{
  msg_queue_send_loop, recv_loop, with_totals, all_accepted, recv_loop-msg_queue_send_loop,
}

recv_loop-msg_queue_send_loop_example :
    (queue : List (List ℕ)) × (msg_queue_send_loop little all_accepted 6 3 ≡ some (queue, true))
    × (recv_loop 10 6 3 queue (with_totals 0 0) ≡ some (with_totals 3 (3 * 6)))
recv_loop-msg_queue_send_loop_example =
    recv_loop-msg_queue_send_loop little 6 3 10 (omega arith) (omega arith) (omega arith)
      (omega arith) (omega arith)
