-- ===== src/Ping/Waiting.antt =====
-- The thread of ping.cpp that receives, and how long the one that sends waits for it.
use linux_interface_test.Base.{
  ℕ, zero, suc, ◌+◌, ◌≡◌, refl, arith, ◌==◌, ltb, leb, not, if◌then◌else◌, List, [], ◌∷◌, Bool,
  false, Bool-cases, inl, inr, Option, none, some, length, take, map, ap, Endian,
}
use linux_interface_test.Ping.{Response, unpack_icmp_packet}

-- The inner loop of `SendIcmpPacket`, with `left` rounds to go, from the time `t`, in intervals since
-- the request: when it ends. `res_flag` is `gResFlag` at each time.
unfoldable pub wait_more : (ℕ → Bool) → ℕ → ℕ → ℕ
wait_more res_flag t zero = t
wait_more res_flag t (suc left) =
    let rest = wait_more res_flag (t + 1) left in if res_flag t then t else rest

-- Whether a round of `SendIcmpPacket` prints that the response is overtime.
unfoldable pub overtime : (ℕ → Bool) → Bool
unfolding wait_more
overtime res_flag = if res_flag 1 then false else not (res_flag (wait_more res_flag 1 4))

-- `RecvIcmpPacket`, with `left` of its rounds to go, over what `recvfrom` gives, none for an error, or
-- a packet with its sender: what it makes of each packet of the host that is asked. It sets `gResFlag`
-- for each of these, and waits when nothing more comes.
unfoldable pub recv_icmp_packet :
    Endian → ℕ → ℕ → ℕ → List (Option (ℕ × List ℕ)) → List (Option Response)
recv_icmp_packet e g_pid remote zero arrivals = []
recv_icmp_packet e g_pid remote (suc left) [] = []
recv_icmp_packet e g_pid remote (suc left) (none ∷ arrivals) =
    recv_icmp_packet e g_pid remote left arrivals
recv_icmp_packet e g_pid remote (suc left) (some (src, []) ∷ arrivals) =
    recv_icmp_packet e g_pid remote left arrivals
recv_icmp_packet e g_pid remote (suc left) (some (src, b ∷ bs) ∷ arrivals) =
    let rest = recv_icmp_packet e g_pid remote left arrivals in
    if src == remote then unpack_icmp_packet e g_pid (b ∷ bs) (length (b ∷ bs)) ∷ rest else rest

-- The packets of a host among arrivals.
abbrev pub packets_of : ℕ → List (Option (ℕ × List ℕ)) → List (List ℕ)
packets_of remote [] = []
packets_of remote (none ∷ arrivals) = packets_of remote arrivals
packets_of remote (some (src, []) ∷ arrivals) = packets_of remote arrivals
packets_of remote (some (src, b ∷ bs) ∷ arrivals) =
    if src == remote then (b ∷ bs) ∷ packets_of remote arrivals else packets_of remote arrivals

-- The sender prints that a response is overtime exactly when the flag is set more than five intervals
-- after its request; in each of the five it looks once.
pub overtime-five : (arrival : ℕ) → overtime (λ t. leb arrival t) ≡ ltb 5 arrival
unfolding overtime wait_more
overtime-five arrival = ground arith

-- The receiver looks at the first `packetNum` results of `recvfrom` and at no more, errors and packets
-- of other hosts among them, and makes what `UnpackIcmpPacket` makes of each packet of the host that
-- is asked. So it misses every reply behind so many packets of others.
pub recv_icmp_packet-take :
    (e : Endian) (g_pid remote packet_num : ℕ) (arrivals : List (Option (ℕ × List ℕ)))
    → recv_icmp_packet e g_pid remote packet_num arrivals
      ≡ map
          (λ p. unpack_icmp_packet e g_pid p (length p))
          (packets_of remote (take packet_num arrivals))
unfolding recv_icmp_packet
recv_icmp_packet-take e g_pid remote zero arrivals = refl
recv_icmp_packet-take e g_pid remote (suc left) [] = refl
recv_icmp_packet-take e g_pid remote (suc left) (none ∷ arrivals) =
    recv_icmp_packet-take e g_pid remote left arrivals
recv_icmp_packet-take e g_pid remote (suc left) (some (src, []) ∷ arrivals) =
    recv_icmp_packet-take e g_pid remote left arrivals
recv_icmp_packet-take e g_pid remote (suc left) (some (src, b ∷ bs) ∷ arrivals) =
    elim (Bool-cases (src == remote)) [
      | inl own ↦ rw own (
          ap (λ t. unpack_icmp_packet e g_pid (b ∷ bs) (suc (length bs)) ∷ t)
            (recv_icmp_packet-take e g_pid remote left arrivals))
      | inr other ↦ rw other (recv_icmp_packet-take e g_pid remote left arrivals)
    ]
