-- ===== src/UdpOrder/Start.antt =====
-- What the start of the programs reaches: the exit in the middle of `InitInetSocket`, the processor
-- that is left bound, the content of the send buffer.
use linux_interface_test.Base.{
  ℕ, zero, suc, ◌/◌, ◌%◌, ◌^◌, ◌<◌, ◌≡◌, ◌⊎◌, inl, inr, refl, arith, ltb, List, [], ◌∷◌, Bool, true,
  Bool-cases, ap, ◌∙◌, ℤ, negsuc,
}
use native.Mathlib.Nat.{pow-suc}
use linux_interface_test.UdpOrder.SendBuf.{returns, exits}
use linux_interface_test.UdpOrder.Setup.{set_cpu, bind_cpus, init_inet_socket}

init_inet_socket-cases :
    (socket_ret setsockopt_ret : ℤ)
    → (init_inet_socket socket_ret setsockopt_ret ≡ returns (negsuc 0))
      ⊎ (init_inet_socket socket_ret setsockopt_ret ≡ exits)
unfolding init_inet_socket
init_inet_socket-cases a b = ground arith

-- The first decimal digit of a number.
pub data Leading : ℕ → ℕ → Type 0 where
  digit : (d : ℕ) → 0 < d → d < 10 → Leading d d
  longer : (n d : ℕ) → Leading (n / 10) d → Leading n d

bind_cpus-zero :
    (online : ℕ → Bool) (fuel : ℕ) (mask : List ℕ) → bind_cpus online fuel 0 mask ≡ mask
unfolding bind_cpus
bind_cpus-zero online zero mask = refl
bind_cpus-zero online (suc fuel) mask = refl

bind_cpus-step :
    (online : ℕ → Bool) (fuel n : ℕ) (mask : List ℕ)
    → 0 < n
    → bind_cpus online (suc fuel) n mask
      ≡ bind_cpus online fuel (n / 10) (set_cpu online (n % 10) mask)
unfolding bind_cpus
bind_cpus-step online fuel n mask h = ground arith

-- `SetCpu` replaces the mask, so after the loop over the digits of the argument the process is bound
-- to the one processor that its first digit names, not to all of them.
pub bind_cpus-Leading :
    (online : ℕ → Bool) (fuel n : ℕ) (mask : List ℕ)
    → ((d : ℕ) → online d ≡ true)
    → 0 < n
    → n < 10 ^ fuel
    → (d : ℕ) × Leading n d × (bind_cpus online fuel n mask ≡ d ∷ [])
bind_cpus-Leading online zero n mask all positive small = absurd (omega arith)
bind_cpus-Leading online (suc fuel) n mask all positive small = elim (Bool-cases (ltb n 10)) [
  | inl last ↦ (
    n,
    digit n positive (ground arith),
    bind_cpus-step online fuel n mask positive
        ∙ ap (λ (m : ℕ). bind_cpus online fuel m (set_cpu online (n % 10) mask)) (ground arith)
        ∙ bind_cpus-zero online fuel _
        ∙ set_one n (ground arith),
  )
  | inr more ↦
      let (d, leading, bound) =
        bind_cpus-Leading online fuel (n / 10) (set_cpu online (n % 10) mask) all (ground arith)
          (omega (arith, pow-suc 10 fuel)) in
      (d, longer n d leading, bind_cpus-step online fuel n mask positive ∙ bound)
]
  where
    set_one : (n : ℕ) → n < 10 → set_cpu online (n % 10) mask ≡ n ∷ []
    set_one n h = unfold set_cpu in ground (arith, all (n % 10))
