-- ===== src/Checksum/Spec.antt =====
-- The one's complement sum of RFC 1071, independent of how the code folds its carries.
use linux_interface_test.Base.{
  ℕ, ◌+◌, ◌-◌, ◌%◌, ◌<◌, List, [], ◌∷◌, ◌==◌, if◌then◌else◌, Endian, load16,
}
use linux_interface_test.Checksum.{Ipv4}

abbrev pub IsByte : ℕ → Type 0
IsByte b = b < 256

abbrev pub IsBytes : List ℕ → Type 0
IsBytes [] = Unit {0}
IsBytes (b ∷ bs) = IsByte b × IsBytes bs

abbrev pub IsIpv4 : Ipv4 → Type 0
IsIpv4 a = IsByte a.a0 × IsByte a.a1 × IsByte a.a2 × IsByte a.a3

-- The sum of the 16-bit words as a number without bound; an odd last byte is padded with a zero.
unfoldable pub word_sum : Endian → List ℕ → ℕ
word_sum e [] = 0
word_sum e (b ∷ []) = load16 e b 0
word_sum e (b0 ∷ b1 ∷ rest) = load16 e b0 b1 + word_sum e rest

-- A sum brought into one's complement arithmetic: 0 stays 0, any other is taken to 1 … 65535.
abbrev pub ones : ℕ → ℕ
ones s = if s == 0 then 0 else (s - 1) % 65535 + 1

unfoldable pub pseudo_sum : Endian → Ipv4 → Ipv4 → ℕ → ℕ → ℕ
pseudo_sum e src dst proto len =
    load16 e src.a0 src.a1
    + load16 e src.a2 src.a3
    + load16 e dst.a0 dst.a1
    + load16 e dst.a2 dst.a3
    + proto
    + len
