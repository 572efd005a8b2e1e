-- ===== src/Base/Word.antt =====
-- Casts to the fixed widths, and the order in which the host stores the bytes of a word.
use Prim.Native.Nat.{ℕ, ◌+◌, ◌*◌, ◌/◌, ◌%◌, ◌^◌}
use mathlib.Core.List.{List, [], ◌∷◌}

abbrev pub u8 : ℕ → ℕ
u8 n = n % 2 ^ 8

abbrev pub u16 : ℕ → ℕ
u16 n = n % 2 ^ 16

abbrev pub u32 : ℕ → ℕ
u32 n = n % 2 ^ 32

abbrev pub u64 : ℕ → ℕ
u64 n = n % 2 ^ 64

-- The programs run on x86 (little) and on mips and powerpc boards (big).
pub data Endian : Type 0 where
  little big : Endian

-- `*(uint16_t*)p`, with the bytes in the order of their addresses
abbrev pub load16 : Endian → ℕ → ℕ → ℕ
load16 little b0 b1 = b0 + 256 * b1
load16 big b0 b1 = 256 * b0 + b1

abbrev pub store16 : Endian → ℕ → List ℕ
store16 little w = w % 256 ∷ w / 256 % 256 ∷ []
store16 big w = w / 256 % 256 ∷ w % 256 ∷ []

abbrev pub load32 : Endian → ℕ → ℕ → ℕ → ℕ → ℕ
load32 little b0 b1 b2 b3 = b0 + 256 * b1 + 65536 * b2 + 16777216 * b3
load32 big b0 b1 b2 b3 = 16777216 * b0 + 65536 * b1 + 256 * b2 + b3

abbrev pub store32 : Endian → ℕ → List ℕ
store32 little w = w % 256 ∷ w / 256 % 256 ∷ w / 65536 % 256 ∷ w / 16777216 % 256 ∷ []
store32 big w = w / 16777216 % 256 ∷ w / 65536 % 256 ∷ w / 256 % 256 ∷ w % 256 ∷ []

-- `htons` and `ntohs`: the same swap, or nothing on a big-endian host
abbrev pub ntohs : Endian → ℕ → ℕ
ntohs little w = w % 256 * 256 + w / 256 % 256
ntohs big w = w % 65536

-- `htonl` and `ntohl`
abbrev pub ntohl : Endian → ℕ → ℕ
ntohl little w =
    w % 256 * 16777216 + w / 256 % 256 * 65536 + w / 65536 % 256 * 256 + w / 16777216 % 256
ntohl big w = w % 2 ^ 32
