-- ===== src/Checksum/Steps.antt =====
-- Each step of the loops keeps the one's complement value of the sum.
use linux_interface_test.Base.{ℕ, ◌+◌, ◌^◌, ◌<◌, ◌≤◌, ◌≡◌, arith, Endian, little, big, load16}
use linux_interface_test.Checksum.{fold_carry, add_word}
use linux_interface_test.Checksum.Spec.{IsByte, ones}

pub load16-lt : (e : Endian) (b0 b1 : ℕ) → IsByte b0 → IsByte b1 → load16 e b0 b1 < 65536
load16-lt little b0 b1 h0 h1 = omega arith
load16-lt big b0 b1 h0 h1 = omega arith

pub ones-add : (a b w : ℕ) → ones a ≡ ones b → ones (a + w) ≡ ones (b + w)
ones-add a b w h = ground arith

pub ones-le : (a : ℕ) → ones a ≤ 65535
ones-le a = ground arith

pub ones-fold_carry : (s : ℕ) → s < 2 ^ 32 → ones (fold_carry s) ≡ ones s
unfolding fold_carry
ones-fold_carry s h = ground arith

pub ones-add_word :
    (s w : ℕ)
    → s < 2 ^ 31
    → w < 65536
    → (ones (add_word s w) ≡ ones (s + w)) × (add_word s w < 2 ^ 31)
unfolding add_word fold_carry
ones-add_word s w hs hw = ground arith
