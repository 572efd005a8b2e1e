-- ===== src/Transmit/Names.antt =====
-- The name of the file, from its bytes on the stream to the text that `open` gets.
use linux_interface_test.Base.{
  ℕ, zero, suc, ◌-◌, ◌<◌, ◌≡◌, refl, arith, List, [], ◌∷◌, ◌++◌, Bool, some, length, drop,
  replicate, ap, ◌∙◌, Endian, store32, take-length_append, drop-length_append,
}
use linux_interface_test.Transmit.Receiving.{
  buf_size, recv_data, receive_file, c_string, overlay, tcp_file_transmitter_receiver,
}
use linux_interface_test.Transmit.Rounds.{incoming, recv_len-store32}

-- A name has no zero byte.
abbrev pub AllNonzero : List ℕ → Type 0
AllNonzero [] = Unit {0}
AllNonzero (b ∷ bs) = (0 < b) × AllNonzero bs

pub c_string-append :
    (name rest : List ℕ) → AllNonzero name → c_string (name ++ (0 ∷ rest)) ≡ some name
unfolding c_string
c_string-append [] rest h = refl
c_string-append (b ∷ name) rest (h, hs) = ground (arith, c_string-append name rest hs)

pub drop-replicate : (k n a : ℕ) → drop k (replicate n a) ≡ replicate (n - k) a
drop-replicate zero n a = ap (λ (m : ℕ). replicate m a) (omega arith)
drop-replicate (suc k) zero a =
    let none_left : 0 ≡ 0 - suc k = omega arith in ap (λ (m : ℕ). replicate m a) none_left
drop-replicate (suc k) (suc n) a =
    let same : n - k ≡ suc n - suc k = omega arith in
    drop-replicate k n a ∙ ap (λ (m : ℕ). replicate m a) same

c_string-overlay :
    (n : ℕ) (name : List ℕ)
    → AllNonzero name
    → length name < n
    → c_string (overlay name (replicate n 0)) ≡ some name
c_string-overlay n name h k =
    let (m, eq) : (m : ℕ) × (n - length name ≡ suc m) = (n - length name - 1, omega arith) in
    ap (λ r. c_string (name ++ r))
      (drop-replicate (length name) n 0 ∙ ap (λ (m : ℕ). replicate m 0) eq)
    ∙ c_string-append name (replicate m 0) h

-- The receiver reads the name that the sender has sent.
pub receiver-name :
    (e : Endian) (opens : List ℕ → Bool) (addr_len fuel : ℕ) (name rest : List ℕ)
    → AllNonzero name
    → length name < buf_size
    → tcp_file_transmitter_receiver e opens addr_len fuel
        (store32 e (length name) ++ (name ++ rest))
      ≡ receive_file e
          (opens name)
          name
          fuel
          (incoming (length name) (overlay name (replicate buf_size 0)) rest [])
unfolding tcp_file_transmitter_receiver recv_data
receiver-name e opens addr_len fuel name rest nonzero fits = ground (
  arith,
  recv_len-store32 e addr_len (length name) (replicate buf_size 0) (name ++ rest) [] (omega arith),
  take-length_append name rest,
  drop-length_append name rest,
  c_string-overlay buf_size name nonzero fits,
)
