-- ===== src/Arp/Replies.antt =====
-- Which frame `RecvArpPack` takes, against the reply as it stands on the wire.
use linux_interface_test.Base.{
  ℕ, zero, suc, ◌+◌, ◌*◌, ◌≤◌, ◌<◌, ◌≡◌, refl, arith, ◌==◌, ◌&&◌, if◌then◌else◌, List, [], ◌∷◌,
  ◌++◌, Bool, true, false, not, Option, none, some, length, get_or, take, drop, ap, ◌∙◌,
  get_or-append_left, get_or-take, length-take, Endian, little, big, load16, ntohs,
}
use linux_interface_test.Checksum.Spec.{IsBytes, IsByte}
use linux_interface_test.Arp.{
  arpop_reply, max_arp_pack_len, is_arp_packet, same_addr, sender_mac, recv_arp_pack,
}

-- Ethertype 08 06, operation 00 02, and the four bytes of the sender's address.
abbrev pub is_reply : List ℕ → List ℕ → Bool
is_reply ip f =
    (get_or f 12 0 == 8)
    && (get_or f 13 0 == 6)
    && (get_or f 20 0 == 0)
    && (get_or f 21 0 == 2)
    && (get_or ip 0 0 == get_or f 28 0)
    && (get_or ip 1 0 == get_or f 29 0)
    && (get_or ip 2 0 == get_or f 30 0)
    && (get_or ip 3 0 == get_or f 31 0)

-- The first reply among frames, and the frames behind it.
abbrev pub first_reply : List ℕ → List (List ℕ) → Option (List ℕ) × List (List ℕ)
first_reply ip [] = (none, [])
first_reply ip (f ∷ q) = if is_reply ip f then (some (sender_mac f), q) else first_reply ip q

-- Frames long enough for an ARP message.
abbrev pub AllFrames : List (List ℕ) → Type 0
AllFrames [] = Unit {0}
AllFrames (f ∷ q) = (42 ≤ length f) × IsBytes f × AllFrames q

pub get_or-IsByte : (xs : List ℕ) (i : ℕ) → IsBytes xs → IsByte (get_or xs i 0)
get_or-IsByte [] i h = omega arith
get_or-IsByte (x ∷ xs) zero (hx, h) = hx
get_or-IsByte (x ∷ xs) (suc i) (hx, h) = get_or-IsByte xs i h

-- The bytes that are looked at come from the frame.
buffer_byte :
    (f buf : List ℕ) (i : ℕ)
    → 42 ≤ length f
    → i < 42
    → get_or (take max_arp_pack_len f ++ drop (length (take max_arp_pack_len f)) buf) i 0
      ≡ get_or f i 0
buffer_byte f buf i long small =
    get_or-append_left (take max_arp_pack_len f) _ i 0
      (omega (arith, length-take max_arp_pack_len f))
    ∙ get_or-take max_arp_pack_len f i 0 (omega arith)

load16_is :
    (e : Endian) (a b hi lo : ℕ)
    → a < 256
    → b < 256
    → hi < 256
    → lo < 256
    → (load16 e a b == ntohs e (256 * hi + lo)) ≡ ((a == hi) && (b == lo))
load16_is little a b hi lo ha hb hh hl = ground arith
load16_is big a b hi lo ha hb hh hl = ground arith

==_comm : (a b : ℕ) → (a == b) ≡ (b == a)
==_comm a b = ground arith

module _ (e : Endian) (ip f buf : List ℕ) (long : 42 ≤ length f) (bytes : IsBytes f) where
  abbrev seen : List ℕ
  seen = take max_arp_pack_len f ++ drop (length (take max_arp_pack_len f)) buf

  is_arp_seen : is_arp_packet e seen ≡ ((get_or f 12 0 == 8) && (get_or f 13 0 == 6))
  unfolding is_arp_packet
  is_arp_seen =
      rw (buffer_byte f buf 12 long (omega arith), buffer_byte f buf 13 long (omega arith))
        (load16_is e (get_or f 12 0) (get_or f 13 0) 8 6 (get_or-IsByte f 12 bytes)
          (get_or-IsByte f 13 bytes) (omega arith) (omega arith))

  is_answer_seen :
      (ntohs e arpop_reply == load16 e (get_or seen 20 0) (get_or seen 21 0))
      ≡ ((get_or f 20 0 == 0) && (get_or f 21 0 == 2))
  is_answer_seen =
      rw (buffer_byte f buf 20 long (omega arith), buffer_byte f buf 21 long (omega arith))
        (==_comm (ntohs e arpop_reply) _
          ∙ load16_is e (get_or f 20 0) (get_or f 21 0) 0 2 (get_or-IsByte f 20 bytes)
              (get_or-IsByte f 21 bytes) (omega arith) (omega arith))

  same_addr-seen : same_addr ip seen 0 4 ≡ (
      (get_or ip 0 0 == get_or f 28 0)
      && (get_or ip 1 0 == get_or f 29 0)
      && (get_or ip 2 0 == get_or f 30 0)
      && (get_or ip 3 0 == get_or f 31 0))
  unfolding same_addr
  same_addr-seen =
      rw
        (
          buffer_byte f buf 28 long (omega arith),
          buffer_byte f buf 29 long (omega arith),
          buffer_byte f buf 30 long (omega arith),
          buffer_byte f buf 31 long (omega arith),
        )
        (ground arith)

  sender_mac-seen : sender_mac seen ≡ sender_mac f
  sender_mac-seen =
      rw
        (
          buffer_byte f buf 22 long (omega arith),
          buffer_byte f buf 23 long (omega arith),
          buffer_byte f buf 24 long (omega arith),
          buffer_byte f buf 25 long (omega arith),
          buffer_byte f buf 26 long (omega arith),
          buffer_byte f buf 27 long (omega arith),
        )
        refl

eight :
    (a b c d k l m n : Bool)
    → (a && b && c && d && k && l && m && n) ≡ ((a && b) && ((c && d) && (k && l && m && n)))
eight true true c d k l m n = ground arith
eight true false c d k l m n = refl
eight false b c d k l m n = refl

pick :
    {A : Type 0}
    → (a c s a' c' s' : Bool) (r r' x x' : A) → a ≡ a'
    → c ≡ c'
    → s ≡ s'
    → r ≡ r'
    → x ≡ x'
    → (if not a then r else if c && s then x else r) ≡ (if a' && (c' && s') then x' else r')
pick true true true a' c' s' r r' x x' ea ec es er ex = ground arith
pick true true false a' c' s' r r' x x' ea ec es er ex = ground arith
pick true false s a' c' s' r r' x x' ea ec es er ex = ground arith
pick false c s a' c' s' r r' x x' ea ec es er ex = ground arith

-- On frames of at least 42 bytes `RecvArpPack` returns the hardware address of the first reply from
-- the address that is looked for, on a host of either byte order and whatever its buffer held; the
-- frames behind it go on waiting. Without such a reply all frames are read and it fails.
pub recv_arp_pack-first_reply :
    (e : Endian) (ip buf : List ℕ) (q : List (List ℕ))
    → AllFrames q
    → recv_arp_pack e ip buf q ≡ first_reply ip q
unfolding recv_arp_pack
recv_arp_pack-first_reply e ip buf [] all = refl
recv_arp_pack-first_reply e ip buf ([] ∷ q) all = absurd (omega (arith, all.0))
recv_arp_pack-first_reply e ip buf ((b ∷ bs) ∷ q) (long, bytes, all) =
    rw (eight (get_or (b ∷ bs) 12 0 == 8) _ _ _ _ _ _ _) (
      pick _ _ _ _ _ _ _ _ _ _ (is_arp_seen e ip (b ∷ bs) buf long bytes)
        (is_answer_seen e ip (b ∷ bs) buf long bytes) (same_addr-seen e ip (b ∷ bs) buf long bytes)
        (recv_arp_pack-first_reply e ip (seen e ip (b ∷ bs) buf long bytes) q all)
        (ap (λ (m : List ℕ). (some m, q)) (sender_mac-seen e ip (b ∷ bs) buf long bytes)))
