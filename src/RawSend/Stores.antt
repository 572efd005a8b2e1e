-- ===== src/RawSend/Stores.antt =====
-- The stores of `SendUdpPacketLoops`, each of which replaces one part of the packet.
use linux_interface_test.Base.{
  length-store16, length-store32, ℕ, zero, suc, ◌+◌, ◌-◌, ◌≡◌, ◌≤◌, refl, ap, ◌∙◌, append-nil, sym,
  arith, u16, false, some, List, [], ◌++◌, length, take, drop, take-drop, length-take, length-drop,
  write_bytes, write_bytes-splice, write_bytes-under, Endian, little, big, store16, store32, ntohl,
}
use linux_interface_test.Checksum.{Ipv4}
use linux_interface_test.RawDump.Packet.{Mac}
use linux_interface_test.RawSend.{build_eth_hdr, build_ipv4_hdr, build_udp_hdr}
use linux_interface_test.RawSend.Loops.{Link, padding, set_header, fill_round}

length-eth_hdr : (e : Endian) (src dst : Mac) → length (build_eth_hdr e src dst false).0 ≡ 14
unfolding build_eth_hdr
length-eth_hdr little src dst = refl
length-eth_hdr big src dst = refl

pub length-ipv4_hdr :
    (e : Endian) (ip_id : ℕ) (src dst : Ipv4) (n : ℕ)
    → length (build_ipv4_hdr e ip_id src dst n).0 ≡ 20
unfolding build_ipv4_hdr
length-ipv4_hdr little ip_id src dst n = refl
length-ipv4_hdr big ip_id src dst n = refl

pub length-udp_hdr : (e : Endian) (sp dp n : ℕ) → length (build_udp_hdr e sp dp n) ≡ 8
unfolding build_udp_hdr
length-udp_hdr little sp dp n = refl
length-udp_hdr big sp dp n = refl

pub length-padding : (idx left : ℕ) → length (padding idx left) ≡ left
unfolding padding
length-padding idx zero = refl
length-padding idx (suc left) = ap suc (length-padding (idx + 1) left)

-- The six parts of a packet.
abbrev pub laid : List ℕ → List ℕ → List ℕ → List ℕ → List ℕ → List ℕ → List ℕ
laid eth ip udp t s pad = eth ++ (ip ++ (udp ++ (t ++ (s ++ pad))))

pub record HasLengths (eth ip udp t s : List ℕ) : Type 0 where
  pub eth_14 : length eth ≡ 14
  pub ip_20 : length ip ≡ 20
  pub udp_8 : length udp ≡ 8
  pub t_2 : length t ≡ 2
  pub s_4 : length s ≡ 4

-- Each store replaces one part.
module _ (eth ip udp t s pad new : List ℕ) (h : HasLengths eth ip udp t s) where
  store_eth :
      length new ≡ 14 → write_bytes (laid eth ip udp t s pad) 0 new ≡ some (laid new ip udp t s pad)
  store_eth len = write_bytes-splice [] eth new _ (h.eth_14 ∙ sym len)

  store_ip :
      length new ≡ 20
      → write_bytes (laid eth ip udp t s pad) 14 new ≡ some (laid eth new udp t s pad)
  store_ip len =
      write_bytes-under eth _ _ new 0 14 (omega (arith, h.eth_14))
        (write_bytes-splice [] ip new _ (h.ip_20 ∙ sym len))

  store_udp :
      length new ≡ 8 → write_bytes (laid eth ip udp t s pad) 34 new ≡ some (laid eth ip new t s pad)
  store_udp len = write_bytes-under eth _ _ new 20 34 (omega (arith, h.eth_14)) (
      write_bytes-under ip _ _ new 0 20 (omega (arith, h.ip_20))
        (write_bytes-splice [] udp new _ (h.udp_8 ∙ sym len)))

  store_t :
      length new ≡ 2
      → write_bytes (laid eth ip udp t s pad) 42 new ≡ some (laid eth ip udp new s pad)
  store_t len = write_bytes-under eth _ _ new 28 42 (omega (arith, h.eth_14)) (
      write_bytes-under ip _ _ new 8 28 (omega (arith, h.ip_20)) (
        write_bytes-under udp _ _ new 0 8 (omega (arith, h.udp_8))
          (write_bytes-splice [] t new _ (h.t_2 ∙ sym len))))

  store_s :
      length new ≡ 4
      → write_bytes (laid eth ip udp t s pad) 44 new ≡ some (laid eth ip udp t new pad)
  store_s len = write_bytes-under eth _ _ new 30 44 (omega (arith, h.eth_14)) (
      write_bytes-under ip _ _ new 10 30 (omega (arith, h.ip_20)) (
        write_bytes-under udp _ _ new 2 10 (omega (arith, h.udp_8)) (
          write_bytes-under t _ _ new 0 2 (omega (arith, h.t_2))
            (write_bytes-splice [] s new _ (h.s_4 ∙ sym len)))))

  store_pad :
      length new ≡ length pad
      → write_bytes (laid eth ip udp t s pad) 48 new ≡ some (laid eth ip udp t s new)
  store_pad len = write_bytes-under eth _ _ new 34 48 (omega (arith, h.eth_14)) (
      write_bytes-under ip _ _ new 14 34 (omega (arith, h.ip_20)) (
        write_bytes-under udp _ _ new 6 14 (omega (arith, h.udp_8)) (
          write_bytes-under t _ _ new 4 6 (omega (arith, h.t_2)) (
            write_bytes-under s _ _ new 0 4 (omega (arith, h.s_4)) (
              ap (λ l. write_bytes l 0 new) (sym (append-nil pad))
              ∙ write_bytes-splice [] pad new [] (sym len)
              ∙ ap some (append-nil new))))))

-- The packet of a number.
abbrev pub packet_of : Endian → Link → ℕ → ℕ → ℕ → ℕ → List ℕ
packet_of e l tid n sno ip_id =
    laid (build_eth_hdr e l.local_mac l.remot_mac false).0
      (build_ipv4_hdr e ip_id l.local_ip l.remot_ip (u16 (n + 8))).0
      (build_udp_hdr e l.local_port l.remot_port (u16 n)) (store16 e tid) (store32 e (ntohl e sno))
      (padding 0 (n - 6))

pub fill_round_lem :
    (e : Endian) (l : Link) (tid n sno ip_id : ℕ) (ip udp s : List ℕ)
    → length ip ≡ 20
    → length udp ≡ 8
    → length s ≡ 4
    → fill_round e l n sno ip_id (
        laid
          (build_eth_hdr e l.local_mac l.remot_mac false).0
          ip
          udp
          (store16 e tid)
          s
          (padding 0 (n - 6)))
      ≡ some (
        packet_of e l tid n sno ip_id,
        (build_ipv4_hdr e ip_id l.local_ip l.remot_ip (u16 (n + 8))).1,
      )
unfolding fill_round
fill_round_lem e l tid n sno ip_id ip udp s ip_20 udp_8 s_4 =
    let eth = (build_eth_hdr e l.local_mac l.remot_mac false).0 in
    let ip' = (build_ipv4_hdr e ip_id l.local_ip l.remot_ip (u16 (n + 8))).0 in
    let udp' = build_udp_hdr e l.local_port l.remot_port (u16 n) in
    let t = store16 e tid in
    let s' = store32 e (ntohl e sno) in
    let pad = padding 0 (n - 6) in
    let eth_14 = length-eth_hdr e l.local_mac l.remot_mac in
    let t_2 = length-store16 e tid in
    let s'_4 = length-store32 e (ntohl e sno) in
    let ip'_20 = length-ipv4_hdr e ip_id l.local_ip l.remot_ip (u16 (n + 8)) in
    let first =
      store_s eth ip udp t s pad s'
        (record { eth_14 = eth_14; ip_20 = ip_20; udp_8 = udp_8; t_2 = t_2; s_4 = s_4 }) s'_4 in
    let second =
      store_ip eth ip udp t s' pad ip'
        (record { eth_14 = eth_14; ip_20 = ip_20; udp_8 = udp_8; t_2 = t_2; s_4 = s'_4 }) ip'_20 in
    let third =
      store_udp eth ip' udp t s' pad udp'
        (record { eth_14 = eth_14; ip_20 = ip'_20; udp_8 = udp_8; t_2 = t_2; s_4 = s'_4 })
        (length-udp_hdr e l.local_port l.remot_port (u16 n)) in
    rw (first, second, third) refl

-- A block cut into the six parts.
pub record Parts (block : List ℕ) (n : ℕ) : Type 0 where
  pub eth : List ℕ
  pub ip : List ℕ
  pub udp : List ℕ
  pub t : List ℕ
  pub s : List ℕ
  pub pad : List ℕ
  pub lengths : HasLengths eth ip udp t s
  pub length_pad : length pad ≡ n - 6
  pub whole : laid eth ip udp t s pad ≡ block

first_of : (k : ℕ) (xs : List ℕ) → k ≤ length xs → length (take k xs) ≡ k
first_of k xs h = omega (arith, length-take k xs)

rest_of : (k m : ℕ) (xs : List ℕ) → length xs ≡ k + m → length (drop k xs) ≡ m
rest_of k m xs h = omega (arith, length-drop k xs)

pub parts : (block : List ℕ) (n : ℕ) → length block ≡ 42 + n → 6 ≤ n → Parts block n
parts block n len six =
    let b1 = drop 14 block in
    let b2 = drop 20 b1 in
    let b3 = drop 8 b2 in
    let b4 = drop 2 b3 in
    let l1 = rest_of 14 (28 + n) block (omega (arith, len)) in
    let l2 = rest_of 20 (8 + n) b1 (omega (arith, l1)) in
    let l3 = rest_of 8 n b2 (omega (arith, l2)) in
    let l4 = rest_of 2 (n - 2) b3 (omega (arith, l3)) in
    record {
      eth = take 14 block;
      ip = take 20 b1;
      udp = take 8 b2;
      t = take 2 b3;
      s = take 4 b4;
      pad = drop 4 b4;
      lengths = record {
        eth_14 = first_of 14 block (omega (arith, len));
        ip_20 = first_of 20 b1 (omega (arith, l1));
        udp_8 = first_of 8 b2 (omega (arith, l2));
        t_2 = first_of 2 b3 (omega (arith, l3));
        s_4 = first_of 4 b4 (omega (arith, l4));
      };
      length_pad = rest_of 4 (n - 6) b4 (omega (arith, l4));
      whole =
          ap (λ x. take 14 block ++ (take 20 b1 ++ (take 8 b2 ++ (take 2 b3 ++ x))))
            (take-drop 4 b4)
          ∙ ap (λ x. take 14 block ++ (take 20 b1 ++ (take 8 b2 ++ x))) (take-drop 2 b3)
          ∙ ap (λ x. take 14 block ++ (take 20 b1 ++ x)) (take-drop 8 b2)
          ∙ ap (λ x. take 14 block ++ x) (take-drop 20 b1)
          ∙ take-drop 14 block;
    }

pub set_header_lem :
    (e : Endian) (l : Link) (tid n : ℕ) (block : List ℕ) (p : Parts block n)
    → set_header e l tid n block
      ≡ some (
          laid
            (build_eth_hdr e l.local_mac l.remot_mac false).0
            p.ip
            p.udp
            (store16 e tid)
            p.s
            (padding 0 (n - 6)))
unfolding set_header
set_header_lem e l tid n block p =
    let pad = padding 0 (n - 6) in
    let h = p.lengths in
    let first =
      store_pad p.eth p.ip p.udp p.t p.s p.pad pad h
        (length-padding 0 (n - 6) ∙ sym p.length_pad) in
    let second = store_t p.eth p.ip p.udp p.t p.s pad (store16 e tid) h (length-store16 e tid) in
    let third =
      store_eth p.eth p.ip p.udp (store16 e tid) p.s pad
        (build_eth_hdr e l.local_mac l.remot_mac false).0
        (record {
          eth_14 = h.eth_14;
          ip_20 = h.ip_20;
          udp_8 = h.udp_8;
          t_2 = length-store16 e tid;
          s_4 = h.s_4;
        })
        (length-eth_hdr e l.local_mac l.remot_mac) in
    rw (sym p.whole, first, second, third) refl
