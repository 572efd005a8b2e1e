-- ===== src/Arp/Tagged.antt =====
-- The frames that `SendArpPack` makes, with and without a VLAN tag, before `IsArpPacket`.
use linux_interface_test.Base.{
  ℕ, ◌+◌, ◌≡◌, refl, arith, ◌==◌, if◌then◌else◌, List, ◌++◌, true, false, Bool-cases, inl, inr,
  length, get_or, get_or-append_right, append_assoc, subst, ap, ◌∙◌, sym, Endian, little, big,
  load16, ntohs, length-append,
}
use linux_interface_test.Arp.{
  bcast_mac_addr, max_arp_pack_len, field16, tci_of, build_arp_eth_hdr, build_arp_hdr, arp_pack,
  is_arp_packet,
}

-- Behind an address of six bytes.
behind_six : (xs ys : List ℕ) (i : ℕ) → length xs ≡ 6 → get_or (xs ++ ys) (6 + i) 0 ≡ get_or ys i 0
behind_six xs ys i h =
    subst (λ n. get_or (xs ++ ys) (n + i) 0 ≡ get_or ys i 0) h (get_or-append_right xs ys i 0)

-- The ethertype at bytes 12 and 13 behind two addresses.
is_arp_packet-ethertype :
    (e : Endian) (mac tail : List ℕ) (w : ℕ)
    → length mac ≡ 6
    → is_arp_packet e (bcast_mac_addr ++ (mac ++ (field16 e w ++ tail))) ≡ (
        load16 e (get_or (field16 e w ++ tail) 0 0) (get_or (field16 e w ++ tail) 1 0)
        == ntohs e 0x0806)
unfolding is_arp_packet
is_arp_packet-ethertype e mac tail w h =
    rw (behind_six mac (field16 e w ++ tail) 0 h, behind_six mac (field16 e w ++ tail) 1 h) refl

tci_of_zero : (vlan_id : ℕ) → (tci_of vlan_id == 0) ≡ (vlan_id == 0)
tci_of_zero vlan_id = ground arith

length-field16 : (e : Endian) (w : ℕ) → length (field16 e w) ≡ 2
length-field16 little w = ground arith
length-field16 big w = ground arith

length-eth_hdr :
    (e : Endian) (src dst : List ℕ) (tci : ℕ)
    → length src ≡ 6
    → length dst ≡ 6
    → length (build_arp_eth_hdr e src dst tci) ≡ (if tci == 0 then 14 else 18)
unfolding build_arp_eth_hdr
length-eth_hdr e src dst tci hs hd = elim (Bool-cases (tci == 0)) [
  | inl z ↦
      rw
        (
          z,
          length-append dst (src ++ field16 e 0x0806),
          length-append src (field16 e 0x0806),
          hs,
          hd,
          length-field16 e 0x0806,
        )
        refl
  | inr n ↦
      rw
        (
          n,
          length-append dst (src ++ (field16 e 0x8100 ++ (field16 e tci ++ field16 e 0x0806))),
          length-append src (field16 e 0x8100 ++ (field16 e tci ++ field16 e 0x0806)),
          length-append (field16 e 0x8100) (field16 e tci ++ field16 e 0x0806),
          length-append (field16 e tci) (field16 e 0x0806),
          hs,
          hd,
          length-field16 e 0x0806,
          length-field16 e tci,
          length-field16 e 0x8100,
        )
        refl
]

length-arp_hdr :
    (e : Endian) (src ip dst : List ℕ)
    → length src ≡ 6
    → length ip ≡ 4
    → length dst ≡ 4
    → length (build_arp_hdr e src ip dst) ≡ 28
unfolding build_arp_hdr
length-arp_hdr e src ip dst hs hi hd = grind (arith, length-append {0}, length-field16)

arp_type :
    (e : Endian) (tail : List ℕ)
    → (load16 e (get_or (field16 e 0x0806 ++ tail) 0 0) (get_or (field16 e 0x0806 ++ tail) 1 0)
        == ntohs e 0x0806)
      ≡ true
arp_type little tail = refl
arp_type big tail = refl

vlan_type :
    (e : Endian) (tail : List ℕ)
    → (load16 e (get_or (field16 e 0x8100 ++ tail) 0 0) (get_or (field16 e 0x8100 ++ tail) 1 0)
        == ntohs e 0x0806)
      ≡ false
vlan_type little tail = refl
vlan_type big tail = refl

untagged_frame :
    (e : Endian) (mac tail : List ℕ)
    → length mac ≡ 6
    → is_arp_packet e (build_arp_eth_hdr e mac bcast_mac_addr 0 ++ tail) ≡ true
unfolding build_arp_eth_hdr
untagged_frame e mac tail h =
    ap (λ (t : List ℕ). is_arp_packet e (bcast_mac_addr ++ t))
      (append_assoc mac (field16 e 0x0806) tail)
    ∙ is_arp_packet-ethertype e mac tail 0x0806 h
    ∙ arp_type e tail

tagged_frame :
    (e : Endian) (mac tail : List ℕ) (tci : ℕ)
    → length mac ≡ 6
    → (tci == 0) ≡ false
    → is_arp_packet e (build_arp_eth_hdr e mac bcast_mac_addr tci ++ tail) ≡ false
unfolding build_arp_eth_hdr
tagged_frame e mac tail tci h nonzero =
    let rest : List ℕ = field16 e tci ++ field16 e 0x0806 in
    rw nonzero (
      ap (λ (t : List ℕ). is_arp_packet e (bcast_mac_addr ++ t))
        (append_assoc mac (field16 e 0x8100 ++ rest) tail
          ∙ ap (λ (t : List ℕ). mac ++ t) (append_assoc (field16 e 0x8100) rest tail))
      ∙ is_arp_packet-ethertype e mac (rest ++ tail) 0x8100 h
      ∙ vlan_type e (rest ++ tail))

-- What `SendArpPack` sends from a device of six address bytes and four of IPv4 address: 42 bytes that
-- `IsArpPacket` takes for ARP when the VLAN id is 0; otherwise 46 bytes, which it does not take for
-- ARP, since the ethertype it looks at is the tag's.
pub is_arp_packet-arp_pack :
    (e : Endian) (mac ip dst : List ℕ) (vlan_id : ℕ)
    → length mac ≡ 6
    → length ip ≡ 4
    → length dst ≡ 4
    → (length (arp_pack e mac ip dst vlan_id) ≡ (if vlan_id == 0 then 42 else max_arp_pack_len))
      × (is_arp_packet e (arp_pack e mac ip dst vlan_id) ≡ (vlan_id == 0))
unfolding arp_pack
is_arp_packet-arp_pack e mac ip dst vlan_id hm hi hd = (
  length-append (build_arp_eth_hdr e mac bcast_mac_addr (tci_of vlan_id)) _
      ∙ rw
          (
            length-eth_hdr e mac bcast_mac_addr (tci_of vlan_id) hm refl,
            length-arp_hdr e mac ip dst hm hi hd,
          )
          (ground (arith, tci_of_zero vlan_id)),
  elim (Bool-cases (vlan_id == 0)) [
    | inl z ↦
        subst
          (λ t.
            is_arp_packet e (build_arp_eth_hdr e mac bcast_mac_addr t ++ build_arp_hdr e mac ip dst)
            ≡ true)
          (ground (arith, z)) (untagged_frame e mac (build_arp_hdr e mac ip dst) hm)
        ∙ sym z
    | inr n ↦
        tagged_frame e mac (build_arp_hdr e mac ip dst) (tci_of vlan_id) hm
          (tci_of_zero vlan_id ∙ n)
        ∙ sym n
  ],
)
