-- ===== src/Arp/Rounds.antt =====
-- The ten rounds of `GetMacAddrFromArp`: when an address is found, and whose it is.
use linux_interface_test.Base.{
  ℕ, zero, suc, ◌+◌, ◌<◌, ◌≡◌, refl, arith, if◌then◌else◌, List, [], ◌∷◌, ◌++◌, Bool, true, false,
  Bool-cases, Option-cases, inl, inr, ◌⊎◌, Option, none, some, ap, ◌∙◌, sym, append_assoc, subst,
  Endian,
}
use linux_interface_test.Arp.{
  Round, send_arp_pack, recv_arp_pack, request_loop, get_mac_addr_from_arp, sender_mac,
  max_arp_request_times,
}
use linux_interface_test.Arp.Replies.{AllFrames, first_reply, is_reply, recv_arp_pack-first_reply}

abbrev pub is_some : {A : Type 0} → Option A → Bool
is_some none = false
is_some (some x) = true

unfoldable pub has_reply : List ℕ → List (List ℕ) → Bool
has_reply ip [] = false
has_reply ip (f ∷ q) = if is_reply ip f then true else has_reply ip q

-- The frames of the rounds from `loops` to `loops + d`.
unfoldable pub arrived : (ℕ → Round) → ℕ → ℕ → List (List ℕ)
arrived rounds loops zero = (rounds loops).arrivals
arrived rounds loops (suc d) = (rounds loops).arrivals ++ arrived rounds (loops + 1) d

-- `f` is one of the frames.
abbrev pub Among : List ℕ → List (List ℕ) → Type 0
Among f [] = ⊥
Among f (g ∷ q) = (f ≡ g) ⊎ Among f q

Among-append_left : (f : List ℕ) (q r : List (List ℕ)) → Among f q → Among f (q ++ r)
Among-append_left f [] r h = elim h [ ]
Among-append_left f (g ∷ q) r (inl e) = inl e
Among-append_left f (g ∷ q) r (inr h) = inr (Among-append_left f q r h)

Among-append_right : (f : List ℕ) (q r : List (List ℕ)) → Among f r → Among f (q ++ r)
Among-append_right f [] r h = h
Among-append_right f (g ∷ q) r h = inr (Among-append_right f q r h)

Among-append_mono :
    (f : List ℕ) (q q' r : List (List ℕ))
    → (Among f q → Among f q')
    → Among f (q ++ r)
    → Among f (q' ++ r)
Among-append_mono f [] q' r h a = Among-append_right f q' r a
Among-append_mono f (g ∷ q) q' r h (inl e) = Among-append_left f q' r (h (inl e))
Among-append_mono f (g ∷ q) q' r h (inr a) = Among-append_mono f q q' r (λ b. h (inr b)) a

AllFrames-append : (q r : List (List ℕ)) → AllFrames q → AllFrames r → AllFrames (q ++ r)
AllFrames-append [] r hq hr = hr
AllFrames-append (f ∷ q) r (long, bytes, hq) hr = (long, bytes, AllFrames-append q r hq hr)

has_reply-append :
    (ip : List ℕ) (q r : List (List ℕ))
    → has_reply ip (q ++ r) ≡ (if has_reply ip q then true else has_reply ip r)
unfolding has_reply
has_reply-append ip [] r = refl
has_reply-append ip (f ∷ q) r = ground (arith, has_reply-append ip q r)

-- Without a reply all frames are read.
no_reply :
    (ip : List ℕ) (q : List (List ℕ))
    → (first_reply ip q).0 ≡ none
    → ((first_reply ip q).1 ≡ []) × (has_reply ip q ≡ false)
unfolding has_reply
no_reply ip [] e = (refl, refl)
no_reply ip (f ∷ q) e = ground (arith, no_reply ip q)

first_reply-source :
    (ip : List ℕ) (q : List (List ℕ)) (mac : List ℕ)
    → (first_reply ip q).0 ≡ some mac
    → (f : List ℕ) × Among f q × (is_reply ip f ≡ true) × (sender_mac f ≡ mac)
first_reply-source ip [] mac e = ground (arith, e)
first_reply-source ip (f ∷ q) mac e = elim (Bool-cases (is_reply ip f)) [
  | inl h ↦ (f, inl refl, h, ground (arith, h, e))
  | inr h ↦
      let (g, among, reply, same) = first_reply-source ip q mac (ground (arith, h, e)) in
      (g, inr among, reply, same)
]

first_reply_hit :
    (ip g : List ℕ) (q : List (List ℕ))
    → is_reply ip g ≡ true
    → first_reply ip (g ∷ q) ≡ (some (sender_mac g), q)
first_reply_hit ip g q e = ground (arith, e)

first_reply_miss :
    (ip g : List ℕ) (q : List (List ℕ))
    → is_reply ip g ≡ false
    → first_reply ip (g ∷ q) ≡ first_reply ip q
first_reply_miss ip g q e = ground (arith, e)

first_reply-waits :
    (ip : List ℕ) (q : List (List ℕ)) (f : List ℕ) → Among f (first_reply ip q).1 → Among f q
first_reply-waits ip [] f h = h
first_reply-waits ip (g ∷ q) f h = elim (Bool-cases (is_reply ip g)) [
  | inl e ↦
      inr
        (subst (λ (r : Option (List ℕ) × List (List ℕ)). Among f r.1) (first_reply_hit ip g q e) h)
  | inr e ↦ inr (
      first_reply-waits ip q f (
        subst (λ (r : Option (List ℕ) × List (List ℕ)). Among f r.1) (first_reply_miss ip g q e) h))
]

first_reply-AllFrames :
    (ip : List ℕ) (q : List (List ℕ)) → AllFrames q → AllFrames (first_reply ip q).1
first_reply-AllFrames ip [] h = h
first_reply-AllFrames ip (g ∷ q) (long, bytes, h) = elim (Bool-cases (is_reply ip g)) [
  | inl e ↦
      subst (λ (r : Option (List ℕ) × List (List ℕ)). AllFrames r.1)
        (sym (first_reply_hit ip g q e)) h
  | inr e ↦
      subst (λ (r : Option (List ℕ) × List (List ℕ)). AllFrames r.1)
        (sym (first_reply_miss ip g q e)) (first_reply-AllFrames ip q h)
]

module _ (e : Endian) (mac ip dst : List ℕ) (vlan_id : ℕ) (rounds : ℕ → Round) where
  -- A round in which the request was sent in full.
  abbrev pub SentIn : ℕ → Type 0
  SentIn k = send_arp_pack e mac ip dst vlan_id ((rounds k).send_len) ≡ true

  abbrev pub loop_at : ℕ → ℕ → List (List ℕ) → Option (List ℕ)
  loop_at loops left q = request_loop e mac ip dst vlan_id rounds loops left q

  abbrev found_at : ℕ → List (List ℕ) → Option (List ℕ) × List (List ℕ)
  found_at loops q = recv_arp_pack e dst ((rounds loops).stack) (q ++ (rounds loops).arrivals)

  loop_unsent :
      (loops left : ℕ) (q : List (List ℕ))
      → send_arp_pack e mac ip dst vlan_id ((rounds loops).send_len) ≡ false
      → loop_at loops (suc left) q ≡ loop_at (loops + 1) left (q ++ (rounds loops).arrivals)
  unfolding request_loop
  loop_unsent loops left q h = rw (request_loop, h) refl

  loop_none :
      (loops left : ℕ) (q : List (List ℕ))
      → SentIn loops
      → (found_at loops q).0 ≡ none
      → loop_at loops (suc left) q ≡ loop_at (loops + 1) left (found_at loops q).1
  unfolding request_loop
  loop_none loops left q h found = rw (request_loop, h, found) refl

  loop_some :
      (loops left : ℕ) (q : List (List ℕ)) (addr : List ℕ)
      → SentIn loops
      → (found_at loops q).0 ≡ some addr
      → loop_at loops (suc left) q ≡ (
          if (rounds loops).system_ok
          then some addr
          else loop_at (loops + 1) left (found_at loops q).1)
  unfolding request_loop
  loop_some loops left q addr h found = rw (request_loop, h, found) (ground arith)

  module _ (frames : (k : ℕ) → AllFrames ((rounds k).arrivals)) where
    waiting-AllFrames :
        (loops : ℕ) (q : List (List ℕ)) → AllFrames q → AllFrames (q ++ (rounds loops).arrivals)
    waiting-AllFrames loops q all = AllFrames-append q _ all (frames loops)

    found_at-first :
        (loops : ℕ) (q : List (List ℕ))
        → AllFrames q
        → found_at loops q ≡ first_reply dst (q ++ (rounds loops).arrivals)
    found_at-first loops q all = recv_arp_pack-first_reply e dst _ _ (waiting-AllFrames loops q all)

    found_at-AllFrames :
        (loops : ℕ) (q : List (List ℕ)) → AllFrames q → AllFrames (found_at loops q).1
    found_at-AllFrames loops q all =
        rw (found_at-first loops q all)
          (first_reply-AllFrames dst _ (waiting-AllFrames loops q all))

    -- What waits and what is still to come.
    abbrev pub pending : ℕ → ℕ → List (List ℕ) → List (List ℕ)
    pending loops d q = q ++ arrived rounds loops d

    pending_next :
        (loops d : ℕ) (q : List (List ℕ))
        → pending loops (suc d) q ≡ pending (loops + 1) d (q ++ (rounds loops).arrivals)
    unfolding arrived
    pending_next loops d q = sym (append_assoc q _ _)

    no_reply_now :
        (loops d : ℕ) (q : List (List ℕ))
        → AllFrames q
        → has_reply dst (pending loops (suc d) q) ≡ true
        → (found_at loops q).0 ≡ none
        → has_reply dst (pending (loops + 1) d (found_at loops q).1) ≡ true
    no_reply_now loops d q all has none_found =
        let W : List (List ℕ) = q ++ (rounds loops).arrivals in
        let both = no_reply dst W (
          sym (ap (λ (r : Option (List ℕ) × List (List ℕ)). r.0) (found_at-first loops q all))
          ∙ none_found) in
        rw (found_at-first loops q all, both.0)
          (ground (
            arith,
            has,
            both.1,
            ap (has_reply dst) (pending_next loops d q),
            has_reply-append dst W (arrived rounds (loops + 1) d),
          ))

    loop_answers_now :
        (loops left : ℕ) (q : List (List ℕ)) (addr : List ℕ)
        → SentIn loops
        → ((k : ℕ) → (rounds k).system_ok ≡ true)
        → (found_at loops q).0 ≡ some addr
        → is_some (loop_at loops (suc left) q) ≡ true
    loop_answers_now loops left q addr sent ok found =
        rw (loop_some loops left q addr sent found, ok loops) refl

    answers :
        (left d loops : ℕ) (q : List (List ℕ))
        → AllFrames q
        → d < left
        → SentIn (loops + d)
        → ((k : ℕ) → (rounds k).system_ok ≡ true)
        → has_reply dst (pending loops d q) ≡ true
        → is_some (loop_at loops left q) ≡ true
    unfolding arrived
    answers zero d loops q all d<left sent ok has = absurd (omega arith)
    answers (suc left) zero loops q all d<left sent ok has =
        let sent' : SentIn loops = subst SentIn (omega arith) sent in
        elim (Option-cases (found_at loops q).0) [
          | inl e ↦
              let both = no_reply dst (q ++ (rounds loops).arrivals) (
                sym (ap (λ (r : Option (List ℕ) × List (List ℕ)). r.0) (found_at-first loops q all))
                ∙ e) in
              absurd (ground (arith, has, both.1))
          | inr (addr, e) ↦ loop_answers_now loops left q addr sent' ok e
        ]
    answers (suc left) (suc d) loops q all d<left sent ok has =
        let later : SentIn (loops + 1 + d) = subst SentIn (omega arith) sent in
        elim (Bool-cases (send_arp_pack e mac ip dst vlan_id ((rounds loops).send_len))) [
          | inr unsent ↦ rw (loop_unsent loops left q unsent) (
              answers left d (loops + 1) (q ++ (rounds loops).arrivals)
                (waiting-AllFrames loops q all) (omega arith) later ok
                (sym (ap (has_reply dst) (pending_next loops d q)) ∙ has))
          | inl sent' ↦ elim (Option-cases (found_at loops q).0) [
            | inl e ↦ rw (loop_none loops left q sent' e) (
                answers left d (loops + 1) (found_at loops q).1 (found_at-AllFrames loops q all)
                  (omega arith) later ok (no_reply_now loops d q all has e))
            | inr (addr, e) ↦ loop_answers_now loops left q addr sent' ok e
          ]
        ]

    -- A reply with the address, and a round of the `left` from `loops` on in which it had come.
    abbrev pub Source : ℕ → ℕ → List (List ℕ) → List ℕ → Type 0
    Source left loops q addr =
        (d : ℕ) × (d < left)
        × (f : List ℕ) × Among f (pending loops d q)
        × (is_reply dst f ≡ true)
        × (sender_mac f ≡ addr)

    Source-waits :
        (left loops : ℕ) (q q' : List (List ℕ)) (addr : List ℕ)
        → ((f : List ℕ) → Among f q' → Among f (q ++ (rounds loops).arrivals))
        → Source left (loops + 1) q' addr
        → Source (suc left) loops q addr
    Source-waits left loops q q' addr mono (d, d<left, f, among, reply, same) = (
      suc d,
      omega arith,
      f,
      subst (Among f) (sym (pending_next loops d q)) (Among-append_mono f q' _ _ (mono f) among),
      reply,
      same,
    )

    found_at-waits :
        (loops : ℕ) (q : List (List ℕ))
        → AllFrames q
        → (f : List ℕ) → Among f (found_at loops q).1
        → Among f (q ++ (rounds loops).arrivals)
    found_at-waits loops q all f h = first_reply-waits dst _ f (
        subst (λ (r : Option (List ℕ) × List (List ℕ)). Among f r.1) (found_at-first loops q all) h)

    Source-now :
        (left loops : ℕ) (q : List (List ℕ)) (addr : List ℕ)
        → AllFrames q
        → (found_at loops q).0 ≡ some addr
        → Source (suc left) loops q addr
    unfolding arrived
    Source-now left loops q addr all e =
        let (f, among, reply, same) = first_reply-source dst (q ++ (rounds loops).arrivals) addr (
          sym (ap (λ (r : Option (List ℕ) × List (List ℕ)). r.0) (found_at-first loops q all))
          ∙ e) in
        (0, omega arith, f, among, reply, same)

    found_is_it :
        (loops left : ℕ) (q : List (List ℕ)) (a addr : List ℕ)
        → SentIn loops
        → (found_at loops q).0 ≡ some a
        → (rounds loops).system_ok ≡ true
        → loop_at loops (suc left) q ≡ some addr
        → some a ≡ some addr
    found_is_it loops left q a addr sent found ok got =
        sym (rw (loop_some loops left q a sent found, ok) refl) ∙ got

    source :
        (left loops : ℕ) (q : List (List ℕ)) (addr : List ℕ)
        → AllFrames q
        → loop_at loops left q ≡ some addr
        → Source left loops q addr
    unfolding request_loop
    source zero loops q addr all got = absurd (ground (arith, got))
    source (suc left) loops q addr all got =
        let behind = λ (eq : loop_at (loops + 1) left (found_at loops q).1 ≡ some addr).
          Source-waits left loops q (found_at loops q).1 addr (found_at-waits loops q all) (
            source left (loops + 1) (found_at loops q).1 addr (found_at-AllFrames loops q all)
              eq) in
        elim (Bool-cases (send_arp_pack e mac ip dst vlan_id ((rounds loops).send_len))) [
          | inr unsent ↦
              Source-waits left loops q (q ++ (rounds loops).arrivals) addr (λ f h. h)
                (source left (loops + 1) (q ++ (rounds loops).arrivals) addr
                  (waiting-AllFrames loops q all) (sym (loop_unsent loops left q unsent) ∙ got))
          | inl sent ↦ elim (Option-cases (found_at loops q).0) [
            | inl none_found ↦ behind (sym (loop_none loops left q sent none_found) ∙ got)
            | inr (a, found) ↦ elim (Bool-cases (rounds loops).system_ok) [
              | inl ok ↦
                  Source-now left loops q addr all
                    (found ∙ found_is_it loops left q a addr sent found ok got)
              | inr not_ok ↦
                  behind (sym (rw (loop_some loops left q a sent found, not_ok) refl) ∙ got)
            ]
          ]
        ]

-- `GetMacAddrFromArp` finds the address: when its socket and device are there, the request of a round
-- k below 10 is sent in full, the frames that have come by then, each of at least 42 bytes, hold a
-- reply from the address that is looked for, and the command arp -s succeeds in every round that calls it.
-- Requests that fail before round k and frames of other hosts before the reply do not matter.
pub get_mac_addr_from_arp-answers :
    (e : Endian) (mac ip dst : List ℕ) (vlan_id : ℕ) (rounds : ℕ → Round) (k : ℕ)
    → k < max_arp_request_times
    → ((i : ℕ) → AllFrames ((rounds i).arrivals))
    → SentIn e mac ip dst vlan_id rounds k
    → ((i : ℕ) → (rounds i).system_ok ≡ true)
    → has_reply dst (arrived rounds 0 k) ≡ true
    → is_some (get_mac_addr_from_arp e true true mac ip dst vlan_id rounds) ≡ true
unfolding get_mac_addr_from_arp
get_mac_addr_from_arp-answers e mac ip dst vlan_id rounds k k<10 frames sent ok has =
    answers e mac ip dst vlan_id rounds frames max_arp_request_times k 0 [] tt k<10
      (subst (SentIn e mac ip dst vlan_id rounds) (omega arith) sent) ok has

-- An address that `GetMacAddrFromArp` returns is the sender's hardware address in a frame that came in
-- one of the ten rounds or before it, and this frame is an ARP reply from the address that was looked
-- for; every frame has at least 42 bytes.
pub get_mac_addr_from_arp-source :
    (e : Endian) (socket_ok ioctl_ok : Bool) (mac ip dst : List ℕ) (vlan_id : ℕ)
    (rounds : ℕ → Round) (addr : List ℕ)
    → ((i : ℕ) → AllFrames ((rounds i).arrivals))
    → get_mac_addr_from_arp e socket_ok ioctl_ok mac ip dst vlan_id rounds ≡ some addr
    → (k : ℕ) × (k < max_arp_request_times)
      × (f : List ℕ) × Among f (arrived rounds 0 k)
      × (is_reply dst f ≡ true)
      × (sender_mac f ≡ addr)
unfolding get_mac_addr_from_arp
get_mac_addr_from_arp-source e true true mac ip dst vlan_id rounds addr frames got =
    source e mac ip dst vlan_id rounds frames max_arp_request_times 0 [] addr tt got
get_mac_addr_from_arp-source e true false mac ip dst vlan_id rounds addr frames got =
    absurd (ground (arith, got))
get_mac_addr_from_arp-source e false b mac ip dst vlan_id rounds addr frames got =
    absurd (ground (arith, got))
