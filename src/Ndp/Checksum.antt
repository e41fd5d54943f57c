-- ===== src/Ndp/Checksum.antt =====
-- The checksum of ndp.go: what the fold computes, and how the receiver reads a built
-- advertisement.
use open_tunnelbroker.Prelude.{
  ℕ, ◌+◌, ◌-◌, ◌*◌, ◌%◌, ◌^◌, ◌≤◌, ◌<◌, ◌≡◌, refl, ap, ◌∙◌, List, [], ◌∷◌, All, length, arith, ◌==◌,
  some, take, drop, get_or, ◌/◌, if◌then◌else◌,
}
use open_tunnelbroker.Netip.{Addr, v6, as16, addr_from16, number_le-as16}
use open_tunnelbroker.Ndp.Packet.{
  fold, word_sum, wire16, icmpv6_checksum, advertisement, advertisement_packet,
  build_neighbor_advertisement, address_at, message_of, payload_length_of,
}

-- Folding gives the representative of the sum modulo 0xffff that is zero only for zero.
pub fold-eq : (s : ℕ) → s < 2 ^ 32 → fold 2 s ≡ (if s == 0 then 0 else (s - 1) % 0xffff + 1)
unfolding fold
fold-eq s h = ground arith

abbrev AreBytes : List ℕ → Type 0
AreBytes = All (λ b. b < 256)

word_sum-le : (bs : List ℕ) → AreBytes bs → word_sum bs ≤ 0xffff * length bs
unfolding word_sum
word_sum-le [] h = omega arith
word_sum-le (x ∷ []) h = omega (arith, h.0)
word_sum-le (x ∷ y ∷ bs) h = omega (arith, h.0, h.1.0, word_sum-le bs h.1.1)

abbrev address6 : ℕ → Addr
address6 v = record { family = v6; value = v }

wire16-bytes : (v : ℕ) → AreBytes (wire16 (address6 v)) × (length (wire16 (address6 v)) ≡ 16)
unfolding wire16
wire16-bytes v = (omega arith, refl)

wire16-le : (v : ℕ) → word_sum (wire16 (address6 v)) ≤ 0x100000
wire16-le v =
    let (bytes, sixteen) = wire16-bytes v in
    omega (arith, word_sum-le (wire16 (address6 v)) bytes, sixteen)

-- The checksum field is one word of the sum.
word_sum-advertisement :
    (a : Addr) (hardware : List ℕ) (c : ℕ)
    → word_sum (advertisement a hardware c) ≡ word_sum (advertisement a hardware 0) + c
unfolding word_sum advertisement
word_sum-advertisement a hardware c = omega arith

advertisement-le :
    (v : ℕ) (hardware : List ℕ)
    → AreBytes hardware
    → length hardware ≡ 6
    → word_sum (advertisement (address6 v) hardware 0) ≤ 0x400000
unfolding advertisement wire16 word_sum
advertisement-le v hardware h six = omega (arith, word_sum-le hardware h, six)

fold-pos : (s : ℕ) → 0 < s → s < 2 ^ 32 → fold 2 s ≡ (s - 1) % 0xffff + 1
fold-pos s p h = ground (arith, fold-eq s h)

-- Setting the field to the checksum of the message without it makes the checksum zero.
checksum-zero :
    (s r c : ℕ)
    → 0 < s
    → s + 0xffff < 2 ^ 32
    → r ≡ s % 2 ^ 32
    → c ≡ 0xffff - fold 2 r
    → 0xffff - fold 2 ((s + c) % 2 ^ 32) ≡ 0
checksum-zero s r c p h er ec =
    let e : r ≡ s = omega arith in
    let first : fold 2 r ≡ (s - 1) % 0xffff + 1 = rw e (fold-pos s p (omega arith)) in
    let whole : (s + c) % 2 ^ 32 ≡ s + c = omega (arith, first) in
    rw whole (omega (arith, first, fold-pos (s + c) (omega arith) (omega (arith, first))))

field : ℕ → ℕ → List ℕ → ℕ
field v w hardware =
    icmpv6_checksum (address6 v) (address6 w) (advertisement (address6 v) hardware 0)

built :
    (v w : ℕ) (hardware packet : List ℕ)
    → build_neighbor_advertisement (address6 v) (address6 w) hardware ≡ some packet
    → (length hardware ≡ 6)
      × (advertisement_packet (address6 v) (address6 w) hardware (field v w hardware) ≡ packet)
unfolding build_neighbor_advertisement field
built v w hardware packet h = (ground arith, ground arith)

length-advertisement :
    (a : Addr) (hardware : List ℕ) (c : ℕ)
    → length (advertisement a hardware c) ≡ length (advertisement a hardware 0)
unfolding advertisement
length-advertisement a hardware c = refl

length-small :
    (v : ℕ) (hardware : List ℕ)
    → length hardware ≡ 6
    → length (advertisement (address6 v) hardware 0) ≡ 32
unfolding advertisement wire16
length-small v hardware six = omega (arith, six)

-- The sum with a zero checksum field.
open_sum : ℕ → ℕ → List ℕ → ℕ
open_sum v w hardware =
    word_sum (wire16 (address6 v))
    + word_sum (wire16 (address6 w))
    + length (advertisement (address6 v) hardware 0)
    + 58
    + word_sum (advertisement (address6 v) hardware 0)

checksum-of :
    (v w : ℕ) (hardware : List ℕ) (c : ℕ)
    → icmpv6_checksum (address6 v) (address6 w) (advertisement (address6 v) hardware c)
      ≡ 0xffff - fold 2 ((open_sum v w hardware + c) % 2 ^ 32)
unfolding icmpv6_checksum open_sum
checksum-of v w hardware c =
    ap (λ (x : ℕ). 0xffff - fold 2 (x % 2 ^ 32))
      (omega (
        arith,
        word_sum-advertisement (address6 v) hardware c,
        length-advertisement (address6 v) hardware c,
      ))

sealed :
    (v w : ℕ) (hardware : List ℕ)
    → AreBytes hardware
    → length hardware ≡ 6
    → icmpv6_checksum
        (address6 v)
        (address6 w)
        (advertisement (address6 v) hardware (field v w hardware))
      ≡ 0
unfolding field open_sum
sealed v w hardware bytes six =
    checksum-of v w hardware (field v w hardware)
    ∙ checksum-zero (open_sum v w hardware) ((open_sum v w hardware + 0) % 2 ^ 32)
        (field v w hardware) (omega (arith, length-small v hardware six))
        (omega (
          arith,
          length-small v hardware six,
          wire16-le v,
          wire16-le w,
          advertisement-le v hardware bytes six,
        ))
        (omega arith) (checksum-of v w hardware 0)

-- A packet that its receiver reads as a solicited advertisement of a router for the target, sent to the
-- destination, with this hardware address and a checksum that verifies over what the packet holds.
pub record IsAdvertisement (packet : List ℕ) (target destination : Addr) (hardware : List ℕ)
    : Type 0 where
  pub size : length packet ≡ 72
  pub version : get_or packet 0 0 / 16 ≡ 6
  pub next_header : get_or packet 6 0 ≡ 58
  pub hop_limit : get_or packet 7 0 ≡ 255
  pub payload : payload_length_of packet ≡ 32
  pub source : address_at packet 8 ≡ target
  pub sent_to : address_at packet 24 ≡ destination
  pub kind : get_or (message_of packet) 0 0 ≡ 136
  pub code : get_or (message_of packet) 1 0 ≡ 0
  pub flags : get_or (message_of packet) 4 0 ≡ 0xc0
  pub announced : address_at (message_of packet) 8 ≡ target
  pub option : take 2 (drop 24 (message_of packet)) ≡ 2 ∷ 1 ∷ []
  pub link_layer : drop 26 (message_of packet) ≡ hardware
  pub verifies :
      icmpv6_checksum (address_at packet 8) (address_at packet 24) (message_of packet) ≡ 0

take-whole : (bs : List ℕ) → length bs ≡ 6 → take 6 bs ≡ bs
take-whole (a ∷ b ∷ c ∷ d ∷ e ∷ f ∷ []) h = refl
take-whole bs h = ground arith

-- The bytes of an address are read back.
reads_back : (v : ℕ) → v < 2 ^ 128 → addr_from16 (as16 (address6 v)) ≡ address6 v
unfolding addr_from16
reads_back v h = ap address6 (number_le-as16 v h)

module _ (v w : ℕ) (small_v : v < 2 ^ 128) (small_w : w < 2 ^ 128) (hardware : List ℕ)
    (six : length hardware ≡ 6) (c : ℕ) where
  source-read :
      address_at (advertisement_packet (address6 v) (address6 w) hardware c) 8 ≡ address6 v
  unfolding address_at advertisement_packet wire16 as16
  source-read = reads_back v small_v

  destination-read :
      address_at (advertisement_packet (address6 v) (address6 w) hardware c) 24 ≡ address6 w
  unfolding address_at advertisement_packet wire16 as16
  destination-read = reads_back w small_w

  message-read :
      message_of (advertisement_packet (address6 v) (address6 w) hardware c)
      ≡ advertisement (address6 v) hardware c
  unfolding message_of payload_length_of advertisement_packet advertisement wire16 as16
  message-read = ap (λ (h : List ℕ). advertisement (address6 v) h c) (take-whole hardware six)

  packet-length : length (advertisement_packet (address6 v) (address6 w) hardware c) ≡ 72
  unfolding advertisement_packet advertisement wire16 as16
  packet-length = omega (arith, six)

  option-read : take 2 (drop 24 (advertisement (address6 v) hardware c)) ≡ 2 ∷ 1 ∷ []
  unfolding advertisement wire16 as16
  option-read = refl

  hardware-read : drop 26 (advertisement (address6 v) hardware c) ≡ hardware
  unfolding advertisement wire16 as16
  hardware-read = refl

  target-read : address_at (advertisement (address6 v) hardware c) 8 ≡ address6 v
  unfolding address_at advertisement wire16 as16
  target-read = reads_back v small_v

  packet-IsAdvertisement :
      icmpv6_checksum (address6 v) (address6 w) (advertisement (address6 v) hardware c) ≡ 0
      → IsAdvertisement
          (advertisement_packet (address6 v) (address6 w) hardware c)
          (address6 v)
          (address6 w)
          hardware
  packet-IsAdvertisement h = record {
    size = packet-length;
    version = unfold advertisement_packet in refl;
    next_header = unfold advertisement_packet in refl;
    hop_limit = unfold advertisement_packet in refl;
    payload = unfold advertisement_packet in unfold payload_length_of in refl;
    source = source-read;
    sent_to = destination-read;
    kind = rw message-read (unfold advertisement in refl);
    code = rw message-read (unfold advertisement in refl);
    flags = rw message-read (unfold advertisement in refl);
    announced = rw message-read target-read;
    option = rw message-read option-read;
    link_layer = rw message-read hardware-read;
    verifies = rw (source-read, destination-read, message-read) h;
  }

-- Every advertisement that is built for IPv6 addresses is read by its receiver as one: the fields of the
-- IPv6 header, the type, code and flags of the message, the target and the option with the hardware
-- address stand in their places, source and destination of the packet are the target and the given
-- destination, and icmpv6Checksum is zero over the addresses and the message that the packet holds.
pub build_neighbor_advertisement-IsAdvertisement :
    (target destination : ℕ) (hardware packet : List ℕ)
    → target < 2 ^ 128
    → destination < 2 ^ 128
    → AreBytes hardware
    → build_neighbor_advertisement (address6 target) (address6 destination) hardware ≡ some packet
    → IsAdvertisement packet (address6 target) (address6 destination) hardware
build_neighbor_advertisement-IsAdvertisement target destination hardware packet small_t small_d
      bytes h =
    let (six, made) = built target destination hardware packet h in
    rw (← made) (
      packet-IsAdvertisement target destination small_t small_d hardware six
        (field target destination hardware) (sealed target destination hardware bytes six))
