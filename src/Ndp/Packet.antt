-- ===== src/Ndp/Packet.antt =====
-- ndp.go, the packets: parseNeighborSolicitation, buildNeighborAdvertisement, icmpv6Checksum.
use open_tunnelbroker.Prelude.{
  ℕ, zero, suc, ◌+◌, ◌-◌, ◌*◌, ◌/◌, ◌%◌, ◌^◌, Bool, not, ◌&&◌, ◌||◌, List, [], ◌∷◌, ◌++◌, Option,
  none, some, ◌==◌, ltb, if◌then◌else◌, length, get_or, take, drop,
}
use mathlib.Core.List.{reverse}
use open_tunnelbroker.Netip.{Addr, is6, as16, addr_from16}
use open_tunnelbroker.Netip.Class.{is_global_unicast, is_private, is_link_local_unicast}

abbrev pub ipv6_header_length : ℕ
ipv6_header_length = 40

abbrev pub protocol_icmpv6 : ℕ
protocol_icmpv6 = 58

abbrev pub ndp_hop_limit : ℕ
ndp_hop_limit = 255

abbrev pub icmpv6_neighbor_solicitation : ℕ
icmpv6_neighbor_solicitation = 135

abbrev pub icmpv6_neighbor_advertisement : ℕ
icmpv6_neighbor_advertisement = 136

abbrev pub ndp_option_target_link_layer : ℕ
ndp_option_target_link_layer = 2

abbrev pub ndp_message_length : ℕ
ndp_message_length = 24

abbrev pub ndp_advertisement_length : ℕ
ndp_advertisement_length = 32

-- ndpFlagRouter | ndpFlagSolicited
abbrev pub ndp_flags : ℕ
ndp_flags = 0x80 + 0x40

abbrev pub ethernet_address_length : ℕ
ethernet_address_length = 6

-- Network byte order.
unfoldable pub wire16 : Addr → List ℕ
unfolding as16
wire16 a = reverse (as16 a)

addr_from_wire : List ℕ → Addr
unfolding addr_from16
addr_from_wire bytes = addr_from16 (reverse bytes)

-- The big-endian 16-bit words, the last byte of an odd number being a high byte.
unfoldable pub word_sum : List ℕ → ℕ
word_sum [] = 0
word_sum (high ∷ []) = high * 256
word_sum (high ∷ low ∷ rest) = high * 256 + low + word_sum rest

-- `for sum > 0xffff`, on fuel.
unfoldable pub fold : ℕ → ℕ → ℕ
fold zero sum = sum
fold (suc fuel) sum =
    let rest = fold fuel (sum / 2 ^ 16 + sum % 2 ^ 16) in if ltb 0xffff sum then rest else sum

-- icmpv6Checksum: the uint32 sum, folded (two rounds reach 16 bits) and complemented.
unfoldable pub icmpv6_checksum : Addr → Addr → List ℕ → ℕ
icmpv6_checksum source destination message =
    let sum =
      (word_sum (wire16 source)
        + word_sum (wire16 destination)
        + length message
        + protocol_icmpv6
        + word_sum message)
      % 2 ^ 32 in
    0xffff - fold 2 sum

pub record NeighborSolicitation : Type 0 where
  pub source : Addr
  pub destination : Addr
  pub target : Addr

byte : List ℕ → ℕ → ℕ
byte packet i = get_or packet i 0

-- packet[first:last]
slice : List ℕ → ℕ → ℕ → List ℕ
slice packet first last = take (last - first) (drop first packet)

unfoldable pub payload_length_of : List ℕ → ℕ
unfolding byte
payload_length_of packet = byte packet 4 * 256 + byte packet 5

-- The ICMPv6 message that the header announces.
unfoldable pub message_of : List ℕ → List ℕ
unfolding slice payload_length_of
message_of packet = slice packet ipv6_header_length (ipv6_header_length + payload_length_of packet)

-- The address in sixteen bytes.
unfoldable pub address_at : List ℕ → ℕ → Addr
unfolding slice addr_from_wire
address_at bytes first = addr_from_wire (slice bytes first (first + 16))

-- The tests on the fixed header.
unfoldable pub bad_header : List ℕ → Bool
unfolding byte
bad_header packet =
    ltb (length packet) (ipv6_header_length + ndp_message_length)
    || not (byte packet 0 / 2 ^ 4 == 6)
    || not (byte packet 6 == protocol_icmpv6)
    || not (byte packet 7 == ndp_hop_limit)

-- The tests on the classes of the target and the source.
unfoldable pub bad_addresses : Addr → Addr → Bool
unfolding is_global_unicast is_private is_link_local_unicast
bad_addresses source target =
    (not (is_global_unicast target) && not (is_private target))
    || (not (is_global_unicast source)
        && not (is_private source)
        && not (is_link_local_unicast source))

-- parseNeighborSolicitation; `none` is errNotNeighborSolicitation. The three slices have sixteen
-- bytes, so AddrFromSlice accepts them.
unfoldable pub parse_neighbor_solicitation : List ℕ → Option NeighborSolicitation
parse_neighbor_solicitation packet =
    let message = message_of packet in
    let source = address_at packet 8 in
    let destination = address_at packet 24 in
    let target = address_at message 8 in
    if bad_header packet
    then none
    else if ltb (payload_length_of packet) ndp_message_length
        || ltb (length packet) (ipv6_header_length + payload_length_of packet)
    then none
    else if not (get_or message 0 0 == icmpv6_neighbor_solicitation)
        || not (get_or message 1 0 == 0)
    then none
    else if not (icmpv6_checksum source destination message == 0)
    then none
    else if bad_addresses source target
    then none
    else some (record { source = source; destination = destination; target = target })

-- The advertisement's ICMPv6 message with this checksum.
unfoldable pub advertisement : Addr → List ℕ → ℕ → List ℕ
advertisement target hardware checksum =
    icmpv6_neighbor_advertisement
    ∷ 0
    ∷ (checksum / 256)
    ∷ (checksum % 256)
    ∷ ndp_flags
    ∷ 0
    ∷ 0
    ∷ 0
    ∷ (wire16 target ++ (ndp_option_target_link_layer ∷ 1 ∷ hardware))

-- The packet that is filled in, with this checksum.
unfoldable pub advertisement_packet : Addr → Addr → List ℕ → ℕ → List ℕ
unfolding advertisement
advertisement_packet target destination hardware checksum =
    0x60
    ∷ 0
    ∷ 0
    ∷ 0
    ∷ (ndp_advertisement_length / 256)
    ∷ (ndp_advertisement_length % 256)
    ∷ protocol_icmpv6
    ∷ ndp_hop_limit
    ∷ (wire16 target ++ (wire16 destination ++ advertisement target hardware checksum))

-- buildNeighborAdvertisement; `none` is either of its errors.
unfoldable pub build_neighbor_advertisement : Addr → Addr → List ℕ → Option (List ℕ)
build_neighbor_advertisement target destination hardware =
    let checksum = icmpv6_checksum target destination (advertisement target hardware 0) in
    if not (is6 target) || not (is6 destination)
    then none
    else if not (length hardware == ethernet_address_length)
    then none
    else some (advertisement_packet target destination hardware checksum)
