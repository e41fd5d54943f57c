-- ===== src/Ndp/Guard.antt =====
-- What parseNeighborSolicitation in ndp.go lets through.
use open_tunnelbroker.Prelude.{
  ℕ, ◌+◌, ◌/◌, ◌≤◌, ◌≡◌, ◌≢◌, refl, true, false, List, length, get_or, some, arith,
}
use open_tunnelbroker.Netip.{Addr, v6, addr_from16}
use open_tunnelbroker.Netip.Class.{
  is_global_unicast, is_private, is_multicast, is_link_local_unicast,
}
use open_tunnelbroker.Ndp.Packet.{
  NeighborSolicitation, bad_addresses, bad_header, payload_length_of, message_of, address_at,
  parse_neighbor_solicitation, icmpv6_checksum,
}

-- A packet with a neighbor solicitation and nothing before it, and what is read from it.
pub record IsGenuine (packet : List ℕ) (ns : NeighborSolicitation) : Type 0 where
  pub version : get_or packet 0 0 / 16 ≡ 6
  pub next_header : get_or packet 6 0 ≡ 58
  pub hop_limit : get_or packet 7 0 ≡ 255
  pub kind : get_or (message_of packet) 0 0 ≡ 135
  pub code : get_or (message_of packet) 1 0 ≡ 0
  pub source : ns.source ≡ address_at packet 8
  pub destination : ns.destination ≡ address_at packet 24
  pub target : ns.target ≡ address_at (message_of packet) 8
  pub long : 24 ≤ payload_length_of packet
  pub fits : 40 + payload_length_of packet ≤ length packet
  pub verifies : icmpv6_checksum ns.source ns.destination (message_of packet) ≡ 0
  pub unicast : is_multicast ns.target ≡ false
  pub specified : (ns.target.value ≢ 0) × (ns.source.value ≢ 0)

address6 : ℕ → Addr
address6 v = record { family = v6; value = v }

private-specified : (v : ℕ) → is_private (address6 v) ≡ true → v ≢ 0
unfolding is_private address6
private-specified v h = ground arith

private-unicast : (v : ℕ) → is_private (address6 v) ≡ true → is_multicast (address6 v) ≡ false
unfolding is_private is_multicast address6
private-unicast v h = ground arith

global-specified : (v : ℕ) → is_global_unicast (address6 v) ≡ true → v ≢ 0
unfolding is_global_unicast address6
global-specified v h = ground arith

global-unicast : (a : Addr) → is_global_unicast a ≡ true → is_multicast a ≡ false
unfolding is_global_unicast
global-unicast a h = ground arith

link_local-specified : (v : ℕ) → is_link_local_unicast (address6 v) ≡ true → v ≢ 0
unfolding is_link_local_unicast address6
link_local-specified v h = ground arith

-- The address tests refuse a multicast or unspecified target and an unspecified source.
bad_addresses-false :
    (source target : ℕ)
    → bad_addresses (address6 source) (address6 target) ≡ false
    → (is_multicast (address6 target) ≡ false) × (target ≢ 0) × (source ≢ 0)
unfolding bad_addresses
bad_addresses-false source target h = (
  ground (arith, global-unicast (address6 target), private-unicast target),
  λ e. ground (arith, global-specified target, private-specified target),
  λ e.
      ground
        (arith, global-specified source, private-specified source, link_local-specified source),
)

addresses_safe :
    (source target : Addr)
    → source.family ≡ v6
    → target.family ≡ v6
    → bad_addresses source target ≡ false
    → (is_multicast target ≡ false) × (target.value ≢ 0) × (source.value ≢ 0)
unfolding address6
addresses_safe source target s6 t6 h =
    let es : source ≡ address6 source.value = ground arith in
    let et : target ≡ address6 target.value = ground arith in
    let safe = bad_addresses-false source.value target.value (rw (es, et) at h) in
    (rw et safe.0, safe.1, safe.2)

address_at_family : (bytes : List ℕ) (i : ℕ) → (address_at bytes i).family ≡ v6
unfolding address_at addr_from16
address_at_family bytes i = refl

bad_header-false :
    (packet : List ℕ)
    → bad_header packet ≡ false
    → (get_or packet 0 0 / 16 ≡ 6) × (get_or packet 6 0 ≡ 58) × (get_or packet 7 0 ≡ 255)
unfolding bad_header
bad_header-false packet h = ground arith

-- A packet that is taken for a solicitation is an IPv6 packet with an ICMPv6 message directly behind its
-- header and the hop limit 255 that no forwarded packet has. Its payload has at least 24 bytes and is all
-- there; the message is of the type of neighbor solicitations, with code 0 and a checksum that verifies.
-- Source, destination and target are read from their places, the target is neither multicast nor
-- unspecified, and the source is specified. The options behind the target are not looked at.
pub parse_neighbor_solicitation-Genuine :
    (packet : List ℕ) (ns : NeighborSolicitation)
    → parse_neighbor_solicitation packet ≡ some ns
    → IsGenuine packet ns
unfolding parse_neighbor_solicitation
parse_neighbor_solicitation-Genuine packet ns h =
    let target = address_at (message_of packet) 8 in
    let source = address_at packet 8 in
    let safe =
      addresses_safe source target (address_at_family packet 8)
        (address_at_family (message_of packet) 8) (ground arith) in
    let whose : target ≡ ns.target = ground arith in
    let whence : source ≡ ns.source = ground arith in
    let (version, next_header, hop_limit) = bad_header-false packet (ground arith) in
    record {
      version = version;
      next_header = next_header;
      hop_limit = hop_limit;
      kind = ground arith;
      code = ground arith;
      source = ground arith;
      destination = ground arith;
      target = ground arith;
      long = ground arith;
      fits = ground arith;
      verifies = ground arith;
      unicast = rw (← whose) safe.0;
      specified = (rw (← whose) safe.1, rw (← whence) safe.2);
    }
