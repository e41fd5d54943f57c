-- ===== src/Ndp/Tests.antt =====
-- The theorems on Neighbor Discovery, on a solicitation for 2001:db8:0:1::5 and the on-link upstream of
-- Models.Tests.
use open_tunnelbroker.Prelude.{
  ℕ, ◌≡◌, refl, true, not, ◌&&◌, ◌||◌, List, [], ◌∷◌, some, any, String, str_eq, arith,
  if◌then◌else◌, ◌==◌,
}
use open_tunnelbroker.Netip.{Addr, v6, addr_eq, is6, contains, number_le, masked, addr_less}
use open_tunnelbroker.Netip.Text.{parse_prefix}
use open_tunnelbroker.Models.{
  Upstream, Tunnel, upstream_mode, upstream_on_link, valid_upstream_mode, delegated_prefix,
  ipv6_prefix,
}
use open_tunnelbroker.Models.Tests.{on_link, tunnel}
use open_tunnelbroker.Ndp.Packet.{
  NeighborSolicitation, parse_neighbor_solicitation, build_neighbor_advertisement, advertisement,
  advertisement_packet, icmpv6_checksum, bad_header, payload_length_of, message_of, fold, word_sum,
  wire16, address_at, bad_addresses,
}
use open_tunnelbroker.Ndp.Checksum.{IsAdvertisement, build_neighbor_advertisement-IsAdvertisement}
use open_tunnelbroker.Ndp.Guard.{IsGenuine, parse_neighbor_solicitation-Genuine}
use open_tunnelbroker.Ndp.Proxy.{
  NdpProxySet, should_answer, merge, ndp_proxy_set_for, ndp_proxy_sets_for, proxy_sets_loop,
  add_upstream, put, is_empty, sort_set, sort_by, insert_by, prefix_less, proxied_prefixes,
  proxied_locals,
}
use open_tunnelbroker.Prelude.{All}
use open_tunnelbroker.Ndp.Proxy.Inside.{AreLongEnough, covers, ndp_proxy_sets_for_inside}
use open_tunnelbroker.Ndp.Proxy.Answers.{
  delegates, serves, should_answer-merge, should_answer-ndp_proxy_set_for, ndp_proxy_sets_for_sound,
}

abbrev address : ℕ → Addr
address v = record { family = v6; value = v }

-- 2001:db8:0:1::5, fe80::1 and ff02::1:ff00:5.
abbrev target : ℕ
target = 0x20010db8000000010000000000000005

abbrev router : ℕ
router = 0xfe800000000000000000000000000001

abbrev solicited : ℕ
solicited = 0xff0200000000000000000001ff000005

abbrev packet : List ℕ
packet =
    96 ∷ 0 ∷ 0 ∷ 0 ∷ 0 ∷ 24 ∷ 58 ∷ 255 ∷ 254 ∷ 128 ∷ 0 ∷ 0 ∷ 0 ∷ 0 ∷ 0 ∷ 0 ∷ 0 ∷ 0 ∷ 0 ∷ 0 ∷ 0 ∷ 0
    ∷ 0 ∷ 1 ∷ 255 ∷ 2 ∷ 0 ∷ 0 ∷ 0 ∷ 0 ∷ 0 ∷ 0 ∷ 0 ∷ 0 ∷ 0 ∷ 1 ∷ 255 ∷ 0 ∷ 0 ∷ 5 ∷ 135 ∷ 0 ∷ 78 ∷ 98
    ∷ 0 ∷ 0 ∷ 0 ∷ 0 ∷ 32 ∷ 1 ∷ 13 ∷ 184 ∷ 0 ∷ 0 ∷ 0 ∷ 1 ∷ 0 ∷ 0 ∷ 0 ∷ 0 ∷ 0 ∷ 0 ∷ 0 ∷ 5 ∷ []

abbrev solicitation : NeighborSolicitation
solicitation = record {
  source = address router;
  destination = address solicited;
  target = address target;
}

parses : parse_neighbor_solicitation packet ≡ some solicitation
unfolding parse_neighbor_solicitation bad_header payload_length_of message_of icmpv6_checksum fold
    word_sum wire16 address_at number_le bad_addresses
parses = refl

parse_neighbor_solicitation-Genuine_example : IsGenuine packet solicitation
parse_neighbor_solicitation-Genuine_example =
    parse_neighbor_solicitation-Genuine packet solicitation parses

abbrev hardware : List ℕ
hardware = 2 ∷ 0 ∷ 0 ∷ 0 ∷ 0 ∷ 1 ∷ []

abbrev reply : List ℕ
reply =
    advertisement_packet (address target) (address router) hardware (
      icmpv6_checksum (address target) (address router) (advertisement (address target) hardware 0))

builds : build_neighbor_advertisement (address target) (address router) hardware ≡ some reply
unfolding build_neighbor_advertisement
builds = refl

build_neighbor_advertisement-IsAdvertisement_example :
    IsAdvertisement reply (address target) (address router) hardware
build_neighbor_advertisement-IsAdvertisement_example =
    build_neighbor_advertisement-IsAdvertisement target router hardware reply (omega arith)
      (omega arith) (omega arith) builds

abbrev home : Upstream
home = on_link "fd00:0:0:1::1/64"

should_answer-ndp_proxy_set_for_example :
    should_answer (ndp_proxy_set_for home (tunnel 4 ∷ []) []) (address target) ≡ (
      str_eq (upstream_mode home) upstream_on_link
      && delegates home (tunnel 4 ∷ []) [] (address target))
should_answer-ndp_proxy_set_for_example =
    should_answer-ndp_proxy_set_for home (tunnel 4 ∷ []) [] (address target)

-- No tunnel on any other upstream.
abbrev tunnels : ℕ → List Tunnel
tunnels id = if id == 1 then tunnel 4 ∷ [] else []

abbrev locals : String → List Addr
locals name = address router ∷ []

answers :
    should_answer (ndp_proxy_sets_for (home ∷ []) tunnels locals "eth0") (address target) ≡ true
unfolding ndp_proxy_sets_for proxy_sets_loop should_answer add_upstream put merge is_empty
    ndp_proxy_set_for upstream_mode valid_upstream_mode delegated_prefix ipv6_prefix parse_prefix
    sort_set sort_by insert_by prefix_less addr_less proxied_prefixes proxied_locals masked contains
answers = refl

ndp_proxy_sets_for_sound_example :
    any (serves tunnels locals "eth0" (address target)) (home ∷ []) ≡ true
ndp_proxy_sets_for_sound_example =
    ndp_proxy_sets_for_sound (home ∷ []) tunnels locals "eth0" (address target) answers

long_enough : All (λ up. AreLongEnough up (tunnels up.id)) (home ∷ [])
unfolding delegated_prefix ipv6_prefix parse_prefix masked
long_enough = ((omega arith, tt), tt)

ndp_proxy_sets_for_inside_example :
    any
      (λ up. str_eq up.egress_interface "eth0" && covers (delegated_prefix up) (address target))
      (home ∷ [])
    ≡ true
ndp_proxy_sets_for_inside_example =
    ndp_proxy_sets_for_inside (home ∷ []) tunnels locals "eth0" (address target) long_enough answers

abbrev one : NdpProxySet
one = record { delegated = record { addr = address target; bits = 64 } ∷ []; local = [] }

abbrev other : NdpProxySet
other = record { delegated = []; local = address target ∷ [] }

should_answer-merge_example : should_answer (merge one other) (address target) ≡ (
    is6 (address target)
    && not (
        any (λ a. addr_eq a (address target)) one.local
        || any (λ a. addr_eq a (address target)) other.local)
    && (any (λ p. contains p (address target)) one.delegated
        || any (λ p. contains p (address target)) other.delegated))
should_answer-merge_example = should_answer-merge one other (address target)
