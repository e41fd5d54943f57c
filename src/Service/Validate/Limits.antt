-- ===== src/Service/Validate/Limits.antt =====
-- service.go: what the normalisation and the validation of an upstream establish.
use open_tunnelbroker.Prelude.{
  ℕ, ◌≤◌, String, Bool, true, false, not, List, Option, none, some, ◌≡◌, inl, inr, str_eq,
  if◌then◌else◌, All, arith, refl, Option-cases,
}
use open_tunnelbroker.Prelude.Int.{pos, ◌≤ℤ◌}
use open_tunnelbroker.Netip.{Prefix, v6, is6, contains, masked}
use open_tunnelbroker.Netip.Text.{parse_prefix}
use open_tunnelbroker.Models.{
  Upstream, delegated_prefix, transport_prefix, ipv6_prefix, upstream_mode, upstream_on_link,
  server_reservation, valid_tunnel_v4_mode,
}
use open_tunnelbroker.Allocator.Request.{IsRequest, IsAllocation, masked-IsV6}
use open_tunnelbroker.Service.Upstreams.{
  ConfigError, done, refused, normalize_upstream, normalize_transport, canonical, clamp_limits,
  with_defaults, respelled, v4_mode_invalid,
}
use open_tunnelbroker.Service.Validate.{
  or_else, refuse_if, validate_upstream, upstream_checks, bad_limits, transport_check,
  on_link_check,
}

-- Clamping any three limits puts them in order.
clamp_limits-good :
    (bits : ℕ) (v : Upstream) → bits ≤ 128 → bad_limits bits (clamp_limits bits v) ≡ false
unfolding bad_limits clamp_limits
clamp_limits-good bits v h = ground arith

canonical-good :
    (v : Upstream) (q : Prefix) → q.bits ≤ 128 → bad_limits q.bits (canonical v q) ≡ false
unfolding canonical
canonical-good v q h = clamp_limits-good q.bits (respelled v q) h

-- Setting the transport address leaves the limits.
transport-limits :
    (bits : ℕ) (v w : Upstream) (others : List Upstream)
    → normalize_transport v others ≡ done w
    → bad_limits bits w ≡ bad_limits bits v
unfolding normalize_transport bad_limits
transport-limits bits v w others h = ground arith

six_prefix :
    (q p : Prefix) → (if is6 q.addr then some q else none) ≡ some p → (is6 q.addr ≡ true) × (q ≡ p)
six_prefix q p h = ground arith

-- Whatever limits an upstream with a valid IPv6 prefix is given, those that the normalisation leaves it
-- with are in order, at least the prefix's length and at most 128, as the validation asks.
pub normalize_upstream-limits :
    (v w : Upstream) (others : List Upstream) (p : Prefix)
    → ipv6_prefix v.v6_cidr ≡ some p
    → p.bits ≤ 128
    → normalize_upstream v others ≡ done w
    → bad_limits p.bits w ≡ false
unfolding normalize_upstream ipv6_prefix
normalize_upstream-limits v w others p parsed short h =
    elim (Option-cases (parse_prefix v.v6_cidr)) [
      | inl n ↦ absurd (ground (arith, rw (n, ipv6_prefix) at parsed))
      | inr (q, e) ↦
          let (six, same) = six_prefix q p (rw (e, ipv6_prefix) at parsed) in
          rw (← same) (normalized q six (rw same short) (rw (e, normalize_upstream) at h))
    ]
  where
    normalized :
        (q : Prefix)
        → is6 q.addr ≡ true
        → q.bits ≤ 128
        → (if not (valid_tunnel_v4_mode v.v4_mode)
            then refused v4_mode_invalid
            else if not (is6 q.addr)
            then done (with_defaults v)
            else normalize_transport (canonical (with_defaults v) q) others)
          ≡ done w
        → bad_limits q.bits w ≡ false
    normalized q six short h = ground (
      arith,
      transport-limits q.bits (canonical (with_defaults v) q) w others,
      canonical-good (with_defaults v) q short,
    )

or_else-both : (a b : Option ConfigError) → or_else a b ≡ none → (a ≡ none) × (b ≡ none)
unfolding or_else
or_else-both none b h = (refl, h)
or_else-both (some e) b h = ground arith

refuse_if-none : (a : Bool) (e : ConfigError) → refuse_if a e ≡ none → a ≡ false
unfolding refuse_if
refuse_if-none true e h = ground arith
refuse_if-none false e h = refl

-- What an upstream that the validation accepts has passed.
validated :
    (v : Upstream)
    → validate_upstream v ≡ none
    → (p : Prefix) × (ipv6_prefix v.v6_cidr ≡ some p)
      × (bad_limits p.bits v ≡ false)
      × (transport_check p v ≡ none)
      × (on_link_check v ≡ none)
unfolding validate_upstream upstream_checks
validated v h = elim (Option-cases (ipv6_prefix v.v6_cidr)) [
  | inl n ↦ let (_, bad) = or_else-both _ _ h in absurd (ground (arith, rw n at bad))
  | inr (p, e) ↦
      let (_, checks) = or_else-both _ _ h in
      let (_, h1) = or_else-both _ _ (rw e at checks) in
      let (limits, h2) = or_else-both _ _ h1 in
      let (transport, h3) = or_else-both _ _ h2 in
      let (on_link, _) = or_else-both _ _ h3 in
      (p, e, refuse_if-none _ _ limits, transport, on_link)
]

on_link_given :
    (v : Upstream)
    → on_link_check v ≡ none
    → upstream_mode v ≡ upstream_on_link
    → str_eq v.transport_address "" ≡ false
unfolding on_link_check or_else refuse_if
on_link_given v h mode = let h' = rw mode at h in ground (arith, h')

transport_given :
    (p : Prefix) (v : Upstream)
    → transport_check p v ≡ none
    → str_eq v.transport_address "" ≡ false
    → (t : Prefix) × (transport_prefix v ≡ some t) × (contains p t.addr ≡ false)
unfolding transport_check
transport_given p v h given = elim (Option-cases (transport_prefix v)) [
  | inl n ↦ absurd (ground (arith, rw (given, transport_check, n) at h))
  | inr (t, e) ↦ (t, e, refuse_if-none _ _ (rw (given, transport_check, e) at h))
]

ipv6_prefix-six : (text : String) (p : Prefix) → ipv6_prefix text ≡ some p → p.addr.family ≡ v6
unfolding ipv6_prefix
ipv6_prefix-six text p h = elim (Option-cases (parse_prefix text)) [
  | inl n ↦ absurd (ground (arith, rw (n, ipv6_prefix) at h))
  | inr (q, e) ↦
      let (six, same) = six_prefix q p (rw (e, ipv6_prefix) at h) in ground (arith, six, same)
]

within_limits :
    (v : Upstream) (bits n : ℕ)
    → bad_limits bits v ≡ false
    → v.min_prefix ≤ℤ pos n
    → pos n ≤ℤ v.max_prefix
    → (bits ≤ n) × (n ≤ 128)
unfolding bad_limits
within_limits v bits n h low high = ground arith

-- An accepted upstream that is on-link has a transport address outside its prefix and reserves none of
-- the prefix for the server.
pub validate_upstream-on_link :
    (v : Upstream)
    → validate_upstream v ≡ none
    → upstream_mode v ≡ upstream_on_link
    → (p : Prefix) × (t : Prefix) × (ipv6_prefix v.v6_cidr ≡ some p)
      × (transport_prefix v ≡ some t)
      × (contains p t.addr ≡ false)
      × (server_reservation v ≡ none)
unfolding server_reservation
validate_upstream-on_link v h mode =
    let (p, e, _, transport, on_link) = validated v h in
    let (t, q, outside) = transport_given p v transport (on_link_given v on_link mode) in
    (p, t, e, q, outside, rw (mode, server_reservation))

-- A tunnel length within the limits of an accepted upstream, with stored allocations in the upstream's
-- prefix, makes a request that the allocator accepts.
pub validate_upstream-IsRequest :
    (v : Upstream) (pool : Prefix) (used : List Prefix) (n : ℕ)
    → validate_upstream v ≡ none
    → delegated_prefix v ≡ some pool
    → v.min_prefix ≤ℤ pos n
    → pos n ≤ℤ v.max_prefix
    → All (IsAllocation (masked pool)) used
    → IsRequest pool used n
unfolding delegated_prefix
validate_upstream-IsRequest v pool used n h d low high all =
    let (p, e, limits, _, _) = validated v h in
    let masked_p : masked p ≡ pool = ground (arith, rw (e, delegated_prefix) at d) in
    let (longer, short) = within_limits v p.bits n limits low high in
    rw (← masked_p) (record {
      six =
          masked-IsV6 (record {
            family = ipv6_prefix-six v.v6_cidr p e;
            short = omega (arith, longer, short);
          });
      longer = unfold masked in longer;
      short = short;
      allocations = rw masked_p all;
    })
