-- ===== src/Models/Transport.antt =====
-- clientTransportAddress in models.go: which address of the transport range a tunnel gets, and when
-- two tunnels get the same one.
use native.Mathlib.Nat.{div-lt_iff_lt-mul, div-eq_of_lt-le, mod-eq_of_lt}
use open_tunnelbroker.Prelude.{
  ℕ, ◌+◌, ◌-◌, ◌*◌, ◌/◌, ◌^◌, ◌≤◌, ◌<◌, ◌≡◌, ◌≢◌, ap, ◌∙◌, inl, inr, true, some, none, arith,
  Bool-cases, ◌==◌, if◌then◌else◌, pow-add, pow-pos,
}
use open_tunnelbroker.Netip.{Prefix, v6, contains}
use open_tunnelbroker.Allocator.Blocks.{size}
use open_tunnelbroker.Allocator.Overlap.{IsV6}
use open_tunnelbroker.Allocator.Request.{base, masked-six}
use open_tunnelbroker.Models.{
  Upstream, Tunnel, transport_prefix, upstream_mode, upstream_on_link, offset_addr,
  transport_candidate, client_transport_address,
}
use open_tunnelbroker.Models.Offset.{offset_addr-value}

-- An on-link upstream whose transport address is `p`.
pub record IsOnLink (up : Upstream) (p : Prefix) : Type 0 where
  pub transport : transport_prefix up ≡ some p
  pub on_link : upstream_mode up ≡ upstream_on_link
  pub six : IsV6 p
  pub in_range : p.addr.value < 2 ^ 128

-- The place of the server's own address in the transport range.
abbrev pub server_place : Prefix → ℕ
server_place p = p.addr.value - base p

-- The place that a tunnel's id comes to, one further at the server's.
abbrev pub client_place : Prefix → ℕ → ℕ
client_place p id = if id + 1 == server_place p then id + 2 else id + 1

module _ (p : Prefix) (six : IsV6 p) (in_range : p.addr.value < 2 ^ 128) where
  base-le : base p ≤ p.addr.value
  base-le = grind arith

  top : base p + size p.bits ≤ 2 ^ 128
  top =
      let q : ℕ = p.addr.value / size p.bits in
      let whole : 2 ^ 128 ≡ 2 ^ p.bits * size p.bits =
        (let k : 128 ≡ p.bits + (128 - p.bits) = omega (arith, six.short) in
          ap (λ (x : ℕ). 2 ^ x) k ∙ pow-add p.bits (128 - p.bits)) in
      let below : q < 2 ^ p.bits =
        (div-lt_iff_lt-mul (pow-pos (128 - p.bits))).1 (omega (arith, in_range, whole)) in
      let room : (q + 1) * size p.bits ≤ 2 ^ p.bits * size p.bits = grind arith in
      omega (arith, room, whole)

  place-quotient :
      (j : ℕ) → j < size p.bits → (base p + j) / size p.bits ≡ p.addr.value / size p.bits
  place-quotient j l = div-eq_of_lt-le (size p.bits) (omega arith) (omega arith)

  place-contained :
      (j : ℕ) → j < size p.bits → contains p (record { family = v6; value = base p + j }) ≡ true
  unfolding contains
  place-contained j l = ground (arith, six.family, place-quotient j l)

  -- Inside the range the addition does not wrap.
  offset-first :
      (n : ℕ)
      → n < size p.bits
      → offset_addr (record { family = v6; value = base p }) n
        ≡ record { family = v6; value = base p + n }
  offset-first n l =
      offset_addr-value (base p) n (omega (arith, top))
      ∙ ap (λ (x : ℕ). record { family = v6; value = x })
          (mod-eq_of_lt {n = base p + n} (omega (arith, top)))

  offset-step :
      (n : ℕ)
      → n + 1 < size p.bits
      → offset_addr (record { family = v6; value = base p + n }) 1
        ≡ record { family = v6; value = base p + (n + 1) }
  offset-step n l =
      offset_addr-value (base p + n) 1 (omega (arith, top))
      ∙ ap (λ (x : ℕ). record { family = v6; value = x })
          (mod-eq_of_lt {n = base p + n + 1} (omega (arith, top)) ∙ omega arith)

  candidate-place :
      (id : ℕ)
      → id + 2 < size p.bits
      → transport_candidate p id ≡ record { family = v6; value = base p + client_place p id }
  unfolding transport_candidate
  candidate-place id l = rw (masked-six six) (
      rw (offset-first (id + 1) (omega arith)) (elim (Bool-cases (id + 1 == server_place p)) [
        | inl e ↦ ground (arith, e, six.family, base-le, offset-step (id + 1) (omega arith))
        | inr e ↦ ground (arith, e, six.family, base-le)
      ]))

-- Where there is room, a tunnel of an on-link upstream has the address at its place.
pub client_transport_address-eq :
    (up : Upstream) (p : Prefix) (t : Tunnel)
    → IsOnLink up p
    → 0 < t.id
    → t.id + 2 < size p.bits
    → client_transport_address up t
      ≡ some (record { family = v6; value = base p + client_place p t.id })
unfolding client_transport_address
client_transport_address-eq up p t h known room =
    rw (h.transport, client_transport_address)
      (rw (h.on_link, candidate-place p h.six h.in_range t.id room)
        (ground (
          arith,
          place-contained p h.six h.in_range (t.id + 1) (omega arith),
          place-contained p h.six h.in_range (t.id + 2) (omega arith),
        )))

-- With the server at the base of the transport range or one address after it, as the default transport
-- address puts it, two tunnels of an on-link upstream with different positive ids, both more than two
-- below the number of addresses in the range, have different addresses, and neither is the server's.
pub client_transport_address-distinct :
    (up : Upstream) (p : Prefix) (t u : Tunnel)
    → IsOnLink up p
    → server_place p ≤ 1
    → 0 < t.id
    → t.id + 2 < size p.bits
    → 0 < u.id
    → u.id + 2 < size p.bits
    → t.id ≢ u.id
    → (client_transport_address up t ≢ client_transport_address up u)
      × (client_transport_address up t ≢ some p.addr)
client_transport_address-distinct up p t u h low kt rt ku ru apart = (
  λ e. absurd (
      apart (
        ground (
          arith,
          client_transport_address-eq up p t h kt rt,
          client_transport_address-eq up p u h ku ru,
        ))),
  λ e. ground (arith, client_transport_address-eq up p t h kt rt, base-le p h.six h.in_range),
)

-- With the server at least two addresses after the base of the transport range and more than two before
-- the range's end, the tunnel whose place it takes and the next tunnel have one and the same address.
pub client_transport_address-collision :
    (up : Upstream) (p : Prefix) (t u : Tunnel)
    → IsOnLink up p
    → 1 < server_place p
    → server_place p + 2 < size p.bits
    → t.id + 1 ≡ server_place p
    → u.id ≡ server_place p
    → (client_transport_address up t ≡ client_transport_address up u)
      × (client_transport_address up t ≢ none)
client_transport_address-collision up p t u h high room et eu =
    let at = client_transport_address-eq up p t h (omega arith) (omega arith) in
    let au = client_transport_address-eq up p u h (omega arith) (omega arith) in
    (ground (arith, at, au), ground (arith, at))
