-- ===== src/Netip/Class.antt =====
-- The classes of netip.Addr: loopback, multicast, link-local, private, global unicast. All but
-- IsGlobalUnicast look through an IPv4-mapped IPv6 address.
use open_tunnelbroker.Prelude.{◌-◌, ◌/◌, ◌%◌, ◌^◌, Bool, not, ◌&&◌, ◌||◌, ◌==◌, if◌then◌else◌}
use open_tunnelbroker.Netip.{Addr, v4, v6}

-- Addr.Unmap.
unfoldable pub unmap : Addr → Addr
unmap a = elim a.family [
  | v4 ↦ a
  | v6 ↦ if a.value / 2 ^ 32 == 0xffff then record { family = v4; value = a.value % 2 ^ 32 } else a
]

unfoldable pub is_loopback : Addr → Bool
unfolding unmap
is_loopback a =
    let b = unmap a in elim b.family [ v4 ↦ b.value / 2 ^ 24 == 127 | v6 ↦ b.value == 1 ]

unfoldable pub is_multicast : Addr → Bool
unfolding unmap
is_multicast a =
    let b = unmap a in
    elim b.family [ v4 ↦ b.value / 2 ^ 28 == 0xe | v6 ↦ b.value / 2 ^ 120 == 0xff ]

unfoldable pub is_link_local_unicast : Addr → Bool
unfolding unmap
is_link_local_unicast a =
    let b = unmap a in
    elim b.family [ v4 ↦ b.value / 2 ^ 16 == 0xa9fe | v6 ↦ b.value / 2 ^ 118 == 0x3fa ]

unfoldable pub is_private : Addr → Bool
unfolding unmap
is_private a =
    let b = unmap a in
    elim b.family [
      | v4 ↦ b.value / 2 ^ 24 == 10 || b.value / 2 ^ 20 == 0xac1 || b.value / 2 ^ 16 == 0xc0a8
      | v6 ↦ b.value / 2 ^ 121 == 0x7e
    ]

unfoldable pub is_global_unicast : Addr → Bool
unfolding is_loopback is_multicast is_link_local_unicast
is_global_unicast a =
    let excluded : Bool = elim a.family [
      | v4 ↦ a.value == 0 || a.value == 2 ^ 32 - 1
      | v6 ↦ a.value == 0
    ] in
    not excluded && not (is_loopback a) && not (is_multicast a) && not (is_link_local_unicast a)
