-- ===== src/Netip.antt =====
-- The part of Go's net/netip that the broker computes with: addresses as a family and a number,
-- prefixes as an address and a length, and masking, containment and succession on them. Scoped
-- addresses (zones) are left out: the broker stores and compares none.
pub mod Text
pub mod Print
pub mod Class
use open_tunnelbroker.Prelude.{
  ℕ, zero, suc, ◌+◌, ◌-◌, ◌*◌, ◌/◌, ◌%◌, ◌^◌, ◌≤◌, ◌<◌, ◌≡◌, List, [], ◌∷◌, arith, All, length,
  refl, Bool, true, false, ◌&&◌, ◌||◌, ◌==◌, ltb, leb, if◌then◌else◌,
}

pub data Family : Type 0 where
  v4 v6 : Family

-- netip.Addr; an IPv4-mapped IPv6 address is of family v6, as `Is6` has it.
pub record Addr : Type 0 where
  pub family : Family
  pub value : ℕ

-- netip.Prefix, valid: the length is at most the family's.
pub record Prefix : Type 0 where
  pub addr : Addr
  pub bits : ℕ

abbrev pub bit_len : Family → ℕ
bit_len v4 = 32
bit_len v6 = 128

abbrev pub is4 : Addr → Bool
is4 a = elim a.family [ v4 ↦ true | v6 ↦ false ]

abbrev pub is6 : Addr → Bool
is6 a = elim a.family [ v4 ↦ false | v6 ↦ true ]

abbrev pub same_family : Family → Family → Bool
same_family v4 v4 = true
same_family v6 v6 = true
same_family _ _ = false

-- `==` on netip.Addr.
abbrev pub addr_eq : Addr → Addr → Bool
addr_eq a b = same_family a.family b.family && a.value == b.value

-- `==` on netip.Prefix.
abbrev pub prefix_eq : Prefix → Prefix → Bool
prefix_eq p q = addr_eq p.addr q.addr && p.bits == q.bits

-- The number of host bits below a prefix.
abbrev pub host_bits : Prefix → ℕ
host_bits p = bit_len p.addr.family - p.bits

-- What `ParsePrefix` and `PrefixFrom` give: no longer than the family's addresses.
abbrev pub IsValid : Prefix → Type 0
IsValid p = p.bits ≤ bit_len p.addr.family

-- Prefix.Masked.
unfoldable pub masked : Prefix → Prefix
masked p = record p {
  addr = record {
    family = p.addr.family;
    value = p.addr.value / 2 ^ host_bits p * 2 ^ host_bits p;
  };
}

-- Prefix.Contains: same family, and the same bits above the host part.
unfoldable pub contains : Prefix → Addr → Bool
contains p a =
    same_family p.addr.family a.family
    && (a.value / 2 ^ host_bits p == p.addr.value / 2 ^ host_bits p)

-- Addr.Next. After the family's last address Go returns the invalid address; here the number leaves
-- the family's range, and no prefix of valid addresses contains it either.
unfoldable pub next : Addr → Addr
next a = record a { value = a.value + 1 }

-- Addr.Less on two addresses: IPv4 before IPv6, then by number.
unfoldable pub addr_less : Addr → Addr → Bool
addr_less a b = elim a.family [
  | v4 ↦ elim b.family [ v4 ↦ ltb a.value b.value | v6 ↦ true ]
  | v6 ↦ elim b.family [ v4 ↦ false | v6 ↦ ltb a.value b.value ]
]

-- The IPv6 prefix with this number and length.
abbrev pub prefix6 : ℕ → ℕ → Prefix
prefix6 v b = record { addr = record { family = v6; value = v }; bits = b }

-- Addr.As16, lowest byte first; an IPv4 address is taken as its IPv4-mapped form.
bytes_le : ℕ → ℕ → List ℕ
bytes_le zero n = []
bytes_le (suc k) n = n % 256 ∷ bytes_le k (n / 256)

unfoldable pub as16 : Addr → List ℕ
unfolding bytes_le
as16 a = bytes_le 16 (elim a.family [ v4 ↦ a.value + 0xffff * 2 ^ 32 | v6 ↦ a.value ])

-- The number that bytes write, lowest byte first.
unfoldable pub number_le : List ℕ → ℕ
number_le [] = 0
number_le (b ∷ bs) = b + 256 * number_le bs

-- netip.AddrFrom16, of bytes with the lowest first.
unfoldable pub addr_from16 : List ℕ → Addr
addr_from16 bs = record { family = v6; value = number_le bs }

pub number_le-as16 :
    (v : ℕ) → v < 2 ^ 128 → number_le (as16 (record { family = v6; value = v })) ≡ v
unfolding number_le as16
number_le-as16 v h = omega arith

-- `as16` gives sixteen bytes.
pub as16_bytes :
    (v : ℕ)
    → All (λ b. b < 256) (as16 (record { family = v6; value = v }))
      × (length (as16 (record { family = v6; value = v })) ≡ 16)
unfolding as16
as16_bytes v = (omega arith, refl)
