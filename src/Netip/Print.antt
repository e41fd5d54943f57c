-- ===== src/Netip/Print.antt =====
-- The String methods of netip.Addr and netip.Prefix, and decimal numbers as Go prints them.
use Prim.Native.String.{◌++◌}
use open_tunnelbroker.Prelude.{
  ℕ, zero, suc, ◌+◌, ◌*◌, ◌/◌, ◌%◌, ◌^◌, String, ◌&&◌, List, [], ◌∷◌, none, some, ◌==◌, ltb, leb,
  if◌then◌else◌, get_or, take, drop, ◌≡◌, refl,
}
use open_tunnelbroker.Netip.{Addr, Prefix, v4, v6}
use open_tunnelbroker.Netip.Text.{parse_addr, parse_prefix}

abbrev digits : List String
digits =
    "0" ∷ "1" ∷ "2" ∷ "3" ∷ "4" ∷ "5" ∷ "6" ∷ "7" ∷ "8" ∷ "9" ∷ "a" ∷ "b" ∷ "c" ∷ "d" ∷ "e" ∷ "f"
    ∷ []

-- A number in a base up to sixteen; the fuel bounds the number of digits.
in_base : ℕ → ℕ → ℕ → String
in_base base zero n = ""
in_base base (suc fuel) n =
    let high = in_base base fuel (n / base) in
    let low = get_or digits (n % base) "" in if ltb n base then low else high ++ low

-- strconv.Itoa on numbers of at most 64 bits, which have at most twenty digits.
unfoldable pub itoa : ℕ → String
unfolding in_base
itoa n = in_base 10 20 n

unfoldable pub hex : ℕ → String
unfolding in_base
hex n = in_base 16 4 n

dotted : ℕ → String
unfolding itoa
dotted n =
    itoa (n / 2 ^ 24 % 256)
    ++ "."
    ++ itoa (n / 2 ^ 16 % 256)
    ++ "."
    ++ itoa (n / 2 ^ 8 % 256)
    ++ "."
    ++ itoa (n % 256)

-- The eight groups of an IPv6 address.
groups_of : ℕ → ℕ → List ℕ
groups_of zero n = []
groups_of (suc k) n = n / 2 ^ (16 * k) % 65536 ∷ groups_of k n

-- The number of zero groups at the start.
zeros : List ℕ → ℕ
zeros [] = 0
zeros (g ∷ gs) = let rest = zeros gs in if g == 0 then suc rest else 0

-- The first longest run of two or more zero groups: its start and length.
longest : ℕ → ℕ × ℕ → List ℕ → ℕ × ℕ
unfolding zeros
longest at best [] = best
longest at (start, size) (g ∷ gs) =
    let run = zeros (g ∷ gs) in
    longest (at + 1) (if leb 2 run && ltb size run then (at, run) else (start, size)) gs

colons : List ℕ → String
unfolding hex
colons [] = ""
colons (g ∷ []) = hex g
colons (g ∷ h ∷ gs) = hex g ++ ":" ++ colons (h ∷ gs)

compressed : List ℕ → ℕ × ℕ → String
unfolding colons
compressed gs (start, size) =
    if size == 0
    then colons gs
    else colons (take start gs) ++ "::" ++ colons (drop (start + size) gs)

-- netip.Addr.String.
unfoldable pub addr_string : Addr → String
unfolding dotted groups_of longest compressed
addr_string a = elim a.family [
  | v4 ↦ dotted a.value
  | v6 ↦
      if a.value / 2 ^ 32 == 0xffff
      then "::ffff:" ++ dotted (a.value % 2 ^ 32)
      else let gs = groups_of 8 a.value in compressed gs (longest 0 (0, 0) gs)
]

-- netip.Prefix.String.
unfoldable pub prefix_string : Prefix → String
unfolding addr_string itoa
prefix_string p = addr_string p.addr ++ "/" ++ itoa p.bits

parse_documentation :
    parse_prefix "2001:db8::5/32"
    ≡ some (record {
      addr = record { family = v6; value = 0x20010db8000000000000000000000005 };
      bits = 32;
    })
unfolding parse_prefix
parse_documentation = refl

parse_default :
    parse_prefix "::/0" ≡ some (record { addr = record { family = v6; value = 0 }; bits = 0 })
unfolding parse_prefix
parse_default = refl

parse_mapped : parse_addr "::ffff:10.0.0.1" ≡ some (record { family = v6; value = 0xffff0a000001 })
unfolding parse_addr
parse_mapped = refl

parse_quad : parse_addr "10.99.0.255" ≡ some (record { family = v4; value = 0x0a6300ff })
unfolding parse_addr
parse_quad = refl

parse_leading_zero : parse_addr "10.99.00.1" ≡ none
unfolding parse_addr
parse_leading_zero = refl

parse_two_ellipses : parse_addr "2001::1::2" ≡ none
unfolding parse_addr
parse_two_ellipses = refl

print_documentation :
    prefix_string (record {
      addr = record { family = v6; value = 0x20010db8000000010000000000000100 };
      bits = 64;
    })
    ≡ "2001:db8:0:1::100/64"
unfolding prefix_string
print_documentation = refl
