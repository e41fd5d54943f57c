-- ===== src/Netip/Text.antt =====
-- netip.ParseAddr and netip.ParsePrefix, over the code points of the text. A text with a zone is
-- refused, as ParsePrefix does.
use open_tunnelbroker.Prelude.{
  ℕ, zero, suc, ◌+◌, ◌-◌, ◌*◌, ◌/◌, ◌%◌, String, Bool, true, false, not, ◌&&◌, ◌||◌, List, [], ◌∷◌,
  ◌++◌, Option, none, some, ◌==◌, ltb, leb, if◌then◌else◌, length, take, drop, replicate, codes,
}
use open_tunnelbroker.Netip.{Addr, Prefix, Family, v4, v6, bit_len}

infixl 5 ◌>>=◌
abbrev ◌>>=◌ {ℓ κ} : {A : Type ℓ} {B : Type κ} → Option A → (A → Option B) → Option B
none >>= f = none
some a >>= f = f a

is_digit : ℕ → Bool
is_digit c = leb b'0' c && leb c b'9'

-- The value of a hexadecimal digit.
hex_value : ℕ → Option ℕ
hex_value c =
    if leb b'0' c && leb c b'9'
    then some (c - b'0')
    else if leb b'a' c && leb c b'f'
    then some (c - b'a' + 10)
    else if leb b'A' c && leb c b'F'
    then some (c - b'A' + 10)
    else none

-- The number that decimal digits write, `none` at any other character.
decimal : ℕ → List ℕ → Option ℕ
unfolding is_digit
decimal acc [] = some acc
decimal acc (c ∷ s) = if is_digit c then decimal (acc * 10 + (c - b'0')) s else none

-- The text up to the first `sep`, and what follows it.
cut : ℕ → List ℕ → List ℕ × Option (List ℕ)
cut sep [] = ([], none)
cut sep (c ∷ s) =
    let (before, after) = cut sep s in if c == sep then ([], some s) else (c ∷ before, after)

-- A field of a dotted quad: no leading zero, at most 255.
octet : List ℕ → Option ℕ
unfolding decimal
octet [] = none
octet (c ∷ s) =
    if c == b'0' && ltb 0 (length s)
    then none
    else do n ← decimal 0 (c ∷ s); if leb n 255 then some n else none

-- parseIPv4Fields: four octets and nothing more.
quad : ℕ → ℕ → List ℕ → Option ℕ
unfolding octet cut
quad zero acc s = do n ← octet s; some (acc * 256 + n)
quad (suc more) acc s =
    let (field, rest) = cut b'.' s in
    do n ← octet field; after ← rest; quad more (acc * 256 + n) after

-- The leading hexadecimal digits: their number and value, and the rest.
hex_field : ℕ → ℕ → List ℕ → ℕ × ℕ × List ℕ
unfolding hex_value
hex_field count acc [] = (count, acc, [])
hex_field count acc (c ∷ s) = elim (hex_value c) [
  | none ↦ (count, acc, c ∷ s)
  | some d ↦ hex_field (count + 1) (acc * 16 + d) s
]

-- Where parseIPv6 stands: the groups read, the place of `::`, the text left.
pub record Scan : Type 0 where
  pub groups : List ℕ
  pub ellipsis : Option ℕ
  pub rest : List ℕ

-- What follows a group: the end, one colon, or `::`. The flag says whether to read on.
separator : Scan → Option (Bool × Scan)
separator scan = elim scan.rest [
  | [] ↦ some (false, scan)
  | c ∷ [] ↦ none
  | c ∷ d ∷ s ↦
      if not (c == b':')
      then none
      else if not (d == b':')
      then some (true, record scan { rest = d ∷ s })
      else elim scan.ellipsis [
        | some _ ↦ none
        | none ↦
            let here = record scan { ellipsis = some (length scan.groups); rest = s } in
            elim s [ [] ↦ some (false, here) | e ∷ t ↦ some (true, here) ]
      ]
]

-- An embedded IPv4 address must be the last 32 bits.
embedded : Scan → Option Scan
unfolding quad
embedded scan =
    let there = length scan.groups in
    let misplaced : Bool = elim scan.ellipsis [ none ↦ not (there == 6) | some _ ↦ false ] in
    if misplaced || ltb 6 there then none else do
      n ← quad 3 0 scan.rest
      some (record scan { groups = scan.groups ++ (n / 65536) ∷ (n % 65536) ∷ []; rest = [] })

-- The loop of parseIPv6, over at most eight groups.
groups_loop : ℕ → Scan → Option Scan
unfolding hex_field separator embedded
groups_loop zero scan = some scan
groups_loop (suc more) scan =
    let (count, value, after) = hex_field 0 0 scan.rest in
    if count == 0 || ltb 4 count then none else elim (starts_dot after) [
      | true ↦ embedded scan
      | false ↦ do
        (again, next) ← separator (record scan { groups = scan.groups ++ value ∷ []; rest = after })
        elim again [ true ↦ groups_loop more next | false ↦ some next ]
    ]
  where
    starts_dot : List ℕ → Bool
    starts_dot [] = false
    starts_dot (c ∷ s) = c == b'.'

-- The groups with `::` filled in; eight of them.
expand : Scan → Option (List ℕ)
expand scan = elim scan.rest [
  | c ∷ s ↦ none
  | [] ↦ elim scan.ellipsis [
    | none ↦ if length scan.groups == 8 then some scan.groups else none
    | some k ↦
        if ltb (length scan.groups) 8
        then some
            (take k scan.groups ++ (replicate (8 - length scan.groups) 0 ++ drop k scan.groups))
        else none
  ]
]

number_of : ℕ → List ℕ → ℕ
number_of acc [] = acc
number_of acc (g ∷ gs) = number_of (acc * 65536 + g) gs

-- parseIPv6.
parse6 : List ℕ → Option ℕ
unfolding groups_loop expand number_of
parse6 s = do scan ← start s; groups ← expand scan; some (number_of 0 groups)
  where
    fresh : Option ℕ → List ℕ → Scan
    fresh at rest = record { groups = []; ellipsis = at; rest = rest }

    start : List ℕ → Option Scan
    start (c ∷ d ∷ t) =
        if c == b':' && d == b':'
        then elim t [
          | [] ↦ some (fresh (some 0) [])
          | e ∷ r ↦ groups_loop 8 (fresh (some 0) (e ∷ r))
        ]
        else groups_loop 8 (fresh none (c ∷ d ∷ t))
    start t = groups_loop 8 (fresh none t)

-- The first of `.`, `:` and `%` decides the family.
family_of : List ℕ → Option Family
family_of [] = none
family_of (c ∷ s) =
    if c == b'.'
    then some v4
    else if c == b':'
    then some v6
    else if c == b'%'
    then none
    else family_of s

parse_codes : List ℕ → Option Addr
unfolding family_of quad parse6
parse_codes s = do
  family ← family_of s
  elim family [
    | v4 ↦ do n ← quad 3 0 s; some (record { family = v4; value = n })
    | v6 ↦ do n ← parse6 s; some (record { family = v6; value = n })
  ]

-- netip.ParseAddr.
unfoldable pub parse_addr : String → Option Addr
unfolding parse_codes
parse_addr text = parse_codes (codes text)

-- The text before the last `/`, and what follows it.
cut_last : List ℕ → Option (List ℕ × List ℕ)
cut_last [] = none
cut_last (c ∷ s) = elim (cut_last s) [
  | some (before, after) ↦ some (c ∷ before, after)
  | none ↦ if c == b'/' then some ([], s) else none
]

-- The length after the slash: no sign and no leading zero.
length_of : List ℕ → Option ℕ
unfolding decimal
length_of [] = none
length_of (c ∷ []) = decimal 0 (c ∷ [])
length_of (c ∷ d ∷ s) = if leb b'1' c && leb c b'9' then decimal 0 (c ∷ d ∷ s) else none

-- netip.ParsePrefix.
unfoldable pub parse_prefix : String → Option Prefix
unfolding cut_last parse_codes length_of
parse_prefix text = do
  (before, after) ← cut_last (codes text)
  address ← parse_codes before
  n ← length_of after
  if leb n (bit_len address.family) then some (record { addr = address; bits = n }) else none
