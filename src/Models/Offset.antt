-- ===== src/Models/Offset.antt =====
-- offsetAddr in models.go: its byte loop adds as a 128-bit number.
use native.Mathlib.Nat.{pow-suc}
use open_tunnelbroker.Prelude.{
  ℕ, ◌+◌, ◌*◌, ◌/◌, ◌%◌, ◌^◌, ◌<◌, ◌≡◌, ap, inl, inr, List, [], ◌∷◌, All, length, arith, Bool-cases,
  ◌==◌,
}
use open_tunnelbroker.Netip.{v6, number_le, number_le-as16, as16, as16_bytes, addr_from16}
use open_tunnelbroker.Models.{offset_bytes, offset_addr}

abbrev AreBytes : List ℕ → Type 0
AreBytes = All (λ b. b < 256)

number_le-lt : (bs : List ℕ) → AreBytes bs → number_le bs < 256 ^ length bs
unfolding number_le
number_le-lt [] h = omega arith
number_le-lt (b ∷ bs) h = omega (arith, h.0, number_le-lt bs h.1, pow-suc 256 (length bs))

-- The bytes hold the sum less what is carried out of the top.
Carried : List ℕ → ℕ → Type 0
Carried bs c =
    (k : ℕ) × (number_le (offset_bytes bs c) + k * 256 ^ length bs ≡ number_le bs + c)
    × (number_le (offset_bytes bs c) < 256 ^ length bs)

offset_bytes-Carried : (bs : List ℕ) (c : ℕ) → AreBytes bs → Carried bs c
unfolding Carried number_le offset_bytes
offset_bytes-Carried [] c h = (c, omega arith, omega arith)
offset_bytes-Carried (b ∷ bs) c h = elim (Bool-cases (c == 0)) [
  | inl e ↦ rw e (0, ground arith, omega (arith, h.0, number_le-lt bs h.1, pow-suc 256 (length bs)))
  | inr e ↦
      let (k, eq, lt) = offset_bytes-Carried bs (c / 256 + (b + c % 256) / 256) h.1 in
      let wide = pow-suc 256 (length bs) in
      rw e (k, omega (arith, eq, wide, ap (λ (x : ℕ). k * x) wide), omega (arith, lt, wide))
]

-- offsetAddr adds the offset to an IPv6 address modulo 2^128, whatever carries the byte loop makes.
pub offset_addr-value :
    (v n : ℕ)
    → v < 2 ^ 128
    → offset_addr (record { family = v6; value = v }) n
      ≡ record { family = v6; value = (v + n) % 2 ^ 128 }
unfolding offset_addr addr_from16 Carried
offset_addr-value v n h =
    let bytes = as16 (record { family = v6; value = v }) in
    let (small, sixteen) = as16_bytes v in
    let (k, eq, lt) = offset_bytes-Carried bytes n small in
    ap (λ (x : ℕ). record { family = v6; value = x })
      (wrap (number_le (offset_bytes bytes n)) k (number_le-as16 v h) (rw sixteen at eq)
        (rw sixteen at lt))
  where
    wrap :
        {w : ℕ} (r k : ℕ) → w ≡ v → r + k * 256 ^ 16 ≡ w + n → r < 256 ^ 16 → r ≡ (v + n) % 2 ^ 128
    wrap r k e eq lt = omega arith
