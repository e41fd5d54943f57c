-- ===== src/Prelude/Powers.antt =====
-- Powers of two and division by them, at variable exponents.
use Prim.Native.Nat.{ℕ, zero, suc, ◌+◌, ◌-◌, ◌*◌, ◌/◌, ◌^◌, ◌≤◌, ◌<◌}
use mathlib.Core.Path.{◌≡◌, sym, ap, ◌∙◌}
use native.Mathlib.Omega.{arith}
use native.Mathlib.Nat.{pow-suc, pow-zero, one-le-pow, div-div-eq-div-mul, add-zero}
use native.Mathlib.Numerals.{add-one}

pub pow-pos : (n : ℕ) → 0 < 2 ^ n
pow-pos n = one-le-pow n 2 (omega arith)

pub pow_double : (n : ℕ) → 2 ^ (n + 1) ≡ 2 * 2 ^ n
pow_double n = rw add-one (omega (arith, pow-suc 2 n))

pub pow-add : (n m : ℕ) → 2 ^ (n + m) ≡ 2 ^ n * 2 ^ m
pow-add n zero = rw (add-zero, pow-zero) (omega arith)
pow-add n (suc m) =
    let e : n + suc m ≡ suc (n + m) = omega arith in
    rw e (grind (arith, pow-suc 2 (n + m), pow-suc 2 m, pow-add n m))

-- Dropping `a` low bits and then `b` more drops `a + b`.
pub div-pow : (x a b : ℕ) → x / 2 ^ a / 2 ^ b ≡ x / 2 ^ (a + b)
div-pow x a b = rw pow-add (div-div-eq-div-mul x (2 ^ a) (2 ^ b))

-- Numbers that agree above bit `a` agree above every higher bit.
pub div-pow_mono : (x y a c : ℕ) → a ≤ c → x / 2 ^ a ≡ y / 2 ^ a → x / 2 ^ c ≡ y / 2 ^ c
div-pow_mono x y a c h e =
    let split : a + (c - a) ≡ c = omega arith in
    rw (← split)
      (sym (div-pow x a (c - a)) ∙ ap (λ (q : ℕ). q / 2 ^ (c - a)) e ∙ div-pow y a (c - a))
