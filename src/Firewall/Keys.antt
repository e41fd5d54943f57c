-- ===== src/Firewall/Keys.antt =====
-- firewall.go, sortedKeys: the keys of a map, as a list in the order of `sort.Strings` that insertion
-- keeps sorted and without repetition.
use open_tunnelbroker.Prelude.{
  ℕ, String, Bool, true, false, ◌||◌, ◌&&◌, List, [], ◌∷◌, ◌==◌, ltb, str_eq, if◌then◌else◌, any,
  codes, ◌≡◌, arith, eq_iff,
}

-- The order of UTF-8 texts by bytes is that of their code points.
unfoldable pub codes_less : List ℕ → List ℕ → Bool
codes_less [] [] = false
codes_less [] (d ∷ ds) = true
codes_less (c ∷ cs) [] = false
codes_less (c ∷ cs) (d ∷ ds) = ltb c d || (c == d && codes_less cs ds)

unfoldable pub insert_key : String → List String → List String
insert_key name [] = name ∷ []
insert_key name (key ∷ keys) =
    let rest = insert_key name keys in
    if str_eq name key
    then key ∷ keys
    else if codes_less (codes name) (codes key)
    then name ∷ key ∷ keys
    else key ∷ rest

-- The keys are those of before and the inserted one.
pub any-insert_key :
    (p : String → Bool) (name : String) (keys : List String)
    → any p (insert_key name keys) ≡ p name || any p keys
unfolding insert_key
any-insert_key p name [] = ground arith
any-insert_key p name (key ∷ keys) = ground (arith, any-insert_key p name keys, eq_iff name key)
