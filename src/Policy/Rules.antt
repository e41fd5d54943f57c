-- ===== src/Policy/Rules.antt =====
-- network.go, policyRule: sets of rules, and the set that currentPolicyRules reads.
use open_tunnelbroker.Prelude.{
  true, false, not, ◌&&◌, ◌||◌, List, [], ◌∷◌, map, ◌≡◌, refl, ap, inl, inr, arith, eq_iff,
  Bool-cases, if◌then◌else◌,
}
use open_tunnelbroker.Netip.{Family, same_family}
use open_tunnelbroker.Policy.{
  PolicyRule, ListedRule, rule_eq, holds_rule, missing, is_owned, policy_rule, collect,
}

pub rule_eq-path : (r s : PolicyRule) → rule_eq r s ≡ true → r ≡ s
unfolding rule_eq
rule_eq-path r s h = ground (arith, eq_iff r.source s.source, eq_iff r.dest s.dest)

pub rule_eq-left : (r s t : PolicyRule) → rule_eq r t ≡ true → rule_eq r s ≡ rule_eq t s
rule_eq-left r s t h = ap (λ x. rule_eq x s) (rule_eq-path r t h)

pub holds_rule-cons :
    (r t : PolicyRule) (rules : List PolicyRule)
    → holds_rule (t ∷ rules) r ≡ rule_eq r t || holds_rule rules r
unfolding holds_rule
holds_rule-cons r t rules = refl

pub holds_rule-missing :
    (r : PolicyRule) (rules others : List PolicyRule)
    → holds_rule (missing rules others) r ≡ holds_rule rules r && not (holds_rule others r)
unfolding missing
holds_rule-missing r [] others = unfold holds_rule in refl
holds_rule-missing r (t ∷ rules) others = elim (Bool-cases (holds_rule others t)) [
  | inl e ↦
      rw e (ground (arith, holds_rule-missing r rules others, same, e, holds_rule-cons r t rules))
  | inr e ↦ rw e (
      ground (
        arith,
        holds_rule-missing r rules others,
        same,
        e,
        holds_rule-cons r t rules,
        holds_rule-cons r t (missing rules others),
      ))
]
  where
    same : rule_eq r t ≡ true → holds_rule others r ≡ holds_rule others t
    same h = ap (holds_rule others) (rule_eq-path r t h)

is_owned-eq : (r s : PolicyRule) → rule_eq r s ≡ true → is_owned r ≡ is_owned s
is_owned-eq r s h = ap is_owned (rule_eq-path r s h)

holds_rule-equal :
    (rules : List PolicyRule) (r t : PolicyRule)
    → rule_eq r t ≡ true
    → holds_rule rules r ≡ holds_rule rules t
holds_rule-equal rules r t h = ap (holds_rule rules) (rule_eq-path r t h)

pub holds_rule-collect :
    (f : Family) (rules : List ListedRule) (current : List PolicyRule) (r : PolicyRule)
    → holds_rule (collect f rules current) r
      ≡ holds_rule current r || (is_owned r && holds_rule (map (policy_rule f) rules) r)
unfolding collect
holds_rule-collect f [] current r = unfold holds_rule in ground arith
holds_rule-collect f (l ∷ rules) current r =
    let t = policy_rule f l in
    let step =
      holds_rule-collect f rules
        (if not (is_owned t) || holds_rule current t then current else t ∷ current) r in
    ground (
      arith,
      step,
      holds_rule-cons r t current,
      holds_rule-cons r t (map (policy_rule f) rules),
      is_owned-eq r t,
      holds_rule-equal current r t,
    )

pub other_family :
    (f : Family) (rules : List ListedRule) (r : PolicyRule)
    → same_family r.family f ≡ false
    → holds_rule (map (policy_rule f) rules) r ≡ false
unfolding holds_rule
other_family f [] r h = refl
other_family f (l ∷ rules) r h =
    let rest = other_family f rules r h in
    let here : rule_eq r (policy_rule f l) ≡ false =
      unfold rule_eq in unfold policy_rule in rw h refl in
    rw (here, rest) refl
