-- ===== src/Policy/Tests.antt =====
-- The theorems on policy rules, on a kernel that holds a stale rule, a desired one and another's, and
-- whose state is the list of its rules.
use open_tunnelbroker.Prelude.{
  ℕ, true, false, not, ◌&&◌, ◌||◌, List, [], ◌∷◌, some, map, ◌≡◌, refl, ap, inl, inr, arith,
  Bool-cases, if◌then◌else◌,
}
use open_tunnelbroker.Netip.{Family, v4, v6, same_family}
use open_tunnelbroker.Policy.{
  PolicyRule, ListedRule, Netlink, done, rule_eq, holds_rule, policy_rule, add_fails, del_fails,
  reconcile_policy_rules,
}
use open_tunnelbroker.Policy.Rules.{rule_eq-path, rule_eq-left, holds_rule-cons}
use open_tunnelbroker.Policy.Converge.{IsRuleTable, reconcile_policy_rules-keeps}

abbrev listed : PolicyRule → ListedRule
listed r = record { priority = r.priority; table = r.table; source = r.source; dest = r.dest }

list_family : Family → List PolicyRule → List ListedRule
list_family f [] = []
list_family f (r ∷ rules) =
    let rest = list_family f rules in if same_family r.family f then listed r ∷ rest else rest

remove_rule : PolicyRule → List PolicyRule → List PolicyRule
remove_rule rule [] = []
remove_rule rule (r ∷ rules) =
    let rest = remove_rule rule rules in if rule_eq r rule then rest else r ∷ rest

abbrev kernel : Netlink (List PolicyRule)
kernel = record {
  rule_list = λ f rules. some (list_family f rules);
  rule_add = λ r rules. (done, r ∷ rules);
  rule_del = λ r rules. (done, remove_rule r rules);
}

abbrev rule : ℕ → ℕ → PolicyRule
rule priority n = record {
  family = v6;
  priority = priority;
  table = n;
  source = "2001:db8::/48";
  dest = "";
}

abbrev desired : List PolicyRule
desired = rule 110 52001 ∷ rule 110 52002 ∷ []

abbrev rules : List PolicyRule
rules = rule 110 52003 ∷ rule 110 52001 ∷ rule 5 254 ∷ []

families : (a f t : Family) → same_family a f ≡ true → same_family a t ≡ same_family t f
families v4 v4 v4 h = refl
families v4 v4 v6 h = refl
families v6 v6 v4 h = refl
families v6 v6 v6 h = refl
families v4 v6 t h = ground arith
families v6 v4 t h = ground arith

read_family :
    (r t : PolicyRule) (f : Family)
    → same_family r.family f ≡ true
    → rule_eq r t ≡ same_family t.family f && rule_eq r (policy_rule f (listed t))
unfolding rule_eq policy_rule
read_family r t f h = rw (families r.family f t.family h, h) refl

kernel-listed :
    (f : Family) (rules : List PolicyRule) (r : PolicyRule)
    → same_family r.family f ≡ true
    → holds_rule (map (policy_rule f) (list_family f rules)) r ≡ holds_rule rules r
unfolding list_family
kernel-listed f [] r h = refl
kernel-listed f (t ∷ rules) r h = elim (Bool-cases (same_family t.family f)) [
  | inl e ↦ rw e (
      ground (
        arith,
        kernel-listed f rules r h,
        read_family r t f h,
        e,
        holds_rule-cons r t rules,
        holds_rule-cons r (policy_rule f (listed t)) (map (policy_rule f) (list_family f rules)),
      ))
  | inr e ↦
      rw e (
        ground
          (arith, kernel-listed f rules r h, read_family r t f h, e, holds_rule-cons r t rules))
]

kernel-deleted :
    (r : PolicyRule) (rules : List PolicyRule) (x : PolicyRule)
    → holds_rule (remove_rule r rules) x ≡ holds_rule rules x && not (rule_eq x r)
unfolding holds_rule remove_rule
kernel-deleted r [] x = refl
kernel-deleted r (t ∷ rules) x = elim (Bool-cases (rule_eq t r)) [
  | inl e ↦ rw e (ground (arith, kernel-deleted r rules x, same e))
  | inr e ↦ rw e (ground (arith, kernel-deleted r rules x, rule_eq-left x r t))
]
  where
    same : rule_eq t r ≡ true → rule_eq x t ≡ rule_eq x r
    same h = ap (rule_eq x) (rule_eq-path t r h)

kernel-added :
    (r : PolicyRule) (rules : List PolicyRule) (x : PolicyRule)
    → holds_rule (r ∷ rules) x ≡ holds_rule rules x || (not (add_fails done) && rule_eq x r)
unfolding add_fails
kernel-added r rules x = ground (arith, holds_rule-cons x r rules)

kernel-IsRuleTable : IsRuleTable kernel holds_rule
unfolding add_fails del_fails
kernel-IsRuleTable = record {
  listed = λ f rules ls r read h.
      let e : list_family f rules ≡ ls = ground arith in rw (← e) (kernel-listed f rules r h);
  added = λ r rules x. kernel-added r rules x;
  deleted = λ r rules x. kernel-deleted r rules x;
}

wanted : holds_rule desired (rule 110 52001) ≡ true
unfolding holds_rule rule_eq
wanted = refl

reconcile_policy_rules-keeps_example :
    (holds_rule rules (rule 110 52001) ≡ true
      → holds_rule (reconcile_policy_rules kernel desired rules).1 (rule 110 52001) ≡ true)
    × ((x : PolicyRule)
        → holds_rule rules x ≡ true
        → holds_rule (reconcile_policy_rules kernel desired rules).1 x ≡ false
        → holds_rule (reconcile_policy_rules kernel desired rules).1 (rule 110 52001) ≡ true)
reconcile_policy_rules-keeps_example =
    reconcile_policy_rules-keeps kernel holds_rule kernel-IsRuleTable desired rules (rule 110 52001)
      wanted
