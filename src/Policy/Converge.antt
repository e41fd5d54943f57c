-- ===== src/Policy/Converge.antt =====
-- network.go, reconcilePolicyRules: where the kernel's rules end, and what holds wherever it stops.
use open_tunnelbroker.Prelude.{
  Bool, true, false, not, ◌&&◌, ◌||◌, List, [], ◌∷◌, none, some, all, map, ◌≡◌, ◌⊎◌, refl, ◌∙◌, inl,
  inr, arith, Bool-cases, Option-cases,
}
use open_tunnelbroker.Netip.{Family, v4, v6, same_family}
use open_tunnelbroker.Policy.Rules.{
  holds_rule-cons, holds_rule-missing, holds_rule-collect, other_family,
}
use open_tunnelbroker.Policy.{
  PolicyRule, ListedRule, Answer, Netlink, rule_eq, holds_rule, missing, is_owned, policy_rule,
  collect, add_fails, del_fails, call_all, current_policy_rules, reconcile_policy_rules,
}

-- What is relied on of netlink, where `table s r` says whether the kernel holds a rule that reads as `r`:
-- a list holds the rules of its family, a call that succeeds, or finds its work done, adds or removes
-- the rule and nothing else, and a call that fails changes no rule. Two rules of the kernel do not read
-- alike, which it sees to for the rules that are added here.
pub record IsRuleTable {S : Type 0} (netlink : Netlink S) (table : S → PolicyRule → Bool)
    : Type 0 where
  pub listed :
      (f : Family) (s : S) (rules : List ListedRule) (r : PolicyRule)
      → netlink.rule_list f s ≡ some rules
      → same_family r.family f ≡ true
      → holds_rule (map (policy_rule f) rules) r ≡ table s r
  pub added :
      (r : PolicyRule) (s : S) (x : PolicyRule)
      → table (netlink.rule_add r s).1 x
        ≡ table s x || (not (add_fails (netlink.rule_add r s).0) && rule_eq x r)
  pub deleted :
      (r : PolicyRule) (s : S) (x : PolicyRule)
      → table (netlink.rule_del r s).1 x
        ≡ table s x && not (not (del_fails (netlink.rule_del r s).0) && rule_eq x r)

call_all-stop :
    {S : Type 0} (call : PolicyRule → S → Answer × S) (fails : Answer → Bool) (r : PolicyRule)
    (rs : List PolicyRule) (s : S)
    → fails (call r s).0 ≡ true
    → call_all call fails (r ∷ rs) s ≡ (false, (call r s).1)
unfolding call_all
call_all-stop call fails r rs s h = rw h refl

call_all-go :
    {S : Type 0} (call : PolicyRule → S → Answer × S) (fails : Answer → Bool) (r : PolicyRule)
    (rs : List PolicyRule) (s : S)
    → fails (call r s).0 ≡ false
    → call_all call fails (r ∷ rs) s ≡ call_all call fails rs (call r s).1
unfolding call_all
call_all-go call fails r rs s h = rw h refl

family_cases :
    (f : Family)
    → ((same_family f v4 ≡ true) × (same_family f v6 ≡ false))
      ⊎ ((same_family f v6 ≡ true) × (same_family f v4 ≡ false))
family_cases v4 = inl (refl, refl)
family_cases v6 = inr (refl, refl)

unread :
    {S : Type 0} (netlink : Netlink S) (desired : List PolicyRule) (s : S)
    → current_policy_rules netlink s ≡ none
    → reconcile_policy_rules netlink desired s ≡ (false, s)
unfolding reconcile_policy_rules
unread netlink desired s e = rw (e, reconcile_policy_rules) refl

module _ {S : Type 0} (netlink : Netlink S) (table : S → PolicyRule → Bool)
    (law : IsRuleTable netlink table) where
  -- What the additions leave: all rules on success, and in any case no rule less.
  adds :
      (rs : List PolicyRule) (s : S) (x : PolicyRule)
      → let after = call_all netlink.rule_add add_fails rs s in
        (after.0 ≡ true → table after.1 x ≡ table s x || holds_rule rs x)
        × (table s x ≡ true → table after.1 x ≡ true)
  adds [] s x = unfold call_all in unfold holds_rule in (λ h. ground arith, λ h. h)
  adds (r ∷ rs) s x =
      let next : S = (netlink.rule_add r s).1 in
      let change = law.added r s x in
      elim (Bool-cases (add_fails (netlink.rule_add r s).0)) [
        | inl bad ↦
            rw (call_all-stop netlink.rule_add add_fails r rs s bad)
              (λ h. ground arith, λ h. rw change (rw h refl))
        | inr good ↦
            let (all, kept) = adds rs next x in
            let changed : table next x ≡ table s x || rule_eq x r = change ∙ rw good refl in
            rw (call_all-go netlink.rule_add add_fails r rs s good) (
              λ h. all h ∙ ground (arith, changed, holds_rule-cons x r rs),
              λ h. kept (ground (arith, changed)),
            )
      ]

  -- What the deletions leave: none of the rules on success, and in any case all others.
  dels :
      (rs : List PolicyRule) (s : S) (x : PolicyRule)
      → let after = call_all netlink.rule_del del_fails rs s in
        (after.0 ≡ true → table after.1 x ≡ table s x && not (holds_rule rs x))
        × (holds_rule rs x ≡ false → table after.1 x ≡ table s x)
  dels [] s x = unfold call_all in unfold holds_rule in (λ h. ground arith, λ h. refl)
  dels (r ∷ rs) s x =
      let next : S = (netlink.rule_del r s).1 in
      let change = law.deleted r s x in
      elim (Bool-cases (del_fails (netlink.rule_del r s).0)) [
        | inl bad ↦
            let same : table next x ≡ table s x = change ∙ rw bad (ground arith) in
            rw (call_all-stop netlink.rule_del del_fails r rs s bad) (λ h. ground arith, λ h. same)
        | inr good ↦
            let (all, kept) = dels rs next x in
            let changed : table next x ≡ table s x && not (rule_eq x r) = change ∙ rw good refl in
            rw (call_all-go netlink.rule_del del_fails r rs s good) (
              λ h. all h ∙ ground (arith, changed, holds_rule-cons x r rs),
              λ h.
                  kept (ground (arith, h, holds_rule-cons x r rs))
                  ∙ ground (arith, changed, h, holds_rule-cons x r rs),
            )
      ]

  -- The rules that are read are the owned ones of the table.
  read-owned :
      (s : S) (fours sixes : List ListedRule) (x : PolicyRule)
      → netlink.rule_list v4 s ≡ some fours
      → netlink.rule_list v6 s ≡ some sixes
      → holds_rule (collect v6 sixes (collect v4 fours [])) x ≡ is_owned x && table s x
  read-owned s fours sixes x four six =
      let outer = holds_rule-collect v6 sixes (collect v4 fours []) x in
      let inner = holds_rule-collect v4 fours [] x in
      let empty : holds_rule [] x ≡ false = unfold holds_rule in refl in
      elim (family_cases x.family) [
        | inl (is, isnt) ↦ ground (
          arith,
          outer,
          inner,
          empty,
          law.listed v4 s fours x four is,
          other_family v6 sixes x isnt,
        )
        | inr (is, isnt) ↦ ground (
          arith,
          outer,
          inner,
          empty,
          law.listed v6 s sixes x six is,
          other_family v4 fours x isnt,
        )
      ]

  current-owned :
      (s : S) (existing : List PolicyRule) (x : PolicyRule)
      → current_policy_rules netlink s ≡ some existing
      → holds_rule existing x ≡ is_owned x && table s x
  unfolding current_policy_rules
  current-owned s existing x h = elim (Option-cases (netlink.rule_list v4 s)) [
    | inl e ↦ absurd (ground (arith, rw (e, current_policy_rules) at h))
    | inr (fours, four) ↦ elim (Option-cases (netlink.rule_list v6 s)) [
      | inl e ↦ absurd (ground (arith, rw (four, e, current_policy_rules) at h))
      | inr (sixes, six) ↦
          let same : collect v6 sixes (collect v4 fours []) ≡ existing =
            ground (arith, rw (four, six, current_policy_rules) at h) in
          rw (← same) (read-owned s fours sixes x four six)
    ]
  ]

  -- The loop of additions, and the loop of deletions after it.
  module _ (desired : List PolicyRule) (s : S) (existing : List PolicyRule)
      (read : current_policy_rules netlink s ≡ some existing) where
    abbrev added : Bool × S
    added = call_all netlink.rule_add add_fails (missing desired existing) s

    abbrev deleted : Bool × S
    deleted = call_all netlink.rule_del del_fails (missing existing desired) added.1

    reconcile-stop : added.0 ≡ false → reconcile_policy_rules netlink desired s ≡ added
    unfolding reconcile_policy_rules call_all
    reconcile-stop e = rw (read, reconcile_policy_rules) (rw e refl)

    reconcile-go : added.0 ≡ true → reconcile_policy_rules netlink desired s ≡ deleted
    unfolding reconcile_policy_rules call_all
    reconcile-go e = rw (read, reconcile_policy_rules) (rw e refl)

    facts :
        (x : PolicyRule)
        → (holds_rule existing x ≡ is_owned x && table s x)
          × (holds_rule (missing desired existing) x
              ≡ holds_rule desired x && not (holds_rule existing x))
          × (holds_rule (missing existing desired) x
              ≡ holds_rule existing x && not (holds_rule desired x))
    facts x = (
      current-owned s existing x read,
      holds_rule-missing x desired existing,
      holds_rule-missing x existing desired,
    )

    -- Where the deletions begin, and where they end.
    added-all :
        (x : PolicyRule) → added.0 ≡ true → table added.1 x ≡ table s x || holds_rule desired x
    added-all x e =
        let (owned, more, less) = facts x in
        let all = (adds (missing desired existing) s x).0 e in ground (arith, all, owned, more)

    deleted-keeps :
        (x : PolicyRule) → holds_rule desired x ≡ true → table deleted.1 x ≡ table added.1 x
    deleted-keeps x wanted =
        let (owned, more, less) = facts x in
        (dels (missing existing desired) added.1 x).1 (ground (arith, less, wanted))

  -- Wherever reconcilePolicyRules stops, with an error or without, a desired rule that the kernel held is
  -- still held; and if a rule that it held is gone, all desired rules are held.
  pub reconcile_policy_rules-keeps :
      (desired : List PolicyRule) (s : S) (wanted : PolicyRule)
      → holds_rule desired wanted ≡ true
      → let after = (reconcile_policy_rules netlink desired s).1 in
        (table s wanted ≡ true → table after wanted ≡ true)
        × ((x : PolicyRule) → table s x ≡ true → table after x ≡ false → table after wanted ≡ true)
  reconcile_policy_rules-keeps desired s wanted w =
      elim (Option-cases (current_policy_rules netlink s)) [
        | inl e ↦ rw (unread netlink desired s e) (λ h. h, λ x h g. absurd (ground (arith, h, g)))
        | inr (existing, read) ↦
            let more = missing desired existing in
            elim (Bool-cases (added desired s existing read).0) [
              | inl good ↦
                  let there = added-all desired s existing read wanted good in
                  let kept = deleted-keeps desired s existing read wanted w in
                  rw (reconcile-go desired s existing read good)
                    (λ h. kept ∙ ground (arith, there, w), λ x h g. kept ∙ ground (arith, there, w))
              | inr bad ↦
                  rw (reconcile-stop desired s existing read bad) (
                    (adds more s wanted).1,
                    λ x h g. absurd (ground (arith, (adds more s x).1 h, g)),
                  )
            ]
      ]
