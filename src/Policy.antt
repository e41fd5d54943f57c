-- ===== src/Policy.antt =====
-- internal/broker/network.go, policy routing: the rules that a host with several upstreams should have,
-- and how the kernel's rules are brought there. Rules are read and written through netlink, whose calls are
-- a parameter. A set of rules is a list in the order of its iteration.
pub mod Rules
pub mod Converge
mod Tests
use open_tunnelbroker.Prelude.{
  ℕ, ◌+◌, String, Bool, true, false, not, ◌&&◌, ◌||◌, List, [], ◌∷◌, ◌++◌, Option, none, some, ◌==◌,
  ltb, length, str_eq, if◌then◌else◌, any, map,
}
use open_tunnelbroker.Netip.{Prefix, Family, v4, v6, same_family, is4, masked}
use open_tunnelbroker.Netip.Text.{parse_prefix, parse_addr}
use open_tunnelbroker.Netip.Print.{prefix_string}
use open_tunnelbroker.Models.{
  Settings, Upstream, Tunnel, delegated_prefix, transport_prefix, upstream_by_id, tunnel_v4_mode,
  v4_mode_native,
}

abbrev pub inter_upstream_rule_priority : ℕ
inter_upstream_rule_priority = 80

abbrev pub upstream_rule_priority : ℕ
upstream_rule_priority = 110

abbrev pub main_route_table : ℕ
main_route_table = 254

-- upstreamRouteTable, on the base of the tables.
unfoldable pub upstream_route_table : Upstream → ℕ
upstream_route_table up = 52000 + up.id

-- netlink.FAMILY_V4 and FAMILY_V6 are AF_INET and AF_INET6; only their difference counts here.
pub record PolicyRule : Type 0 where
  pub family : Family
  pub priority : ℕ
  pub table : ℕ
  pub source : String
  pub dest : String

unfoldable pub rule_family : Prefix → Family
rule_family prefix = if is4 prefix.addr then v4 else v6

-- The destinations that stay on the main table, of the upstreams.
unfoldable pub local_prefixes : List Upstream → List Prefix
local_prefixes [] = []
local_prefixes (upstream ∷ upstreams) =
    let delegated : List Prefix = elim (delegated_prefix upstream) [
      | none ↦ []
      | some p ↦ p ∷ []
    ] in
    let transport : List Prefix = elim (transport_prefix upstream) [
      | none ↦ []
      | some p ↦ masked p ∷ []
    ] in
    delegated ++ (transport ++ local_prefixes upstreams)

unfoldable pub pool_prefix : Settings → List Prefix
pool_prefix cfg = elim (parse_prefix cfg.v4_pool) [
  | none ↦ []
  | some pool ↦ if is4 pool.addr then masked pool ∷ [] else []
]

unfoldable pub local_rule : Prefix → PolicyRule
local_rule destination = record {
  family = rule_family destination;
  priority = inter_upstream_rule_priority;
  table = main_route_table;
  source = "";
  dest = prefix_string destination;
}

unfoldable pub source_rule : Family → Upstream → Prefix → PolicyRule
source_rule family upstream prefix = record {
  family = family;
  priority = upstream_rule_priority;
  table = upstream_route_table upstream;
  source = prefix_string prefix;
  dest = "";
}

unfoldable pub upstream_rules : List Upstream → List PolicyRule
upstream_rules [] = []
upstream_rules (upstream ∷ upstreams) = elim (delegated_prefix upstream) [
  | none ↦ upstream_rules upstreams
  | some prefix ↦ source_rule v6 upstream prefix ∷ upstream_rules upstreams
]

-- The rule for a tunnel's internal IPv4 address, if it has one and egresses natively.
unfoldable pub tunnel_rule : Settings → List Upstream → Tunnel → List PolicyRule
tunnel_rule cfg upstreams tunnel = elim (upstream_by_id upstreams tunnel.upstream_id) [
  | none ↦ []
  | some upstream ↦
      if not (str_eq (tunnel_v4_mode cfg upstream tunnel) v4_mode_native)
        || str_eq tunnel.v4_address ""
      then []
      else elim (parse_addr tunnel.v4_address) [
        | none ↦ []
        | some address ↦
            if not (is4 address)
            then []
            else source_rule v4 upstream (record { addr = address; bits = 32 }) ∷ []
      ]
]

unfoldable pub tunnel_rules : Settings → List Upstream → List Tunnel → List PolicyRule
tunnel_rules cfg upstreams [] = []
tunnel_rules cfg upstreams (tunnel ∷ tunnels) =
    tunnel_rule cfg upstreams tunnel ++ tunnel_rules cfg upstreams tunnels

unfoldable pub desired_policy_rules : Settings → List Upstream → List Tunnel → List PolicyRule
desired_policy_rules cfg upstreams tunnels =
    map local_rule (local_prefixes upstreams ++ pool_prefix cfg)
    ++ (upstream_rules upstreams ++ tunnel_rules cfg upstreams tunnels)

-- applyPolicyRouting: what reconcilePolicyRules is called with.
unfoldable pub wanted_rules : Settings → List Upstream → List Tunnel → List PolicyRule
wanted_rules cfg upstreams tunnels =
    if ltb (length upstreams) 2 then [] else desired_policy_rules cfg upstreams tunnels

unfoldable pub rule_eq : PolicyRule → PolicyRule → Bool
rule_eq r s =
    same_family r.family s.family
    && (r.priority == s.priority
        && (r.table == s.table && (str_eq r.source s.source && str_eq r.dest s.dest)))

unfoldable pub holds_rule : List PolicyRule → PolicyRule → Bool
holds_rule rules rule = any (rule_eq rule) rules

-- The rules that another set does not hold, in their order.
unfoldable pub missing : List PolicyRule → List PolicyRule → List PolicyRule
missing [] others = []
missing (rule ∷ rules) others =
    let rest = missing rules others in if holds_rule others rule then rest else rule ∷ rest

-- A rule that netlink lists: its priority, its table, and what ipNetString makes of its ends.
pub record ListedRule : Type 0 where
  pub priority : ℕ
  pub table : ℕ
  pub source : String
  pub dest : String

-- What a netlink call answers: no error, os.ErrExist, os.ErrNotExist, or another error.
pub data Answer : Type 0 where
  done already_there not_there failed : Answer

-- The calls of netlink on the kernel's rules; `S` is the kernel's state.
pub record Netlink (S : Type 0) : Type 0 where
  -- netlink.RuleList; `none` is an error.
  pub rule_list : Family → S → Option (List ListedRule)
  -- netlink.RuleAdd and netlink.RuleDel on what policyRule.netlinkRule makes of a rule.
  pub rule_add : PolicyRule → S → Answer × S
  pub rule_del : PolicyRule → S → Answer × S

unfoldable pub is_owned : PolicyRule → Bool
is_owned rule =
    rule.priority == inter_upstream_rule_priority || rule.priority == upstream_rule_priority

unfoldable pub policy_rule : Family → ListedRule → PolicyRule
policy_rule family rule = record {
  family = family;
  priority = rule.priority;
  table = rule.table;
  source = rule.source;
  dest = rule.dest;
}

-- The inner loop of currentPolicyRules, on the set that is built.
unfoldable pub collect : Family → List ListedRule → List PolicyRule → List PolicyRule
unfolding is_owned policy_rule
collect family [] current = current
collect family (listed ∷ rules) current =
    let rule = policy_rule family listed in
    collect family rules
      (if not (is_owned rule) || holds_rule current rule then current else rule ∷ current)

-- `err != nil && !errors.Is(err, os.ErrExist)`
unfoldable pub add_fails : Answer → Bool
add_fails done = false
add_fails already_there = false
add_fails not_there = true
add_fails failed = true

-- `err != nil && !errors.Is(err, os.ErrNotExist)`
unfoldable pub del_fails : Answer → Bool
del_fails done = false
del_fails already_there = true
del_fails not_there = false
del_fails failed = true

-- One loop of reconcilePolicyRules over the rules that it does not skip, up to the first error: is there
-- none, and the state that is left.
unfoldable pub call_all :
    {S : Type 0} → (PolicyRule → S → Answer × S) → (Answer → Bool) → List PolicyRule → S → Bool × S
call_all call fails [] s = (true, s)
call_all call fails (rule ∷ rules) s =
    let next = (call rule s).1 in
    let rest = call_all call fails rules next in
    if fails (call rule s).0 then (false, next) else rest

module _ {S : Type 0} (netlink : Netlink S) where
  unfoldable pub current_policy_rules : S → Option (List PolicyRule)
  unfolding collect
  current_policy_rules s = elim (netlink.rule_list v4 s) [
    | none ↦ none
    | some fours ↦ elim (netlink.rule_list v6 s) [
      | none ↦ none
      | some sixes ↦ some (collect v6 sixes (collect v4 fours []))
    ]
  ]

  unfoldable pub reconcile_policy_rules : List PolicyRule → S → Bool × S
  unfolding call_all add_fails del_fails
  reconcile_policy_rules desired s = elim (current_policy_rules s) [
    | none ↦ (false, s)
    | some existing ↦
        let added = call_all netlink.rule_add add_fails (missing desired existing) s in
        if added.0
        then call_all netlink.rule_del del_fails (missing existing desired) added.1
        else added
  ]
