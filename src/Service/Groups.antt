-- ===== src/Service/Groups.antt =====
-- internal/broker/service.go: normalizeRoutingGroups and resolveUpstream. A set of names is the sorted
-- list of its keys, as in the firewall script.
use open_tunnelbroker.Prelude.{
  ℕ, zero, suc, String, true, false, not, ◌&&◌, List, [], ◌∷◌, none, some, str_eq, any, trim_space,
  ◌≡◌, ◌⊎◌, refl, arith, inl, inr, Bool-cases, Option-cases,
}
use open_tunnelbroker.Models.{Upstream, upstream_by_id}
use open_tunnelbroker.Firewall.Keys.{insert_key, any-insert_key}
use open_tunnelbroker.Service.Upstreams.{ConfigError, Outcome, done, refused}
use open_tunnelbroker.Service.Validate.{validate_routing_group}

-- The loop over the groups. The error is that of the first group that is refused.
unfoldable pub normalize_routing_groups : List String → Outcome (List String)
normalize_routing_groups [] = done []
normalize_routing_groups (group ∷ groups) =
    let name = trim_space group in
    elim (str_eq name "") [
      | true ↦ normalize_routing_groups groups
      | false ↦ elim (validate_routing_group name) [
        | some e ↦ refused e
        | none ↦ elim (normalize_routing_groups groups) [
          | refused e ↦ refused e
          | done names ↦ done (insert_key name names)
        ]
      ]
    ]

pub data Choice : Type 0 where
  chosen : Upstream → Choice
  does_not_exist not_configured ambiguous : Choice

-- resolveUpstream on the stored upstreams, in their order.
unfoldable pub resolve_upstream : List Upstream → ℕ → Choice
resolve_upstream upstreams zero = elim upstreams [
  | [] ↦ not_configured
  | upstream ∷ rest ↦ elim rest [ [] ↦ chosen upstream | _ ∷ _ ↦ ambiguous ]
]
resolve_upstream upstreams (suc id) = elim (upstream_by_id upstreams (suc id)) [
  | none ↦ does_not_exist
  | some upstream ↦ chosen upstream
]

Outcome-cases :
    {A : Type 0} (o : Outcome A) → ((a : A) × (o ≡ done a)) ⊎ ((e : ConfigError) × (o ≡ refused e))
Outcome-cases (done a) = inl (a, refl)
Outcome-cases (refused e) = inr (e, refl)

-- Accepted routing groups become exactly their trimmed names, without the empty ones.
pub normalize_routing_groups-any :
    (groups names : List String) (name : String)
    → normalize_routing_groups groups ≡ done names
    → any (str_eq name) names
      ≡ any (λ group. not (str_eq (trim_space group) "") && str_eq name (trim_space group)) groups
unfolding normalize_routing_groups
normalize_routing_groups-any [] names name h = ground arith
normalize_routing_groups-any (group ∷ groups) names name h =
    let trimmed : String = trim_space group in
    elim (Bool-cases (str_eq trimmed "")) [
      | inl e ↦ ground (
        arith,
        e,
        normalize_routing_groups-any groups names name (rw (e, normalize_routing_groups) at h),
      )
      | inr e ↦ elim (Option-cases (validate_routing_group trimmed)) [
        | inr (bad, q) ↦ absurd (ground (arith, rw (e, normalize_routing_groups, q) at h))
        | inl q ↦ elim (Outcome-cases (normalize_routing_groups groups)) [
          | inr (bad, r) ↦ absurd (ground (arith, rw (e, normalize_routing_groups, q, r) at h))
          | inl (rest, r) ↦ ground (
            arith,
            e,
            normalize_routing_groups-any groups rest name r,
            any-insert_key (str_eq name) trimmed rest,
            rw (e, normalize_routing_groups, q, r) at h,
          )
        ]
      ]
    ]
