-- ===== src/Firewall/Forward.antt =====
-- firewall.go: which packets the forward chain accepts whatever their addresses.
use open_tunnelbroker.Prelude.{
  ℕ, String, Bool, true, false, not, ◌&&◌, ◌||◌, List, [], ◌∷◌, ◌++◌, some, str_eq, any, ◌≡◌, refl,
  ◌∙◌, inl, inr, arith, eq_iff, Bool-cases, Option-cases, length, leb, ltb, suc,
}
use open_tunnelbroker.Models.{
  Settings, Upstream, Tunnel, resolved_v4_mode, v4_mode_warp, warp_interface_name, inter_tunnel_any,
  inter_tunnel_isolated, inter_tunnel_groups, upstream_by_id, tunnel_ipv4_enabled,
}
use open_tunnelbroker.Firewall.Keys.{any-insert_key}
use open_tunnelbroker.Firewall.{
  Command, forward_chain, accept, accept_replies, pair, start, concat_map, warp_tunnel_interfaces,
  warp_tunnel, interface_of, inter_tunnel_rules, tunnel_interfaces, any_rules, group_commands,
  pair_rules, groups_loop, routing_group_rules, members, elements, group_names,
}
use open_tunnelbroker.Firewall.Script.{
  build_nft_script, uplink_rules, warp_rules, nat_commands, nat_rule, missing_interface,
}

-- Does the command accept any packet from `ingress` to `egress`, in an established connection or not?
unfoldable pub accepts : String → String → Bool → Command → Bool
accepts ingress egress established (accept i o) = str_eq ingress i && str_eq egress o
accepts ingress egress established (accept_replies i o) =
    established && (str_eq ingress i && str_eq egress o)
accepts ingress egress established _ = false

isolated-not_any :
    (policy : String)
    → (str_eq policy "" || str_eq policy inter_tunnel_isolated) ≡ true
    → str_eq policy inter_tunnel_any ≡ false
isolated-not_any policy h = elim (Bool-cases (str_eq policy "")) [
  | inl e ↦ rw ((eq_iff policy "").0 e)
  | inr e ↦ rw ((eq_iff policy inter_tunnel_isolated).0 (ground (arith, e)))
]

module _ (ingress egress : String) (established : Bool) where
  -- The connection goes between these interfaces: out, or back as a reply.
  abbrev pub between : String → String → Bool
  between inside outside =
      (str_eq ingress inside && str_eq egress outside)
      || (established && (str_eq ingress outside && str_eq egress inside))

  unfoldable pub passes : List Command → Bool
  unfolding accepts
  passes [] = false
  passes (c ∷ cs) = accepts ingress egress established c || passes cs

  passes-nil : passes [] ≡ false
  unfolding passes
  passes-nil = refl

  passes-append : (cs ds : List Command) → passes (cs ++ ds) ≡ passes cs || passes ds
  unfolding passes
  passes-append [] ds = refl
  passes-append (c ∷ cs) ds = ground (arith, passes-append cs ds)

  passes-uplink :
      (ups : List Upstream)
      → passes (uplink_rules ups) ≡ any (λ up. between up.interface_name up.egress_interface) ups
  unfolding uplink_rules concat_map passes
  passes-uplink [] = refl
  passes-uplink (up ∷ ups) = ground (arith, passes-uplink ups)

  passes-row :
      (ingress' : String) (names : List String)
      → passes (concat_map (λ o. accept ingress' o ∷ []) names)
        ≡ str_eq ingress ingress' && any (str_eq egress) names
  unfolding concat_map passes
  passes-row ingress' [] = ground arith
  passes-row ingress' (o ∷ names) = ground (arith, passes-row ingress' names)

  passes-any_rules :
      (names all_names : List String)
      → passes (concat_map (λ i. concat_map (λ o. accept i o ∷ []) all_names) names)
        ≡ any (str_eq ingress) names && any (str_eq egress) all_names
  unfolding concat_map passes
  passes-any_rules [] all_names = ground arith
  passes-any_rules (i ∷ names) all_names =
      passes-append (concat_map (λ o. accept i o ∷ []) all_names) _
      ∙ rw (passes-row i all_names, passes-any_rules names all_names) (ground arith)

  passes-warp :
      (names : List String)
      → passes (concat_map (λ name. pair name warp_interface_name) names)
        ≡ any (λ name. between name warp_interface_name) names
  unfolding concat_map passes
  passes-warp [] = refl
  passes-warp (name ∷ names) = ground (arith, passes-warp names)

  passes-interfaces :
      (p : String → Bool) (ups : List Upstream)
      → any p (tunnel_interfaces ups)
        ≡ any (λ up. not (str_eq up.interface_name "") && p up.interface_name) ups
  unfolding tunnel_interfaces
  passes-interfaces p [] = refl
  passes-interfaces p (up ∷ ups) =
      ground
        (arith, passes-interfaces p ups, any-insert_key p up.interface_name (tunnel_interfaces ups))

  any-warp_interfaces :
      (p : String → Bool) (cfg : Settings) (ups : List Upstream) (ts : List Tunnel)
      → any p (warp_tunnel_interfaces cfg ups ts)
        ≡ any (λ t. warp_tunnel cfg ups t && p (interface_of ups t)) ts
  unfolding warp_tunnel_interfaces
  any-warp_interfaces p cfg ups [] = refl
  any-warp_interfaces p cfg ups (t ∷ ts) = ground (
    arith,
    any-warp_interfaces p cfg ups ts,
    any-insert_key p (interface_of ups t) (warp_tunnel_interfaces cfg ups ts),
  )

  resolved-warp :
      (cfg : Settings) (ups : List Upstream) (t : Tunnel)
      → str_eq (resolved_v4_mode cfg ups t) v4_mode_warp ≡ warp_tunnel cfg ups t
  unfolding resolved_v4_mode warp_tunnel
  resolved-warp cfg ups t = elim (Option-cases (upstream_by_id ups t.upstream_id)) [
    | inl e ↦ rw (e, resolved_v4_mode, warp_tunnel)
    | inr (up, e) ↦ rw (e, resolved_v4_mode, warp_tunnel)
  ]

  none-warp :
      (cfg : Settings) (ups : List Upstream) (p : Tunnel → Bool) (ts : List Tunnel)
      → any (λ t. str_eq (resolved_v4_mode cfg ups t) v4_mode_warp) ts ≡ false
      → any (λ t. warp_tunnel cfg ups t && p t) ts ≡ false
  none-warp cfg ups p [] h = refl
  none-warp cfg ups p (t ∷ ts) h = ground (arith, none-warp cfg ups p ts, resolved-warp cfg ups t)

  passes-warp_rules :
      (cfg : Settings) (ups : List Upstream) (ts : List Tunnel)
      → passes (warp_rules cfg ups ts)
        ≡ any (λ t. warp_tunnel cfg ups t && between (interface_of ups t) warp_interface_name) ts
  unfolding warp_rules
  passes-warp_rules cfg ups ts =
      elim (Bool-cases (any (λ t. str_eq (resolved_v4_mode cfg ups t) v4_mode_warp) ts)) [
        | inl e ↦ rw e (
            passes-warp (warp_tunnel_interfaces cfg ups ts)
            ∙ any-warp_interfaces (λ name. between name warp_interface_name) cfg ups ts)
        | inr e ↦
            rw (e, none-warp cfg ups (λ t. between (interface_of ups t) warp_interface_name) ts e)
              (unfold passes in refl)
      ]

  passes-group_row :
      (ingress' : String) (names : List String) (index : ℕ) (with_v4 : Bool)
      → passes (concat_map (λ o. pair_rules index with_v4 ingress' o) names) ≡ false
  unfolding concat_map passes pair_rules
  passes-group_row ingress' [] index with_v4 = refl
  passes-group_row ingress' (o ∷ names) index with_v4 =
      let rest = passes-group_row ingress' names index with_v4 in
      ground (arith, rest, Bool-cases with_v4)

  passes-group :
      (interfaces names : List String) (index : ℕ) (with_v4 : Bool)
      → passes (concat_map (λ i. concat_map (λ o. pair_rules index with_v4 i o) interfaces) names)
        ≡ false
  unfolding concat_map
  passes-group interfaces [] index with_v4 = unfold passes in refl
  passes-group interfaces (i ∷ names) index with_v4 =
      passes-append (concat_map (λ o. pair_rules index with_v4 i o) interfaces) _
      ∙ rw
          (passes-group_row i interfaces index with_v4, passes-group interfaces names index with_v4)

  passes-group_commands :
      (interfaces : List String) (index : ℕ) (v6s v4s : List String)
      → passes (group_commands interfaces index v6s v4s) ≡ false
  unfolding group_commands
  passes-group_commands interfaces index v6s v4s = elim (Bool-cases (leb 2 (length v4s))) [
    | inl e ↦ rw e (unfold passes in rw (passes-group interfaces interfaces index true))
    | inr e ↦ rw e (unfold passes in rw (passes-group interfaces interfaces index false))
  ]

  passes-groups_loop :
      (cfg : Settings) (ups : List Upstream) (ts : List Tunnel) (interfaces : List String)
      (index : ℕ) (names : List String) (cs : List Command)
      → groups_loop cfg ups ts interfaces index names ≡ some cs
      → passes cs ≡ false
  unfolding groups_loop passes
  passes-groups_loop cfg ups ts interfaces index [] cs h = ground arith
  passes-groups_loop cfg ups ts interfaces index (name ∷ names) cs h =
      let found = members ups name ts in
      elim (Bool-cases (ltb (length found) 2)) [
        | inl e ↦
            passes-groups_loop cfg ups ts interfaces (suc index) names cs (rw (e, groups_loop) at h)
        | inr e ↦ elim (Option-cases (elements cfg ups found)) [
          | inl n ↦ ground (arith, rw (e, groups_loop, n) at h)
          | inr ((v6s, v4s), q) ↦
              elim (Option-cases (groups_loop cfg ups ts interfaces (suc index) names)) [
                | inl n ↦ ground (arith, rw (e, groups_loop, q, n) at h)
                | inr (rest, r) ↦
                    let made : group_commands interfaces index v6s v4s ++ rest ≡ cs =
                      ground (arith, rw (e, groups_loop, q, r) at h) in
                    rw (← made) (
                      passes-append (group_commands interfaces index v6s v4s) rest
                      ∙ rw (
                        passes-group_commands interfaces index v6s v4s,
                        passes-groups_loop cfg ups ts interfaces (suc index) names rest r,
                      ))
              ]
        ]
      ]

  -- The inter-tunnel policy lets every managed interface reach every other.
  abbrev pub any_to_any : Settings → List Upstream → Bool
  any_to_any cfg ups =
      str_eq cfg.inter_tunnel_policy inter_tunnel_any
      && (any (λ up. not (str_eq up.interface_name "") && str_eq ingress up.interface_name) ups
          && any (λ up. not (str_eq up.interface_name "") && str_eq egress up.interface_name) ups)

  passes-inter_tunnel :
      (cfg : Settings) (ups : List Upstream) (ts : List Tunnel) (cs : List Command)
      → inter_tunnel_rules cfg ups ts ≡ some cs
      → passes cs ≡ any_to_any cfg ups
  unfolding inter_tunnel_rules routing_group_rules any_rules
  passes-inter_tunnel cfg ups ts cs h =
      let names = tunnel_interfaces ups in
      let policy : String = cfg.inter_tunnel_policy in
      elim (Bool-cases (str_eq policy "" || str_eq policy inter_tunnel_isolated)) [
        | inl e ↦
            let shut : [] ≡ cs = ground (arith, rw e at h) in
            rw (← shut) (rw (isolated-not_any policy e) passes-nil)
        | inr e ↦ elim (Bool-cases (str_eq policy inter_tunnel_any)) [
          | inl a ↦
              let opened : any_rules names ≡ cs = ground (arith, rw (e, a) at h) in
              rw (← opened, a)
                (passes-any_rules names names
                  ∙ rw (
                    passes-interfaces (str_eq ingress) ups,
                    passes-interfaces (str_eq egress) ups,
                  ))
          | inr a ↦ elim (Bool-cases (str_eq policy inter_tunnel_groups)) [
            | inl g ↦
                rw a (
                  passes-groups_loop cfg ups ts names 0 (group_names ups ts) cs (rw (e, a, g) at h))
            | inr g ↦ ground (arith, rw (e, a, g) at h)
          ]
        ]
      ]

  passes-nat_rule :
      (cfg : Settings) (ups : List Upstream) (t : Tunnel) → passes (nat_rule cfg ups t) ≡ false
  unfolding nat_rule passes
  passes-nat_rule cfg ups t = elim (Option-cases (upstream_by_id ups t.upstream_id)) [
    | inl e ↦ rw (e, nat_rule)
    | inr (up, e) ↦ elim (Bool-cases (tunnel_ipv4_enabled cfg up t)) [
      | inl on ↦ rw (e, nat_rule, on)
      | inr off ↦ rw (e, nat_rule, off)
    ]
  ]

  passes-nat :
      (cfg : Settings) (ups : List Upstream) (ts : List Tunnel)
      → passes (concat_map (nat_rule cfg ups) ts) ≡ false
  unfolding concat_map
  passes-nat cfg ups [] = passes-nil
  passes-nat cfg ups (t ∷ ts) =
      passes-append (nat_rule cfg ups t) _ ∙ rw (passes-nat_rule cfg ups t, passes-nat cfg ups ts)

  passes-nat_commands : (rules : List Command) → passes (nat_commands rules) ≡ passes rules
  unfolding nat_commands passes
  passes-nat_commands [] = refl
  passes-nat_commands (rule ∷ rules) = refl

  passes-parts :
      (uplink inter warp nat : List Command)
      → passes (start ++ (forward_chain ∷ (uplink ++ (inter ++ (warp ++ nat)))))
        ≡ passes uplink || (passes inter || (passes warp || passes nat))
  passes-parts uplink inter warp nat =
      passes-append (start ++ (forward_chain ∷ [])) _
      ∙ rw
          (
            passes-append uplink (inter ++ (warp ++ nat)),
            passes-append inter (warp ++ nat),
            passes-append warp nat,
          )
          (unfold passes in refl)

  -- What the configuration lets the host forward between two interfaces whatever the addresses.
  abbrev pub allows : Settings → List Upstream → List Tunnel → Bool
  allows cfg ups ts =
      any (λ up. between up.interface_name up.egress_interface) ups
      || (any_to_any cfg ups
          || any (λ t. warp_tunnel cfg ups t && between (interface_of ups t) warp_interface_name)
              ts)

  -- Wherever a script is generated for a configuration with an upstream, its forward chain accepts
  -- packets between two interfaces whatever their addresses exactly if they go from an upstream's
  -- WireGuard interface to its own egress interface or back as replies, or the policy is `any` and both
  -- are WireGuard interfaces of upstreams, or a tunnel with WARP egress has the one and the other is
  -- wg-warp, as replies only when coming back. The rules of routing groups add nothing to this.
  pub build_nft_script-allows :
      (cfg : Settings) (up : Upstream) (ups : List Upstream) (ts : List Tunnel)
      (script : List Command)
      → build_nft_script cfg (up ∷ ups) ts ≡ some script
      → passes script ≡ allows cfg (up ∷ ups) ts
  unfolding build_nft_script
  build_nft_script-allows cfg up ups ts script h =
      elim (Bool-cases (any missing_interface (up ∷ ups))) [
        | inl e ↦ ground (arith, rw e at h)
        | inr e ↦ elim (Option-cases (inter_tunnel_rules cfg (up ∷ ups) ts)) [
          | inl n ↦ ground (arith, rw (e, n) at h)
          | inr (inter, q) ↦
              let nat = nat_commands (concat_map (nat_rule cfg (up ∷ ups)) ts) in
              ground (
                arith,
                rw (e, q) at h,
                passes-parts (uplink_rules (up ∷ ups)) inter (warp_rules cfg (up ∷ ups) ts) nat,
                passes-uplink (up ∷ ups),
                passes-inter_tunnel cfg (up ∷ ups) ts inter q,
                passes-warp_rules cfg (up ∷ ups) ts,
                passes-nat_commands (concat_map (nat_rule cfg (up ∷ ups)) ts)
                    ∙ passes-nat cfg (up ∷ ups) ts,
              )
        ]
      ]
