-- ===== src/Service/Validate/Unique.antt =====
-- service.go: what validateUpstreamUniqueness keeps apart.
use open_tunnelbroker.Prelude.{
  String, Bool, true, false, ◌&&◌, List, [], ◌∷◌, Option, none, some, ◌≡◌, ◌⊎◌, ◌↔◌, inl, inr, ◌==◌,
  str_eq, All, arith, refl, Bool-cases,
}
use open_tunnelbroker.Prelude.Int.{eqb_ℤ}
use open_tunnelbroker.Netip.{Prefix}
use open_tunnelbroker.Models.{Upstream, delegated_prefix, transport_prefix}
use open_tunnelbroker.Service.Validate.Disjoint.{
  AreDisjoint, prefixes_clash-AreDisjoint, masked_transport-AreDisjoint,
}
use open_tunnelbroker.Service.Upstreams.{ConfigError}
use open_tunnelbroker.Service.Validate.{
  or_else, refuse_if, conflict, conflicts, validate_upstream_uniqueness, masked_transport,
}

module _ (equal_fold : String → String → Bool) where
  -- Two provider connections that share no name, no WireGuard interface, no address and no endpoint.
  -- They may share the interface that they egress through.
  pub record IsIndependent (c o : Upstream) : Type 0 where
    pub names : equal_fold o.name c.name ≡ false
    pub interfaces : str_eq o.interface_name c.interface_name ≡ false
    pub egress : str_eq o.interface_name c.egress_interface ≡ false
    pub egress_back : str_eq o.egress_interface c.interface_name ≡ false
    pub prefixes : AreDisjoint (delegated_prefix c) (delegated_prefix o)
    pub transports : AreDisjoint (transport_prefix c) (transport_prefix o)
    pub endpoints :
        (eqb_ℤ o.endpoint_port c.endpoint_port && equal_fold o.endpoint_host c.endpoint_host)
        ≡ false

  or_else-none :
      (a : Bool) (e : ConfigError) (r : Option ConfigError)
      → (or_else (refuse_if a e) r ≡ none) ↔ ((a ≡ false) × (r ≡ none))
  unfolding or_else refuse_if
  or_else-none true e r = ground arith
  or_else-none false e r = ground arith

  refuse_if-none : (a : Bool) (e : ConfigError) → refuse_if a e ≡ none → a ≡ false
  unfolding refuse_if
  refuse_if-none true e h = ground arith
  refuse_if-none false e h = refl

  conflict-none : (c o : Upstream) → conflict equal_fold c o ≡ none → IsIndependent c o
  unfolding conflict
  conflict-none c o h =
      let (names, h1) = (or_else-none _ _ _).0 h in
      let (interfaces, h2) = (or_else-none _ _ _).0 h1 in
      let (egress, h3) = (or_else-none _ _ _).0 h2 in
      let (egress_back, h4) = (or_else-none _ _ _).0 h3 in
      let (prefixes, h5) = (or_else-none _ _ _).0 h4 in
      let (transports, h6) = (or_else-none _ _ _).0 h5 in
      record {
        names = names;
        interfaces = interfaces;
        egress = egress;
        egress_back = egress_back;
        prefixes = (prefixes_clash-AreDisjoint _ _).0 prefixes;
        transports =
            (masked_transport-AreDisjoint c o).0 ((prefixes_clash-AreDisjoint _ _).0 transports);
        endpoints = refuse_if-none _ _ h6;
      }

  none-conflict : (c o : Upstream) → IsIndependent c o → conflict equal_fold c o ≡ none
  unfolding conflict or_else refuse_if
  none-conflict c o h =
      let prefixes =
        (prefixes_clash-AreDisjoint (delegated_prefix c) (delegated_prefix o)).1 h.prefixes in
      let transports =
        (prefixes_clash-AreDisjoint (masked_transport c) (masked_transport o)).1
          ((masked_transport-AreDisjoint c o).1 h.transports) in
      rw (h.names, h.interfaces, h.egress, h.egress_back, prefixes, transports, h.endpoints) refl

  -- What holds of every stored upstream other than the candidate itself.
  abbrev pub Apart : Upstream → Upstream → Type 0
  Apart c o = (o.id ≡ c.id) ⊎ IsIndependent c o

  or_else-both : (a b : Option ConfigError) → or_else a b ≡ none → (a ≡ none) × (b ≡ none)
  unfolding or_else
  or_else-both none b h = (refl, h)
  or_else-both (some e) b h = ground arith

  conflicts-Apart :
      (c : Upstream) (os : List Upstream) → conflicts equal_fold c os ≡ none → All (Apart c) os
  unfolding conflicts
  conflicts-Apart c [] h = tt
  conflicts-Apart c (o ∷ os) h = elim (Bool-cases (o.id == c.id)) [
    | inl e ↦ (inl (ground (arith, e)), conflicts-Apart c os (rw e at h))
    | inr e ↦
        let (here, rest) = or_else-both _ _ (rw e at h) in
        (inr (conflict-none c o here), conflicts-Apart c os rest)
  ]

  Apart-conflicts :
      (c : Upstream) (os : List Upstream) → All (Apart c) os → conflicts equal_fold c os ≡ none
  unfolding conflicts or_else
  Apart-conflicts c [] h = refl
  Apart-conflicts c (o ∷ os) (here, rest) = elim (Bool-cases (o.id == c.id)) [
    | inl e ↦ rw e (Apart-conflicts c os rest)
    | inr e ↦ elim here [
      | inl same ↦ absurd (ground (arith, e, same))
      | inr apart ↦ rw (e, none-conflict c o apart) (Apart-conflicts c os rest)
    ]
  ]

  -- The check accepts an upstream that has an IPv6 prefix exactly if of every other stored upstream, one
  -- with another id, it differs in name (regardless of case) and in WireGuard interface, neither
  -- egresses through the other's WireGuard interface, no address is in both delegated prefixes or in
  -- both transport ranges, and they do not have both the port and the host of the endpoint in common.
  pub validate_upstream_uniqueness-Apart :
      (c : Upstream) (p : Prefix) (os : List Upstream)
      → delegated_prefix c ≡ some p
      → (validate_upstream_uniqueness equal_fold c os ≡ none) ↔ All (Apart c) os
  unfolding validate_upstream_uniqueness
  validate_upstream_uniqueness-Apart c p os h =
      rw (h, validate_upstream_uniqueness) (conflicts-Apart c os, Apart-conflicts c os)
