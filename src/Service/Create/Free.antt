-- ===== src/Service/Create/Free.antt =====
-- service.go: what the prefix that CreateTunnel allocates is clear of.
use open_tunnelbroker.Prelude.{
  ℕ, ◌≡◌, ◌⊎◌, refl, inl, inr, true, false, ◌||◌, List, [], ◌∷◌, ◌++◌, Option, none, some, All, ◌↔◌,
  Option-cases, if◌then◌else◌, arith, Bool-cases,
}
use open_tunnelbroker.Prelude.Int.{ltb_ℤ, pos}
use open_tunnelbroker.Netip.{Prefix, contains, IsValid}
use open_tunnelbroker.Netip.Text.{parse_prefix}
use open_tunnelbroker.Allocator.{
  Result, ok, err, AllocateError, Choice, overlaps, allocate_with_chooser,
}
use open_tunnelbroker.Allocator.Allocate.{allocate-IsFree}
use open_tunnelbroker.Models.{Upstream, Tunnel, delegated_prefix, server_reservation}
use open_tunnelbroker.Service.Create.{
  CreateTunnelInput, used_prefixes, occupied, tunnel_length, allocate_prefix,
}

Result-cases :
    (r : Result Prefix) → ((p : Prefix) × (r ≡ ok p)) ⊎ ((e : AllocateError) × (r ≡ err e))
Result-cases (ok p) = inl (p, refl)
Result-cases (err e) = inr (e, refl)

-- What holds of an optional prefix, if there is one.
abbrev pub IfPrefix : (Prefix → Type 0) → Option Prefix → Type 0
IfPrefix P none = Unit
IfPrefix P (some p) = P p

-- The stored prefix of a tunnel.
abbrev pub stored : Tunnel → Option Prefix
stored t = parse_prefix t.v6_cidr

append-All :
    (P : Prefix → Type 0) (xs : List Prefix) (y : Prefix) → All P xs → P y → All P (xs ++ (y ∷ []))
append-All P [] y h hy = (hy, tt)
append-All P (x ∷ xs) y h hy = (h.0, append-All P xs y h.1 hy)

append-parts :
    (P : Prefix → Type 0) (xs : List Prefix) (y : Prefix) → All P (xs ++ (y ∷ [])) → All P xs × P y
append-parts P [] y h = (tt, h.0)
append-parts P (x ∷ xs) y h = let (rest, last) = append-parts P xs y h.1 in ((h.0, rest), last)

-- Both readings of the stored prefixes: what holds of the tunnels' prefixes holds of the list.
Read : (Prefix → Type 0) → List Tunnel → Option (List Prefix) → Type 0
Read P ts none = Unit
Read P ts (some used) = All P used ↔ All (λ t. IfPrefix P (stored t)) ts

used_prefixes-Read : (P : Prefix → Type 0) (ts : List Tunnel) → Read P ts (used_prefixes ts)
unfolding Read used_prefixes
used_prefixes-Read P [] = (λ h. tt, λ h. tt)
used_prefixes-Read P (t ∷ ts) = one (stored t) (used_prefixes ts) (used_prefixes-Read P ts)
  where
    Both : Type 0 → Option (List Prefix) → Type 0
    Both Q none = Unit
    Both Q (some used) = All P used ↔ (Q × All (λ t. IfPrefix P (stored t)) ts)

    one :
        (p : Option Prefix) (rest : Option (List Prefix))
        → Read P ts rest
        → Both (IfPrefix P p) (elim p [
          | none ↦ none
          | some prefix ↦ elim rest [ none ↦ none | some others ↦ some (prefix ∷ others) ]
        ])
    one none rest h = tt
    one (some p) none h = tt
    one (some p) (some others) h = (λ k. (k.0, h.0 k.1), λ k. (k.0, h.1 k.1))

-- The list that the allocator is given holds the tunnels' prefixes and the reservation, and no others.
occupied-Read :
    (P : Prefix → Type 0) (up : Upstream) (ts : List Tunnel) (used : List Prefix)
    → occupied up ts ≡ some used
    → All P used ↔ (All (λ t. IfPrefix P (stored t)) ts × IfPrefix P (server_reservation up))
unfolding occupied Read
occupied-Read P up ts used h =
    cases (used_prefixes ts) (server_reservation up) used (used_prefixes-Read P ts) h
  where
    cases :
        (o : Option (List Prefix)) (r : Option Prefix) (used : List Prefix)
        → Read P ts o
        → elim o [
          | none ↦ none
          | some us ↦ elim r [ none ↦ some us | some p ↦ some (us ++ (p ∷ [])) ]
        ]
          ≡ some used
        → All P used ↔ (All (λ t. IfPrefix P (stored t)) ts × IfPrefix P r)
    cases none r used k e = absurd (ground arith)
    cases (some us) none used k e =
        let same : us ≡ used = ground arith in rw (← same) (λ l. (k.0 l, tt), λ l. k.1 l.0)
    cases (some us) (some p) used k e =
        let same : us ++ (p ∷ []) ≡ used = ground arith in
        rw (← same) (
          λ l. let (all, last) = append-parts P us p l in (k.0 all, last),
          λ l. append-All P us p (k.1 l.0) l.1,
        )

-- The allocation against the list.
allocated :
    (upstream : Upstream) (tunnels : List Tunnel) (input : CreateTunnelInput) (choose : ℕ → Choice)
    (pool : Prefix) (used : List Prefix) (p : Prefix)
    → delegated_prefix upstream ≡ some pool
    → occupied upstream tunnels ≡ some used
    → IsValid pool
    → All IsValid used
    → allocate_prefix upstream tunnels input choose ≡ some p
    → ((ltb_ℤ (pos p.bits) upstream.min_prefix || ltb_ℤ upstream.max_prefix (pos p.bits)) ≡ false)
      × (contains pool p.addr ≡ true)
      × All (λ u. overlaps p u ≡ false) used
unfolding allocate_prefix
allocated upstream tunnels input choose pool used p d o valid all_valid h =
    let bits = tunnel_length upstream input in
    elim (Bool-cases (ltb_ℤ bits upstream.min_prefix || ltb_ℤ upstream.max_prefix bits)) [
      | inl bad ↦ absurd (ground (arith, rw bad at h))
      | inr good ↦ elim (Result-cases (allocate_with_chooser pool used bits choose)) [
        | inr (e, r) ↦ absurd (ground (arith, rw (good, o, d, r) at h))
        | inl (q, r) ↦
            let same : q ≡ p = ground (arith, rw (good, o, d, r) at h) in
            let (length, _, _, inside, free) =
              allocate-IsFree pool used bits choose q valid all_valid r in
            rw (← same) (rw length at good, inside, free)
      ]
    ]

-- The prefix that is allocated to a new tunnel has a length within the limits of its upstream, lies in
-- the upstream's prefix, and overlaps neither the stored prefix of any tunnel of the upstream nor the
-- server's reservation, if there is one. The upstream's prefix, the stored prefixes and the reservation
-- are taken to have valid lengths, as ParsePrefix gives them.
pub allocate_prefix-IsFree :
    (upstream : Upstream) (tunnels : List Tunnel) (input : CreateTunnelInput) (choose : ℕ → Choice)
    (pool p : Prefix)
    → delegated_prefix upstream ≡ some pool
    → IsValid pool
    → All (λ t. IfPrefix IsValid (stored t)) tunnels
    → IfPrefix IsValid (server_reservation upstream)
    → allocate_prefix upstream tunnels input choose ≡ some p
    → ((ltb_ℤ (pos p.bits) upstream.min_prefix || ltb_ℤ upstream.max_prefix (pos p.bits)) ≡ false)
      × (contains pool p.addr ≡ true)
      × All (λ t. IfPrefix (λ u. overlaps p u ≡ false) (stored t)) tunnels
      × IfPrefix (λ u. overlaps p u ≡ false) (server_reservation upstream)
unfolding allocate_prefix
allocate_prefix-IsFree upstream tunnels input choose pool p d valid all_valid reserved_valid h =
    elim (Option-cases (occupied upstream tunnels)) [
      | inl none_used ↦ absurd (unread (rw none_used at h))
      | inr (used, o) ↦
          let read = occupied-Read IsValid upstream tunnels used o in
          let (limits, inside, free) =
            allocated upstream tunnels input choose pool used p d o valid
              (read.1 (all_valid, reserved_valid)) h in
          let (tunnels_free, reserved_free) =
            (occupied-Read (λ u. overlaps p u ≡ false) upstream tunnels used o).0 free in
          (limits, inside, tunnels_free, reserved_free)
    ]
  where
    unread :
        (if ltb_ℤ (tunnel_length upstream input) upstream.min_prefix
              || ltb_ℤ upstream.max_prefix (tunnel_length upstream input)
            then none
            else none)
          ≡ some p
        → ⊥
    unread e = ground arith
