-- ===== src/Store/Db/Groups/Read.antt =====
-- Which groups a tunnel has once its memberships are set.
use mathlib.Core.Path.{subst}
use open_tunnelbroker.Prelude.{
  ℕ, String, Bool, true, false, not, ◌&&◌, ◌||◌, List, [], ◌∷◌, ◌++◌, ◌==◌, str_eq, any, All, ◌≡◌,
  refl, ◌∙◌, sym, arith, str_eq-sym, ==_comm, or_false, eq_iff, Bool-cases, inl, inr, ==_refl,
  and_true, and_false,
}
use open_tunnelbroker.Models.{Tunnel, has_routing_group}
use open_tunnelbroker.Store.Table.{delete_where, IsUnique}
use open_tunnelbroker.Store.Table.Laws.{
  any-append, any-false, any-none, any-cong, any-All_cong, All-imp, All-zip,
}
use open_tunnelbroker.Store.Table.Unique.{same_id}
use open_tunnelbroker.Store.Db.{Db, RoutingGroup, ok, group_names_of, group_before, load_tunnel}
use open_tunnelbroker.Store.Db.Groups.{
  set_memberships, join_groups, join_named, has_group, check_groups, has_repeat,
}
use open_tunnelbroker.Ndp.Proxy.{sort_by}
use open_tunnelbroker.Ndp.Proxy.Answers.{any-sort_by}
use open_tunnelbroker.Store.Db.Sound.Gives.{Gives, bind-Gives, reject-Gives, imp-Gives}

-- Is the pair a membership?
abbrev member : List (ℕ × ℕ) → ℕ → ℕ → Bool
member ms tunnel group = any (λ m. m.0 == tunnel && m.1 == group) ms

any-group_names_of :
    (ms : List (ℕ × ℕ)) (gs : List RoutingGroup) (t : ℕ) (n : String)
    → any (λ x. str_eq x n) (group_names_of ms gs t)
      ≡ any (λ g. member ms t g.id && str_eq g.name n) gs
unfolding group_names_of
any-group_names_of ms [] t n = refl
any-group_names_of ms (g ∷ gs) t n =
    let rest = any-group_names_of ms gs t n in
    elim (Bool-cases (member ms t g.id)) [ inl e ↦ rw (e, rest) refl | inr e ↦ rw (e, rest) refl ]

member-delete_where :
    (ms : List (ℕ × ℕ)) (t g : ℕ) → member (delete_where (λ m. m.0 == t) ms) t g ≡ false
unfolding delete_where
member-delete_where [] t g = refl
member-delete_where (m ∷ ms) t g =
    let rest = member-delete_where ms t g in
    elim (Bool-cases (m.0 == t)) [ inl e ↦ rw (e) rest | inr e ↦ rw (e, e) rest ]

member-join_named :
    (gs : List RoutingGroup) (t : ℕ) (name : String) (g : ℕ)
    → member (join_named gs t name) t g ≡ any (λ x. x.id == g && str_eq x.name name) gs
unfolding join_named
member-join_named [] t name g = refl
member-join_named (x ∷ gs) t name g =
    let rest = member-join_named gs t name g in
    elim (Bool-cases (str_eq x.name name)) [
      | inl e ↦ rw (e, rest, ==_refl t, and_true (x.id == g)) refl
      | inr e ↦ rw (e, rest, and_false (x.id == g)) refl
    ]

member-join_groups :
    (gs : List RoutingGroup) (t : ℕ) (names : List String) (g : ℕ)
    → member (join_groups gs t names) t g
      ≡ any (λ name. any (λ x. x.id == g && str_eq x.name name) gs) names
unfolding join_groups
member-join_groups gs t [] g = refl
member-join_groups gs t (name ∷ names) g =
    any-append (λ m. m.0 == t && m.1 == g) (join_named gs t name) (join_groups gs t names)
    ∙ rw (member-join_named gs t name g, member-join_groups gs t names g) refl

-- Of the groups with the id of a stored one, it is that with its name.
abbrev Picks : List RoutingGroup → RoutingGroup → Type 0
Picks table g =
    (name : String) → any (λ x. x.id == g.id && str_eq x.name name) table ≡ str_eq g.name name

unique-Picks :
    (gs : List RoutingGroup)
    → IsUnique (same_id (λ (g : RoutingGroup). g.id)) gs
    → All (Picks gs) gs
unfolding IsUnique
unique-Picks [] unique = tt
unique-Picks (g ∷ gs) unique =
    let others = any-none (λ (y : RoutingGroup). y.id == g.id) gs unique.0 in
    (
      λ name.
          let none_left =
            any-false (λ (y : RoutingGroup). y.id == g.id) (λ y. y.id == g.id && str_eq y.name name)
              gs (λ y h. ground arith) unique.0 in
          rw (==_refl g.id, none_left) (or_false (str_eq g.name name)),
      All-zip (Picks gs) (λ (y : RoutingGroup). (y.id == g.id) ≡ false) (Picks (g ∷ gs)) gs
          (λ y picks apart name. rw (==_comm g.id y.id, apart) (picks name))
          (unique-Picks gs unique.1) others,
    )

distribute : (b c : Bool) → (b && true) || (b && c) ≡ b && (true || c)
distribute true c = refl
distribute false c = refl

-- A stored group is named exactly if its name is among the names.
named :
    (gs : List RoutingGroup) (names : List String) (n : String)
    → any (λ g. any (λ name. str_eq g.name name) names && str_eq g.name n) gs
      ≡ any (λ name. str_eq name n) names && any (λ g. str_eq g.name n) gs
named [] names n = sym (and_false (any (λ name. str_eq name n) names))
named (g ∷ gs) names n = elim (Bool-cases (str_eq g.name n)) [
  | inl e ↦
      let same : any (λ name. str_eq g.name name) names ≡ any (λ name. str_eq name n) names =
        any-cong (λ name. str_eq g.name name) (λ name. str_eq name n) names
          (λ name. rw ((eq_iff g.name n).0 e) (str_eq-sym n name)) in
      rw (e, same, named gs names n)
        (distribute (any (λ name. str_eq name n) names) (any (λ x. str_eq x.name n) gs))
  | inr e ↦ rw (e, and_false (any (λ name. str_eq g.name name) names)) (named gs names n)
]

-- If a name is among the names, it is a stored group's.
abbrev Found : List RoutingGroup → List String → String → Type 0
Found gs names n =
    any (λ name. str_eq name n) names && any (λ g. str_eq g.name n) gs
    ≡ any (λ name. str_eq name n) names

Found-first :
    (gs : List RoutingGroup) (name : String) (names : List String) (n : String)
    → not (any (λ g. str_eq g.name name) gs) ≡ false
    → Found gs names n
    → Found gs (name ∷ names) n
Found-first gs name names n stored rest = elim (Bool-cases (str_eq name n)) [
  | inl e ↦
      let same : any (λ g. str_eq g.name n) gs ≡ true =
        subst (λ m. any (λ (g : RoutingGroup). str_eq g.name m) gs ≡ true) ((eq_iff name n).0 e)
          (ground arith) in
      rw (e, same) refl
  | inr e ↦ rw (e) rest
]

checked :
    (gs : List RoutingGroup) (names : List String) (n : String)
    → Gives (λ done. Found gs names n) (check_groups gs names)
unfolding check_groups has_group
checked gs [] n = refl
checked gs (name ∷ names) n =
    reject-Gives (λ done. Found gs (name ∷ names) n) (not (any (λ g. str_eq g.name name) gs)) _ _
      (λ stored.
        imp-Gives (λ done. Found gs names n) (λ done. Found gs (name ∷ names) n)
          (check_groups gs names) (λ done h. Found-first gs name names n stored h)
          (checked gs names n))

-- The tunnel is in the group if it is among the names, and only then.
abbrev Reads : Tunnel → List String → String → Db → Type 0
Reads t names n db = has_routing_group (load_tunnel db t) n ≡ any (λ name. str_eq name n) names

members_found :
    (ms : List (ℕ × ℕ)) (gs : List RoutingGroup) (t : ℕ) (names : List String) (n : String)
    → IsUnique (same_id (λ (g : RoutingGroup). g.id)) gs
    → All
        (λ (g : RoutingGroup).
          (member (delete_where (λ m. m.0 == t) ms ++ join_groups gs t names) t g.id
            && str_eq g.name n)
          ≡ (any (λ name. str_eq g.name name) names && str_eq g.name n))
        gs
members_found ms gs t names n unique =
    All-imp (Picks gs) _ gs
      (λ g picks.
        rw
          (
            any-append (λ m. m.0 == t && m.1 == g.id) (delete_where (λ m. m.0 == t) ms)
                (join_groups gs t names),
            member-delete_where ms t g.id,
            member-join_groups gs t names g.id,
            any-cong (λ name. any (λ x. x.id == g.id && str_eq x.name name) gs)
                (λ name. str_eq g.name name) names picks,
          )
          refl)
      (unique-Picks gs unique)

set_memberships-Gives :
    (db : Db) (t : Tunnel) (names : List String) (n : String)
    → IsUnique (same_id (λ (g : RoutingGroup). g.id)) db.groups
    → Gives (Reads t names n) (set_memberships db t.id names)
unfolding set_memberships load_tunnel has_routing_group
set_memberships-Gives db t names n unique =
    let ms = delete_where (λ m. m.0 == t.id) db.members ++ join_groups db.groups t.id names in
    let known = any (λ name. true) names && not (any (λ (r : Tunnel). r.id == t.id) db.tunnels) in
    bind-Gives (λ done. Found db.groups names n) (Reads t names n) (check_groups db.groups names) _
      (checked db.groups names n)
      (λ done found. reject-Gives (Reads t names n) known _ _ (λ stored.
        reject-Gives (Reads t names n) (has_repeat names) _ _ (λ distinct.
          any-group_names_of ms (sort_by group_before db.groups) t.id n
          ∙ any-sort_by (λ g. member ms t.id g.id && str_eq g.name n) group_before db.groups
          ∙ any-All_cong _ _ db.groups (members_found db.members db.groups t.id names n unique)
          ∙ named db.groups names n
          ∙ found)))

-- Once the memberships of a tunnel are set to some groups, and no two groups have the same id, the loaded
-- tunnel is in exactly these groups.
pub set_memberships-has_routing_group :
    (db db' : Db) (t : Tunnel) (names : List String) (n : String)
    → IsUnique (same_id (λ (g : RoutingGroup). g.id)) db.groups
    → set_memberships db t.id names ≡ ok db'
    → has_routing_group (load_tunnel db' t) n ≡ any (λ name. str_eq name n) names
set_memberships-has_routing_group db db' t names n unique done =
    subst (Gives (Reads t names n)) done (set_memberships-Gives db t names n unique)
