-- ===== src/Store/Db/Sound/Gives.antt =====
-- What a write gives if it does not fail, and updates of tunnels that leave what the tunnels hold.
use mathlib.Core.Path.{subst}
use open_tunnelbroker.Prelude.{Bool, true, false, Option, none, some, ◌≡◌, refl, sym}
use open_tunnelbroker.Models.{Tunnel}
use open_tunnelbroker.Store.Table.{update_where}
use open_tunnelbroker.Store.Db.{Db, Tried, ok, err, StoreError, ◌>>=◌, ◌>>◌, reject_if}
use open_tunnelbroker.Store.Db.Sound.{holding, Sound, IsSound}
use open_tunnelbroker.Store.Db.Sound.Rows.{map-update_where}

-- What a result satisfies, if it is not an error.
abbrev pub Gives {ℓ κ} : {A : Type ℓ} → (A → Type κ) → Tried A → Type κ
Gives P (ok a) = P a
Gives P (err e) = Unit

pub bind-Gives {ℓ κ μ ν} :
    {A : Type ℓ} {B : Type κ} (P : A → Type μ) (Q : B → Type ν) (m : Tried A) (f : A → Tried B)
    → Gives P m
    → ((a : A) → P a → Gives Q (f a))
    → Gives Q (m >>= f)
bind-Gives P Q (ok a) f h next = next a h
bind-Gives P Q (err e) f h next = tt

pub imp-Gives {ℓ κ μ} :
    {A : Type ℓ} (P : A → Type κ) (Q : A → Type μ) (m : Tried A)
    → ((a : A) → P a → Q a)
    → Gives P m
    → Gives Q m
imp-Gives P Q (ok a) implies h = implies a h
imp-Gives P Q (err e) implies h = tt

pub reject-Gives {κ ν} :
    {B : Type κ} (Q : B → Type ν) (b : Bool) (e : StoreError) (k : Tried B)
    → (b ≡ false → Gives Q k)
    → Gives Q (reject_if b e >> k)
reject-Gives Q true e k h = tt
reject-Gives Q false e k h = h refl

pub last-Gives {ν} :
    (Q : Unit {0} → Type ν) (b : Bool) (e : StoreError)
    → (b ≡ false → Q tt)
    → Gives Q (reject_if b e)
last-Gives Q true e h = tt
last-Gives Q false e h = h refl

pub option-Gives {ℓ κ ν} :
    {A : Type ℓ} {B : Type κ} (Q : B → Type ν) (o : Option A) (e : StoreError) (f : A → Tried B)
    → ((a : A) → o ≡ some a → Gives Q (f a))
    → Gives Q (elim o [ none ↦ err e | some a ↦ f a ])
option-Gives Q none e f h = tt
option-Gives Q (some a) e f h = h a refl

pub trivial-Gives {ℓ} : {A : Type ℓ} (m : Tried A) → Gives (λ a. Unit {0}) m
trivial-Gives (ok a) = tt
trivial-Gives (err e) = tt

-- An update of tunnels that leaves what they hold.
pub touch-IsSound :
    (db : Db) (p : Tunnel → Bool) (f : Tunnel → Tunnel)
    → ((t : Tunnel) → holding (f t) ≡ holding t)
    → IsSound db
    → IsSound (record db { tunnels = update_where p f db.tunnels })
touch-IsSound db p f keeps sound =
    subst (λ hs. Sound db.upstreams hs db.groups db.members)
      (sym (map-update_where holding p f db.tunnels keeps)) sound
