-- ===== src/Service/App/Keeps.antt =====
-- Parts of handlers that keep a predicate of the tables, also where they fail.
use open_tunnelbroker.Prelude.{String, Bool, true, false, Option, none, some, if◌then◌else◌}
use open_tunnelbroker.Store.Db.{Db, Tried, ok, err}
use open_tunnelbroker.Store.Db.Sound.Gives.{Gives}
use open_tunnelbroker.Service.Upstreams.{ConfigError, Outcome, done}
use open_tunnelbroker.Service.Upstreams
use open_tunnelbroker.Service.App.{
  Answer, answer, broken, World, Reply, returned, failed, Act, AppError, continue, ◌>>=◌, ◌>>◌,
  check, query, read, from_store, stored, stored_with, called, transact, transact_with, call,
}
use open_tunnelbroker.Service.App.Handlers.{accept, outcome, given}

module _ {K : Type 0} (P : Db → Type 0) where
  abbrev pub Keeps {ℓ} : {A : Type ℓ} → Act K A → Type 0
  Keeps m = (w : World K) → P w.db → P (m w).1.db

  pub continue-Keeps {ℓ κ} :
      {A : Type ℓ} {B : Type κ} (r : Reply A × World K) (f : A → Act K B)
      → P r.1.db
      → ((a : A) → Keeps (f a))
      → P (continue r f).1.db
  continue-Keeps (returned a, w) f h next = next a w h
  continue-Keeps (failed e, w) f h next = h

  pub bind-Keeps {ℓ κ} :
      {A : Type ℓ} {B : Type κ} (m : Act K A) (f : A → Act K B)
      → Keeps m
      → ((a : A) → Keeps (f a))
      → Keeps (m >>= f)
  unfolding ◌>>=◌
  bind-Keeps m f first next w h = continue-Keeps (m w) f (first w h) next

  from_store-Keeps {ℓ} : {A : Type ℓ} (r : Tried A) → Keeps (from_store r)
  from_store-Keeps (ok a) w h = h
  from_store-Keeps (err e) w h = h

  pub query-Keeps {ℓ} : {A : Type ℓ} (q : Db → Tried A) → Keeps (query q)
  query-Keeps q w h = from_store-Keeps (q w.db) w h

  stored-Keeps : (w : World K) (r : Tried Db) → P w.db → Gives P r → P (stored w r).1.db
  stored-Keeps w (ok db) h g = g
  stored-Keeps w (err e) h g = h

  pub transact-Keeps :
      (t : Db → Tried Db) → ((db : Db) → P db → Gives P (t db)) → Keeps (transact t)
  transact-Keeps t keeps w h = stored-Keeps w (t w.db) h (keeps w.db h)

  pub stored_with-Keeps :
      {A : Type 0} (w : World K) (r : Tried (A × Db))
      → P w.db
      → Gives (λ (x : A × Db). P x.1) r
      → P (stored_with w r).1.db
  stored_with-Keeps w (ok row) h g = g
  stored_with-Keeps w (err e) h g = h

  pub transact_with-Keeps :
      {A : Type 0} (t : Db → Tried (A × Db))
      → ((db : Db) → P db → Gives (λ (x : A × Db). P x.1) (t db))
      → Keeps (transact_with t)
  transact_with-Keeps t keeps w h = stored_with-Keeps w (t w.db) h (keeps w.db h)

  called-Keeps {ℓ} : {A : Type ℓ} (w : World K) (r : Answer A × K) → P w.db → P (called w r).1.db
  called-Keeps w (a, k) h = h

  pub call-Keeps {ℓ} : {A : Type ℓ} (f : K → Answer A × K) → Keeps (call f)
  call-Keeps f w h = called-Keeps w (f w.kernel) h

  pub check-Keeps : (b : Bool) (e : AppError) → Keeps (check b e)
  check-Keeps true e w h = h
  check-Keeps false e w h = h

  pub accept-Keeps : (o : Option ConfigError) → Keeps (accept o)
  accept-Keeps none w h = h
  accept-Keeps (some e) w h = h

  pub outcome-Keeps {ℓ} : {A : Type ℓ} (o : Outcome A) → Keeps (outcome o)
  outcome-Keeps (done a) w h = h
  outcome-Keeps (Upstreams.refused e) w h = h

  pub given-Keeps {ℓ} : {A : Type ℓ} (o : Option A) → Keeps (given o)
  given-Keeps none w h = h
  given-Keeps (some a) w h = h

  pub answer-Keeps {ℓ κ} :
      {A : Type ℓ} {B : Type κ} (a : Answer A) (f : String → Act K B) (g : A → Act K B)
      → ((text : String) → Keeps (f text))
      → ((x : A) → Keeps (g x))
      → Keeps (elim a [ broken text ↦ f text | answer x ↦ g x ])
  answer-Keeps (broken text) f g h k = h text
  answer-Keeps (answer x) f g h k = k x

  -- A transaction, and what follows.
  pub then-Keeps {κ} :
      {B : Type κ} (t : Db → Tried Db) (next : Act K B)
      → ((db : Db) → P db → Gives P (t db))
      → Keeps next
      → Keeps (transact t >> next)
  then-Keeps t next keeps rest =
      bind-Keeps (transact t) (λ done. next) (transact-Keeps t keeps) (λ done. rest)

  pub read-Keeps {κ} :
      {B : Type κ} (f : Db → Act K B) → ((db : Db) → Keeps (f db)) → Keeps (read >>= f)
  read-Keeps f next = bind-Keeps read f (λ w h. h) next

  pub if-Keeps {ℓ} :
      {A : Type ℓ} (b : Bool) (x y : Act K A) → Keeps x → Keeps y → Keeps (if b then x else y)
  if-Keeps true x y h k = h
  if-Keeps false x y h k = k
