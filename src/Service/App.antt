-- ===== src/Service/App.antt =====
-- internal/broker/service.go: the state of App, and how its handlers run. A handler runs under App.mu, one
-- at a time, so that it is a function on the state; what it has changed stays changed when it fails. The
-- kernel is the interface Kernel of internal/broker/network.go, over a state of its own.
pub mod Reconcile
pub mod Handlers
pub mod Requests
pub mod Keeps
pub mod Sound
pub mod Removal
pub mod Applied
pub mod Settled
mod Tests
use open_tunnelbroker.Prelude.{ℕ, String, Bool, true, false, List, [], Option, none, some}
use open_tunnelbroker.Models.{Settings, Upstream, Tunnel, WarpAccount}
use open_tunnelbroker.Allocator.{Choice}
use open_tunnelbroker.Service.Upstreams.{ConfigError}
use open_tunnelbroker.Store.Db.{Db, StoreError, Tried, ok, err}
use open_tunnelbroker.Store.Db.Writes.{Stamp}

pub record Health : Type 0 where
  pub drift : List String
  pub last_reconcile : ℕ
  pub error : String

-- What a call of the kernel returns: a value, or an error with this text.
pub data Answer {ℓ} (A : Type ℓ) : Type ℓ where
  answer : A → Answer A
  broken : String → Answer A

-- The interface Kernel. Inspect only reads.
pub record Kernel (K : Type 0) : Type 0 where
  pub apply : Settings → WarpAccount → List Upstream → List Tunnel → K → Answer (List Tunnel) × K
  pub inspect : Settings → WarpAccount → List Upstream → List Tunnel → K → Answer (List String)
  pub remove : Upstream → Tunnel → K → Answer (Unit {0}) × K
  pub remove_upstream : Upstream → K → Answer (Unit {0}) × K

pub record World (K : Type 0) : Type 0 where
  pub db : Db
  pub kernel : K
  pub health : Health

-- What one request finds around it: the time, and what wgtypes, crypto/rand and strings.EqualFold give.
pub record Call : Type 0 where
  pub stamp : Stamp
  pub equal_fold : String → String → Bool
  pub choose : ℕ → Choice
  pub server_key : Option String
  pub tunnel_key : Option (String × String)
  pub shared_key : Option String
  pub parses : String → Bool

pub data AppError : Type 0 where
  refused : AppError
  invalid : ConfigError → AppError
  in_store : StoreError → AppError
  in_kernel : String → AppError

pub data Reply {ℓ} (A : Type ℓ) : Type ℓ where
  returned : A → Reply A
  failed : AppError → Reply A

-- A handler, or a part of one.
abbrev pub Act {ℓ} : Type 0 → Type ℓ → Type ℓ
Act K A = World K → Reply A × World K

module _ {K : Type 0} where
  abbrev pub continue {ℓ κ} :
      {A : Type ℓ} {B : Type κ} → Reply A × World K → (A → Act K B) → Reply B × World K
  continue (returned a, w) f = f a w
  continue (failed e, w) f = (failed e, w)

  infixl 5 ◌>>=◌ ◌>>◌
  unfoldable pub ◌>>=◌ {ℓ κ} : {A : Type ℓ} {B : Type κ} → Act K A → (A → Act K B) → Act K B
  (m >>= f) w = continue (m w) f

  abbrev pub ◌>>◌ {κ} : {B : Type κ} → Act K (Unit {0}) → Act K B → Act K B
  m >> k = m >>= λ done. k

  abbrev pub return {ℓ} : {A : Type ℓ} → A → Act K A
  return a w = (returned a, w)

  abbrev pub fail {ℓ} : {A : Type ℓ} → AppError → Act K A
  fail e w = (failed e, w)

  abbrev pub check : Bool → AppError → Act K (Unit {0})
  check true e = return tt
  check false e = fail e

  -- A query, which may find no row.
  abbrev pub from_store {ℓ} : {A : Type ℓ} → Tried A → Act K A
  from_store (ok a) = return a
  from_store (err e) = fail (in_store e)

  abbrev pub query {ℓ} : {A : Type ℓ} → (Db → Tried A) → Act K A
  query q w = from_store (q w.db) w

  abbrev pub read : Act K Db
  read w = (returned w.db, w)

  -- A transaction, which changes the tables or is rolled back.
  abbrev pub stored : World K → Tried Db → Reply (Unit {0}) × World K
  stored w (ok db) = (returned tt, record w { db = db })
  stored w (err e) = (failed (in_store e), w)

  abbrev pub transact : (Db → Tried Db) → Act K (Unit {0})
  transact t w = stored w (t w.db)

  -- A transaction that also returns a value.
  abbrev pub stored_with : {A : Type 0} → World K → Tried (A × Db) → Reply A × World K
  stored_with w (ok row) = (returned row.0, record w { db = row.1 })
  stored_with w (err e) = (failed (in_store e), w)

  abbrev pub transact_with : {A : Type 0} → (Db → Tried (A × Db)) → Act K A
  transact_with t w = stored_with w (t w.db)

  abbrev pub set_health : Health → Act K (Unit {0})
  set_health h w = (returned tt, record w { health = h })

  abbrev pub set_error : String → Act K (Unit {0})
  set_error text w = (returned tt, record w { health = record w.health { error = text } })

  -- A call that changes the kernel.
  abbrev pub called {ℓ} : {A : Type ℓ} → World K → Answer A × K → Reply (Answer A) × World K
  called w (a, k) = (returned a, record w { kernel = k })

  abbrev pub call {ℓ} : {A : Type ℓ} → (K → Answer A × K) → Act K (Answer A)
  call f w = called w (f w.kernel)
