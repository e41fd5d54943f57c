-- ===== src/Web/Tests.antt =====
-- The theorem on sessions, on one login.
use open_tunnelbroker.Prelude.{List, [], ◌∷◌, any, some, true, false, str_eq, ◌≡◌, refl}
use open_tunnelbroker.Store.Db.Accounts.{admin_hash}
use open_tunnelbroker.Store.Db.Tests.{db}
use open_tunnelbroker.Web.{
  Session, Library, LoginRequest, Event, login_at, auth, find_session, after_events,
}
use open_tunnelbroker.Web.Sessions.{grants, auth-grants}

abbrev library : Library
library = record {
  matches = λ hash password. str_eq password "correct horse";
  host_of = λ host. host;
  is_loopback = λ host. str_eq host "127.0.0.1";
  equal_fold = str_eq;
}

abbrev request : LoginRequest
request = record {
  method = "POST";
  tls = false;
  forwarded_proto = "";
  host = "127.0.0.1";
  username = "admin";
  password = "correct horse";
  drawn_id = "id";
  drawn_csrf = "csrf";
}

abbrev events : List Event
events = login_at (record db { admins = ("admin", 1 ∷ []) ∷ [] }) request 5 ∷ []

abbrev session : Session
session = record { username = "admin"; csrf = "csrf"; expires = 43200000000005 }

accepted : auth (after_events library [] events) (some "id") 9 ≡ some session
unfolding after_events auth find_session admin_hash
accepted = refl

auth-grants_example : any (grants library "id" "admin" 9) events ≡ true
auth-grants_example = auth-grants library events "id" 9 session accepted
