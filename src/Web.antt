-- ===== src/Web.antt =====
-- internal/broker/web.go: logins and sessions. What net/http reads from a request is a record; bcrypt's
-- comparison, net.SplitHostPort, net.ParseIP and strings.EqualFold are arguments, and the tokens that are
-- drawn stand in the request. Times are in nanoseconds.
pub mod Sessions
mod Tests
use open_tunnelbroker.Prelude.{
  ℕ, ◌+◌, ◌*◌, ◌^◌, String, Bool, true, false, not, ◌&&◌, ◌||◌, List, [], ◌∷◌, Option, none, some,
  str_eq, leb, if◌then◌else◌,
}
use open_tunnelbroker.Store.Db.{Db, Tried, ok, err}
use open_tunnelbroker.Store.Db.Accounts.{admin_hash}
use open_tunnelbroker.Store.Table.{delete_where}

pub record Session : Type 0 where
  pub username : String
  pub csrf : String
  pub expires : ℕ

-- The map App.sessions, with one entry for each id.
abbrev pub SessionMap : Type 0
SessionMap = List (String × Session)

unfoldable pub find_session : SessionMap → String → Option Session
find_session [] id = none
find_session (entry ∷ sessions) id =
    let rest = find_session sessions id in if str_eq entry.0 id then some entry.1 else rest

unfoldable pub drop_session : SessionMap → String → SessionMap
drop_session sessions id = delete_where (λ (entry : String × Session). str_eq entry.0 id) sessions

-- `none` is the redirect to the login page.
unfoldable pub auth : SessionMap → Option String → ℕ → Option Session
auth sessions none now = none
auth sessions (some cookie) now = elim (find_session sessions cookie) [
  | none ↦ none
  | some s ↦ if leb now s.expires then some s else none
]

unfoldable pub check_csrf : String → String → Session → Bool
check_csrf method form s = not (str_eq method "POST") || str_eq form s.csrf

-- The library functions that a login uses.
pub record Library : Type 0 where
  pub matches : List ℕ → String → Bool
  pub host_of : String → String
  pub is_loopback : String → Bool
  pub equal_fold : String → String → Bool

pub record LoginRequest : Type 0 where
  pub method : String
  pub tls : Bool
  pub forwarded_proto : String
  pub host : String
  pub username : String
  pub password : String
  pub drawn_id : String
  pub drawn_csrf : String

-- 12 * time.Hour
abbrev pub session_lifetime : ℕ
session_lifetime = 43200 * 10 ^ 9

module _ (lib : Library) where
  unfoldable pub authenticate : Db → String → String → Bool
  authenticate db user password = elim (admin_hash db user) [
    | err e ↦ false
    | ok hash ↦ lib.matches hash password
  ]

  unfoldable pub is_https : LoginRequest → Bool
  is_https r = r.tls || lib.equal_fold r.forwarded_proto "https"

  unfoldable pub login_allowed : LoginRequest → Bool
  unfolding is_https
  login_allowed r =
      let host = lib.host_of r.host in
      is_https r || (str_eq host "localhost" || lib.is_loopback host)

  -- Is a session created?
  unfoldable pub logs_in : Db → LoginRequest → Bool
  unfolding login_allowed authenticate
  logs_in db r =
      str_eq r.method "POST" && (login_allowed r && authenticate db r.username r.password)

  unfoldable pub login : SessionMap → Db → LoginRequest → ℕ → SessionMap
  unfolding logs_in drop_session
  login sessions db r now =
      let s : Session = record {
        username = r.username;
        csrf = r.drawn_csrf;
        expires = now + session_lifetime;
      } in
      if logs_in db r then (r.drawn_id, s) ∷ drop_session sessions r.drawn_id else sessions

-- logout behind auth.
unfoldable pub logout : SessionMap → Option String → String → String → ℕ → SessionMap
unfolding auth drop_session check_csrf
logout sessions none method form now = sessions
logout sessions (some cookie) method form now = elim (auth sessions (some cookie) now) [
  | none ↦ sessions
  | some s ↦
      if str_eq method "POST" && check_csrf method form s
      then drop_session sessions cookie
      else sessions
]

-- The requests that change the sessions.
pub data Event : Type 0 where
  login_at : Db → LoginRequest → ℕ → Event
  logout_at : Option String → String → String → ℕ → Event

unfoldable pub after_event : Library → SessionMap → Event → SessionMap
unfolding login logout
after_event lib sessions (login_at db r now) = login lib sessions db r now
after_event lib sessions (logout_at cookie method form now) = logout sessions cookie method form now

unfoldable pub after_events : Library → SessionMap → List Event → SessionMap
unfolding after_event
after_events lib sessions [] = sessions
after_events lib sessions (e ∷ events) = after_events lib (after_event lib sessions e) events
