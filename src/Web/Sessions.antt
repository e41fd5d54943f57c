-- ===== src/Web/Sessions.antt =====
-- Where the sessions that a request can use come from.
use mathlib.Core.Path.{subst}
use open_tunnelbroker.Prelude.{
  ℕ, ◌+◌, ◌*◌, String, Bool, true, false, not, ◌&&◌, ◌||◌, List, [], ◌∷◌, Option, none, some, any,
  str_eq, leb, if◌then◌else◌, ◌≡◌, refl, inl, inr, Bool-cases, arith, sym, ◌∙◌, or_false, or_true,
  eq_iff,
}
use open_tunnelbroker.Store.Db.{Db, ok, err}
use open_tunnelbroker.Store.Db.Accounts.{find_admin, admin_hash}
use open_tunnelbroker.Store.Table.{delete_where}
use open_tunnelbroker.Store.Table.Laws.{any-delete_where-false}
use open_tunnelbroker.Web.{
  Session, SessionMap, find_session, drop_session, auth, check_csrf, Library, session_lifetime,
  LoginRequest, authenticate, is_https, login_allowed, logs_in, login, logout, Event, login_at,
  logout_at, after_event, after_events,
}

-- Has this event created a session with this id for this user, at most its lifetime ago?
abbrev draws : Library → String → String → ℕ → Event → Bool
draws lib id user now (logout_at cookie method form t) = false
draws lib id user now (login_at db r t) =
    logs_in lib db r
    && (str_eq r.drawn_id id && (str_eq r.username user && leb now (t + session_lifetime)))

-- Is the request one over HTTPS, or one whose Host header names the local host?
abbrev pub is_local_or_secure : Library → LoginRequest → Bool
is_local_or_secure lib r =
    r.tls
    || (lib.equal_fold r.forwarded_proto "https"
        || (str_eq (lib.host_of r.host) "localhost" || lib.is_loopback (lib.host_of r.host)))

-- Is there an administrator of this name whose stored hash the password matches?
abbrev pub is_password_of : Library → Db → String → String → Bool
is_password_of lib db user password =
    any (λ (a : String × List ℕ). str_eq a.0 user && lib.matches a.1 password) db.admins

-- Is this a posted login of this user, with the right password, over HTTPS or to a local host name, that
-- drew this id and is no more than twelve hours old?
abbrev pub grants : Library → String → String → ℕ → Event → Bool
grants lib id user now (logout_at cookie method form t) = false
grants lib id user now (login_at db r t) =
    (str_eq r.method "POST" && (is_local_or_secure lib r && is_password_of lib db user r.password))
    && (str_eq r.drawn_id id && (str_eq r.username user && leb now (t + 12 * 60 * 60 * 1000000000)))

-- Is there an entry with this id for this user that has not expired?
abbrev usable : SessionMap → String → String → ℕ → Bool
usable sessions id user now =
    any
      (λ (entry : String × Session).
        str_eq entry.0 id && (str_eq entry.1.username user && leb now entry.1.expires))
      sessions

any-kept :
    {A : Type 0} (q p : A → Bool) (xs : List A) → any q (delete_where p xs) ≡ true → any q xs ≡ true
any-kept q p xs h = elim (Bool-cases (any q xs)) [
  | inl e ↦ e
  | inr e ↦ let missing = any-delete_where-false q p xs e in ground arith
]

chain : (a b c d : Bool) → (b || c) ≡ true → (c ≡ true → (a || d) ≡ true) → ((a || b) || d) ≡ true
chain true b c d later here = refl
chain false true c d later here = refl
chain false false c d later here = here later

module _ (lib : Library) (id user : String) (now : ℕ) where
  dropped-usable :
      (sessions : SessionMap) (dropped : String)
      → usable (drop_session sessions dropped) id user now ≡ true
      → usable sessions id user now ≡ true
  unfolding drop_session
  dropped-usable sessions dropped h =
      any-kept
        (λ (entry : String × Session).
          str_eq entry.0 id && (str_eq entry.1.username user && leb now entry.1.expires))
        (λ entry. str_eq entry.0 dropped) sessions h

  login_usable :
      (created : Bool) (drawn : String) (s : Session) (sessions : SessionMap)
      → usable (if created then (drawn, s) ∷ drop_session sessions drawn else sessions) id user now
        ≡ true
      → ((created && (str_eq drawn id && (str_eq s.username user && leb now s.expires)))
          || usable sessions id user now)
        ≡ true
  login_usable false drawn s sessions h = h
  login_usable true drawn s sessions h =
      elim (Bool-cases (str_eq drawn id && (str_eq s.username user && leb now s.expires))) [
        | inl e ↦ rw (e) refl
        | inr e ↦
            let rest : usable (drop_session sessions drawn) id user now ≡ true = ground arith in
            rw (e) (dropped-usable sessions drawn rest)
      ]

  leave_usable :
      (b : Bool) (sessions : SessionMap) (cookie : String)
      → usable (if b then drop_session sessions cookie else sessions) id user now ≡ true
      → usable sessions id user now ≡ true
  leave_usable true sessions cookie h = dropped-usable sessions cookie h
  leave_usable false sessions cookie h = h

  logout_usable :
      (sessions : SessionMap) (cookie : String) (o : Option Session) (accepted : Session → Bool)
      → usable
          (elim o [
            | none ↦ sessions
            | some s ↦ if accepted s then drop_session sessions cookie else sessions
          ])
          id
          user
          now
        ≡ true
      → usable sessions id user now ≡ true
  logout_usable sessions cookie none accepted h = h
  logout_usable sessions cookie (some s) accepted h = leave_usable (accepted s) sessions cookie h

  after_event-usable :
      (sessions : SessionMap) (e : Event)
      → usable (after_event lib sessions e) id user now ≡ true
      → (draws lib id user now e || usable sessions id user now) ≡ true
  unfolding after_event login logout
  after_event-usable sessions (login_at db r t) h =
      login_usable (logs_in lib db r) r.drawn_id
        (record { username = r.username; csrf = r.drawn_csrf; expires = t + session_lifetime })
        sessions h
  after_event-usable sessions (logout_at none method form t) h = h
  after_event-usable sessions (logout_at (some cookie) method form t) h =
      logout_usable sessions cookie (auth sessions (some cookie) t)
        (λ s. str_eq method "POST" && check_csrf method form s) h

  after_events-usable :
      (sessions : SessionMap) (events : List Event)
      → usable (after_events lib sessions events) id user now ≡ true
      → (any (draws lib id user now) events || usable sessions id user now) ≡ true
  unfolding after_events
  after_events-usable sessions [] h = h
  after_events-usable sessions (e ∷ events) h =
      let later : (any (draws lib id user now) events
            || usable (after_event lib sessions e) id user now)
          ≡ true =
        after_events-usable (after_event lib sessions e) events h in
      let here : usable (after_event lib sessions e) id user now ≡ true
          → (draws lib id user now e || usable sessions id user now) ≡ true =
        after_event-usable sessions e in
      chain (draws lib id user now e) (any (draws lib id user now) events) _ _ later here

-- A found session that has not expired is usable.
abbrev IsUsable : SessionMap → String → ℕ → Option Session → Type 0
IsUsable sessions cookie now none = Unit
IsUsable sessions cookie now (some s) =
    (leb now s.expires && not (usable sessions cookie s.username now)) ≡ false

first-IsUsable : (a b : Bool) → (a && not ((true && (true && a)) || b)) ≡ false
first-IsUsable true b = refl
first-IsUsable false b = refl

step-IsUsable :
    (entry : String × Session) (sessions : SessionMap) (cookie : String) (now : ℕ)
    (o : Option Session)
    → str_eq entry.0 cookie ≡ false
    → IsUsable sessions cookie now o
    → IsUsable (entry ∷ sessions) cookie now o
step-IsUsable entry sessions cookie now none e h = tt
step-IsUsable entry sessions cookie now (some s) e h = rw (e) h

find_session-IsUsable :
    (sessions : SessionMap) (cookie : String) (now : ℕ)
    → IsUsable sessions cookie now (find_session sessions cookie)
unfolding find_session
find_session-IsUsable [] cookie now = tt
find_session-IsUsable (entry ∷ sessions) cookie now = elim (Bool-cases (str_eq entry.0 cookie)) [
  | inl e ↦
      rw (e, e, (eq_iff entry.1.username entry.1.username).1 refl)
        (first-IsUsable (leb now entry.1.expires) _)
  | inr e ↦ rw (e) (
      step-IsUsable entry sessions cookie now (find_session sessions cookie) e
        (find_session-IsUsable sessions cookie now))
]

-- The session that auth returns is usable.
abbrev IsGiven : SessionMap → String → ℕ → Option Session → Type 0
IsGiven sessions cookie now none = Unit
IsGiven sessions cookie now (some s) = usable sessions cookie s.username now ≡ true

granted-IsGiven :
    (sessions : SessionMap) (cookie : String) (now : ℕ) (s : Session) (b : Bool)
    → (b && not (usable sessions cookie s.username now)) ≡ false
    → IsGiven sessions cookie now (if b then some s else none)
granted-IsGiven sessions cookie now s true h = ground arith
granted-IsGiven sessions cookie now s false h = tt

found-IsGiven :
    (sessions : SessionMap) (cookie : String) (now : ℕ) (o : Option Session)
    → IsUsable sessions cookie now o
    → IsGiven sessions cookie now
        (elim o [ none ↦ none | some s ↦ if leb now s.expires then some s else none ])
found-IsGiven sessions cookie now none h = tt
found-IsGiven sessions cookie now (some s) h =
    granted-IsGiven sessions cookie now s (leb now s.expires) h

auth-IsGiven :
    (sessions : SessionMap) (cookie : String) (now : ℕ)
    → IsGiven sessions cookie now (auth sessions (some cookie) now)
unfolding auth
auth-IsGiven sessions cookie now =
    found-IsGiven sessions cookie now (find_session sessions cookie)
      (find_session-IsUsable sessions cookie now)

found_matches :
    (lib : Library) (admins : List (String × List ℕ)) (user password : String)
    → (elim (find_admin admins user) [ err e ↦ false | ok hash ↦ lib.matches hash password ]) ≡ true
    → any (λ (a : String × List ℕ). str_eq a.0 user && lib.matches a.1 password) admins ≡ true
unfolding find_admin
found_matches lib [] user password h = h
found_matches lib (a ∷ admins) user password h = elim (Bool-cases (str_eq a.0 user)) [
  | inl e ↦ rw e (rw (rw e at h) refl)
  | inr e ↦ rw e (found_matches lib admins user password (rw e at h))
]

authenticate-is_password_of :
    (lib : Library) (db : Db) (user password : String)
    → authenticate lib db user password ≡ true
    → is_password_of lib db user password ≡ true
unfolding authenticate admin_hash
authenticate-is_password_of lib db user password h = found_matches lib db.admins user password h

draws-grants :
    (lib : Library) (id user : String) (now : ℕ) (e : Event)
    → draws lib id user now e ≡ true
    → grants lib id user now e ≡ true
unfolding logs_in login_allowed is_https
draws-grants lib id user now (logout_at cookie method form t) h = h
draws-grants lib id user now (login_at db r t) h =
    let name : r.username ≡ user = (eq_iff r.username user).0 (ground arith) in
    let login : authenticate lib db r.username r.password ≡ true = ground arith in
    let password = authenticate-is_password_of lib db user r.password (rw name at login) in
    rw password (ground arith)

any-grants :
    (lib : Library) (id user : String) (now : ℕ) (events : List Event)
    → any (draws lib id user now) events ≡ true
    → any (grants lib id user now) events ≡ true
any-grants lib id user now [] h = h
any-grants lib id user now (e ∷ events) h = elim (Bool-cases (draws lib id user now e)) [
  | inl d ↦ rw (draws-grants lib id user now e d) refl
  | inr d ↦ rw (any-grants lib id user now events (rw d at h)) (or_true (grants lib id user now e))
]

-- A cookie gives a request the rights of a user only if, since the process started without sessions, a
-- posted login of that user with a password that matches the stored hash of an administrator of this
-- name, over HTTPS or with a Host header that names the local host, has drawn the cookie's value, no
-- more than twelve hours ago.
pub auth-grants :
    (lib : Library) (events : List Event) (cookie : String) (now : ℕ) (s : Session)
    → auth (after_events lib [] events) (some cookie) now ≡ some s
    → any (grants lib cookie s.username now) events ≡ true
auth-grants lib events cookie now s h = any-grants lib cookie s.username now events (
    sym (or_false (any (draws lib cookie s.username now) events))
    ∙ after_events-usable lib cookie s.username now [] events (
        subst (IsGiven (after_events lib [] events) cookie now) h
          (auth-IsGiven (after_events lib [] events) cookie now)))
