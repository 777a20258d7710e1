-- ===== src/Auth.antt =====
-- internal/auth/auth.go: login, sessions behind a cookie, and the gates of the handlers.
pub mod Laws
pub mod Trace
mod Examples
use stornas.Base.{
  ℕ, ◌+◌, String, Bool, true, false, not, ◌&&◌, Option, none, some, ◌==◌, ltb, if◌then◌else◌,
}
use Prim.Native.String.{len}

pub record User : Type 0 where
  pub name : String
  pub role : String

pub record Session : Type 0 where
  pub user : User
  pub expires : ℕ

-- The map from tokens to sessions.
abbrev pub Sessions : Type 0
Sessions = String → Option Session

-- `ttl`, in nanoseconds: 12 hours.
abbrev pub ttl : ℕ
ttl = 43200000000000

-- `Source.Lookup`; `none` is an error.
abbrev pub Source : Type 0
Source = String → Option (User × String)

-- The body of a login, once it is decoded.
pub record Credentials : Type 0 where
  pub username : String
  pub password : String

-- The body of a password change.
pub record NewPassword : Type 0 where
  pub current : String
  pub new : String

-- What a handler answers: the status codes of the source, and the token that a cookie sets.
pub data Response : Type 0 where
  bad_request : Response
  invalid_credentials : Response
  welcome : User → String → Response
  no_content : Response
  unauthenticated : Response
  identity : User → Bool → Response
  not_supported : Response
  wrong_password : Response
  store_failed : String → Response
  forbidden : Response

-- `delete(m.sessions, tok)`, and `m.sessions[tok] = s`.
abbrev pub without : String → Sessions → Sessions
without tok m k = if k == tok then none else m k

abbrev pub with_session : String → Session → Sessions → Sessions
with_session tok s m k = if k == tok then some s else m k

abbrev pub has_expired : ℕ → Session → Bool
has_expired now s = ltb s.expires now

abbrev pub unexpired : ℕ → Option Session → Option Session
unexpired now none = none
unexpired now (some s) = if has_expired now s then none else some s

-- `gcLocked`.
unfoldable pub gc : ℕ → Sessions → Sessions
gc now m k = unexpired now (m k)

-- The test on the password: found, not empty, and equal.
abbrev pub matches : Option (User × String) → String → Option User
matches none given = none
matches (some (u, pw)) given = if not (pw == "") && pw == given then some u else none

-- `Login`; `tok` is the random token, and `none` a body that is no JSON.
unfoldable pub login : Source → ℕ → String → Option Credentials → Sessions → Sessions × Response
login src now tok none m = (m, bad_request)
login src now tok (some c) m = elim (c.username == "") [
  | true ↦ (m, bad_request)
  | false ↦ elim (matches (src c.username) c.password) [
    | none ↦ (m, invalid_credentials)
    | some u ↦
        (with_session tok (record { user = u; expires = now + ttl }) (gc now m), welcome u tok)
  ]
]

-- `Logout`, with the value of the cookie, if there is one.
unfoldable pub logout : Option String → Sessions → Sessions × Response
logout none m = (m, no_content)
logout (some tok) m = (without tok m, no_content)

-- `userFor`: the session slides on, or goes.
unfoldable pub user_in : ℕ → String → Option Session → Sessions → Sessions × Option User
user_in now tok none m = (without tok m, none)
user_in now tok (some s) m = elim (has_expired now s) [
  | true ↦ (without tok m, none)
  | false ↦ (with_session tok (record { user = s.user; expires = now + ttl }) m, some s.user)
]

unfoldable pub user_for : ℕ → Option String → Sessions → Sessions × Option User
user_for now none m = (m, none)
user_for now (some tok) m = user_in now tok (m tok) m

-- `PasswordStore`, if the source is one: what it says of a user, and the error of an update.
pub record PasswordStore : Type 0 where
  pub must_change : String → Bool
  pub update_password : String → String → Option String

abbrev pub must_change_of : Option PasswordStore → String → Bool
must_change_of none name = false
must_change_of (some ps) name = ps.must_change name

-- `Session`.
unfoldable pub session : Option PasswordStore → ℕ → Option String → Sessions → Sessions × Response
session store now cookie m =
    let (m', u) = user_for now cookie m in
    elim u [
      | none ↦ (m', unauthenticated)
      | some user ↦ (m', identity user (must_change_of store user.name))
    ]

abbrev pub is_user : Option User → Bool
is_user none = false
is_user (some u) = true

abbrev pub updated : Option String → Response
updated none = no_content
updated (some e) = store_failed e

-- What follows once the body is decoded. `len` counts bytes, as Go's does.
unfoldable pub change_for : Source → PasswordStore → User → Option NewPassword → Response
change_for src ps user none = bad_request
change_for src ps user (some req) =
    if ltb (len req.new) 8
    then bad_request
    else if not (is_user (matches (src user.name) req.current))
    then wrong_password
    else updated (ps.update_password user.name req.new)

unfoldable pub change_stored : Source → Option PasswordStore → User → Option NewPassword → Response
change_stored src none user req = not_supported
change_stored src (some ps) user req = change_for src ps user req

-- `ChangePassword`.
unfoldable pub change_password :
    Source
    → Option PasswordStore
    → ℕ
    → Option String
    → Option NewPassword
    → Sessions
    → Sessions × Response
change_password src store now cookie req m =
    let (m', u) = user_for now cookie m in
    elim u [ none ↦ (m', unauthenticated) | some user ↦ (m', change_stored src store user req) ]

-- A gate answers, or lets the request through with the identity.
pub data Gate : Type 0 where
  refused : Response → Gate
  through : User → Gate

abbrev pub admit : Option User → Gate
admit none = refused unauthenticated
admit (some u) = through u

abbrev pub admit_admin : Option User → Gate
admit_admin none = refused unauthenticated
admit_admin (some u) = if not (u.role == "admin") then refused forbidden else through u

-- `Require` and `RequireAdmin`.
unfoldable pub require : ℕ → Option String → Sessions → Sessions × Gate
require now cookie m = let (m', u) = user_for now cookie m in (m', admit u)

unfoldable pub require_admin : ℕ → Option String → Sessions → Sessions × Gate
require_admin now cookie m = let (m', u) = user_for now cookie m in (m', admit_admin u)
