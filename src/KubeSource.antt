-- ===== src/KubeSource.antt =====
-- internal/auth/kube.go: the users of the sessions, read from LocalUsers and their Secrets.
pub mod FirstBoot
pub mod Passwords
mod Examples
use stornas.Base.{
  String, Bool, true, false, ◌||◌, Option, none, some, List, [], ◌∷◌, ◌==◌, if◌then◌else◌, ◌<>◌,
}
use stornas.Auth.{User, Source}

-- A LocalUser as far as this file reads it; a missing field and a missing annotation read as "".
pub record ApiUser : Type 0 where
  pub role : String
  pub secret_ref : String
  pub generated : String

-- The objects of the appliance's namespace: its LocalUsers, and the passwords of its Secrets, by name.
pub record Cluster : Type 0 where
  pub users : List (String × ApiUser)
  pub secrets : List (String × String)

-- The errors with which the calls of the API server fail, other than those that follow from what the
-- cluster holds; `none` is no failure.
pub record Faults : Type 0 where
  pub get_user : Option String
  pub list_users : Option String
  pub create_user : Option String
  pub patch_user : Option String
  pub get_secret : Option String
  pub create_secret : Option String
  pub update_secret : Option String

module _ {ℓ} {V : Type ℓ} where
  unfoldable pub value_of : String → List (String × V) → Option V
  value_of k [] = none
  value_of k ((j, v) ∷ m) = if j == k then some v else value_of k m

  -- A write to an object that is there.
  unfoldable pub put_value : String → V → List (String × V) → List (String × V)
  put_value k v [] = []
  put_value k v ((j, w) ∷ m) = if j == k then (j, v) ∷ m else (j, w) ∷ put_value k v m

  -- A create, which leaves an object that is there; `AlreadyExists` is tolerated by all callers.
  unfoldable pub create_value : String → V → List (String × V) → List (String × V)
  create_value k v m = elim (value_of k m) [ none ↦ (k, v) ∷ m | some w ↦ m ]

-- A read: the object, or an error.
pub data Read {ℓ} (A : Type ℓ) : Type ℓ where
  got : A → Read A
  read_failed : String → Read A

abbrev pub read_of {ℓ} : {A : Type ℓ} → Option String → Option A → Read A
read_of (some e) found = read_failed e
read_of none none = read_failed "not found"
read_of none (some a) = got a

unfoldable pub with_password : String → String → Read String → Read (User × String)
with_password name role (read_failed e) = read_failed e
with_password name role (got pw) = got (record { name = name; role = role }, pw)

unfoldable pub lookup_secret : Faults → Cluster → String → Read ApiUser → Read (User × String)
lookup_secret f c name (read_failed e) = read_failed e
lookup_secret f c name (got u) =
    if u.role == "" || u.secret_ref == ""
    then read_failed ("localuser " <> name <> " has no role or secret ref")
    else with_password name u.role (read_of f.get_secret (value_of u.secret_ref c.secrets))

-- `Lookup`.
unfoldable pub lookup : Faults → Cluster → String → Read (User × String)
lookup f c name = lookup_secret f c name (read_of f.get_user (value_of name c.users))

abbrev pub answer_of : Read (User × String) → Option (User × String)
answer_of (read_failed e) = none
answer_of (got a) = some a

-- The source that the sessions read.
abbrev pub source_of : Faults → Cluster → Source
source_of f c name = answer_of (lookup f c name)

abbrev pub admin_secret : String
admin_secret = "admin-password"

abbrev pub admin_user : ApiUser
admin_user = record { role = "admin"; secret_ref = admin_secret; generated = "true" }

unfoldable pub create_admin : Faults → String → Cluster → Cluster × Read String
create_admin f pw c = elim f.create_user [
  | some e ↦ (c, read_failed e)
  | none ↦ (record c { users = create_value "admin" admin_user c.users }, got pw)
]

unfoldable pub create_both : Faults → String → Cluster → Cluster × Read String
create_both f pw c = elim f.create_secret [
  | some e ↦ (c, read_failed e)
  | none ↦ create_admin f pw (record c { secrets = create_value admin_secret pw c.secrets })
]

abbrev pub has_users : List (String × ApiUser) → Bool
has_users [] = false
has_users (u ∷ us) = true

-- `Bootstrap`; `pw` is the random text.
unfoldable pub bootstrap : Faults → String → Cluster → Cluster × Read String
bootstrap f pw c = elim f.list_users [
  | some e ↦ (c, read_failed e)
  | none ↦ if has_users c.users then (c, got "") else create_both f pw c
]

abbrev pub is_generated : Read ApiUser → Bool
is_generated (read_failed e) = false
is_generated (got u) = u.generated == "true"

-- `MustChange`.
unfoldable pub must_change : Faults → Cluster → String → Bool
must_change f c name = is_generated (read_of f.get_user (value_of name c.users))

-- The mark goes, if there is one.
unfoldable pub clear_mark : Faults → String → ApiUser → Cluster → Cluster × Option String
clear_mark f name u c = if u.generated == "" then (c, none) else elim f.patch_user [
  | some e ↦ (c, some e)
  | none ↦ (record c { users = put_value name (record u { generated = "" }) c.users }, none)
]

unfoldable pub update_secret :
    Faults → String → ApiUser → String → Cluster → Read String → Cluster × Option String
update_secret f name u pw c (read_failed e) = (c, some e)
update_secret f name u pw c (got old) = elim f.update_secret [
  | some e ↦ (c, some e)
  | none ↦ clear_mark f name u (record c { secrets = put_value u.secret_ref pw c.secrets })
]

unfoldable pub update_user :
    Faults → String → String → Cluster → Read ApiUser → Cluster × Option String
update_user f name pw c (read_failed e) = (c, some e)
update_user f name pw c (got u) =
    if u.secret_ref == ""
    then (c, some ("localuser " <> name <> " has no secret ref"))
    else update_secret f name u pw c (read_of f.get_secret (value_of u.secret_ref c.secrets))

-- `UpdatePassword`.
unfoldable pub update_password : Faults → String → String → Cluster → Cluster × Option String
update_password f name pw c = update_user f name pw c (read_of f.get_user (value_of name c.users))
