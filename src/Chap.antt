-- ===== src/Chap.antt =====
-- operator/api/v1alpha1/target_types.go and localuser_types.go: the rules on what a Secret's data
-- must hold, which the operator and the agent share.
use stornas.Base.{
  String, ◌≡◌, ap, ◌≢◌, ◌↔◌, Bool, true, false, not, ◌&&◌, Option, none, some, arith, ◌==◌, eq_iff,
  if◌then◌else◌,
}
use stornas.Kube.{GetReply, found, get_not_found, get_failed}

-- A Secret; a missing key of its data reads as the empty text.
pub record Secret : Type 0 where
  pub resource_version : String
  pub value : String → String

-- The zero value that a failed read leaves.
abbrev pub no_secret : Secret
no_secret = record { resource_version = ""; value = λ k. "" }

-- The Secret that `Get` fills in, by its reply.
abbrev pub read_secret : GetReply Secret → Secret
read_secret (found s) = s
read_secret get_not_found = no_secret
read_secret (get_failed e) = no_secret

pub record ChapCred : Type 0 where
  pub user : String
  pub password : String

-- `ChapCredentials`; `none` is a false `ok`.
unfoldable pub chap_credentials : Secret → Option ChapCred
chap_credentials s =
    if not (s.value "username" == "") && not (s.value "password" == "")
    then some (record { user = s.value "username"; password = s.value "password" })
    else none

abbrev pub is_usable : Option ChapCred → Bool
is_usable none = false
is_usable (some c) = true

-- `LocalUserPassword`.
unfoldable pub local_user_password : Secret → Option String
local_user_password s = if not (s.value "password" == "") then some (s.value "password") else none

-- Both keys are set exactly when there are credentials, and then they are those.
pub chap_credentials_iff :
    (s : Secret) (c : ChapCred)
    → (chap_credentials s ≡ some c) ↔ (
        (c.user ≡ s.value "username")
        × (c.password ≡ s.value "password")
        × (c.user ≢ "")
        × (c.password ≢ ""))
unfolding chap_credentials
chap_credentials_iff s c = (
  λ h. (
    ground arith,
    ground arith,
    λ e. ground (arith, eq_iff (s.value "username") "", ap (λ (x : String). x) e),
    λ e. ground (arith, eq_iff (s.value "password") ""),
  ),
  λ (u, p, nu, np). ground (arith, eq_iff (s.value "username") "", eq_iff (s.value "password") ""),
)
