-- ===== src/KubeSource/Examples.antt =====
-- A first boot on an empty cluster, one on a cluster that kept an old Secret, and a new password.
use stornas.Base.{String, ◌≡◌, refl, ◌↔◌, ◌⊎◌, false, none, some, List, [], ◌∷◌, ne_of_test}
use stornas.Auth.{Sessions, login, welcome, invalid_credentials}
use stornas.KubeSource.{
  Cluster, value_of, put_value, create_value, got, lookup, lookup_secret, with_password, source_of,
  admin_user, create_admin, create_both, bootstrap, clear_mark, update_secret, update_user,
  update_password, must_change,
}
use stornas.KubeSource.FirstBoot.{healthy, admin, bootstrap_lets_in_iff}
use stornas.KubeSource.Passwords.{lookup-update_password}

source_runs : Unit {0}
unfolding value_of put_value create_value lookup lookup_secret with_password create_admin
    create_both bootstrap clear_mark update_secret update_user update_password must_change login
source_runs = tt

abbrev no_sessions : Sessions
no_sessions k = none

abbrev old_secrets : List (String × String)
old_secrets = ("admin-password", "OLD") ∷ []

bootstrap_lets_in_iff_example :
    let (c, returned) = bootstrap healthy "NEW" (record { users = []; secrets = old_secrets }) in
    (returned ≡ got "NEW")
    × (((login
            (source_of healthy c)
            5
            "tok"
            (some (record { username = "admin"; password = "NEW" }))
            no_sessions).1
          ≡ welcome admin "tok")
        ↔ ((value_of "admin-password" old_secrets ≡ none)
            ⊎ (value_of "admin-password" old_secrets ≡ some "NEW")))
bootstrap_lets_in_iff_example =
    bootstrap_lets_in_iff "NEW" "tok" old_secrets 5 no_sessions (ne_of_test _ _ refl)

old_secret_shuts_out :
    (login
      (source_of healthy (bootstrap healthy "NEW" (record { users = []; secrets = old_secrets })).0)
      5
      "tok"
      (some (record { username = "admin"; password = "NEW" }))
      no_sessions).1
    ≡ invalid_credentials
unfolding source_runs
old_secret_shuts_out = refl

abbrev booted : Cluster
booted = record { users = ("admin", admin_user) ∷ []; secrets = old_secrets }

lookup-update_password_example :
    let c' = (update_password healthy "admin" "better!!" booted).0 in
    (source_of healthy c' "admin" ≡ some (admin, "better!!"))
    × (must_change healthy c' "admin" ≡ false)
unfolding source_runs
lookup-update_password_example =
    lookup-update_password healthy "admin" "better!!" "OLD" admin booted refl refl
