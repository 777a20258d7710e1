-- ===== src/KubeSource/FirstBoot.antt =====
-- Whether the password that `Bootstrap` of internal/auth/kube.go returns lets the admin in.
use stornas.Base.{
  ℕ, String, ◌≡◌, refl, sym, ap, ◌∙◌, ◌≢◌, ◌↔◌, ◌⊎◌, inl, inr, Bool, true, false, not, ◌&&◌, Option,
  none, some, List, [], ◌==◌, Bool-cases, Option-cases, eq_of_test, ne_of_test, test_of_ne,
}
use stornas.Auth.{User, Sessions, login, welcome, matches}
use stornas.KubeSource.{
  Faults, value_of, create_value, got, lookup, lookup_secret, with_password, source_of,
  admin_secret, create_admin, create_both, bootstrap,
}

-- No call fails.
abbrev pub healthy : Faults
healthy = record {
  get_user = none;
  list_users = none;
  create_user = none;
  patch_user = none;
  get_secret = none;
  create_secret = none;
  update_secret = none;
}

abbrev pub admin : User
admin = record { name = "admin"; role = "admin" }

-- The password that the cluster holds for the admin after a first boot.
abbrev pub stored : String → Option String → String
stored pw none = pw
stored pw (some old) = old

value-create :
    (pw : String) (m : List (String × String))
    → value_of admin_secret (create_value admin_secret pw m)
      ≡ some (stored pw (value_of admin_secret m))
unfolding create_value value_of
value-create pw m = elim (Option-cases (value_of admin_secret m)) [
  | inl e ↦ rw (e, create_value) refl
  | inr (a, e) ↦ rw (e, create_value) e
]

-- After a first boot the admin is found with the stored password.
source-bootstrap :
    (pw : String) (secrets : List (String × String))
    → source_of healthy (bootstrap healthy pw (record { users = []; secrets = secrets })).0 "admin"
      ≡ some (admin, stored pw (value_of admin_secret secrets))
unfolding bootstrap create_both create_admin lookup lookup_secret with_password create_value
    value_of
source-bootstrap pw secrets = rw (value-create pw secrets, with_password) refl

and_false : (b : Bool) → (b && false) ≡ false
and_false true = refl
and_false false = refl

-- The password that is given is the one stored, or the login is refused.
login_ways :
    (src : String → Option (User × String)) (now : ℕ) (tok pw held : String) (m : Sessions)
    → src "admin" ≡ some (admin, held)
    → pw ≢ ""
    → ((login src now tok (some (record { username = "admin"; password = pw })) m).1
        ≡ welcome admin tok)
      ↔ (held ≡ pw)
unfolding login
login_ways src now tok pw held m s n = elim (Bool-cases (held == pw)) [
  | inl e ↦
      let p = eq_of_test held pw e in
      rw (s, test_of_ne held "" (λ q. n (sym p ∙ q)), e, login, matches) (λ _. p, λ _. refl)
  | inr e ↦
      rw (s, e, and_false (not (held == "")), login, matches)
        (λ h. absurd (cc), λ p. absurd (ne_of_test held pw e p))
]

stored_ways : (pw : String) (o : Option String) → stored pw o ≡ pw → (o ≡ none) ⊎ (o ≡ some pw)
stored_ways pw none e = inl refl
stored_ways pw (some old) e = inr (ap some e)

stored_back : (pw : String) (o : Option String) → (o ≡ none) ⊎ (o ≡ some pw) → stored pw o ≡ pw
stored_back pw none w = refl
stored_back pw (some old) (inl e) = absurd (cc)
stored_back pw (some old) (inr e) = cc

-- On a cluster without LocalUsers where no call of the API server fails, `Bootstrap` creates the admin
-- and returns the password that it generated. The admin can log in with that password exactly if
-- there was no Secret "admin-password" before, or one that held this very text: an old Secret is kept,
-- and the password that is returned then opens nothing.
pub bootstrap_lets_in_iff :
    (pw tok : String) (secrets : List (String × String)) (now : ℕ) (m : Sessions)
    → pw ≢ ""
    → let (c, returned) = bootstrap healthy pw (record { users = []; secrets = secrets }) in
      (returned ≡ got pw)
      × (((login
              (source_of healthy c)
              now
              tok
              (some (record { username = "admin"; password = pw }))
              m).1
            ≡ welcome admin tok)
          ↔ ((value_of admin_secret secrets ≡ none) ⊎ (value_of admin_secret secrets ≡ some pw)))
unfolding bootstrap create_both create_admin
bootstrap_lets_in_iff pw tok secrets now m n =
    let (to, from) =
      login_ways _ now tok pw (stored pw (value_of admin_secret secrets)) m
        (source-bootstrap pw secrets) n in
    (
      refl,
      (
        λ h. stored_ways pw (value_of admin_secret secrets) (to h),
        λ w. from (stored_back pw (value_of admin_secret secrets) w),
      ),
    )
