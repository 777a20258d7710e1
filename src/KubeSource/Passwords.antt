-- ===== src/KubeSource/Passwords.antt =====
-- What `UpdatePassword` of internal/auth/kube.go changes of what the sessions read.
use stornas.Base.{
  String, ◌≡◌, refl, sym, ap, ◌∙◌, inl, inr, false, ◌||◌, Option, none, some, List, [], ◌∷◌, ◌==◌,
  Bool-cases, Option-cases, eq_of_test,
}
use stornas.Auth.{User}
use stornas.KubeSource.{
  ApiUser, Cluster, Faults, value_of, put_value, Read, got, read_failed, read_of, lookup,
  lookup_secret, with_password, source_of, must_change, clear_mark, update_secret, update_user,
  update_password,
}
use stornas.KubeSource.FirstBoot.{healthy}

value-put_self {ℓ} :
    {V : Type ℓ} (k : String) (v w : V) (m : List (String × V))
    → value_of k m ≡ some w
    → value_of k (put_value k v m) ≡ some v
unfolding value_of put_value
value-put_self k v w [] h = absurd (cc)
value-put_self k v w ((j, x) ∷ m) h = elim (Bool-cases (j == k)) [
  | inl e ↦ rw (e, put_value) (rw e refl)
  | inr e ↦ rw (e, put_value) (rw e (value-put_self k v w m (rw e at h)))
]

-- A read that answers found the object.
got_found :
    {A : Type 0} (fault : Option String) (o : Option A) (a : A)
    → read_of fault o ≡ got a
    → o ≡ some a
got_found (some e) o a h = absurd (cc)
got_found none none a h = absurd (cc)
got_found none (some b) a h = ap some (got_inj h)
  where
    got_inj : got b ≡ got a → b ≡ a
    got_inj q = cc

-- The user has the password, and no mark of a generated one.
abbrev Holds : Cluster → String → ApiUser → String → Type 0
Holds c name u pw =
    (w : ApiUser) × (value_of name c.users ≡ some w)
    × (w.role ≡ u.role)
    × (w.secret_ref ≡ u.secret_ref)
    × (w.generated ≡ "")
    × (value_of u.secret_ref c.secrets ≡ some pw)

clear_mark-Holds :
    (f : Faults) (name pw : String) (u : ApiUser) (c : Cluster)
    → value_of name c.users ≡ some u
    → value_of u.secret_ref c.secrets ≡ some pw
    → (clear_mark f name u c).1 ≡ none
    → Holds (clear_mark f name u c).0 name u pw
unfolding clear_mark
clear_mark-Holds f name pw u c v s h = elim (Bool-cases (u.generated == "")) [
  | inl e ↦ rw (e, clear_mark) (u, v, refl, refl, eq_of_test _ _ e, s)
  | inr e ↦ elim (Option-cases f.patch_user) [
    | inl p ↦
        rw (e, p, clear_mark)
          (record u { generated = "" }, value-put_self name _ u c.users v, refl, refl, refl, s)
    | inr (x, p) ↦ absurd (cc (rw (e, p, clear_mark) at h))
  ]
]

update_secret-Holds :
    (f : Faults) (name pw : String) (u : ApiUser) (c : Cluster) (r : Read String)
    → value_of name c.users ≡ some u
    → read_of f.get_secret (value_of u.secret_ref c.secrets) ≡ r
    → (update_secret f name u pw c r).1 ≡ none
    → Holds (update_secret f name u pw c r).0 name u pw
unfolding update_secret
update_secret-Holds f name pw u c (read_failed e) v q h = absurd (cc)
update_secret-Holds f name pw u c (got old) v q h = elim (Option-cases f.update_secret) [
  | inl p ↦
      rw (p, update_secret)
        (clear_mark-Holds f name pw u (record c { secrets = put_value u.secret_ref pw c.secrets }) v
          (value-put_self u.secret_ref pw old c.secrets (got_found f.get_secret _ old q))
          (rw (p, update_secret) at h))
  | inr (x, p) ↦ absurd (cc (rw (p, update_secret) at h))
]

update_user-Holds :
    (f : Faults) (name pw : String) (c : Cluster) (r : Read ApiUser)
    → read_of f.get_user (value_of name c.users) ≡ r
    → (update_user f name pw c r).1 ≡ none
    → (u : ApiUser) × (value_of name c.users ≡ some u)
      × Holds (update_user f name pw c r).0 name u pw
unfolding update_user
update_user-Holds f name pw c (read_failed e) q h = absurd (cc)
update_user-Holds f name pw c (got u) q h = elim (Bool-cases (u.secret_ref == "")) [
  | inl e ↦ absurd (cc (rw (e, update_user) at h))
  | inr e ↦
      let v = got_found f.get_user _ u q in
      (
        u,
        v,
        rw (e, update_user) (update_secret-Holds f name pw u c _ v refl (rw (e, update_user) at h)),
      )
]

-- The sessions read what the cluster holds.
source_of_held :
    (name pw : String) (u : ApiUser) (c : Cluster)
    → value_of name c.users ≡ some u
    → value_of u.secret_ref c.secrets ≡ some pw
    → (u.role == "" || u.secret_ref == "") ≡ false
    → source_of healthy c name ≡ some (record { name = name; role = u.role }, pw)
unfolding lookup lookup_secret with_password
source_of_held name pw u c v s e = rw (v, lookup_secret) (rw e (rw (s, with_password) refl))

source_of_user :
    (name pw : String) (user : User) (u : ApiUser) (c : Cluster)
    → value_of name c.users ≡ some u
    → source_of healthy c name ≡ some (user, pw)
    → ((u.role == "" || u.secret_ref == "") ≡ false)
      × (record { name = name; role = u.role } ≡ user)
unfolding lookup lookup_secret with_password
source_of_user name pw user u c v h = elim (Bool-cases (u.role == "" || u.secret_ref == "")) [
  | inl e ↦ absurd (cc (rw (e, lookup_secret) at (rw (v, lookup_secret) at h)))
  | inr e ↦ elim (Option-cases (value_of u.secret_ref c.secrets)) [
    | inl s ↦ absurd (cc (rw (s, with_password) at (rw e at (rw (v, lookup_secret) at h))))
    | inr (p, s) ↦ (e, first (sym (source_of_held name p u c v s e) ∙ h))
  ]
]
  where
    first :
        {a b : User} {p q : String}
        → ◌≡◌ {A = Option (User × String)} (some (a, p)) (some (b, q))
        → a ≡ b
    first g = cc

-- After `UpdatePassword` has returned no error, a login reads the new password for the user, whose name
-- and role are as before, and the user need not change it again. A user that could not be read before
-- is outside this statement; any call may have failed in between, as long as there was no error.
pub lookup-update_password :
    (f : Faults) (name pw old : String) (user : User) (c : Cluster)
    → source_of healthy c name ≡ some (user, old)
    → (update_password f name pw c).1 ≡ none
    → let c' = (update_password f name pw c).0 in
      (source_of healthy c' name ≡ some (user, pw)) × (must_change healthy c' name ≡ false)
unfolding update_password must_change
lookup-update_password f name pw old user c s h =
    let (u, v, (w, x, role, ref, mark, held)) = update_user-Holds f name pw c _ refl h in
    let (e, same) = source_of_user name old user u c v s in
    (
      source_of_held name pw w _ x (rw ref held) (rw (role, ref) e)
          ∙ ap (λ (y : User). some (y, pw)) (rw role same),
      rw x (rw mark refl),
    )
