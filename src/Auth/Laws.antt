-- ===== src/Auth/Laws.antt =====
-- Who gets through a gate, and for how long.
use stornas.Base.{
  ℕ, ◌≤◌, String, ◌≡◌, refl, sym, ap, ◌∙◌, ◌↔◌, inl, inr, false, Option, none, some, arith, ◌==◌,
  Bool-cases, eq_of_test, test_of_eq, subst,
}
use stornas.Auth.{
  User, Session, Sessions, has_expired, user_in, user_for, through, admit_admin, require_admin,
}

-- The live session of a cookie.
pub record IsLive (now : ℕ) (cookie : Option String) (m : Sessions) (u : User) : Type 0 where
  pub token : String
  pub carried : cookie ≡ some token
  pub session : Session
  pub stored : m token ≡ some session
  pub unexpired : now ≤ session.expires
  pub owner : session.user ≡ u

not_expired : (now : ℕ) (s : Session) → has_expired now s ≡ false → now ≤ s.expires
not_expired now s h = ground arith

still_live : (now : ℕ) (s : Session) → now ≤ s.expires → has_expired now s ≡ false
still_live now s h = ground arith

user_in_iff :
    (now : ℕ) (tok : String) (o : Option Session) (m : Sessions) (u : User)
    → ((user_in now tok o m).1 ≡ some u)
      ↔ ((s : Session) × (o ≡ some s) × (now ≤ s.expires) × (s.user ≡ u))
unfolding user_in
user_in_iff now tok none m u = (λ h. absurd (cc), λ (s, e, n, v). absurd (cc))
user_in_iff now tok (some s) m u = (
  λ h. elim (Bool-cases (has_expired now s)) [
    | inl e ↦ absurd (cc (rw (e, user_in) at h))
    | inr e ↦ let h' = rw (e, user_in) at h in (s, refl, not_expired now s e, (cc))
  ],
  λ (t, e, n, v).
      let same : t ≡ s = cc in
      let live = still_live now s (subst (λ (x : Session). now ≤ x.expires) same n) in
      rw (live, user_in) (ap some (sym (ap (λ (x : Session). x.user) same) ∙ v)),
)

-- `userFor` finds a user exactly if the request carries the token of a session of that user that
-- has not expired.
pub user_for-IsLive_iff :
    (now : ℕ) (cookie : Option String) (m : Sessions) (u : User)
    → ((user_for now cookie m).1 ≡ some u) ↔ IsLive now cookie m u
unfolding user_for
user_for-IsLive_iff now none m u = (λ h. absurd (cc), λ l. absurd (cc (l.carried)))
user_for-IsLive_iff now (some tok) m u = (
  λ h.
      let (s, e, n, v) = (user_in_iff now tok (m tok) m u).0 h in
      record { token = tok; carried = refl; session = s; stored = e; unexpired = n; owner = v },
  λ l.
      (user_in_iff now tok (m tok) m u).1
        (l.session, cc (l.carried, l.stored), l.unexpired, l.owner),
)

admit_admin_iff :
    (o : Option User) (u : User) → (admit_admin o ≡ through u) ↔ ((o ≡ some u) × (u.role ≡ "admin"))
admit_admin_iff none u = (λ h. absurd (cc), λ (e, r). absurd (cc))
admit_admin_iff (some v) u = (
  λ h. elim (Bool-cases (v.role == "admin")) [
    | inl e ↦
        let h' = rw e at h in
        let same : v ≡ u = cc in
        (ap some same, subst (λ (x : User). x.role ≡ "admin") same (eq_of_test v.role "admin" e))
    | inr e ↦ absurd (cc (rw e at h))
  ],
  λ (e, r).
      let same : v ≡ u = cc in
      let t = test_of_eq v.role "admin" (ap (λ (x : User). x.role) same ∙ r) in
      rw t (ap through same),
)

-- An admin handler runs exactly for the users whose role is admin and whose session is live.
pub require_admin_iff :
    (now : ℕ) (cookie : Option String) (m : Sessions) (u : User)
    → ((require_admin now cookie m).1 ≡ through u) ↔ (IsLive now cookie m u × (u.role ≡ "admin"))
unfolding require_admin
require_admin_iff now cookie m u =
    let q = admit_admin_iff (user_for now cookie m).1 u in
    let l = user_for-IsLive_iff now cookie m u in
    (λ h. (l.0 (q.0 h).0, (q.0 h).1), λ (a, b). q.1 (l.1 a, b))
