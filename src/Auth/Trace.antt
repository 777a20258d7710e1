-- ===== src/Auth/Trace.antt =====
-- Every session stems from a login with the right password.
use stornas.Base.{
  ℕ, ◌+◌, String, ◌≡◌, refl, sym, ap, ◌∙◌, ◌≢◌, ◌⊎◌, inl, inr, Option, none, some, List, [], ◌∷◌,
  arith, ◌==◌, Bool-cases, Option-cases, eq_of_test, ne_of_test, subst,
}
use stornas.Auth.{
  User, Session, Sessions, ttl, without, with_session, has_expired, unexpired, gc, matches, login,
  logout, user_in, user_for, Source, Credentials,
}

-- What happens to the sessions, with the time. Every handler that looks a user up is `visits`.
pub data Event : Type 0 where
  logs_in : Source → ℕ → String → Option Credentials → Event
  logs_out : Option String → Event
  visits : ℕ → Option String → Event

abbrev pub no_sessions : Sessions
no_sessions tok = none

abbrev pub step : Event → Sessions → Sessions
step (logs_in src now tok c) m = (login src now tok c m).0
step (logs_out cookie) m = (logout cookie m).0
step (visits now cookie) m = (user_for now cookie m).0

-- The sessions after some events, the last one first.
abbrev pub after : List Event → Sessions
after [] = no_sessions
after (e ∷ es) = step e (after es)

-- This login gave this token to this user, who had presented the password that the source holds.
pub data Granted (tok : String) (u : User) : Event → Type 0 where
  granted :
      (src : Source) (now : ℕ) (c : Credentials)
      → c.username ≢ ""
      → matches (src c.username) c.password ≡ some u
      → Granted tok u (logs_in src now tok (some c))

-- The token belongs to the user since a login that granted it, after which nobody logged out with
-- it.
pub data Held (tok : String) (u : User) : List Event → Type 0 where
  granted_now : {e : Event} {es : List Event} → Granted tok u e → Held tok u (e ∷ es)
  held_on :
      {e : Event} {es : List Event} → Held tok u es → e ≢ logs_out (some tok) → Held tok u (e ∷ es)

without_lookup :
    (t tok : String) (m : Sessions) (s : Session)
    → without t m tok ≡ some s
    → (m tok ≡ some s) × (tok ≢ t)
without_lookup t tok m s h = elim (Bool-cases (tok == t)) [
  | inl e ↦ absurd (cc (rw e at h))
  | inr e ↦ (rw e at h, ne_of_test tok t e)
]

with_lookup :
    (t tok : String) (x : Session) (m : Sessions) (s : Session)
    → with_session t x m tok ≡ some s
    → ((tok ≡ t) × (x ≡ s)) ⊎ (m tok ≡ some s)
with_lookup t tok x m s h = elim (Bool-cases (tok == t)) [
  | inl e ↦ let h' = rw e at h in inl (eq_of_test tok t e, (cc))
  | inr e ↦ inr (rw e at h)
]

unexpired_lookup :
    (now : ℕ) (o : Option Session) (s : Session) → unexpired now o ≡ some s → o ≡ some s
unexpired_lookup now none s h = absurd (cc)
unexpired_lookup now (some x) s h = ground arith

-- The session after an event: its user had it before, or the event granted it.
abbrev From : String → Session → Event → Sessions → Type 0
From tok s e m =
    (((x : Session) × (m tok ≡ some x) × (x.user ≡ s.user)) × (e ≢ logs_out (some tok)))
    ⊎ Granted tok s.user e

login_step :
    (src : Source) (now : ℕ) (t : String) (c : Option Credentials) (m : Sessions) (tok : String)
    (s : Session)
    → (login src now t c m).0 tok ≡ some s
    → From tok s (logs_in src now t c) m
unfolding login gc
login_step src now t none m tok s h = inl ((s, h, refl), λ e. cc)
login_step src now t (some c) m tok s h = elim (Bool-cases (c.username == "")) [
  | inl e ↦ inl ((s, rw (e, login) at h, refl), λ q. cc)
  | inr e ↦ elim (Option-cases (matches (src c.username) c.password)) [
    | inl f ↦ inl ((s, rw (e, f, login) at h, refl), λ q. cc)
    | inr (u, f) ↦
        elim (with_lookup t tok (record { user = u; expires = now + ttl }) (gc now m) s
          (rw (e, f, login) at h)) [
            | inl (same, x) ↦ inr (
                subst (λ (k : String). Granted k s.user (logs_in src now t (some c))) (sym same)
                  (granted src now c (ne_of_test c.username "" e)
                    (f ∙ ap some (ap (λ (y : Session). y.user) x))))
            | inr g ↦ inl ((s, unexpired_lookup now (m tok) s g, refl), λ q. cc)
          ]
  ]
]

logout_step :
    (cookie : Option String) (m : Sessions) (tok : String) (s : Session)
    → (logout cookie m).0 tok ≡ some s
    → From tok s (logs_out cookie) m
unfolding logout
logout_step none m tok s h = inl ((s, h, refl), λ e. cc)
logout_step (some t) m tok s h =
    let (g, n) = without_lookup t tok m s h in inl ((s, g, refl), λ e. n (cc))

user_in_step :
    (now : ℕ) (t : String) (o : Option Session) (m : Sessions) (tok : String) (s : Session)
    → m t ≡ o
    → (user_in now t o m).0 tok ≡ some s
    → (x : Session) × (m tok ≡ some x) × (x.user ≡ s.user)
unfolding user_in
user_in_step now t none m tok s q h = (s, (without_lookup t tok m s h).0, refl)
user_in_step now t (some y) m tok s q h = elim (Bool-cases (has_expired now y)) [
  | inl e ↦ (s, (without_lookup t tok m s (rw (e, user_in) at h)).0, refl)
  | inr e ↦
      elim (with_lookup t tok (record { user = y.user; expires = now + ttl }) m s
        (rw (e, user_in) at h)) [
          | inl (same, x) ↦ (y, ap m same ∙ q, ap (λ (z : Session). z.user) x)
          | inr g ↦ (s, g, refl)
        ]
]

visit_step :
    (now : ℕ) (cookie : Option String) (m : Sessions) (tok : String) (s : Session)
    → (user_for now cookie m).0 tok ≡ some s
    → From tok s (visits now cookie) m
unfolding user_for
visit_step now none m tok s h = inl ((s, h, refl), λ e. cc)
visit_step now (some t) m tok s h = inl (user_in_step now t (m t) m tok s refl h, λ e. cc)

step_lookup :
    (e : Event) (m : Sessions) (tok : String) (s : Session) → step e m tok ≡ some s → From tok s e m
step_lookup (logs_in src now t c) m tok s h = login_step src now t c m tok s h
step_lookup (logs_out cookie) m tok s h = logout_step cookie m tok s h
step_lookup (visits now cookie) m tok s h = visit_step now cookie m tok s h

-- After any events, a token has a session only if some login granted it to the session's user, for
-- a non-empty username and the non-empty password that the source then held for it, and nobody
-- logged out with the token after that.
pub session-Held :
    (es : List Event) (tok : String) (s : Session) → after es tok ≡ some s → Held tok s.user es
session-Held [] tok s h = absurd (cc)
session-Held (e ∷ es) tok s h = elim (step_lookup e (after es) tok s h) [
  | inr g ↦ granted_now g
  | inl ((x, m, u), n) ↦ held_on (subst (λ (v : User). Held tok v es) u (session-Held es tok x m)) n
]
