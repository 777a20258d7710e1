-- ===== src/Auth/Examples.antt =====
-- One admin logs in, works, and logs out.
use stornas.Base.{◌+◌, ◌≡◌, refl, none, some, List, [], ◌∷◌, ◌==◌, if◌then◌else◌}
use stornas.Auth.{User, Session, ttl, login, logout, user_for, user_in, gc, Source}
use stornas.Auth.Trace.{Event, logs_in, logs_out, visits, after, Held, session-Held}

auth_runs : Unit {0}
unfolding login logout user_for user_in gc
auth_runs = tt

abbrev admin : User
admin = record { name = "admin"; role = "admin" }

abbrev users : Source
users name = if name == "admin" then some (admin, "correct horse") else none

abbrev events : List Event
events =
    visits 7 (some "t1")
    ∷ logs_in users 5 "t1" (some (record { username = "admin"; password = "correct horse" }))
    ∷ []

abbrev renewed : Session
renewed = record { user = admin; expires = 7 + ttl }

has_session : after events "t1" ≡ some renewed
unfolding auth_runs
has_session = refl

-- A wrong password gives no session, and a logout ends it.
refuses :
    (after (logs_in users 5 "t2" (some (record { username = "admin"; password = "x" })) ∷ []) "t2"
      ≡ none)
    × (after (logs_out (some "t1") ∷ events) "t1" ≡ none)
unfolding auth_runs
refuses = (refl, refl)

session-Held_example : Held "t1" admin events
session-Held_example = session-Held events "t1" renewed has_session
