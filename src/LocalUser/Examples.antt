-- ===== src/LocalUser/Examples.antt =====
-- A user whose Secret holds a password.
use stornas.Base.{◌≡◌, refl, ◌↔◌, true, false, Option, none, some, [], ◌==◌, if◌then◌else◌}
use stornas.Kube.{available, found, get_not_found, written}
use stornas.Kube.Concrete.{concrete}
use stornas.Chap.{Secret, local_user_password}
use stornas.LocalUser.{
  LocalUser, Replies, reconcile, reconcile_user, finish, judge, judge_found, with_verdict, valid,
}
use stornas.LocalUser.Laws.{HasPassword, user_available_iff}
use stornas.Samples.{meta_of}

user_runs : Unit {0}
unfolding reconcile reconcile_user finish judge judge_found with_verdict valid local_user_password
user_runs = tt

abbrev secret : Secret
secret = record { resource_version = "41"; value = λ k. if k == "password" then "pw" else "" }

abbrev bob : LocalUser
bob = record {
  meta = meta_of "bob" false [];
  spec = record { role = "viewer"; smb = true; password_secret_ref = "bob-password" };
  status = record { conditions = []; password_secret_version = "" };
}

abbrev world : Replies
world = record {
  get_user = found bob;
  get_secret = λ ns name. if name == "bob-password" then found secret else get_not_found;
  update_status = written;
}

abbrev from_option : Option LocalUser → LocalUser
from_option none = bob
from_option (some w) = w

abbrev reported : LocalUser
reported = from_option (reconcile_user concrete world bob).0

reports :
    ((reconcile_user concrete world bob).0 ≡ some reported)
    × (reported.status.password_secret_version ≡ "41")
unfolding user_runs
reports = (refl, refl)

user_available_iff_example :
    (concrete.is_status_condition_true available reported.status.conditions ≡ true)
    ↔ HasPassword (found secret) reported.status.password_secret_version
user_available_iff_example = user_available_iff concrete world bob reported reports.0
