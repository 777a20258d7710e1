-- ===== src/LocalUser.antt =====
-- operator/internal/controller/localuser_controller.go: whether the password of a LocalUser is usable.
pub mod Laws
mod Examples
use stornas.Base.{String, Bool, Option, none, some, List, ◌==◌, ◌<>◌, select}
use stornas.Kube.{
  ObjectMeta, Condition, condition_true, condition_false, ready, invalid_spec, available, GetReply,
  found, get_not_found, get_failed, WriteReply, written, conflict, already_exists, write_not_found,
  write_failed, write_error, Outcome, done, failed, MetaLib,
}
use stornas.Chap.{Secret, local_user_password}

pub record LocalUserSpec : Type 0 where
  pub role : String
  pub smb : Bool
  pub password_secret_ref : String

pub record LocalUserStatus : Type 0 where
  pub conditions : List Condition
  pub password_secret_version : String

pub record LocalUser : Type 0 where
  pub meta : ObjectMeta
  pub spec : LocalUserSpec
  pub status : LocalUserStatus

pub record Replies : Type 0 where
  pub get_user : GetReply LocalUser
  pub get_secret : String → String → GetReply Secret
  pub update_status : WriteReply

-- The condition and the version that a read of the Secret gives.
pub record Verdict : Type 0 where
  pub condition : Condition
  pub version : String

unfoldable pub valid : LocalUser → Condition
valid u = record {
  kind = available;
  status = condition_true;
  reason = ready;
  message = "";
  observed_generation = u.meta.generation;
}

unfoldable pub invalid : LocalUser → String → Verdict
unfolding valid
invalid u msg = record {
  condition = record (valid u) { status = condition_false; reason = invalid_spec; message = msg };
  version = "";
}

unfoldable pub judge_found : LocalUser → Secret → Option String → Verdict
judge_found u s none =
    invalid u ("password secret " <> u.spec.password_secret_ref <> " has no password key")
judge_found u s (some pw) = record { condition = valid u; version = s.resource_version }

-- The `switch`: a verdict, or the error of the read.
pub data Judged : Type 0 where
  judged : Verdict → Judged
  judge_failed : String → Judged

unfoldable pub judge : LocalUser → GetReply Secret → Judged
judge u get_not_found =
    judged (invalid u ("password secret " <> u.spec.password_secret_ref <> " not found"))
judge u (get_failed e) = judge_failed e
judge u (found s) = judged (judge_found u s (local_user_password s))

module _ (lib : MetaLib) where
  open lib use {set_status_condition}

  unfoldable pub with_verdict : LocalUser → Verdict → LocalUser
  with_verdict u v = record u {
    status = record {
      conditions = set_status_condition v.condition u.status.conditions;
      password_secret_version = v.version;
    };
  }

  -- The status that is written, if any, and the outcome.
  unfoldable pub finish : LocalUser → WriteReply → Judged → Option LocalUser × Outcome
  finish u reply (judge_failed e) = (none, failed e)
  finish u reply (judged v) = (
    some (with_verdict u v),
    elim reply [
      | written ↦ done
      | conflict ↦ done
      | already_exists ↦ failed (write_error already_exists)
      | write_not_found ↦ failed (write_error write_not_found)
      | write_failed e ↦ failed e
    ],
  )

  unfoldable pub reconcile_user : Replies → LocalUser → Option LocalUser × Outcome
  reconcile_user io u =
      finish u io.update_status
        (judge u (io.get_secret u.meta.namespace u.spec.password_secret_ref))

  -- `LocalUserReconciler.Reconcile`.
  unfoldable pub reconcile : Replies → Option LocalUser × Outcome
  reconcile io = elim io.get_user [
    | get_not_found ↦ (none, done)
    | get_failed e ↦ (none, failed e)
    | found u ↦ reconcile_user io u
  ]

-- `secretUsers`: the users whose password a Secret holds.
unfoldable pub secret_users : String → List LocalUser → List LocalUser
secret_users secret users = select (λ (u : LocalUser). u.spec.password_secret_ref == secret) users
