-- ===== src/LocalUser/Laws.antt =====
-- When a LocalUser is reported available.
use stornas.Base.{
  String, ◌≡◌, refl, sym, ◌∙◌, ◌≢◌, ◌↔◌, true, Option, none, some, arith, eq_iff, ◌<>◌, subst,
}
use stornas.Kube.{
  available, GetReply, found, get_not_found, get_failed, MetaLib, is_true, is_true-set_self,
  WriteReply,
}
use stornas.Chap.{Secret, local_user_password}
use stornas.LocalUser.{
  LocalUser, Replies, Verdict, valid, invalid, judge_found, Judged, judged, judge_failed, judge,
  with_verdict, finish, reconcile_user,
}

-- The Secret was read and holds a password.
pub record HasPassword (get : GetReply Secret) (version : String) : Type 0 where
  pub secret : Secret
  pub read : get ≡ found secret
  pub set : secret.value "password" ≢ ""
  pub current : version ≡ secret.resource_version

password_set :
    (s : Secret) (pw : String) → local_user_password s ≡ some pw → s.value "password" ≢ ""
unfolding local_user_password
password_set s pw h e = ground (arith, eq_iff (s.value "password") "")

password_unset : (s : Secret) → local_user_password s ≡ none → s.value "password" ≡ ""
unfolding local_user_password
password_unset s h = ground (arith, eq_iff (s.value "password") "")

found_iff :
    (u : LocalUser) (s : Secret) (o : Option String)
    → local_user_password s ≡ o
    → (is_true (some (judge_found u s o).condition) ≡ true)
      ↔ HasPassword (found s) (judge_found u s o).version
unfolding judge_found invalid valid
found_iff u s none q =
    (λ h. absurd (cc), λ p. absurd (p.set (password_unset p.secret (cc (p.read, q)))))
found_iff u s (some pw) q =
    (λ h. record { secret = s; read = refl; set = password_set s pw q; current = refl }, λ p. refl)

judge_iff :
    (u : LocalUser) (get : GetReply Secret) (v : Verdict)
    → judge u get ≡ judged v
    → (is_true (some v.condition) ≡ true) ↔ HasPassword get v.version
unfolding judge invalid valid
judge_iff u get_not_found v h =
    let e : invalid u ("password secret " <> u.spec.password_secret_ref <> " not found") ≡ v = cc in
    subst
      (λ (w : Verdict). (is_true (some w.condition) ≡ true) ↔ HasPassword get_not_found w.version) e
      (λ h. absurd (cc), λ p. absurd (cc (p.read)))
judge_iff u (get_failed e) v h = absurd (cc)
judge_iff u (found s) v h =
    let e : judge_found u s (local_user_password s) ≡ v = cc in
    subst (λ (w : Verdict). (is_true (some w.condition) ≡ true) ↔ HasPassword (found s) w.version) e
      (found_iff u s (local_user_password s) refl)

judge_kind :
    (u : LocalUser) (get : GetReply Secret) (v : Verdict)
    → judge u get ≡ judged v
    → v.condition.kind ≡ available
unfolding judge judge_found invalid valid
judge_kind u get v h = ground arith

module _ (lib : MetaLib) where
  open lib use {is_status_condition_true}

  finish-writes :
      (u w : LocalUser) (reply : WriteReply) (j : Judged)
      → (finish lib u reply j).0 ≡ some w
      → (v : Verdict) × (j ≡ judged v) × (w ≡ with_verdict lib u v)
  unfolding finish
  finish-writes u w reply (judge_failed e) h = absurd (cc)
  finish-writes u w reply (judged v) h = (v, refl, (cc))

  verdict_status :
      (u : LocalUser) (v : Verdict)
      → v.condition.kind ≡ available
      → (is_status_condition_true available (with_verdict lib u v).status.conditions
          ≡ is_true (some v.condition))
        × ((with_verdict lib u v).status.password_secret_version ≡ v.version)
  unfolding with_verdict
  verdict_status u v k = (cc (k, is_true-set_self lib v.condition u.status.conditions), refl)

  -- In the status that a pass writes, Available is true exactly if the referenced Secret was read
  -- and holds a non-empty password, and the version that the agent waits for is that Secret's.
  pub user_available_iff :
      (io : Replies) (u w : LocalUser)
      → (reconcile_user lib io u).0 ≡ some w
      → (is_status_condition_true available w.status.conditions ≡ true)
        ↔ HasPassword
            (io.get_secret u.meta.namespace u.spec.password_secret_ref)
            w.status.password_secret_version
  unfolding reconcile_user
  user_available_iff io u w h =
      let get = io.get_secret u.meta.namespace u.spec.password_secret_ref in
      let (v, j, e) = finish-writes u w io.update_status (judge u get) h in
      let (t, n) = verdict_status u v (judge_kind u get v j) in
      let q = judge_iff u get v j in
      subst
        (λ (x : LocalUser).
          (is_status_condition_true available x.status.conditions ≡ true)
          ↔ HasPassword get x.status.password_secret_version)
        (sym e)
        (
          λ a. subst (HasPassword get) (sym n) (q.0 (sym t ∙ a)),
          λ p. t ∙ q.1 (subst (HasPassword get) n p),
        )
