-- ===== src/Lio/Closed.antt =====
-- What a successful `EnsureTarget` of internal/agent/lio.go has taken from initiators, and asked of
-- them.
use stornas.Base.{
  String, ◌≡◌, refl, inl, inr, true, false, not, ◌||◌, none, List, [], ◌∷◌, Bool-cases, In, here,
  there, contains,
}
use stornas.Target.{Target}
use stornas.Host.{Reply, ran, run_failed, Log, Runner, unless, try, succeeds, unless_failed}
use stornas.Host.Growth.{
  Before, now, later, Before-trans, Before-unless_failed, Grows-Before, RanSince, RanSince-later,
  RanSince-earlier, split_none, succeeds-error_of,
}
use stornas.Strings.{fields, has_prefix}
use stornas.Vip.{IpJson}
use stornas.Lio.Allows.{grants-Does, ensure_rest-Does}
use stornas.Lio.Commands.{asks_auth, shows_acls, expels}
use stornas.Lio.Granted.{MayEnter, IsAuth, auth_of-IsAuth, granted_of-MayEnter}
use stornas.Lio.{
  set_attribute, list_acls, delete_acl, is_absent, Credentials, auth_of, granted_of, ensure,
  ensure_luns, grant_all, revoke, revoke_each, revoke_listed, prune_acls, ensure_grants,
  ensure_rest, ensure_target,
}

module _ (run : Runner) (t : Target) (chap : Credentials) where
  -- The ACL of an initiator was deleted, or was absent.
  abbrev pub Deleted : Log → Log → String → Type 0
  Deleted log final f =
      RanSince log (expels t f) final (λ l. unless is_absent (run l (expels t f)) ≡ none)

  -- Since a log, authentication was set as the spec asks and no ACLs are generated; and of the ACLs
  -- that the host listed, those of IQNs that may not enter are gone.
  pub record IsClosed (log final : Log) : Type 0 where
    pub auth : String
    pub is_auth : IsAuth t.spec.initiators auth
    pub auth_set :
        RanSince log (asks_auth t auth) final (λ l. succeeds (run l (asks_auth t auth)) ≡ true)
    pub tree : String
    pub tree_listed : RanSince log (shows_acls t) final (λ l. run l (shows_acls t) ≡ ran tree)
    pub revoked :
        (f : String)
        → In f (fields tree)
        → has_prefix f "iqn." ≡ true
        → ¬ (MayEnter t chap f)
        → Deleted log final f

  revoke_each-Before :
      (granted fs : List String) (log : Log)
      → Before log (revoke_each run t.status.iqn granted fs log).0
  unfolding revoke_each revoke
  revoke_each-Before granted [] log = now
  revoke_each-Before granted (f ∷ fs) log =
      elim (Bool-cases (not (has_prefix f "iqn.") || contains f granted)) [
        | inl e ↦ rw (e, revoke_each) (revoke_each-Before granted fs log)
        | inr e ↦
            rw (e, revoke_each)
              (Before-unless_failed log _ (revoke_each run t.status.iqn granted fs) (later now)
                (revoke_each-Before granted fs))
      ]

  -- Each name of the tree that is not granted is revoked.
  revoke_each-Deleted :
      (granted fs : List String) (log : Log) (f : String)
      → (revoke_each run t.status.iqn granted fs log).1 ≡ none
      → In f fs
      → has_prefix f "iqn." ≡ true
      → contains f granted ≡ false
      → Deleted log (revoke_each run t.status.iqn granted fs log).0 f
  unfolding revoke_each revoke
  revoke_each-Deleted granted [] log f h i p c = elim i [ ]
  revoke_each-Deleted granted (g ∷ gs) log f h i p c =
      elim (Bool-cases (not (has_prefix g "iqn.") || contains g granted)) [
        | inl e ↦
            rw (e, revoke_each)
              (elim i [
                | here q ↦ absurd (kept_in g q e)
                | there j ↦ revoke_each-Deleted granted gs log f (rw (e, revoke_each) at h) j p c
              ])
        | inr e ↦
            let (h1, e1) =
              split_none (revoke run t.status.iqn g log) (revoke_each run t.status.iqn granted gs)
                (rw (e, revoke_each) at h) in
            rw (e, revoke_each)
              (rw e1 (elim i [
                | here q ↦ rw q (record {
                  before = log;
                  is_since = now;
                  is_before = revoke_each-Before granted gs (delete_acl t.status.iqn g ∷ log);
                  found = h1;
                })
                | there j ↦
                    RanSince-earlier log (delete_acl t.status.iqn g ∷ log) _ _ _ (later now) (
                      revoke_each-Deleted granted gs _ f (rw e1 at (rw (e, revoke_each) at h)) j p
                        c)
              ]))
      ]
    where
      kept_in : (g : String) → f ≡ g → (not (has_prefix g "iqn.") || contains g granted) ≡ true → ⊥
      kept_in g q e = cc (rw (← q, p, c) at e)

  -- What the listing of the ACLs leads to.
  revoke_listed-Deleted :
      (granted : List String) (log : Log) (r : Reply)
      → run log (list_acls t.status.iqn) ≡ r
      → let result = revoke_listed run t.status.iqn granted (list_acls t.status.iqn ∷ log, r) in
        result.1 ≡ none
        → (tree : String) × RanSince log
            (list_acls t.status.iqn)
            result.0
            (λ l. run l (list_acls t.status.iqn) ≡ ran tree)
          × ((f : String)
              → In f (fields tree)
              → has_prefix f "iqn." ≡ true
              → contains f granted ≡ false
              → Deleted log result.0 f)
  unfolding revoke_listed
  revoke_listed-Deleted granted log (run_failed out e) q h = absurd (cc)
  revoke_listed-Deleted granted log (ran out) q h = (
    out,
    record {
      before = log;
      is_since = now;
      is_before = revoke_each-Before granted (fields out) (list_acls t.status.iqn ∷ log);
      found = q;
    },
    λ f i p c.
        RanSince-earlier log (list_acls t.status.iqn ∷ log) _ _ _ (later now)
          (revoke_each-Deleted granted (fields out) (list_acls t.status.iqn ∷ log) f h i p c),
  )

  revoke_listed-Before :
      (granted : List String) (log : Log) (r : Reply)
      → Before log (revoke_listed run t.status.iqn granted (list_acls t.status.iqn ∷ log, r)).0
  unfolding revoke_listed
  revoke_listed-Before granted log (run_failed out e) = later now
  revoke_listed-Before granted log (ran out) =
      Before-trans log (list_acls t.status.iqn ∷ log) _ (later now)
        (revoke_each-Before granted (fields out) (list_acls t.status.iqn ∷ log))

  prune_acls-Before :
      (granted : List String) (log : Log) → Before log (prune_acls run t.status.iqn granted log).0
  unfolding prune_acls
  prune_acls-Before granted log =
      revoke_listed-Before granted log (run log (list_acls t.status.iqn))

  not_granted :
      (f : String) → ¬ (MayEnter t chap f) → contains f (granted_of chap t.spec.initiators) ≡ false
  not_granted f n = elim (Bool-cases (contains f (granted_of chap t.spec.initiators))) [
    | inl e ↦ absurd (n (granted_of-MayEnter chap t.spec.initiators f e))
    | inr e ↦ e
  ]

  -- The grants: CHAP is asked for, and after that the tree is listed and pruned.
  ensure_grants-IsClosed :
      (log : Log)
      → (ensure_grants run t chap log).1 ≡ none
      → IsClosed log (ensure_grants run t chap log).0
  unfolding ensure_grants prune_acls
  ensure_grants-IsClosed log h =
      let iqn = t.status.iqn in
      let granted = granted_of chap t.spec.initiators in
      let auth = auth_of t.spec.initiators in
      let acls =
        unless_failed
          (unless_failed (ensure run ("/iscsi" ∷ "create" ∷ iqn ∷ []) log)
            (ensure_luns run t t.status.luns))
          (grant_all run iqn chap t.spec.initiators) in
      let (h1, e1) =
        split_none (unless_failed acls (try run (set_attribute iqn auth)))
          (prune_acls run iqn granted) h in
      let (h2, e2) = split_none acls (try run (set_attribute iqn auth)) h1 in
      let at = set_attribute iqn auth ∷ acls.0 in
      let begun = Grows-Before log acls.0 (grants-Does t chap run log) in
      let (tree, listed, gone) =
        revoke_listed-Deleted granted at (run at (list_acls iqn)) refl (rw (e1, e2) at h) in
      rw (e1, e2)
        (record {
          auth = auth;
          is_auth = auth_of-IsAuth t.spec.initiators;
          auth_set = record {
            before = acls.0;
            is_since = begun;
            is_before = prune_acls-Before granted at;
            found = succeeds-error_of _ (rw e2 at h1);
          };
          tree = tree;
          tree_listed = RanSince-earlier log at _ _ _ (later begun) listed;
          revoked =
              λ f i p n. RanSince-earlier log at _ _ _ (later begun) (gone f i p (not_granted f n));
        })

  IsClosed-later : (log a b : Log) → Before a b → IsClosed log a → IsClosed log b
  IsClosed-later log a b h k = record {
    auth = k.auth;
    auth_set = RanSince-later log _ a b _ h k.auth_set;
    is_auth = k.is_auth;
    tree = k.tree;
    tree_listed = RanSince-later log _ a b _ h k.tree_listed;
    revoked = λ f i p n. RanSince-later log _ a b _ h (k.revoked f i p n);
  }

  -- When `EnsureTarget` succeeds, then since it began authentication was set with success, to 1 if an
  -- initiator of the spec wants CHAP, whether or not its credential could be resolved, and else to 0,
  -- and generated ACLs were switched off with it. Also the ACLs of the target were listed with success,
  -- and each ACL in that listing whose name begins with "iqn." and is not of an initiator of the spec
  -- that may enter was deleted with success, or was absent. ACLs of other names are not spoken of.
  pub ensure_target-IsClosed :
      (json : IpJson) (root : String) (log : Log)
      → (ensure_target run json root t chap log).1 ≡ none
      → IsClosed log (ensure_target run json root t chap log).0
  unfolding ensure_target
  ensure_target-IsClosed json root log h =
      let grants = ensure_grants run t chap log in
      let (h1, e1) = split_none grants (ensure_rest run json root t) h in
      rw e1 (
        IsClosed-later log grants.0 _
          (Grows-Before grants.0 _ (ensure_rest-Does t chap run json root grants.0))
          (ensure_grants-IsClosed log h1))
