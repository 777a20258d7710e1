-- ===== src/Registrar/Laws.antt =====
-- When a pool counts as registered, and when as released.
mod Examples
use stornas.Base.{
  ◌≡◌, refl, sym, ap, ◌∙◌, ◌↔◌, ◌⊎◌, inl, inr, true, false, ◌&&◌, Option, [], ◌∷◌, arith, ◌==◌,
  Bool-cases, eq_of_test, test_of_eq, and_true, In, not-In_nil, In-single, subst,
}
use stornas.Kube.{
  MetaLib, available, is_true, GetReply, found, get_not_found, get_failed, WriteReply, Condition,
}
use stornas.StoragePool.{StoragePool, vg_name}
use stornas.Registrar.{
  RdrbdPool, RdrbdPoolSpec, delete_pool_object, pool_spec, same_location, pool_ready, ensure_pool,
  ensure_found, created, readiness, pool_gone, delete_pool, delete_found, is_ours, deleted,
  after_delete,
}

-- The r-drbd Pool that was read is where the StoragePool says, is not being deleted, and its
-- agent reports it.
pub record IsRegistered (lib : MetaLib) (sp : StoragePool) (get : GetReply RdrbdPool) : Type 0 where
  pub pool : RdrbdPool
  pub read : get ≡ found pool
  pub at_node : pool.spec.node ≡ sp.spec.node
  pub in_vg : pool.spec.vg ≡ vg_name sp
  pub kept : pool.deleting ≡ false
  pub reported : lib.is_status_condition_true available pool.conditions ≡ true

readiness-ready : (o : Option Condition) → readiness o ≡ pool_ready → is_true o ≡ true
unfolding readiness
readiness-ready o h = ground arith

found-IsRegistered :
    (lib : MetaLib) (sp : StoragePool) (pool : RdrbdPool)
    → ensure_found lib sp pool ≡ pool_ready
    → (same_location pool.spec (pool_spec sp) ≡ true)
      × (pool.deleting ≡ false)
      × (readiness (lib.find_status_condition available pool.conditions) ≡ pool_ready)
unfolding ensure_found
found-IsRegistered lib sp pool h = ground arith

location :
    (sp : StoragePool) (s : RdrbdPoolSpec)
    → same_location s (pool_spec sp) ≡ true
    → (s.node ≡ sp.spec.node) × (s.vg ≡ vg_name sp)
unfolding same_location pool_spec
location sp s h =
    (eq_of_test s.node sp.spec.node (ground arith), eq_of_test s.vg (vg_name sp) (ground arith))

-- `EnsurePool` reports ready only of a registered Pool, and then asks for nothing.
pub ensure_pool-IsRegistered :
    (lib : MetaLib) (sp : StoragePool) (get : GetReply RdrbdPool) (reply : WriteReply)
    → (ensure_pool lib sp get reply).1 ≡ pool_ready
    → ((ensure_pool lib sp get reply).0 ≡ []) × IsRegistered lib sp get
unfolding ensure_pool created
ensure_pool-IsRegistered lib sp (found pool) reply h =
    let (l, d, r) = found-IsRegistered lib sp pool h in
    let (n, v) = location sp pool.spec l in
    (
      refl,
      record {
        pool = pool;
        read = refl;
        at_node = n;
        in_vg = v;
        kept = d;
        reported = lib.is_true-find available pool.conditions ∙ readiness-ready _ r;
      },
    )
ensure_pool-IsRegistered lib sp get_not_found reply h = ground arith
ensure_pool-IsRegistered lib sp (get_failed e) reply h = absurd (cc)

-- The Pool is at this StoragePool's node, in its VG.
abbrev pub IsOurs : StoragePool → RdrbdPool → Type 0
IsOurs sp pool = (pool.spec.node ≡ sp.spec.node) × (pool.spec.vg ≡ vg_name sp)

pub is_ours-IsOurs_iff :
    (sp : StoragePool) (pool : RdrbdPool) → (is_ours sp pool ≡ false) ↔ (¬ (IsOurs sp pool))
unfolding is_ours
is_ours-IsOurs_iff sp pool = (
  λ h (n, v). ours (rw (test_of_eq _ _ n, test_of_eq _ _ v) at h),
  λ n. elim (Bool-cases (pool.spec.node == sp.spec.node && pool.spec.vg == vg_name sp)) [
    | inl e ↦
        let (x, y) = and_true (pool.spec.node == sp.spec.node) (pool.spec.vg == vg_name sp) e in
        absurd (n (eq_of_test _ _ x, eq_of_test _ _ y))
    | inr e ↦ e
  ],
)
  where
    ours : true ≡ false → ⊥
    ours e = cc

-- `DeletePool` reports gone exactly when the Pool of that name is absent or is not of this
-- StoragePool's node and VG.
pub delete_pool-gone_iff :
    (sp : StoragePool) (get : GetReply RdrbdPool) (reply : WriteReply)
    → ((delete_pool sp get reply).1 ≡ pool_gone)
      ↔ ((get ≡ get_not_found) ⊎ ((pool : RdrbdPool) × (get ≡ found pool) × (¬ (IsOurs sp pool))))
unfolding delete_pool delete_found deleted after_delete
delete_pool-gone_iff sp (found pool) reply = (
  λ h. inr (pool, refl, (is_ours-IsOurs_iff sp pool).0 (ground arith)),
  λ o. elim o [
    | inl e ↦ absurd (cc)
    | inr (p, e, n) ↦
        let foreign : is_ours sp pool ≡ false =
          subst (λ (q : RdrbdPool). is_ours sp q ≡ false) (sym (pool_equal pool p e))
            ((is_ours-IsOurs_iff sp p).1 n) in
        ground arith
  ],
)
  where
    pool_equal : (x y : RdrbdPool) → found x ≡ found y → x ≡ y
    pool_equal x y e = cc
delete_pool-gone_iff sp get_not_found reply = (λ h. inl refl, λ o. refl)
delete_pool-gone_iff sp (get_failed e) reply = (λ h. absurd (cc), λ o. ground arith)

delete_ways :
    (sp : StoragePool) (p : RdrbdPool) (reply : WriteReply)
    → ((delete_found sp p reply).0 ≡ [])
      ⊎ ((is_ours sp p ≡ true)
          × (p.deleting ≡ false)
          × ((delete_found sp p reply).0 ≡ delete_pool_object p ∷ []))
unfolding delete_found
delete_ways sp p reply = elim (Bool-cases (is_ours sp p)) [
  | inr o ↦ inl (ground arith)
  | inl o ↦ elim (Bool-cases p.deleting) [
    | inl d ↦ inl (ground arith)
    | inr d ↦ inr (o, d, ground arith)
  ]
]

pool_of_request : (a b : RdrbdPool) → delete_pool_object a ≡ delete_pool_object b → a ≡ b
pool_of_request a b e = cc

-- The registrar never asks to delete a Pool that is not of this StoragePool's node and VG.
pub delete_pool_requests :
    (sp : StoragePool) (get : GetReply RdrbdPool) (reply : WriteReply) (pool : RdrbdPool)
    → In (delete_pool_object pool) (delete_pool sp get reply).0
    → (get ≡ found pool) × (is_ours sp pool ≡ true) × (pool.deleting ≡ false)
unfolding delete_pool
delete_pool_requests sp (found p) reply pool i = elim (delete_ways sp p reply) [
  | inl e ↦ absurd (not-In_nil _ _ e i)
  | inr (o, d, e) ↦
      let same = pool_of_request pool p (In-single _ _ _ e i) in
      (
        ap found (sym same),
        subst (λ (q : RdrbdPool). is_ours sp q ≡ true) (sym same) o,
        subst (λ (q : RdrbdPool). q.deleting ≡ false) (sym same) d,
      )
]
delete_pool_requests sp get_not_found reply pool i = elim i [ ]
delete_pool_requests sp (get_failed e) reply pool i = elim i [ ]
