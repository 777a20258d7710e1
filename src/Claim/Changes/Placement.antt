-- ===== src/Claim/Changes/Placement.antt =====
-- What the filter on Volume updates (operator/internal/controller/claim.go) drops cannot move a
-- placement (operator/internal/rdrbd/resolver.go).
use stornas.Base.{
  String, ◌≡◌, refl, sym, ap, ◌∙◌, inl, inr, Bool, true, false, Option, none, some, List, [], ◌∷◌,
  ◌++◌, map, ◌==◌, Bool-cases, Option-cases, eq_of_test, and_true, all, In, here, there, contains,
  subst, subst₂,
}
use stornas.Volume.{AssignedReplica, ReplicaStatus, Volume, is_diskful}
use stornas.Placement.{
  Candidate, is_candidate, candidate_of, candidates, Resolved, placed, no_replica, resolved_of,
  resolve_placement,
}
use stornas.Claim.Changes.{
  assigned_of, role_at, replica_at, same_role, same_replica, replica_nodes, assigned_nodes,
  same_serving, volume_serving_changed,
}
use stornas.Claim.Changes.Maps.{
  Distinct, is_diskful_at, role_at_absent, diskful_at, replica_at-In, all-In, all-append,
  SameFields, not-false, same_replica_fields, same_role_equal, contains-append, all-contains,
}

is_diskful_at_lem :
    (v : Volume) (n : String)
    → Distinct (assigned_nodes v)
    → is_diskful v n ≡ is_diskful_at (role_at n (assigned_of v.assignment))
unfolding is_diskful role_at
is_diskful_at_lem v n d = elim (Option-cases v.assignment) [
  | inl p ↦ rw p refl
  | inr (rs, p) ↦
      rw p (diskful_at n rs (subst (λ o. Distinct (map AssignedReplica.node (assigned_of o))) p d))
]

-- Equal keys give each node the same role, at the nodes without one also.
roles_agree :
    (old new : Volume) (n : String)
    → all
        (λ n.
          same_role
            (role_at n (assigned_of old.assignment))
            (role_at n (assigned_of new.assignment)))
        (assigned_nodes old ++ assigned_nodes new)
      ≡ true
    → role_at n (assigned_of old.assignment) ≡ role_at n (assigned_of new.assignment)
roles_agree old new n h =
    elim (Bool-cases (contains n (assigned_nodes old ++ assigned_nodes new))) [
      | inl e ↦ same_role_equal _ _ (all-contains _ n _ h e)
      | inr e ↦
          let (a, b) = contains-append n (assigned_nodes old) (assigned_nodes new) e in
          (role_at_absent n _ a).0 ∙ sym (role_at_absent n _ b).0
    ]

candidates_agree :
    (old new : Volume) (rs ss : List ReplicaStatus)
    → old.primary ≡ new.primary
    → ((n : String) → is_diskful old n ≡ is_diskful new n)
    → map ReplicaStatus.node rs ≡ map ReplicaStatus.node ss
    → ((a b : ReplicaStatus) → In a rs → In b ss → a.node ≡ b.node → SameFields a b)
    → candidates old rs ≡ candidates new ss
unfolding candidates is_candidate candidate_of
candidates_agree old new [] [] p d m f = refl
candidates_agree old new [] (b ∷ ss) p d m f = cc
candidates_agree old new (a ∷ rs) [] p d m f = cc
candidates_agree old new (a ∷ rs) (b ∷ ss) p d m f =
    let (n, e1, e2, e3, e4) = f a b (here refl) (here refl) (cc) in
    let rest : candidates old rs ≡ candidates new ss =
      candidates_agree old new rs ss p d (cc) (λ x y i j. f x y (there i) (there j)) in
    rw (rest, e1, e2, e3, e4, n, d b.node, p) refl

-- The node and the device of a placement.
abbrev pub place_of : Resolved → Option (String × String)
place_of (placed node device copies) = some (node, device)
place_of (no_replica copies why) = none

place_of-resolved_of :
    (old new : Volume) (o : Option Candidate)
    → place_of (resolved_of old o) ≡ place_of (resolved_of new o)
unfolding resolved_of
place_of-resolved_of old new none = refl
place_of-resolved_of old new (some c) = refl

In-map :
    (r : ReplicaStatus) (rs : List ReplicaStatus) → In r rs → In r.node (map ReplicaStatus.node rs)
In-map r [] i = elim i [ ]
In-map r (x ∷ xs) (here e) = here (ap ReplicaStatus.node e)
In-map r (x ∷ xs) (there i) = there (In-map r xs i)

fields_agree :
    (old new : Volume)
    → Distinct (replica_nodes old)
    → Distinct (replica_nodes new)
    → all
        (λ n. same_replica (replica_at n old.replicas) (replica_at n new.replicas))
        (replica_nodes old ++ replica_nodes new)
      ≡ true
    → (a b : ReplicaStatus) → In a old.replicas
    → In b new.replicas
    → a.node ≡ b.node
    → SameFields a b
fields_agree old new dold dnew h a b i j n =
    let found = replica_at-In a old.replicas dold i in
    let also =
      subst (λ m. replica_at m new.replicas ≡ some b) (sym n)
        (replica_at-In b new.replicas dnew j) in
    let here_too =
      all-In (λ n. same_replica (replica_at n old.replicas) (replica_at n new.replicas))
        (replica_nodes old) a.node (all-append _ (replica_nodes old) (replica_nodes new) h)
        (In-map a old.replicas i) in
    same_replica_fields a b n (subst₂ (λ x y. same_replica x y ≡ true) found also here_too)

-- An update of a Volume that the filter drops leaves the placement where it was: whatever node is
-- preferred and whichever nodes are avoided, it resolves to the same node and the same device, or to
-- none, before and after. No node stands twice in the assignment or the status of either version, and
-- the status lists its nodes in the same order.
pub dropped_update_keeps_placement :
    (old new : Volume) (prefer : String) (avoid : String → Bool)
    → Distinct (assigned_nodes old)
    → Distinct (assigned_nodes new)
    → Distinct (replica_nodes old)
    → Distinct (replica_nodes new)
    → replica_nodes old ≡ replica_nodes new
    → volume_serving_changed old new ≡ false
    → place_of (resolve_placement old prefer avoid) ≡ place_of (resolve_placement new prefer avoid)
unfolding volume_serving_changed same_serving resolve_placement
dropped_update_keeps_placement old new prefer avoid aold anew rold rnew order h =
    let (h1, reps) = and_true _ _ (not-false _ h) in
    let (p, roles) = and_true (old.primary == new.primary) _ h1 in
    let same =
      candidates_agree old new old.replicas new.replicas (eq_of_test _ _ p)
        (λ n.
          is_diskful_at_lem old n aold
          ∙ ap is_diskful_at (roles_agree old new n roles)
          ∙ sym (is_diskful_at_lem new n anew))
        order (fields_agree old new rold rnew reps) in
    rw same (place_of-resolved_of old new _)
