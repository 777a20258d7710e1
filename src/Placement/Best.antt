-- ===== src/Placement/Best.antt =====
-- What `ResolvePlacement` picks, said of the volume's replicas. `pick_from` is the third loop.
mod Loop
mod Examples
use stornas.Base.{
  ℕ, ◌≤◌, String, ◌≡◌, ap, ◌≢◌, ◌↔◌, ◌⊎◌, inl, inr, Bool, true, false, ◌||◌, none, some, arith,
  ◌==◌, eq_iff, ◌<>◌, Option-cases, test_of_ne, In,
}
use stornas.Volume.{Volume, ReplicaStatus, is_diskful}
use stornas.Placement.{
  Candidate, candidate_of, candidates, is_candidate, pick_from, score, placed, no_replica,
  resolve_placement, resolved_of, replica_count,
}
use Loop.{pick_sound, pick_best, pick_none, In-candidates, candidates-In}

-- A replica may serve: it is present, has a device, holds data and its node is not avoided.
pub record CanServe (v : Volume) (avoid : String → Bool) (r : ReplicaStatus) : Type 0 where
  pub present : r.present ≡ true
  pub has_device : r.device_path ≢ ""
  pub diskful : is_diskful v r.node ≡ true
  pub allowed : avoid r.node ≡ false

abbrev pub UpToDate : ReplicaStatus → Type 0
UpToDate r = r.disk_state ≡ "UpToDate"

-- The replica holds the volume open: it says so, or its node is the primary.
abbrev pub in_use_now : Volume → ReplicaStatus → Bool
in_use_now v r = r.in_use || v.primary == r.node

-- `r` is the replica that the placement rules prefer: UpToDate before in use before the node
-- that served last.
pub record IsPreferred (v : Volume) (prefer : String) (avoid : String → Bool) (r : ReplicaStatus)
    : Type 0 where
  pub serves : CanServe v avoid r
  pub newest : (o : ReplicaStatus) → In o v.replicas → CanServe v avoid o → UpToDate o → UpToDate r
  pub not_moved :
      (o : ReplicaStatus)
      → In o v.replicas
      → CanServe v avoid o
      → (UpToDate r → UpToDate o)
      → in_use_now v o ≡ true
      → in_use_now v r ≡ true
  pub sticky :
      (o : ReplicaStatus)
      → In o v.replicas
      → CanServe v avoid o
      → (UpToDate r → UpToDate o)
      → o.node ≡ prefer
      → (in_use_now v r ≡ true) ⊎ (r.node ≡ prefer)

CanServe-is_candidate :
    {v : Volume} {avoid : String → Bool} {r : ReplicaStatus}
    → CanServe v avoid r
    → is_candidate v r ≡ true
unfolding is_candidate
CanServe-is_candidate {v} {avoid} {r} c =
    rw (c.present, c.diskful, test_of_ne r.device_path "" c.has_device)

is_candidate-CanServe :
    (v : Volume) (avoid : String → Bool) (r : ReplicaStatus)
    → is_candidate v r ≡ true
    → avoid r.node ≡ false
    → CanServe v avoid r
unfolding is_candidate
is_candidate-CanServe v avoid r h a = record {
  present = ground arith;
  has_device = λ e. ground (arith, eq_iff r.device_path "");
  diskful = ground arith;
  allowed = a;
}

-- The comparisons of scores that the three rules are.
module _ (v : Volume) (prefer : String) (o r : ReplicaStatus) where
  abbrev rank : ReplicaStatus → ℕ
  rank q = score prefer (candidate_of v q)

  newest_of_le : rank o ≤ rank r → UpToDate o → UpToDate r
  unfolding score candidate_of
  newest_of_le h u = ground (arith, eq_iff o.disk_state "UpToDate", eq_iff r.disk_state "UpToDate")

  not_moved_of_le :
      rank o ≤ rank r → (UpToDate r → UpToDate o) → in_use_now v o ≡ true → in_use_now v r ≡ true
  unfolding score candidate_of
  not_moved_of_le h u i =
      ground (arith, eq_iff o.disk_state "UpToDate", eq_iff r.disk_state "UpToDate")

  sticky_of_le :
      rank o ≤ rank r
      → (UpToDate r → UpToDate o)
      → o.node ≡ prefer
      → (in_use_now v r ≡ true) ⊎ (r.node ≡ prefer)
  unfolding score candidate_of
  sticky_of_le h u e = ground (
    arith,
    eq_iff o.disk_state "UpToDate",
    eq_iff r.disk_state "UpToDate",
    eq_iff o.node prefer,
    eq_iff r.node prefer,
  )

IsPreferred-of_pick :
    (v : Volume) (prefer : String) (avoid : String → Bool) (r : ReplicaStatus)
    → pick_from prefer avoid none (candidates v v.replicas) ≡ some (candidate_of v r)
    → CanServe v avoid r
    → IsPreferred v prefer avoid r
unfolding candidate_of
IsPreferred-of_pick v prefer avoid r h serves = record {
  serves = serves;
  newest = λ o i c. newest_of_le v prefer o r (above o i c);
  not_moved = λ o i c. not_moved_of_le v prefer o r (above o i c);
  sticky = λ o i c. sticky_of_le v prefer o r (above o i c);
}
  where
    above :
        (o : ReplicaStatus)
        → In o v.replicas
        → CanServe v avoid o
        → score prefer (candidate_of v o) ≤ score prefer (candidate_of v r)
    above o i c =
        pick_best prefer avoid none (candidates v v.replicas) (candidate_of v r) h
          (candidate_of v o) (candidates-In v v.replicas o i (CanServe-is_candidate c)) c.allowed

-- The candidate that the loop picks comes from a replica that may serve, and that the rules
-- prefer.
picked :
    (v : Volume) (prefer : String) (avoid : String → Bool) (c : Candidate)
    → pick_from prefer avoid none (candidates v v.replicas) ≡ some c
    → (r : ReplicaStatus) × In r v.replicas × (c ≡ candidate_of v r) × IsPreferred v prefer avoid r
unfolding candidate_of
picked v prefer avoid c h = elim (pick_sound prefer avoid none (candidates v v.replicas) c h) [
  | inl e ↦ cc
  | inr (i, a) ↦
      let (r, j, t, e) = In-candidates v v.replicas c i in
      (
        r,
        j,
        e,
        IsPreferred-of_pick v prefer avoid r (rw e at h)
            (is_candidate-CanServe v avoid r t (rw (ap (λ (k : Candidate). avoid k.node) e) at a)),
      )
]

-- If `ResolvePlacement` places a volume at a node and a device, they are those of a replica of
-- the volume that may serve, and that the placement rules prefer to every other one that may.
pub resolve-IsPreferred :
    (v : Volume) (prefer : String) (avoid : String → Bool) (node device : String) (n : ℕ)
    → resolve_placement v prefer avoid ≡ placed node device n
    → (r : ReplicaStatus) × In r v.replicas
      × (r.node ≡ node)
      × (r.device_path ≡ device)
      × IsPreferred v prefer avoid r
unfolding resolve_placement candidate_of
resolve-IsPreferred v prefer avoid node device n h =
    elim (Option-cases (pick_from prefer avoid none (candidates v v.replicas))) [
      | inl e ↦ cc (h, ap (resolved_of v) e)
      | inr (c, e) ↦
          let (r, i, from, p) = picked v prefer avoid c e in
          (r, i, ground (arith, h, e, from), ground (arith, h, e, from), p)
    ]

fails-none :
    (v : Volume) (prefer : String) (avoid : String → Bool) (n : ℕ) (msg : String)
    → resolve_placement v prefer avoid ≡ no_replica n msg
    → pick_from prefer avoid none (candidates v v.replicas) ≡ none
unfolding resolve_placement
fails-none v prefer avoid n msg h = ground arith

none_of_no_server :
    (v : Volume) (prefer : String) (avoid : String → Bool)
    → ((r : ReplicaStatus) → In r v.replicas → ¬ (CanServe v avoid r))
    → pick_from prefer avoid none (candidates v v.replicas) ≡ none
none_of_no_server v prefer avoid h =
    elim (Option-cases (pick_from prefer avoid none (candidates v v.replicas))) [
      | inl e ↦ e
      | inr (c, e) ↦ let (r, i, from, p) = picked v prefer avoid c e in absurd (h r i p.serves)
    ]

-- `ResolvePlacement` fails exactly when no replica of the volume may serve.
pub resolve_fails_iff :
    (v : Volume) (prefer : String) (avoid : String → Bool)
    → ((n : ℕ) × (msg : String) × (resolve_placement v prefer avoid ≡ no_replica n msg))
      ↔ ((r : ReplicaStatus) → In r v.replicas → ¬ (CanServe v avoid r))
unfolding resolve_placement candidate_of
resolve_fails_iff v prefer avoid = (
  λ (n, msg, e) r i c. cc (
    c.allowed,
    pick_none prefer avoid none (candidates v v.replicas) (fails-none v prefer avoid n msg e)
        (candidate_of v r) (candidates-In v v.replicas r i (CanServe-is_candidate c)),
  ),
  λ h. (
    replica_count v,
    "volume " <> v.name <> " has no healthy diskful replica with a device",
    ap (resolved_of v) (none_of_no_server v prefer avoid h),
  ),
)
