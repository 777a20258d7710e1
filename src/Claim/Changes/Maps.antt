-- ===== src/Claim/Changes/Maps.antt =====
-- The maps of a key (operator/internal/controller/claim.go) as lists: what they hold at a node, and
-- what the equality of two keys says of it.
use stornas.Base.{
  String, ◌≡◌, refl, sym, ap, inl, inr, Bool, true, false, not, ◌||◌, Option, none, some, List, [],
  ◌∷◌, ◌++◌, map, ◌==◌, nat_eq, if◌then◌else◌, Bool-cases, Option-cases, eq_of_test, test_of_eq,
  and_true, all, In, here, there, contains, subst, or_false,
}
use stornas.Volume.{
  Role, diskful, diskless, tiebreaker, AssignedReplica, ReplicaStatus, is_diskful_role,
  diskful_among,
}
use stornas.Claim.Changes.{role_index, same_bool, role_at, replica_at, same_role, same_replica}

-- No name stands twice in the list.
abbrev pub Distinct : List String → Type 0
Distinct [] = Unit
Distinct (x ∷ xs) = (contains x xs ≡ false) × Distinct xs

abbrev pub is_diskful_at : Option Role → Bool
is_diskful_at none = false
is_diskful_at (some r) = is_diskful_role r

-- A node that is not in the list has no role and no copy.
pub role_at_absent :
    (n : String) (rs : List AssignedReplica)
    → contains n (map AssignedReplica.node rs) ≡ false
    → (role_at n rs ≡ none) × (diskful_among rs n ≡ false)
unfolding role_at diskful_among
role_at_absent n [] h = (refl, refl)
role_at_absent n (r ∷ rs) h =
    let (e, f) = or_false (r.node == n) (contains n (map AssignedReplica.node rs)) h in
    let (p, q) = role_at_absent n rs f in (rw (p, role_at) (rw e refl), rw e q)

if_same : (b : Bool) → (if b then true else false) ≡ b
if_same true = refl
if_same false = refl

role_at_skip :
    (n : String) (r : AssignedReplica) (rs : List AssignedReplica)
    → r.node == n ≡ false
    → role_at n (r ∷ rs) ≡ role_at n rs
unfolding role_at
role_at_skip n r rs e = elim (Option-cases (role_at n rs)) [
  | inl p ↦ rw (p, role_at) (rw e refl)
  | inr (x, p) ↦ rw (p, role_at) refl
]

pub diskful_at :
    (n : String) (rs : List AssignedReplica)
    → Distinct (map AssignedReplica.node rs)
    → diskful_among rs n ≡ is_diskful_at (role_at n rs)
unfolding role_at diskful_among
diskful_at n [] d = refl
diskful_at n (r ∷ rs) d = elim (Bool-cases (r.node == n)) [
  | inl e ↦
      let (p, q) =
        role_at_absent n rs
          (subst (λ m. contains m (map AssignedReplica.node rs) ≡ false) (eq_of_test _ _ e) d.0) in
      rw (p, role_at) (rw (e, q) (if_same (is_diskful_role r.role)))
  | inr e ↦ rw (role_at_skip n r rs e, e) (diskful_at n rs d.1)
]

replica_at_absent :
    (n : String) (rs : List ReplicaStatus)
    → contains n (map ReplicaStatus.node rs) ≡ false
    → replica_at n rs ≡ none
unfolding replica_at
replica_at_absent n [] h = refl
replica_at_absent n (r ∷ rs) h =
    let (e, f) = or_false (r.node == n) (contains n (map ReplicaStatus.node rs)) h in
    rw (replica_at_absent n rs f, replica_at) (rw e refl)

pub replica_at-In :
    (r : ReplicaStatus) (rs : List ReplicaStatus)
    → Distinct (map ReplicaStatus.node rs)
    → In r rs
    → replica_at r.node rs ≡ some r
unfolding replica_at
replica_at-In r [] d i = elim i [ ]
replica_at-In r (x ∷ xs) d (here e) =
    rw
      (
        replica_at_absent r.node xs (
            subst (λ (y : ReplicaStatus). contains y.node (map ReplicaStatus.node xs) ≡ false)
              (sym e) d.0),
        replica_at,
      )
      (rw (test_of_eq x.node r.node (ap ReplicaStatus.node (sym e))) (ap some (sym e)))
replica_at-In r (x ∷ xs) d (there i) = rw (replica_at-In r xs d.1 i, replica_at) refl

-- Where the keys agree at all nodes of a list, they agree at one of them.
pub all-In {ℓ} :
    {A : Type ℓ} (p : A → Bool) (l : List A) (a : A) → all p l ≡ true → In a l → p a ≡ true
all-In p [] a h i = elim i [ ]
all-In p (x ∷ xs) a h (here e) = subst (λ y. p y ≡ true) (sym e) (and_true (p x) (all p xs) h).0
all-In p (x ∷ xs) a h (there i) = all-In p xs a (and_true (p x) (all p xs) h).1 i

pub all-append {ℓ} :
    {A : Type ℓ} (p : A → Bool) (xs ys : List A) → all p (xs ++ ys) ≡ true → all p xs ≡ true
all-append p [] ys h = refl
all-append p (x ∷ xs) ys h =
    let (a, b) = and_true (p x) (all p (xs ++ ys)) h in rw a (all-append p xs ys b)

-- The fields of a replica that placement reads.
abbrev pub SameFields : ReplicaStatus → ReplicaStatus → Type 0
SameFields a b =
    (a.node ≡ b.node)
    × (a.present ≡ b.present)
    × (a.in_use ≡ b.in_use)
    × (a.device_path ≡ b.device_path)
    × (a.disk_state ≡ b.disk_state)

pub not-false : (b : Bool) → not b ≡ false → b ≡ true
not-false true h = refl
not-false false h = sym h

same_bool_lem : (a b : Bool) → same_bool a b ≡ true → a ≡ b
same_bool_lem true b h = sym h
same_bool_lem false true h = cc
same_bool_lem false false h = refl

pub same_replica_fields :
    (a b : ReplicaStatus) → a.node ≡ b.node → same_replica (some a) (some b) ≡ true → SameFields a b
unfolding same_replica
same_replica_fields a b n h =
    let (h1, p4) = and_true _ (a.disk_state == b.disk_state) h in
    let (h2, p3) = and_true _ (a.device_path == b.device_path) h1 in
    let (p1, p2) = and_true (same_bool a.present b.present) (same_bool a.in_use b.in_use) h2 in
    (n, same_bool_lem _ _ p1, same_bool_lem _ _ p2, eq_of_test _ _ p3, eq_of_test _ _ p4)

role_equal : (a b : Role) → nat_eq (role_index a) (role_index b) ≡ true → a ≡ b
role_equal diskful diskful h = refl
role_equal diskful diskless h = cc
role_equal diskful tiebreaker h = cc
role_equal diskless diskful h = cc
role_equal diskless diskless h = refl
role_equal diskless tiebreaker h = cc
role_equal tiebreaker diskful h = cc
role_equal tiebreaker diskless h = cc
role_equal tiebreaker tiebreaker h = refl

pub same_role_equal : (a b : Option Role) → same_role a b ≡ true → a ≡ b
unfolding same_role
same_role_equal none none h = refl
same_role_equal none (some b) h = cc
same_role_equal (some a) none h = cc
same_role_equal (some a) (some b) h = ap some (role_equal a b h)

pub contains-append :
    (n : String) (xs ys : List String)
    → contains n (xs ++ ys) ≡ false
    → (contains n xs ≡ false) × (contains n ys ≡ false)
contains-append n [] ys h = (refl, h)
contains-append n (x ∷ xs) ys h =
    let (e, f) = or_false (x == n) (contains n (xs ++ ys)) h in
    let (a, b) = contains-append n xs ys f in (rw e a, b)

pub all-contains :
    (p : String → Bool) (n : String) (l : List String)
    → all p l ≡ true
    → contains n l ≡ true
    → p n ≡ true
all-contains p n [] h c = cc
all-contains p n (x ∷ xs) h c =
    let (a, b) = and_true (p x) (all p xs) h in
    elim (Bool-cases (x == n)) [
      | inl e ↦ subst (λ y. p y ≡ true) (eq_of_test _ _ e) a
      | inr e ↦ all-contains p n xs b (subst (λ b. (b || contains n xs) ≡ true) e c)
    ]
