-- ===== src/Kube/Concrete.antt =====
-- A `MetaLib` over plain lists, which shows that the laws can be met; the examples run on it.
use stornas.Base.{
  ℕ, String, ◌≡◌, refl, ◌≢◌, Bool, true, false, not, Option, none, some, List, [], ◌∷◌, arith, ◌==◌,
  eq_iff, nat_eq, if◌then◌else◌, select, contains,
}
use stornas.Kube.{
  Condition, ConditionType, available, host_ready, registered, torn_down, deregistered, is_true,
  MetaLib,
}

abbrev index : ConditionType → ℕ
index available = 0
index host_ready = 1
index registered = 2
index torn_down = 3
index deregistered = 4

abbrev same_kind : ConditionType → ConditionType → Bool
same_kind a b = nat_eq (index a) (index b)

abbrev find_in : ConditionType → List Condition → Option Condition
find_in t [] = none
find_in t (c ∷ cs) = if same_kind t c.kind then some c else find_in t cs

abbrev put_in : Condition → List Condition → List Condition
put_in c [] = c ∷ []
put_in c (d ∷ ds) = if same_kind c.kind d.kind then c ∷ ds else d ∷ put_in c ds

same_kind_refl : (t : ConditionType) → same_kind t t ≡ true
same_kind_refl t = ground arith

index_inj : (t u : ConditionType) → same_kind t u ≡ true → t ≡ u
index_inj t u h = ground arith

pub find-put_self : (c : Condition) (cs : List Condition) → find_in c.kind (put_in c cs) ≡ some c
find-put_self c [] = ground (arith, same_kind_refl c.kind)
find-put_self c (d ∷ ds) = ground (arith, same_kind_refl c.kind, find-put_self c ds)

pub find-put_ne :
    (t : ConditionType) (c : Condition) (cs : List Condition)
    → t ≢ c.kind
    → find_in t (put_in c cs) ≡ find_in t cs
find-put_ne t c [] h = ground (arith, index_inj t c.kind)
find-put_ne t c (d ∷ ds) h =
    ground (arith, index_inj t c.kind, index_inj c.kind d.kind, find-put_ne t c ds h)

-- Adds only what is absent, as the helper does.
abbrev add_to : String → List String → List String
add_to f fs = if contains f fs then fs else f ∷ fs

abbrev without : String → List String → List String
without f fs = select (λ g. not (g == f)) fs

pub contains-add_to : (f : String) (fs : List String) → contains f (add_to f fs) ≡ true
contains-add_to f fs = ground (arith, eq_iff f f)

pub contains-without : (f : String) (fs : List String) → contains f (without f fs) ≡ false
contains-without f [] = refl
contains-without f (g ∷ gs) = ground (arith, contains-without f gs)

abbrev pub concrete : MetaLib
concrete = record {
  set_status_condition = put_in;
  find_status_condition = find_in;
  is_status_condition_true = λ t cs. is_true (find_in t cs);
  contains_finalizer = contains;
  add_finalizer = add_to;
  remove_finalizer = without;
  find-set_self = find-put_self;
  find-set_ne = find-put_ne;
  is_true-find = λ t cs. refl;
  contains-add = contains-add_to;
  contains-remove = contains-without;
}
