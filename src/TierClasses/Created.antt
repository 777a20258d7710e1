-- ===== src/TierClasses/Created.antt =====
-- The tiers in use, and the StorageClasses that a pass creates for them
-- (operator/internal/controller/tier_classes.go).
use stornas.Base.{
  String, ◌≡◌, refl, sym, ap, ◌∙◌, ◌↔◌, ◌⊎◌, inl, inr, Bool, true, false, ◌&&◌, ◌||◌, Option, none,
  some, List, [], ◌∷◌, ◌++◌, ◌==◌, eq_refl, Bool-cases, eq_of_test, any, In, here, there, contains,
  In-append, In-append_right, In-single, subst,
}
use stornas.Kube.{GetReply, found, get_not_found, get_failed, local_class, replicated_class}
use stornas.StoragePool.{StoragePool}
use stornas.TierClasses.{
  StorageClass, Replies, Write, creates, deletes, tier_classes, is_cloned, note_tier, tiers_of,
  clone, followed_by, create_clone, create_error, ensure_clone, ensure_tier, ensure_tiers,
}

-- Some pool names the tier, and it is not the default.
abbrev pub names_tier : List StoragePool → String → Bool
names_tier ps t = is_cloned t && any (λ p. p.spec.tier == t) ps

contains-note :
    (t x : String) (ts : List String)
    → contains t (note_tier x ts) ≡ ((is_cloned x && (x == t)) || contains t ts)
unfolding note_tier
contains-note t x ts = elim (Bool-cases (is_cloned x)) [
  | inr e ↦ rw e refl
  | inl e ↦ elim (Bool-cases (contains x ts)) [
    | inr c ↦ rw (e, c) refl
    | inl c ↦ elim (Bool-cases (x == t)) [
      | inr n ↦ rw (e, c, n) refl
      | inl n ↦ rw (e, c, n) (subst (λ y. contains y ts ≡ true) (eq_of_test _ _ n) c)
    ]
  ]
]

names-cons :
    (x t : String) (b : Bool)
    → ((is_cloned x && (x == t)) || (is_cloned t && b)) ≡ (is_cloned t && ((x == t) || b))
names-cons x t b = elim (Bool-cases (x == t)) [
  | inl e ↦ rw e (elim (Bool-cases (is_cloned t)) [
    | inl c ↦ rw (subst (λ y. is_cloned y ≡ true) (sym (eq_of_test _ _ e)) c, c) refl
    | inr c ↦ rw (subst (λ y. is_cloned y ≡ false) (sym (eq_of_test _ _ e)) c, c) refl
  ])
  | inr e ↦ rw e (elim (Bool-cases (is_cloned x)) [ inl c ↦ rw c refl | inr c ↦ rw c refl ])
]

pub contains-tiers_of :
    (ps : List StoragePool) (t : String) → contains t (tiers_of ps) ≡ names_tier ps t
unfolding tiers_of
contains-tiers_of [] t = elim (Bool-cases (is_cloned t)) [ inl c ↦ rw c refl | inr c ↦ rw c refl ]
contains-tiers_of (p ∷ ps) t =
    contains-note t p.spec.tier (tiers_of ps)
    ∙ ap (λ b. (is_cloned p.spec.tier && (p.spec.tier == t)) || b) (contains-tiers_of ps t)
    ∙ names-cons p.spec.tier t (any (λ p. p.spec.tier == t) ps)

contains_split :
    (t x : String) (ts : List String)
    → contains t (x ∷ ts) ≡ true
    → (x ≡ t) ⊎ (contains t ts ≡ true)
contains_split t x ts h = elim (Bool-cases (x == t)) [
  | inl e ↦ inl (eq_of_test _ _ e)
  | inr e ↦ inr (subst (λ b. (b || contains t ts) ≡ true) e h)
]

nothing_contained : (t : String) → ¬ (contains t [] ≡ true)
nothing_contained t h = cc

contained_there :
    (t x : String) (ts : List String) → contains t ts ≡ true → contains t (x ∷ ts) ≡ true
contained_there t x ts h = elim (Bool-cases (x == t)) [ inl e ↦ rw e refl | inr e ↦ rw e h ]

-- A part that ends without an error has two parts that do, and makes the writes of both.
pub followed_by_ok :
    (a b : List Write × Option String)
    → (followed_by a b).1 ≡ none
    → (a.1 ≡ none) × (b.1 ≡ none) × ((followed_by a b).0 ≡ a.0 ++ b.0)
unfolding followed_by
followed_by_ok (ws, some e) b h = cc
followed_by_ok (ws, none) (vs, o) h = (refl, h, refl)

-- The clone that a tier needs of a shipped class, under its name.
abbrev pub IsClone : Replies → String → String → String → StorageClass → Type 0
IsClone io from name tier c =
    (base : StorageClass) × (io.get_class from ≡ found base) × (c ≡ clone base name tier)

abbrev pub IsTierClass : Replies → String → StorageClass → Type 0
IsTierClass io tier c =
    IsClone io local_class (tier_classes tier).0 tier c
    ⊎ IsClone io replicated_class (tier_classes tier).1 tier c

created_equal : (c d : StorageClass) → creates c ≡ creates d → c ≡ d
created_equal c d h = cc

pub deleted_equal : (c d : StorageClass) → deletes c ≡ deletes d → c ≡ d
deleted_equal c d h = cc

found_equal : (c d : StorageClass) → found c ≡ found d → c ≡ d
found_equal c d h = cc

pub deletes_ne_creates : (c d : StorageClass) → ¬ (deletes c ≡ creates d)
deletes_ne_creates c d h = cc

In-append_left {ℓ} : {A : Type ℓ} (a : A) (xs ys : List A) → In a xs → In a (xs ++ ys)
In-append_left a [] ys i = elim i [ ]
In-append_left a (x ∷ xs) ys (here e) = here e
In-append_left a (x ∷ xs) ys (there i) = there (In-append_left a xs ys i)

In-append_iff {ℓ} : {A : Type ℓ} (a : A) (xs ys : List A) → In a (xs ++ ys) ↔ (In a xs ⊎ In a ys)
In-append_iff a xs ys = (
  In-append a xs ys,
  λ s. elim s [ inl i ↦ In-append_left a xs ys i | inr j ↦ In-append_right a xs ys j ],
)

pub sum_iff {ℓ} : {A B C D : Type ℓ} → A ↔ C → B ↔ D → (A ⊎ B) ↔ (C ⊎ D)
sum_iff f g = (
  λ s. elim s [ inl a ↦ inl (f.0 a) | inr b ↦ inr (g.0 b) ],
  λ s. elim s [ inl c ↦ inl (f.1 c) | inr d ↦ inr (g.1 d) ],
)

-- What stands in the writes of two parts that end without an error.
pub in_both :
    (w : Write) (a b : List Write × Option String)
    → (followed_by a b).1 ≡ none
    → In w (followed_by a b).0 ↔ (In w a.0 ⊎ In w b.0)
in_both w a b h =
    subst (λ ws. In w ws ↔ (In w a.0 ⊎ In w b.0)) (sym (followed_by_ok a b h).2)
      (In-append_iff w a.0 b.0)

create_clone_iff :
    (io : Replies) (from name tier : String) (g : GetReply StorageClass)
    → io.get_class from ≡ g
    → (create_clone io from name tier g).1 ≡ none
    → (c : StorageClass)
    → In (creates c) (create_clone io from name tier g).0 ↔ IsClone io from name tier c
unfolding create_clone create_error
create_clone_iff io from name tier get_not_found e h c = cc
create_clone_iff io from name tier (get_failed m) e h c = cc
create_clone_iff io from name tier (found base) e h c = (
  λ i. (base, e, created_equal c (clone base name tier) (In-single _ _ _ refl i)),
  λ q. here (ap creates (q.2 ∙ ap (λ b. clone b name tier) (found_equal _ _ (sym q.1 ∙ e)))),
)

no_clone_deletes :
    (io : Replies) (from name tier : String) (g : GetReply StorageClass) (c : StorageClass)
    → ¬ (In (deletes c) (create_clone io from name tier g).0)
unfolding create_clone
no_clone_deletes io from name tier get_not_found c i = elim i [ ]
no_clone_deletes io from name tier (get_failed m) c i = elim i [ ]
no_clone_deletes io from name tier (found base) c i =
    deletes_ne_creates c _ (In-single _ _ _ refl i)

abbrev local_part : Replies → String → List Write × Option String
local_part io t = ensure_clone io local_class (tier_classes t).0 t

abbrev replicated_part : Replies → String → List Write × Option String
replicated_part io t = ensure_clone io replicated_class (tier_classes t).1 t

ensure_tier_iff :
    (io : Replies) (t : String)
    → (ensure_tier io t).1 ≡ none
    → (c : StorageClass) → In (creates c) (ensure_tier io t).0 ↔ IsTierClass io t c
unfolding ensure_tier ensure_clone
ensure_tier_iff io t h c =
    let (h1, h2, _) = followed_by_ok (local_part io t) (replicated_part io t) h in
    let parts =
      sum_iff
        (create_clone_iff io local_class (tier_classes t).0 t (io.get_class local_class) refl h1 c)
        (create_clone_iff io replicated_class (tier_classes t).1 t (io.get_class replicated_class)
          refl h2 c) in
    let both = in_both (creates c) (local_part io t) (replicated_part io t) h in
    (λ i. parts.0 (both.0 i), λ q. both.1 (parts.1 q))

no_tier_deletes :
    (io : Replies) (t : String)
    → (ensure_tier io t).1 ≡ none
    → (c : StorageClass) → ¬ (In (deletes c) (ensure_tier io t).0)
unfolding ensure_tier ensure_clone
no_tier_deletes io t h c i =
    elim ((in_both (deletes c) (local_part io t) (replicated_part io t) h).0 i) [
      | inl j ↦ no_clone_deletes io local_class (tier_classes t).0 t (io.get_class local_class) c j
      | inr j ↦
          no_clone_deletes io replicated_class (tier_classes t).1 t (io.get_class replicated_class)
            c j
    ]

pub ensure_tiers_iff :
    (io : Replies) (ts : List String)
    → (ensure_tiers io ts).1 ≡ none
    → (c : StorageClass)
    → In (creates c) (ensure_tiers io ts).0
      ↔ ((t : String) × (contains t ts ≡ true) × IsTierClass io t c)
unfolding ensure_tiers
ensure_tiers_iff io [] h c = (λ i. elim i [ ], λ q. absurd (nothing_contained q.0 q.1))
ensure_tiers_iff io (x ∷ ts) h c =
    let (h1, h2, _) = followed_by_ok (ensure_tier io x) (ensure_tiers io ts) h in
    let first = ensure_tier_iff io x h1 c in
    let rest = ensure_tiers_iff io ts h2 c in
    let both = in_both (creates c) (ensure_tier io x) (ensure_tiers io ts) h in
    (
      λ i. elim (both.0 i) [
        | inl j ↦ (x, rw (eq_refl x) refl, first.0 j)
        | inr j ↦ let (t, k, q) = rest.0 j in (t, contained_there t x ts k, q)
      ],
      λ q. both.1 (elim (contains_split q.0 x ts q.1) [
        | inl e ↦ inl (first.1 (subst (λ y. IsTierClass io y c) (sym e) q.2))
        | inr k ↦ inr (rest.1 (q.0, k, q.2))
      ]),
    )

pub no_tiers_deletes :
    (io : Replies) (ts : List String)
    → (ensure_tiers io ts).1 ≡ none
    → (c : StorageClass) → ¬ (In (deletes c) (ensure_tiers io ts).0)
unfolding ensure_tiers
no_tiers_deletes io [] h c i = elim i [ ]
no_tiers_deletes io (x ∷ ts) h c i =
    elim ((in_both (deletes c) (ensure_tier io x) (ensure_tiers io ts) h).0 i) [
      | inl j ↦
          no_tier_deletes io x (followed_by_ok (ensure_tier io x) (ensure_tiers io ts) h).0 c j
      | inr j ↦
          no_tiers_deletes io ts (followed_by_ok (ensure_tier io x) (ensure_tiers io ts) h).1 c j
    ]

-- The shipped class was read.
abbrev pub WasRead : Replies → String → Type 0
WasRead io from = (base : StorageClass) × (io.get_class from ≡ found base)

create_clone-WasRead :
    (io : Replies) (from name tier : String) (g : GetReply StorageClass)
    → io.get_class from ≡ g
    → (create_clone io from name tier g).1 ≡ none
    → WasRead io from
unfolding create_clone
create_clone-WasRead io from name tier get_not_found e h = cc
create_clone-WasRead io from name tier (get_failed m) e h = cc
create_clone-WasRead io from name tier (found base) e h = (base, e)

-- Where a tier is in use and nothing failed, both shipped classes were read.
pub ensure_tiers-WasRead :
    (io : Replies) (ts : List String) (t : String)
    → (ensure_tiers io ts).1 ≡ none
    → contains t ts ≡ true
    → WasRead io local_class × WasRead io replicated_class
unfolding ensure_tiers ensure_tier ensure_clone
ensure_tiers-WasRead io [] t h k = cc
ensure_tiers-WasRead io (x ∷ ts) t h k =
    let (h1, _, _) = followed_by_ok (ensure_tier io x) (ensure_tiers io ts) h in
    let (a, b, _) = followed_by_ok (local_part io x) (replicated_part io x) h1 in
    (
      create_clone-WasRead io local_class (tier_classes x).0 x (io.get_class local_class) refl a,
      create_clone-WasRead io replicated_class (tier_classes x).1 x (io.get_class replicated_class)
          refl b,
    )
