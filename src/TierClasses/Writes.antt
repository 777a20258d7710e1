-- ===== src/TierClasses/Writes.antt =====
-- The writes of a pass over the StorageClasses (operator/internal/controller/tier_classes.go), in the
-- words of its own functions.
use stornas.Base.{
  String, ◌≡◌, refl, sym, ap, ◌∙◌, ◌↔◌, inl, inr, Bool, true, false, not, Option, none, some, List,
  [], ◌∷◌, if◌then◌else◌, Bool-cases, Option-cases, In, here, there, In-single, subst,
}
use stornas.Kube.{ListReply, items, list_failed, local_class, replicated_class}
use stornas.StoragePool.{StoragePool}
use stornas.TierClasses.{
  StorageClass, Replies, Write, creates, deletes, tiers_of, followed_by, ensure_tiers, delete_error,
  is_unused, drop_outdated, drop_listed, reconcile_pools, reconcile,
}
use stornas.TierClasses.Created.{
  names_tier, contains-tiers_of, followed_by_ok, in_both, IsTierClass, ensure_tiers_iff,
  no_tiers_deletes, deleted_equal, WasRead, ensure_tiers-WasRead, deletes_ne_creates,
}

not-true : (b : Bool) → not b ≡ true → b ≡ false
not-true true h = sym h
not-true false h = refl

some_equal : (s t : String) → some s ≡ some t → s ≡ t
some_equal s t h = cc

some_ne_none : (s : String) → ¬ (some s ≡ none)
some_ne_none s h = cc

not_both : (b : Bool) → b ≡ true → ¬ (b ≡ false)
not_both true h k = cc
not_both false h k = cc

-- What the part of one class writes, as the third loop makes it.
abbrev one_deleted : Replies → StorageClass → List Write × Option String
one_deleted io c = (deletes c ∷ [], delete_error (io.delete_class c.name))

no_drop_creates :
    (io : Replies) (tiers : List String) (cs : List StorageClass)
    → (drop_outdated io tiers cs).1 ≡ none
    → (c : StorageClass) → ¬ (In (creates c) (drop_outdated io tiers cs).0)
unfolding drop_outdated
no_drop_creates io tiers [] h c i = elim i [ ]
no_drop_creates io tiers (x ∷ cs) h c i =
    let rest : List Write × Option String = drop_outdated io tiers cs in
    elim (Bool-cases (is_unused tiers x)) [
      | inl e ↦
          let h' =
            subst (λ b. (if b then followed_by (one_deleted io x) rest else rest).1 ≡ none) e h in
          let i' =
            subst (λ b. In (creates c) (if b then followed_by (one_deleted io x) rest else rest).0)
              e i in
          elim ((in_both (creates c) (one_deleted io x) rest h').0 i') [
            | inl j ↦ deletes_ne_creates x c (sym (In-single _ _ _ refl j))
            | inr j ↦ no_drop_creates io tiers cs (followed_by_ok (one_deleted io x) rest h').1 c j
          ]
      | inr e ↦
          no_drop_creates io tiers cs
            (subst (λ b. (if b then followed_by (one_deleted io x) rest else rest).1 ≡ none) e h) c
            (subst (λ b. In (creates c) (if b then followed_by (one_deleted io x) rest else rest).0)
              e i)
    ]

drop_outdated_iff :
    (io : Replies) (tiers : List String) (cs : List StorageClass)
    → (drop_outdated io tiers cs).1 ≡ none
    → (c : StorageClass)
    → In (deletes c) (drop_outdated io tiers cs).0 ↔ (In c cs × (is_unused tiers c ≡ true))
unfolding drop_outdated
drop_outdated_iff io tiers [] h c = (λ i. elim i [ ], λ q. elim q.0 [ ])
drop_outdated_iff io tiers (x ∷ cs) h c =
    let rest : List Write × Option String = drop_outdated io tiers cs in
    elim (Bool-cases (is_unused tiers x)) [
      | inl e ↦
          let h' =
            subst (λ b. (if b then followed_by (one_deleted io x) rest else rest).1 ≡ none) e h in
          let both = in_both (deletes c) (one_deleted io x) rest h' in
          let later =
            drop_outdated_iff io tiers cs (followed_by_ok (one_deleted io x) rest h').1 c in
          rw e (
            λ i. elim (both.0 i) [
              | inl j ↦
                  let same = deleted_equal c x (In-single _ _ _ refl j) in
                  (here same, subst (λ y. is_unused tiers y ≡ true) (sym same) e)
              | inr j ↦ (there (later.0 j).0, (later.0 j).1)
            ],
            λ q. both.1 (elim q.0 [
              | here p ↦ inl (here (ap deletes p))
              | there j ↦ inr (later.1 (j, q.1))
            ]),
          )
      | inr e ↦
          let h' =
            subst (λ b. (if b then followed_by (one_deleted io x) rest else rest).1 ≡ none) e h in
          let later = drop_outdated_iff io tiers cs h' c in
          rw e (
            λ i. (there (later.0 i).0, (later.0 i).1),
            λ q. later.1 (elim q.0 [
              | here p ↦ absurd (not_both (is_unused tiers c) q.1 (ap (is_unused tiers) p ∙ e))
              | there j ↦ (j, q.1)
            ]),
          )
    ]

-- A class with the label of a tier that no pool names.
abbrev pub IsUnused : List StoragePool → StorageClass → Type 0
IsUnused ps c = (t : String) × (c.tier_label ≡ some t) × (names_tier ps t ≡ false)

is_unused-IsUnused_iff :
    (ps : List StoragePool) (c : StorageClass) → (is_unused (tiers_of ps) c ≡ true) ↔ IsUnused ps c
unfolding is_unused
is_unused-IsUnused_iff ps c = elim (Option-cases c.tier_label) [
  | inl p ↦ rw p (λ h. cc, λ q. cc (q.1))
  | inr (t, p) ↦ rw p (
    λ h. (t, refl, sym (contains-tiers_of ps t) ∙ not-true _ h),
    λ q. ap not (contains-tiers_of ps t ∙ ap (names_tier ps) (some_equal _ _ q.1) ∙ q.2),
  )
]

-- The creations and the deletions among the writes.
abbrev pub IsAsked : Replies → List StoragePool → List StorageClass → List Write → Type 0
IsAsked io ps cs ws =
    ((c : StorageClass)
      → In (creates c) ws ↔ ((t : String) × (names_tier ps t ≡ true) × IsTierClass io t c))
    × ((c : StorageClass) → In (deletes c) ws ↔ (In c cs × IsUnused ps c))
    × ((t : String) → names_tier ps t ≡ true → WasRead io local_class × WasRead io replicated_class)

ensure_tiers-IsAsked :
    (io : Replies) (ps : List StoragePool) (cs : List StorageClass)
    → (followed_by (ensure_tiers io (tiers_of ps)) (drop_outdated io (tiers_of ps) cs)).1 ≡ none
    → IsAsked io ps cs
        (followed_by (ensure_tiers io (tiers_of ps)) (drop_outdated io (tiers_of ps) cs)).0
ensure_tiers-IsAsked io ps cs h =
    let (h1, h2, _) =
      followed_by_ok (ensure_tiers io (tiers_of ps)) (drop_outdated io (tiers_of ps) cs) h in
    (
      λ c.
          let both =
            in_both (creates c) (ensure_tiers io (tiers_of ps)) (drop_outdated io (tiers_of ps) cs)
              h in
          let made = ensure_tiers_iff io (tiers_of ps) h1 c in
          (
            λ i. elim (both.0 i) [
              | inl j ↦ let (t, k, q) = made.0 j in (t, sym (contains-tiers_of ps t) ∙ k, q)
              | inr j ↦ absurd (no_drop_creates io (tiers_of ps) cs h2 c j)
            ],
            λ q. both.1 (inl (made.1 (q.0, contains-tiers_of ps q.0 ∙ q.1, q.2))),
          ),
      λ c.
          let both =
            in_both (deletes c) (ensure_tiers io (tiers_of ps)) (drop_outdated io (tiers_of ps) cs)
              h in
          let dropped = drop_outdated_iff io (tiers_of ps) cs h2 c in
          (
            λ i. elim (both.0 i) [
              | inl j ↦ absurd (no_tiers_deletes io (tiers_of ps) h1 c j)
              | inr j ↦ ((dropped.0 j).0, (is_unused-IsUnused_iff ps c).0 (dropped.0 j).1)
            ],
            λ q. both.1 (inr (dropped.1 (q.0, (is_unused-IsUnused_iff ps c).1 q.1))),
          ),
      λ t n. ensure_tiers-WasRead io (tiers_of ps) t h1 (contains-tiers_of ps t ∙ n),
    )

reconcile_pools-IsAsked :
    (io : Replies) (pl : ListReply StoragePool) (cl : ListReply StorageClass)
    → io.classes ≡ cl
    → (reconcile_pools io pl).1 ≡ none
    → (ps : List StoragePool) × (cs : List StorageClass) × (pl ≡ items ps)
      × (cl ≡ items cs)
      × IsAsked io ps cs (reconcile_pools io pl).0
unfolding reconcile_pools drop_listed
reconcile_pools-IsAsked io (list_failed e) cl p h = cc
reconcile_pools-IsAsked io (items ps) (list_failed e) p h =
    let made : List Write × Option String = ensure_tiers io (tiers_of ps) in
    let h' = subst (λ l. (followed_by made (drop_listed io (tiers_of ps) l)).1 ≡ none) p h in
    absurd
      (some_ne_none e (followed_by_ok made (drop_listed io (tiers_of ps) (list_failed e)) h').1)
reconcile_pools-IsAsked io (items ps) (items cs) p h =
    let made : List Write × Option String = ensure_tiers io (tiers_of ps) in
    let h' = subst (λ l. (followed_by made (drop_listed io (tiers_of ps) l)).1 ≡ none) p h in
    (
      ps,
      cs,
      refl,
      refl,
      subst (λ l. IsAsked io ps cs (followed_by made (drop_listed io (tiers_of ps) l)).0) (sym p)
          (ensure_tiers-IsAsked io ps cs h'),
    )

-- A pass that ends without an error has read the pools and the classes, and makes these writes.
pub reconcile-IsAsked :
    (io : Replies)
    → (reconcile io).1 ≡ none
    → (ps : List StoragePool) × (cs : List StorageClass) × (io.pools ≡ items ps)
      × (io.classes ≡ items cs)
      × IsAsked io ps cs (reconcile io).0
unfolding reconcile
reconcile-IsAsked io h = reconcile_pools-IsAsked io io.pools io.classes refl h
