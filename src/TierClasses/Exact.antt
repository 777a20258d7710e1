-- ===== src/TierClasses/Exact.antt =====
-- What a pass over the StorageClasses (operator/internal/controller/tier_classes.go) creates and deletes.
use stornas.Base.{
  String, ◌≡◌, refl, sym, ap, ◌∙◌, ◌≢◌, ◌↔◌, ◌⊎◌, inl, inr, true, false, not, Option, none, some,
  List, [], ◌∷◌, arith, ◌==◌, eq_refl, if◌then◌else◌, ◌<>◌, Bool-cases, eq_of_test, ne_of_test,
  test_of_ne, and_true, any, In, here, there, subst,
}
use stornas.Kube.{found, items, default_tier}
use stornas.StoragePool.{StoragePool}
use stornas.TierClasses.{
  StorageClass, Replies, Write, creates, deletes, tier_classes, is_cloned, set_param, clone,
  reconcile,
}
use stornas.TierClasses.Created.{names_tier, IsTierClass, IsClone}
use stornas.TierClasses.Writes.{IsAsked, reconcile-IsAsked}

-- Some pool has the tier, which is neither missing nor the default.
abbrev pub IsNamed : List StoragePool → String → Type 0
IsNamed ps t = (t ≢ "") × (t ≢ "default") × ((p : StoragePool) × In p ps × (p.spec.tier ≡ t))

-- A parameter of a class.
abbrev pub param_of : String → List (String × String) → Option String
param_of k [] = none
param_of k ((j, v) ∷ m) = if j == k then some v else param_of k m

-- The class is the one of that name that was read, but for its name, its tier and its label.
pub record IsCopy (io : Replies) (from name tier : String) (c : StorageClass) : Type 0 where
  pub base : StorageClass
  pub was_read : io.get_class from ≡ found base
  pub is_named : c.name ≡ name
  pub is_labelled : c.tier_label ≡ some tier
  pub has_tier : param_of "tier" c.parameters ≡ some tier
  pub others : (k : String) → k ≢ "tier" → param_of k c.parameters ≡ param_of k base.parameters
  pub same_policy : c.policy ≡ base.policy

abbrev pub IsLocal : Replies → String → StorageClass → Type 0
IsLocal io t c = IsCopy io "stornas-local" ("stornas-local" <> "-" <> t) t c

abbrev pub IsReplicated : Replies → String → StorageClass → Type 0
IsReplicated io t c = IsCopy io "stornas-replicated" ("stornas-replicated" <> "-" <> t) t c

pub record IsExact (io : Replies) (ps : List StoragePool) (cs : List StorageClass) (ws : List Write)
    : Type 0 where
  pub creations :
      (c : StorageClass)
      → In (creates c) ws
      → (t : String) × IsNamed ps t × (IsLocal io t c ⊎ IsReplicated io t c)
  pub local_created :
      (t : String) → IsNamed ps t → (c : StorageClass) × In (creates c) ws × IsLocal io t c
  pub replicated_created :
      (t : String) → IsNamed ps t → (c : StorageClass) × In (creates c) ws × IsReplicated io t c
  pub deletions :
      (c : StorageClass)
      → In (deletes c) ws
        ↔ (In c cs × ((t : String) × (c.tier_label ≡ some t) × (¬ (IsNamed ps t))))

param_of-set_param_self :
    (k v : String) (m : List (String × String)) → param_of k (set_param k v m) ≡ some v
unfolding set_param
param_of-set_param_self k v [] = rw (eq_refl k) refl
param_of-set_param_self k v ((j, w) ∷ m) = elim (Bool-cases (j == k)) [
  | inl e ↦ rw (e, set_param, eq_refl k) refl
  | inr e ↦ rw (e, set_param, e) (param_of-set_param_self k v m)
]

param_of-set_param :
    (k j v : String) (m : List (String × String))
    → k ≢ j
    → param_of k (set_param j v m) ≡ param_of k m
unfolding set_param
param_of-set_param k j v [] n = rw (test_of_ne j k (λ e. n (sym e))) refl
param_of-set_param k j v ((i, w) ∷ m) n = elim (Bool-cases (i == j)) [
  | inl e ↦
      rw
        (
          e,
          set_param,
          test_of_ne j k (λ q. n (sym q)),
          eq_of_test i j e,
          test_of_ne j k (λ q. n (sym q)),
        )
        refl
  | inr e ↦ elim (Bool-cases (i == k)) [
    | inl q ↦ rw (e, set_param, q) refl
    | inr q ↦ rw (e, set_param, q) (param_of-set_param k j v m n)
  ]
]

any-In :
    (t : String) (ps : List StoragePool)
    → (any (λ p. p.spec.tier == t) ps ≡ true) ↔ ((p : StoragePool) × In p ps × (p.spec.tier ≡ t))
any-In t [] = (λ h. cc, λ (p, i, e). elim i [ ])
any-In t (x ∷ xs) = elim (Bool-cases (x.spec.tier == t)) [
  | inl e ↦ (λ h. (x, here refl, eq_of_test _ _ e), λ q. rw e refl)
  | inr e ↦ rw e (
    λ h. let (p, i, q) = (any-In t xs).0 h in (p, there i, q),
    λ (p, i, q). elim i [
      | here r ↦ absurd (ne_of_test _ _ e (ap (λ (y : StoragePool). y.spec.tier) (sym r) ∙ q))
      | there j ↦ (any-In t xs).1 (p, j, q)
    ],
  )
]

names_tier-IsNamed_iff :
    (ps : List StoragePool) (t : String) → (names_tier ps t ≡ true) ↔ IsNamed ps t
unfolding is_cloned
names_tier-IsNamed_iff ps t = (
  λ h.
      let (c, a) = and_true (is_cloned t) (any (λ p. p.spec.tier == t) ps) h in
      let (n, d) = and_true (not (t == "")) (not (t == default_tier)) c in
      (ne_of_test _ _ (ground arith), ne_of_test _ _ (ground arith), (any-In t ps).0 a),
  λ (n, d, p). rw (test_of_ne _ _ n, test_of_ne _ _ d) ((any-In t ps).1 p),
)

not-IsNamed : (ps : List StoragePool) (t : String) → (names_tier ps t ≡ false) ↔ (¬ (IsNamed ps t))
not-IsNamed ps t = elim (Bool-cases (names_tier ps t)) [
  | inl e ↦ (λ h. cc, λ n. absurd (n ((names_tier-IsNamed_iff ps t).0 e)))
  | inr e ↦ (λ h q. cc (e, (names_tier-IsNamed_iff ps t).1 q), λ n. e)
]

named_tier_classes :
    (t : String)
    → t ≢ ""
    → t ≢ "default"
    → tier_classes t ≡ ("stornas-local" <> "-" <> t, "stornas-replicated" <> "-" <> t)
unfolding tier_classes
named_tier_classes t n d = rw (test_of_ne _ _ n, test_of_ne _ _ d) refl

clone-IsCopy :
    (io : Replies) (from name tier : String) (base : StorageClass)
    → io.get_class from ≡ found base
    → IsCopy io from name tier (clone base name tier)
unfolding clone
clone-IsCopy io from name tier base g = record {
  base = base;
  was_read = g;
  is_named = refl;
  is_labelled = refl;
  has_tier = param_of-set_param_self "tier" tier base.parameters;
  others = λ k n. param_of-set_param k "tier" tier base.parameters n;
  same_policy = refl;
}

IsClone-IsCopy :
    (io : Replies) (from name tier : String) (c : StorageClass)
    → IsClone io from name tier c
    → IsCopy io from name tier c
IsClone-IsCopy io from name tier c (base, g, e) =
    subst (IsCopy io from name tier) (sym e) (clone-IsCopy io from name tier base g)

-- The class of a tier in the words of the code, and in these.
IsTierClass-copies :
    (io : Replies) (t : String) (c : StorageClass)
    → t ≢ ""
    → t ≢ "default"
    → IsTierClass io t c
    → IsLocal io t c ⊎ IsReplicated io t c
IsTierClass-copies io t c n d (inl q) = inl (
    IsClone-IsCopy io "stornas-local" ("stornas-local" <> "-" <> t) t c (
      subst (λ (p : String × String). IsClone io "stornas-local" p.0 t c) (named_tier_classes t n d)
        q))
IsTierClass-copies io t c n d (inr q) = inr (
    IsClone-IsCopy io "stornas-replicated" ("stornas-replicated" <> "-" <> t) t c (
      subst (λ (p : String × String). IsClone io "stornas-replicated" p.1 t c)
        (named_tier_classes t n d) q))

IsAsked-IsExact :
    (io : Replies) (ps : List StoragePool) (cs : List StorageClass) (ws : List Write)
    → IsAsked io ps cs ws
    → IsExact io ps cs ws
IsAsked-IsExact io ps cs ws (made, gone, bases) = record {
  creations = λ c i.
      let (t, n, q) = (made c).0 i in
      let v = (names_tier-IsNamed_iff ps t).0 n in (t, v, IsTierClass-copies io t c v.0 v.1 q);
  local_created = λ t v.
      let n = (names_tier-IsNamed_iff ps t).1 v in
      let (base, g) = (bases t n).0 in
      let name = "stornas-local" <> "-" <> t in
      (
        clone base name t,
        (made (clone base name t)).1 (
          t,
          n,
          inl (
            base,
            g,
            ap (λ (p : String × String). clone base p.0 t) (sym (named_tier_classes t v.0 v.1)),
          ),
        ),
        clone-IsCopy io "stornas-local" name t base g,
      );
  replicated_created = λ t v.
      let n = (names_tier-IsNamed_iff ps t).1 v in
      let (base, g) = (bases t n).1 in
      let name = "stornas-replicated" <> "-" <> t in
      (
        clone base name t,
        (made (clone base name t)).1 (
          t,
          n,
          inr (
            base,
            g,
            ap (λ (p : String × String). clone base p.1 t) (sym (named_tier_classes t v.0 v.1)),
          ),
        ),
        clone-IsCopy io "stornas-replicated" name t base g,
      );
  deletions = λ c. (
    λ i. let (j, (t, l, n)) = (gone c).0 i in (j, (t, l, (not-IsNamed ps t).0 n)),
    λ (j, (t, l, n)). (gone c).1 (j, (t, l, (not-IsNamed ps t).1 n)),
  );
}

-- A pass that ends without an error has read the pools and the labelled classes. Of each tier that a
-- pool names, other than the default, it creates a local and a replicated class, and it creates no
-- others. Each is named for the tier after the shipped class that was read, has its policy and its
-- parameters except for the tier, and carries the tier as its parameter and its label. The pass
-- deletes a class exactly if that is a listed one with the label of anything else than such a tier.
pub reconcile-IsExact :
    (io : Replies)
    → (reconcile io).1 ≡ none
    → (ps : List StoragePool) × (cs : List StorageClass) × (io.pools ≡ items ps)
      × (io.classes ≡ items cs)
      × IsExact io ps cs (reconcile io).0
reconcile-IsExact io h =
    let (ps, cs, p, q, v) = reconcile-IsAsked io h in
    (ps, cs, p, q, IsAsked-IsExact io ps cs (reconcile io).0 v)
