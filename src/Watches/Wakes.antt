-- ===== src/Watches/Wakes.antt =====
-- The mappers of operator/internal/controller reach whatever an event is about.
use stornas.Base.{
  String, ◌≡◌, refl, sym, ap, ◌∙◌, ◌↔◌, inl, inr, Bool, true, Option, none, some, List, [], ◌∷◌,
  ◌==◌, Bool-cases, eq_of_test, test_of_eq, any, select, In, here, there, subst,
}
use stornas.Kube.{ListReply, found, get_not_found, get_failed, GetReply}
use stornas.Claim.{Reader, ClaimRef, Pv, volume_claim}
use stornas.Target.{Target, Lun}
use stornas.Watches.{Request, listed, all_targets, uses_claim, targets_of_claim, volume_targets}

In-select {ℓ} :
    {A : Type ℓ} (p : A → Bool) (l : List A) (a : A) → In a l → p a ≡ true → In a (select p l)
In-select p [] a i h = elim i [ ]
In-select p (x ∷ xs) a (here e) h = rw (subst (λ y. p y ≡ true) e h) (here e)
In-select p (x ∷ xs) a (there i) h = elim (Bool-cases (p x)) [
  | inl e ↦ rw e (there (In-select p xs a i h))
  | inr e ↦ rw e (In-select p xs a i h)
]

select-In {ℓ} :
    {A : Type ℓ} (p : A → Bool) (l : List A) (a : A) → In a (select p l) → In a l × (p a ≡ true)
select-In p [] a i = elim i [ ]
select-In p (x ∷ xs) a i = elim (Bool-cases (p x)) [
  | inl e ↦ elim (rw e at i) [
    | here q ↦ (here q, subst (λ y. p y ≡ true) (sym q) e)
    | there j ↦ let (k, h) = select-In p xs a j in (there k, h)
  ]
  | inr e ↦ let (k, h) = select-In p xs a (rw e at i) in (there k, h)
]

In-all_targets :
    (l : List Target) (t : Target) → In t l → In (t.meta.namespace, t.meta.name) (all_targets l)
unfolding all_targets
In-all_targets [] t i = elim i [ ]
In-all_targets (x ∷ xs) t (here e) = here (ap (λ (y : Target). (y.meta.namespace, y.meta.name)) e)
In-all_targets (x ∷ xs) t (there i) = there (In-all_targets xs t i)

all_targets-In :
    (l : List Target) (r : Request)
    → In r (all_targets l)
    → (t : Target) × In t l × (r ≡ (t.meta.namespace, t.meta.name))
unfolding all_targets
all_targets-In [] r i = elim i [ ]
all_targets-In (x ∷ xs) r (here e) = (x, here refl, e)
all_targets-In (x ∷ xs) r (there i) = let (t, j, e) = all_targets-In xs r i in (t, there j, e)

any-In {ℓ} :
    {A : Type ℓ} (p : A → Bool) (l : List A) → any p l ≡ true → (a : A) × In a l × (p a ≡ true)
any-In p [] h = absurd (cc)
any-In p (x ∷ xs) h = elim (Bool-cases (p x)) [
  | inl e ↦ (x, here refl, e)
  | inr e ↦ let (a, i, q) = any-In p xs (rw e at h) in (a, there i, q)
]

any-of {ℓ} : {A : Type ℓ} (p : A → Bool) (l : List A) (a : A) → In a l → p a ≡ true → any p l ≡ true
any-of p [] a i h = elim i [ ]
any-of p (x ∷ xs) a (here e) h = rw (subst (λ y. p y ≡ true) e h) refl
any-of p (x ∷ xs) a (there i) h = elim (Bool-cases (p x)) [
  | inl e ↦ rw e refl
  | inr e ↦ rw e (any-of p xs a i h)
]

-- The volume event concerns the target: the PV of the volume's name is bound to a claim of the
-- target's list, and one of the target's LUNs is of that claim.
pub record Concerns (c : Reader) (list : String → ListReply Target) (volume : String) (t : Target)
    : Type 0 where
  pub pv : Pv
  pub claim : ClaimRef
  pub lun : Lun
  pub has_pv : c.get_pv volume ≡ found pv
  pub is_bound : pv.claim_ref ≡ some claim
  pub is_listed : In t (listed (list claim.namespace))
  pub has_lun : In lun t.spec.luns
  pub exposes : lun.claim_name ≡ claim.name

volume_claim_pv :
    (c : Reader) (volume : String) (claim : ClaimRef)
    → volume_claim c volume ≡ some claim
    → (pv : Pv) × (c.get_pv volume ≡ found pv) × (pv.claim_ref ≡ some claim)
unfolding volume_claim
volume_claim_pv c volume claim h = by_reply (c.get_pv volume) refl h
  where
    by_reply :
        (r : GetReply Pv)
        → c.get_pv volume ≡ r
        → (elim r [ found pv ↦ pv.claim_ref | get_not_found ↦ none | get_failed e ↦ none ])
          ≡ some claim
        → (pv : Pv) × (c.get_pv volume ≡ found pv) × (pv.claim_ref ≡ some claim)
    by_reply (found pv) e q = (pv, e, q)
    by_reply get_not_found e q = absurd (cc)
    by_reply (get_failed x) e q = absurd (cc)

targets_concerned :
    (c : Reader) (list : String → ListReply Target) (volume : String) (r : Request)
    (o : Option ClaimRef)
    → volume_claim c volume ≡ o
    → In r (targets_of_claim list o)
    → (t : Target) × Concerns c list volume t × (r ≡ (t.meta.namespace, t.meta.name))
unfolding targets_of_claim
targets_concerned c list volume r none e i = elim i [ ]
targets_concerned c list volume r (some claim) e i =
    let (t, j, q) =
      all_targets-In (select (uses_claim claim.name) (listed (list claim.namespace))) r i in
    let (k, u) = select-In (uses_claim claim.name) (listed (list claim.namespace)) t j in
    let (lun, l, n) = any-In (λ (x : Lun). x.claim_name == claim.name) t.spec.luns u in
    let (pv, g, b) = volume_claim_pv c volume claim e in
    (
      t,
      record {
        pv = pv;
        claim = claim;
        lun = lun;
        has_pv = g;
        is_bound = b;
        is_listed = k;
        has_lun = l;
        exposes = eq_of_test _ _ n;
      },
      q,
    )

volume_claim_of_pv :
    (c : Reader) (volume : String) (pv : Pv)
    → c.get_pv volume ≡ found pv
    → volume_claim c volume ≡ pv.claim_ref
unfolding volume_claim
volume_claim_of_pv c volume pv e = rw (e, volume_claim) refl

concerned_targets :
    (c : Reader) (list : String → ListReply Target) (volume : String) (t : Target)
    → Concerns c list volume t
    → In (t.meta.namespace, t.meta.name) (targets_of_claim list (volume_claim c volume))
unfolding targets_of_claim
concerned_targets c list volume t k =
    rw (volume_claim_of_pv c volume k.pv k.has_pv ∙ k.is_bound, targets_of_claim)
      (In-all_targets (select (uses_claim k.claim.name) (listed (list k.claim.namespace))) t (
        In-select (uses_claim k.claim.name) (listed (list k.claim.namespace)) t k.is_listed (
          any-of (λ (x : Lun). x.claim_name == k.claim.name) t.spec.luns k.lun k.has_lun
            (test_of_eq _ _ k.exposes))))

-- The event of a volume makes the controller look again at just the targets that it concerns, each by
-- its namespace and name: those of which a LUN is of the claim that the volume's PV is bound to.
pub volume_targets_iff :
    (c : Reader) (list : String → ListReply Target) (volume : String) (r : Request)
    → In r (volume_targets c list volume)
      ↔ ((t : Target) × Concerns c list volume t × (r ≡ (t.meta.namespace, t.meta.name)))
unfolding volume_targets
volume_targets_iff c list volume r = (
  targets_concerned c list volume r (volume_claim c volume) refl,
  λ (t, k, e).
      subst (λ (q : Request). In q (targets_of_claim list (volume_claim c volume))) (sym e)
        (concerned_targets c list volume t k),
)
