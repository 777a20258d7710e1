-- ===== src/Replace/Plan.antt =====
-- What `planDevices` plans.
use stornas.Base.{
  String, ◌≡◌, refl, sym, ap, ◌∙◌, ◌≢◌, ◌↔◌, inl, inr, Bool, true, false, not, ◌&&◌, List, [], ◌∷◌,
  arith, ltb, Bool-cases, In, here, there, contains, subst,
}
use stornas.Replace.{
  Pv, DevicePlan, is_nil, is_empty, kernel_path, wanted, present, plan_members, absent_from,
  plan_devices,
}

-- A member of the VG that is there, is no device of the spec, and has extents or has none.
pub record IsLeaving (spec : List String) (resolved : String → String) (pvs : List Pv)
    (name : String) (full : Bool) : Type 0 where
  pub pv : Pv
  pub member : In pv pvs
  pub named : pv.name ≡ name
  pub there_now : pv.missing ≡ false
  pub unwanted : contains name (wanted resolved spec) ≡ false
  pub extents : ltb 0 pv.used_bytes ≡ full

module _ (spec : List String) (resolved : String → String) where
  IsLeaving-more :
      (pv : Pv) (pvs : List Pv) (name : String) (full : Bool)
      → IsLeaving spec resolved pvs name full
      → IsLeaving spec resolved (pv ∷ pvs) name full
  IsLeaving-more pv pvs name full l = record {
    pv = l.pv;
    member = there l.member;
    named = l.named;
    there_now = l.there_now;
    unwanted = l.unwanted;
    extents = l.extents;
  }

  IsLeaving-head :
      (pv : Pv) (pvs : List Pv) (name : String) (full : Bool)
      → pv.missing ≡ false
      → contains pv.name (wanted resolved spec) ≡ false
      → ltb 0 pv.used_bytes ≡ full
      → name ≡ pv.name
      → IsLeaving spec resolved (pv ∷ pvs) name full
  IsLeaving-head pv pvs name full m u e n = record {
    pv = pv;
    member = here refl;
    named = sym n;
    there_now = m;
    unwanted = subst (λ (s : String). contains s (wanted resolved spec) ≡ false) (sym n) u;
    extents = e;
  }

  -- The next member, by what it is.
  data Round (pv : Pv) (rest whole : DevicePlan) : Type 0 where
    is_missing : pv.missing ≡ true → whole ≡ record rest { missing = true } → Round pv rest whole
    stays :
        pv.missing ≡ false
        → contains pv.name (wanted resolved spec) ≡ true
        → whole ≡ rest
        → Round pv rest whole
    moves :
        pv.missing ≡ false
        → contains pv.name (wanted resolved spec) ≡ false
        → ltb 0 pv.used_bytes ≡ true
        → whole ≡ record rest { evacuate = pv.name ∷ rest.evacuate }
        → Round pv rest whole
    goes :
        pv.missing ≡ false
        → contains pv.name (wanted resolved spec) ≡ false
        → ltb 0 pv.used_bytes ≡ false
        → whole ≡ record rest { drop = pv.name ∷ rest.drop }
        → Round pv rest whole

  round :
      (pv : Pv) (pvs : List Pv)
      → Round pv
          (plan_members (wanted resolved spec) pvs)
          (plan_members (wanted resolved spec) (pv ∷ pvs))
  unfolding plan_members
  round pv pvs = elim (Bool-cases pv.missing) [
    | inl m ↦ is_missing m (ground arith)
    | inr m ↦ elim (Bool-cases (contains pv.name (wanted resolved spec))) [
      | inl c ↦ stays m c (ground arith)
      | inr c ↦ elim (Bool-cases (ltb 0 pv.used_bytes)) [
        | inl u ↦ moves m c u (ground arith)
        | inr u ↦ goes m c u (ground arith)
      ]
    ]
  ]

  drop-IsLeaving :
      (pvs : List Pv) (name : String)
      → In name (plan_members (wanted resolved spec) pvs).drop
      → IsLeaving spec resolved pvs name false
  unfolding plan_members
  drop-IsLeaving [] name i = elim i [ ]
  drop-IsLeaving (pv ∷ pvs) name i = elim (round pv pvs) [
    | is_missing m e ↦
        IsLeaving-more pv pvs name false
          (drop-IsLeaving pvs name (subst (λ (p : DevicePlan). In name p.drop) e i))
    | stays m c e ↦
        IsLeaving-more pv pvs name false
          (drop-IsLeaving pvs name (subst (λ (p : DevicePlan). In name p.drop) e i))
    | moves m c u e ↦
        IsLeaving-more pv pvs name false
          (drop-IsLeaving pvs name (subst (λ (p : DevicePlan). In name p.drop) e i))
    | goes m c u e ↦ elim (subst (λ (p : DevicePlan). In name p.drop) e i) [
      | here n ↦ IsLeaving-head pv pvs name false m c u n
      | there j ↦ IsLeaving-more pv pvs name false (drop-IsLeaving pvs name j)
    ]
  ]

  -- Every device that the plan drops is a member of the VG that is there, is no device of the
  -- spec, and has no extents.
  pub plan_drop-IsLeaving :
      (pvs : List Pv) (name : String)
      → In name (plan_devices spec resolved pvs).drop
      → IsLeaving spec resolved pvs name false
  unfolding plan_devices
  plan_drop-IsLeaving pvs name i = drop-IsLeaving pvs name i

  -- The VG has just the devices of the spec: no member is missing, each is wanted, and each device
  -- of the spec is a member.
  pub record IsConverged (pvs : List Pv) : Type 0 where
    pub all_there :
        (pv : Pv)
        → In pv pvs
        → (pv.missing ≡ false) × (contains pv.name (wanted resolved spec) ≡ true)
    pub all_joined :
        (dev : String) → In dev spec → contains (kernel_path resolved dev) (present pvs) ≡ true

  abbrev quiet : DevicePlan → Bool
  quiet p = is_nil p.evacuate && is_nil p.drop && not p.missing

  missing_head : (a b : Bool) → (a && b && false) ≢ true
  missing_head a b h = ground arith

  drop_head :
      (es : List String) (d : String) (ds : List String) (m : Bool)
      → (is_nil es && is_nil (d ∷ ds) && not m) ≢ true
  drop_head es d ds m h = ground arith

  quiet_head :
      (pv : Pv) (rest whole : DevicePlan)
      → Round pv rest whole
      → (quiet whole ≡ true) ↔ (
          (pv.missing ≡ false)
          × (contains pv.name (wanted resolved spec) ≡ true)
          × (quiet rest ≡ true))
  quiet_head pv rest whole (is_missing m e) = (
    λ h. absurd (
        missing_head (is_nil rest.evacuate) (is_nil rest.drop)
          (sym (ap (λ (p : DevicePlan). quiet p) e) ∙ h)),
    λ (a, b, c). absurd (cc),
  )
  quiet_head pv rest whole (stays m c e) = (
    λ h. (m, c, subst (λ (p : DevicePlan). quiet p ≡ true) e h),
    λ (a, b, q). ap (λ (p : DevicePlan). quiet p) e ∙ q,
  )
  quiet_head pv rest whole (moves m c u e) =
      (λ h. absurd (cc (ap (λ (p : DevicePlan). quiet p) e, h)), λ (a, b, q). absurd (cc))
  quiet_head pv rest whole (goes m c u e) = (
    λ h. absurd (
        drop_head rest.evacuate pv.name rest.drop rest.missing
          (sym (ap (λ (p : DevicePlan). quiet p) e) ∙ h)),
    λ (a, b, q). absurd (cc),
  )

  -- A loop finds nothing exactly when every element is as it should be.
  members_quiet :
      (pvs : List Pv)
      → (quiet (plan_members (wanted resolved spec) pvs) ≡ true) ↔ (
          (pv : Pv)
          → In pv pvs
          → (pv.missing ≡ false) × (contains pv.name (wanted resolved spec) ≡ true))
  unfolding plan_members
  members_quiet [] = (λ h pv i. elim i [ ], λ h. refl)
  members_quiet (pv ∷ pvs) =
      let q =
        quiet_head pv (plan_members (wanted resolved spec) pvs)
          (plan_members (wanted resolved spec) (pv ∷ pvs)) (round pv pvs) in
      (
        λ h x i.
            let (m, c, r) = q.0 h in
            elim i [
              | here e ↦
                  subst
                    (λ (y : Pv).
                      (y.missing ≡ false) × (contains y.name (wanted resolved spec) ≡ true))
                    (sym e) (m, c)
              | there j ↦ (members_quiet pvs).0 r x j
            ],
        λ f. q.1 (
          (f pv (here refl)).0,
          (f pv (here refl)).1,
          (members_quiet pvs).1 (λ x j. f x (there j)),
        ),
      )

  absent_round :
      (now : List String) (dev : String) (devs : List String)
      → (is_nil (absent_from now resolved (dev ∷ devs)) ≡ true) ↔ (
          (contains (kernel_path resolved dev) now ≡ true)
          × (is_nil (absent_from now resolved devs) ≡ true))
  unfolding absent_from
  absent_round now dev devs = (λ h. ground arith, λ (a, b). ground arith)

  absent_nil :
      (now devs : List String)
      → (is_nil (absent_from now resolved devs) ≡ true)
        ↔ ((dev : String) → In dev devs → contains (kernel_path resolved dev) now ≡ true)
  unfolding absent_from
  absent_nil now [] = (λ h dev i. elim i [ ], λ f. refl)
  absent_nil now (d ∷ devs) =
      let q = absent_round now d devs in
      (
        λ h dev i. elim i [
          | here e ↦
              subst (λ (x : String). contains (kernel_path resolved x) now ≡ true) (sym e) (q.0 h).0
          | there j ↦ (absent_nil now devs).0 (q.0 h).1 dev j
        ],
        λ f. q.1 (f d (here refl), (absent_nil now devs).1 (λ x j. f x (there j))),
      )

  -- The tests of `empty`, in the order in which the loops answer them.
  split_empty :
      (p : DevicePlan) (add : List String)
      → (is_empty (record p { add = add }) ≡ true) ↔ ((quiet p ≡ true) × (is_nil add ≡ true))
  unfolding is_empty
  split_empty p add = (λ h. ground arith, λ (a, b). ground arith)

  -- The plan is empty exactly when the VG has just the devices of the spec: no member is missing,
  -- every member is wanted, and every device of the spec has joined.
  pub plan_is_empty_iff :
      (pvs : List Pv) → (is_empty (plan_devices spec resolved pvs) ≡ true) ↔ IsConverged pvs
  unfolding plan_devices
  plan_is_empty_iff pvs =
      let q =
        split_empty (plan_members (wanted resolved spec) pvs)
          (absent_from (present pvs) resolved spec) in
      (
        λ h. record {
          all_there = (members_quiet pvs).0 (q.0 h).0;
          all_joined = (absent_nil (present pvs) spec).0 (q.0 h).1;
        },
        λ c.
            q.1 ((members_quiet pvs).1 c.all_there, (absent_nil (present pvs) spec).1 c.all_joined),
      )
