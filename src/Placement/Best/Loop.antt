-- ===== src/Placement/Best/Loop.antt =====
-- The loops of `ResolvePlacement`: what `pick_from` returns, and which candidates there are.
use stornas.Base.{
  ◌≤◌, String, ◌≡◌, refl, ap, ◌≢◌, ◌⊎◌, inl, inr, Bool, true, false, Option, none, some, List, [],
  ◌∷◌, arith, ltb, if◌then◌else◌, Bool-cases, In, here, there,
}
use stornas.Volume.{Volume, ReplicaStatus}
use stornas.Placement.{Candidate, candidate_of, candidates, is_candidate, pick_from, score, beats}

-- What the loop holds after one round.
abbrev held : String → (String → Bool) → Option Candidate → Candidate → Option Candidate
held prefer avoid best c =
    if avoid c.node then best else if beats prefer c best then some c else best

module _ (prefer : String) (avoid : String → Bool) where
  pub pick_sound :
      (best : Option Candidate) (cs : List Candidate) (c : Candidate)
      → pick_from prefer avoid best cs ≡ some c
      → (best ≡ some c) ⊎ (In c cs × (avoid c.node ≡ false))
  unfolding pick_from
  pick_sound best [] c h = inl h
  pick_sound best (d ∷ ds) c h =
      split (pick_sound (held prefer avoid best d) ds c h) (Bool-cases (avoid d.node))
        (Bool-cases (beats prefer d best))
    where
      split :
          (held prefer avoid best d ≡ some c) ⊎ (In c ds × (avoid c.node ≡ false))
          → (avoid d.node ≡ true) ⊎ (avoid d.node ≡ false)
          → (beats prefer d best ≡ true) ⊎ (beats prefer d best ≡ false)
          → (best ≡ some c) ⊎ (In c (d ∷ ds) × (avoid c.node ≡ false))
      split (inr (i, a)) x y = inr (there i, a)
      split (inl e) (inl x) y = inl (rw x at e)
      split (inl e) (inr x) (inr y) = inl (rw (x, y) at e)
      split (inl e) (inr x) (inl y) =
          let q : some d ≡ some c = rw (x, y) at e in inr (here (cc), cc)

  -- What the loop holds never loses to what it held.
  held_grows :
      (best : Option Candidate) (b c : Candidate)
      → best ≡ some b
      → (d : Candidate) × (held prefer avoid best c ≡ some d) × (score prefer b ≤ score prefer d)
  unfolding beats
  held_grows best b c h = elim (Bool-cases (avoid c.node)) [
    | inl x ↦ (b, rw x h, omega arith)
    | inr x ↦ elim (Bool-cases (ltb (score prefer b) (score prefer c))) [
      | inl y ↦ (c, rw (x, h, y) refl, ground arith)
      | inr y ↦ (b, rw (x, h, y) refl, omega arith)
    ]
  ]

  pub pick_grows :
      (best : Option Candidate) (cs : List Candidate) (c b : Candidate)
      → pick_from prefer avoid best cs ≡ some c
      → best ≡ some b
      → score prefer b ≤ score prefer c
  unfolding pick_from
  pick_grows best [] c b h e = ground arith
  pick_grows best (d ∷ ds) c b h e =
      let (n, en, le) = held_grows best b d e in
      omega (arith, pick_grows (held prefer avoid best d) ds c n h en)

  -- An allowed candidate is not better than what the loop holds after it.
  held_above :
      (best : Option Candidate) (c : Candidate)
      → avoid c.node ≡ false
      → (d : Candidate) × (held prefer avoid best c ≡ some d) × (score prefer c ≤ score prefer d)
  unfolding beats
  held_above none c x = (c, rw x refl, omega arith)
  held_above (some b) c x = elim (Bool-cases (ltb (score prefer b) (score prefer c))) [
    | inl y ↦ (c, rw (x, y) refl, omega arith)
    | inr y ↦ (b, rw (x, y) refl, ground arith)
  ]

  pub pick_best :
      (best : Option Candidate) (cs : List Candidate) (c : Candidate)
      → pick_from prefer avoid best cs ≡ some c
      → (o : Candidate) → In o cs
      → avoid o.node ≡ false
      → score prefer o ≤ score prefer c
  unfolding pick_from
  pick_best best [] c h o i a = elim i [ ]
  pick_best best (d ∷ ds) c h o (here e) a =
      let (n, en, le) = held_above best d (rw (ap (λ (k : Candidate). avoid k.node) e) at a) in
      omega (arith, pick_grows (held prefer avoid best d) ds c n h en, ap (score prefer) e)
  pick_best best (d ∷ ds) c h o (there i) a = pick_best (held prefer avoid best d) ds c h o i a

  pick_some :
      (best : Option Candidate) (cs : List Candidate) (b : Candidate)
      → best ≡ some b
      → pick_from prefer avoid best cs ≢ none
  unfolding pick_from
  pick_some best [] b e h = cc
  pick_some best (d ∷ ds) b e h =
      let (n, en, le) = held_grows best b d e in pick_some (held prefer avoid best d) ds n en h

  pub pick_none :
      (best : Option Candidate) (cs : List Candidate)
      → pick_from prefer avoid best cs ≡ none
      → (o : Candidate) → In o cs
      → avoid o.node ≡ true
  unfolding pick_from
  pick_none best [] h o i = elim i [ ]
  pick_none best (d ∷ ds) h o (there i) = pick_none (held prefer avoid best d) ds h o i
  pick_none best (d ∷ ds) h o (here e) = elim (Bool-cases (avoid o.node)) [
    | inl y ↦ y
    | inr y ↦
        let (n, en, le) = held_above best d (rw (ap (λ (k : Candidate). avoid k.node) e) at y) in
        absurd (pick_some (held prefer avoid best d) ds n en h)
  ]

-- A candidate comes from a replica that passes the test.
abbrev pub From : Volume → List ReplicaStatus → Candidate → Type 0
From v rs c = (r : ReplicaStatus) × In r rs × (is_candidate v r ≡ true) × (c ≡ candidate_of v r)

From-cons :
    (v : Volume) (q : ReplicaStatus) (rs : List ReplicaStatus) (c : Candidate)
    → From v rs c
    → From v (q ∷ rs) c
From-cons v q rs c (r, i, t, e) = (r, there i, t, e)

From-head :
    (v : Volume) (q : ReplicaStatus) (rs : List ReplicaStatus) (c : Candidate)
    → is_candidate v q ≡ true
    → In c (candidate_of v q ∷ candidates v rs)
    → (In c (candidates v rs) → From v rs c)
    → From v (q ∷ rs) c
From-head v q rs c t (here e) rest = (q, here refl, t, e)
From-head v q rs c t (there i) rest = From-cons v q rs c (rest i)

pub In-candidates :
    (v : Volume) (rs : List ReplicaStatus) (c : Candidate) → In c (candidates v rs) → From v rs c
unfolding candidates
In-candidates v [] c i = elim i [ ]
In-candidates v (r ∷ rs) c i = elim (Bool-cases (is_candidate v r)) [
  | inl t ↦ From-head v r rs c t (rw t at i) (In-candidates v rs c)
  | inr f ↦ From-cons v r rs c (In-candidates v rs c (rw f at i))
]

pub candidates-In :
    (v : Volume) (rs : List ReplicaStatus) (r : ReplicaStatus)
    → In r rs
    → is_candidate v r ≡ true
    → In (candidate_of v r) (candidates v rs)
unfolding candidates
candidates-In v [] r i t = elim i [ ]
candidates-In v (q ∷ rs) r (here e) t = rw (← e, t) (here refl)
candidates-In v (q ∷ rs) r (there i) t = elim (Bool-cases (is_candidate v q)) [
  | inl y ↦ rw y (there (candidates-In v rs r i t))
  | inr y ↦ rw y (candidates-In v rs r i t)
]
