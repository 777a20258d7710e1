-- ===== src/ClaimBinder/Sorted.antt =====
-- What comes first in a sorted list, and what the map holds.
use stornas.Base.{
  ℕ, ◌≤◌, String, ◌≡◌, refl, sym, ap, ◌∙◌, ◌↔◌, ◌⊎◌, inl, inr, true, false, List, [], ◌∷◌, arith,
  ◌==◌, ltb, Bool-cases, eq_of_test, In, here, there, subst,
}
use stornas.ClaimBinder.{Room, put_room, goes_first, insert_room, sort_rooms}

-- The first has at least the space of every other.
pub record IsFirst (r : Room) (rs : List Room) : Type 0 where
  pub listed : In r rs
  pub most : (s : Room) → In s rs → s.free ≤ r.free

first_free : (a b : Room) → goes_first a b ≡ true → b.free ≤ a.free
unfolding goes_first
first_free a b h = ground arith

last_free : (a b : Room) → goes_first a b ≡ false → a.free ≤ b.free
unfolding goes_first
last_free a b h = ground arith

-- The first of a list has the most space of it.
abbrev Leads : List Room → Type 0
Leads [] = Unit
Leads (r ∷ rs) = (s : Room) → In s rs → s.free ≤ r.free

insert-ways :
    (r s : Room) (ss : List Room)
    → ((goes_first r s ≡ true) × (insert_room r (s ∷ ss) ≡ r ∷ s ∷ ss))
      ⊎ ((goes_first r s ≡ false) × (insert_room r (s ∷ ss) ≡ s ∷ insert_room r ss))
unfolding insert_room
insert-ways r s ss = ground arith

insert-In_iff : (r x : Room) (ss : List Room) → In x (insert_room r ss) ↔ ((x ≡ r) ⊎ In x ss)
unfolding insert_room
insert-In_iff r x [] = (
  λ i. elim i [ here e ↦ inl e | there j ↦ inr j ],
  λ o. elim o [ inl e ↦ here e | inr j ↦ there j ],
)
insert-In_iff r x (s ∷ ss) = elim (insert-ways r s ss) [
  | inl (g, e) ↦ (
    λ i. elim (subst (In x) e i) [ here q ↦ inl q | there j ↦ inr j ],
    λ o. subst (In x) (sym e) (elim o [ inl q ↦ here q | inr j ↦ there j ]),
  )
  | inr (g, e) ↦
      let q = insert-In_iff r x ss in
      (
        λ i. elim (subst (In x) e i) [
          | here a ↦ inr (here a)
          | there j ↦ elim (q.0 j) [ inl a ↦ inl a | inr k ↦ inr (there k) ]
        ],
        λ o. subst (In x) (sym e) (elim o [
          | inl a ↦ there (q.1 (inl a))
          | inr (here a) ↦ here a
          | inr (there k) ↦ there (q.1 (inr k))
        ]),
      )
]

insert-Leads : (r : Room) (ss : List Room) → Leads ss → Leads (insert_room r ss)
unfolding insert_room
insert-Leads r [] h = λ s i. elim i [ ]
insert-Leads r (s ∷ ss) h = elim (insert-ways r s ss) [
  | inl (g, e) ↦ subst Leads (sym e) (λ x i. elim i [
    | here a ↦ subst (λ (y : Room). y.free ≤ r.free) (sym a) (first_free r s g)
    | there j ↦ omega (arith, h x j, first_free r s g)
  ])
  | inr (g, e) ↦ subst Leads (sym e) (λ x i. elim ((insert-In_iff r x ss).0 i) [
    | inl a ↦ subst (λ (y : Room). y.free ≤ s.free) (sym a) (last_free r s g)
    | inr j ↦ h x j
  ])
]

sort-In_iff : (x : Room) (rs : List Room) → In x (sort_rooms rs) ↔ In x rs
unfolding sort_rooms
sort-In_iff x [] = (λ i. i, λ i. i)
sort-In_iff x (r ∷ rs) =
    let q = insert-In_iff r x (sort_rooms rs) in
    let s = sort-In_iff x rs in
    (
      λ i. elim (q.0 i) [ inl e ↦ here e | inr j ↦ there (s.0 j) ],
      λ i. elim i [ here e ↦ q.1 (inl e) | there j ↦ q.1 (inr (s.1 j)) ],
    )

sort-Leads : (rs : List Room) → Leads (sort_rooms rs)
unfolding sort_rooms
sort-Leads [] = tt
sort-Leads (r ∷ rs) = insert-Leads r (sort_rooms rs) (sort-Leads rs)

-- The head of the sorted list is first in the list.
pub sort-IsFirst :
    (rs : List Room) (r : Room) (ss : List Room) → sort_rooms rs ≡ r ∷ ss → IsFirst r rs
sort-IsFirst rs r ss e = record {
  listed = (sort-In_iff r rs).0 (subst (In r) (sym e) (here refl));
  most = λ s i. elim (subst (In s) e ((sort-In_iff s rs).1 i)) [
    | here a ↦ omega (arith, ap (λ (x : Room). x.free) a)
    | there j ↦ subst Leads e (sort-Leads rs) s j
  ];
}

-- A node has an entry with at least this space.
pub record Has (node : String) (f : ℕ) (rs : List Room) : Type 0 where
  pub room : Room
  pub listed : In room rs
  pub on : room.node ≡ node
  pub enough : f ≤ room.free

Has-more : (n : String) (f : ℕ) (r : Room) (rs : List Room) → Has n f rs → Has n f (r ∷ rs)
Has-more n f r rs h = record {
  room = h.room;
  listed = there h.listed;
  on = h.on;
  enough = h.enough;
}

Has-head :
    (n : String) (f : ℕ) (r : Room) (rs : List Room) → r.node ≡ n → f ≤ r.free → Has n f (r ∷ rs)
Has-head n f r rs e le = record { room = r; listed = here refl; on = e; enough = le }

-- What a write to the map does to its first entry.
data Put (n : String) (f : ℕ) (r : Room) (rs after : List Room) : Type 0 where
  raised : r.node ≡ n → r.free ≤ f → after ≡ record { node = n; free = f } ∷ rs → Put n f r rs after
  kept : r.node ≡ n → f ≤ r.free → after ≡ r ∷ rs → Put n f r rs after
  passed : after ≡ r ∷ put_room n f rs → Put n f r rs after

write_ways : (n : String) (f : ℕ) (r : Room) (rs : List Room) → Put n f r rs (put_room n f (r ∷ rs))
unfolding put_room
write_ways n f r rs = elim (Bool-cases (r.node == n)) [
  | inr e ↦ passed (ground arith)
  | inl e ↦ elim (Bool-cases (ltb r.free f)) [
    | inl l ↦ raised (eq_of_test r.node n e) (ground arith) (ground arith)
    | inr l ↦ kept (eq_of_test r.node n e) (ground arith) (ground arith)
  ]
]

pub put-In :
    (n : String) (f : ℕ) (rs : List Room) (x : Room)
    → In x (put_room n f rs)
    → (x ≡ record { node = n; free = f }) ⊎ In x rs
unfolding put_room
put-In n f [] x (here e) = inl e
put-In n f [] x (there i) = elim i [ ]
put-In n f (r ∷ rs) x i = elim (write_ways n f r rs) [
  | raised a b e ↦ elim (subst (In x) e i) [ here q ↦ inl q | there j ↦ inr (there j) ]
  | kept a b e ↦ inr (subst (In x) e i)
  | passed e ↦ elim (subst (In x) e i) [
    | here q ↦ inr (here q)
    | there j ↦ elim (put-In n f rs x j) [ inl q ↦ inl q | inr k ↦ inr (there k) ]
  ]
]

pub put-Has : (n : String) (f : ℕ) (rs : List Room) → Has n f (put_room n f rs)
unfolding put_room
put-Has n f [] = Has-head n f (record { node = n; free = f }) [] refl (omega arith)
put-Has n f (r ∷ rs) = elim (write_ways n f r rs) [
  | raised a b e ↦
      subst (Has n f) (sym e) (Has-head n f (record { node = n; free = f }) rs refl (omega arith))
  | kept a b e ↦ subst (Has n f) (sym e) (Has-head n f r rs a b)
  | passed e ↦ subst (Has n f) (sym e) (Has-more n f r (put_room n f rs) (put-Has n f rs))
]

pub put-keeps-Has :
    (n : String) (f : ℕ) (rs : List Room) (m : String) (g : ℕ)
    → Has m g rs
    → Has m g (put_room n f rs)
put-keeps-Has n f [] m g h = elim h.listed [ ]
put-keeps-Has n f (r ∷ rs) m g h = elim (write_ways n f r rs) [
  | raised a b e ↦ elim h.listed [
    | here q ↦ subst (Has m g) (sym e) (
        Has-head m g (record { node = n; free = f }) rs
          (sym a ∙ sym (ap (λ (x : Room). x.node) q) ∙ h.on)
          (omega (arith, h.enough, ap (λ (x : Room). x.free) q)))
    | there j ↦ subst (Has m g) (sym e) (
        Has-more m g (record { node = n; free = f }) rs
          (record { room = h.room; listed = j; on = h.on; enough = h.enough }))
  ]
  | kept a b e ↦ subst (Has m g) (sym e) h
  | passed e ↦ elim h.listed [
    | here q ↦ subst (Has m g) (sym e) (
        Has-head m g r (put_room n f rs) (sym (ap (λ (x : Room). x.node) q) ∙ h.on)
          (omega (arith, h.enough, ap (λ (x : Room). x.free) q)))
    | there j ↦ subst (Has m g) (sym e) (
        Has-more m g r (put_room n f rs) (
          put-keeps-Has n f rs m g
            (record { room = h.room; listed = j; on = h.on; enough = h.enough })))
  ]
]
