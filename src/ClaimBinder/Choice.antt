-- ===== src/ClaimBinder/Choice.antt =====
-- The node that `pickNode` picks.
use stornas.Base.{
  ℕ, ◌≤◌, String, ◌≡◌, refl, sym, ap, ◌∙◌, ◌≢◌, ◌↔◌, ◌⊎◌, inl, inr, Bool, true, false, List, [],
  ◌∷◌, arith, if◌then◌else◌, Bool-cases, test_of_eq, In, here, there, not-In_nil, if-both, subst,
}
use stornas.Kube.{GetReply, MetaLib}
use stornas.Nodes.{Node, Gone, gone, gone_failed, node_gone_or_unready}
use stornas.Claim.{Pvc}
use stornas.StoragePool.{StoragePool}
use stornas.ClaimBinder.{
  Replies, StorageClass, Room, pool_annotation, tier_or_default, value_of, put_room, sort_rooms,
  Live, live, live_failed, live_rooms, picked, pick_live, is_eligible, rooms_of, pick_among,
}
use stornas.ClaimBinder.Sorted.{IsFirst, sort-IsFirst, Has, put-In, put-Has, put-keeps-Has}

-- The node was read and is ready.
abbrev pub IsUp : (String → GetReply Node) → String → Type 0
IsUp get node = node_gone_or_unready (get node) ≡ gone false

-- One round of the loop over the nodes.
data Round (get : String → GetReply Node) (r : Room) (rest ls : List Room) : Type 0 where
  is_up : IsUp get r.node → ls ≡ r ∷ rest → Round get r rest ls
  is_down : ¬ (IsUp get r.node) → ls ≡ rest → Round get r rest ls

Gone-cases : (g : Gone) → ((e : String) × (g ≡ gone_failed e)) ⊎ ((b : Bool) × (g ≡ gone b))
Gone-cases (gone b) = inr (b, refl)
Gone-cases (gone_failed e) = inl (e, refl)

Live-cases : (l : Live) → ((e : String) × (l ≡ live_failed e)) ⊎ ((rs : List Room) × (l ≡ live rs))
Live-cases (live rs) = inr (rs, refl)
Live-cases (live_failed e) = inl (e, refl)

round :
    (get : String → GetReply Node) (r : Room) (rs ls : List Room)
    → live_rooms get (r ∷ rs) ≡ live ls
    → (rest : List Room) × (live_rooms get rs ≡ live rest) × Round get r rest ls
unfolding live_rooms
round get r rs ls h = elim (Gone-cases (node_gone_or_unready (get r.node))) [
  | inl (e, q) ↦ absurd (cc (rw (q, live_rooms) at h))
  | inr (b, q) ↦ elim (Live-cases (live_rooms get rs)) [
    | inl (e, f) ↦ absurd (cc (rw (q, f, live_rooms) at h))
    | inr (rest, f) ↦ elim (Bool-cases b) [
      | inl t ↦ let h' = rw (q, f, t, live_rooms) at h in (rest, f, is_down (λ up. cc) (cc))
      | inr t ↦ let h' = rw (q, f, t, live_rooms) at h in (rest, f, is_up (q ∙ ap gone t) (cc))
    ]
  ]
]

live-In_iff :
    (get : String → GetReply Node) (rs ls : List Room) (x : Room)
    → live_rooms get rs ≡ live ls
    → In x ls ↔ (In x rs × IsUp get x.node)
unfolding live_rooms
live-In_iff get [] ls x h =
    let e : ls ≡ [] = cc in (λ i. absurd (not-In_nil x ls e i), λ (i, u). elim i [ ])
live-In_iff get (r ∷ rs) ls x h =
    let (rest, f, w) = round get r rs ls h in
    let q = live-In_iff get rs rest x f in
    elim w [
      | is_up up e ↦ (
        λ i. elim (subst (In x) e i) [
          | here a ↦ (here a, subst (λ (y : Room). IsUp get y.node) (sym a) up)
          | there j ↦ (there (q.0 j).0, (q.0 j).1)
        ],
        λ (i, u). subst (In x) (sym e) (elim i [ here a ↦ here a | there j ↦ there (q.1 (j, u)) ]),
      )
      | is_down down e ↦ (
        λ i. let j = q.0 (subst (In x) e i) in (there j.0, j.1),
        λ (i, u). subst (In x) (sym e) (elim i [
          | here a ↦ absurd (down (subst (λ (y : Room). IsUp get y.node) a u))
          | there j ↦ q.1 (j, u)
        ]),
      )
    ]

list_cases : (rs : List Room) → (rs ≡ []) ⊎ ((r : Room) × (ss : List Room) × (rs ≡ r ∷ ss))
list_cases [] = inl refl
list_cases (r ∷ ss) = inr (r, ss, refl)

module _ (lib : MetaLib) (tier : String) where
  -- An eligible pool is on this node with this space.
  pub record Offers (pools : List StoragePool) (node : String) (free : ℕ) : Type 0 where
    pub pool : StoragePool
    pub listed : In pool pools
    pub eligible : is_eligible lib tier pool ≡ true
    pub on : pool.spec.node ≡ node
    pub space : value_of pool.status.free ≡ free

  Offers-more :
      (p : StoragePool) (ps : List StoragePool) (node : String) (free : ℕ)
      → Offers ps node free
      → Offers (p ∷ ps) node free
  Offers-more p ps node free o = record {
    pool = o.pool;
    listed = there o.listed;
    eligible = o.eligible;
    on = o.on;
    space = o.space;
  }

  rooms-Offers :
      (ps : List StoragePool) (rs : List Room) (x : Room)
      → In x (rooms_of lib tier ps rs)
      → In x rs ⊎ Offers ps x.node x.free
  unfolding rooms_of
  rooms-Offers [] rs x i = inl i
  rooms-Offers (p ∷ ps) rs x i = elim (Bool-cases (is_eligible lib tier p)) [
    | inr e ↦ elim (rooms-Offers ps rs x (rw (e, rooms_of) at i)) [
      | inl j ↦ inl j
      | inr o ↦ inr (Offers-more p ps x.node x.free o)
    ]
    | inl e ↦
        elim (rooms-Offers ps (put_room p.spec.node (value_of p.status.free) rs) x
          (rw (e, rooms_of) at i)) [
            | inr o ↦ inr (Offers-more p ps x.node x.free o)
            | inl j ↦ elim (put-In p.spec.node (value_of p.status.free) rs x j) [
              | inr k ↦ inl k
              | inl q ↦ inr (record {
                pool = p;
                listed = here refl;
                eligible = e;
                on = sym (ap (λ (y : Room). y.node) q);
                space = sym (ap (λ (y : Room). y.free) q);
              })
            ]
          ]
  ]

  rooms-keep-Has :
      (ps : List StoragePool) (rs : List Room) (m : String) (g : ℕ)
      → Has m g rs
      → Has m g (rooms_of lib tier ps rs)
  unfolding rooms_of
  rooms-keep-Has [] rs m g h = h
  rooms-keep-Has (p ∷ ps) rs m g h =
      rooms-keep-Has ps
        (if is_eligible lib tier p then put_room p.spec.node (value_of p.status.free) rs else rs) m
        g
        (if-both (Has m g) (is_eligible lib tier p)
          (put_room p.spec.node (value_of p.status.free) rs) rs
          (put-keeps-Has p.spec.node (value_of p.status.free) rs m g h) h)

  rooms-Has :
      (ps : List StoragePool) (rs : List Room) (q : StoragePool)
      → In q ps
      → is_eligible lib tier q ≡ true
      → Has q.spec.node (value_of q.status.free) (rooms_of lib tier ps rs)
  unfolding rooms_of
  rooms-Has [] rs q i e = elim i [ ]
  rooms-Has (p ∷ ps) rs q (there i) e = rooms-Has ps _ q i e
  rooms-Has (p ∷ ps) rs q (here s) e =
      let t : is_eligible lib tier p ≡ true =
        subst (λ (y : StoragePool). is_eligible lib tier y ≡ true) s e in
      subst
        (λ (y : StoragePool).
          Has y.spec.node (value_of y.status.free) (rooms_of lib tier (p ∷ ps) rs))
        (sym s)
        (rw (t, rooms_of)
          (rooms-keep-Has ps (put_room p.spec.node (value_of p.status.free) rs) p.spec.node
            (value_of p.status.free) (put-Has p.spec.node (value_of p.status.free) rs)))

  -- The node is up and has an eligible pool, and no eligible pool of a node that is up has more
  -- free space than this one.
  pub record IsRoomiest (get : String → GetReply Node) (pools : List StoragePool) (node : String)
      : Type 0 where
    pub free : ℕ
    pub offers : Offers pools node free
    pub up : IsUp get node
    pub most :
        (q : StoragePool)
        → In q pools
        → is_eligible lib tier q ≡ true
        → IsUp get q.spec.node
        → value_of q.status.free ≤ free

  first-IsRoomiest :
      (get : String → GetReply Node) (pools : List StoragePool) (ls : List Room) (r : Room)
      → live_rooms get (rooms_of lib tier pools []) ≡ live ls
      → IsFirst r ls
      → IsRoomiest get pools r.node
  first-IsRoomiest get pools ls r h f =
      let q = (live-In_iff get (rooms_of lib tier pools []) ls r h).0 f.listed in
      record {
        free = r.free;
        offers = elim (rooms-Offers pools [] r q.0) [
          | inl i ↦ absurd (not-In_nil r [] refl i)
          | inr o ↦ o
        ];
        up = q.1;
        most = λ p i e u.
            let has = rooms-Has pools [] p i e in
            let s =
              (live-In_iff get (rooms_of lib tier pools []) ls has.room h).1
                (has.listed, subst (IsUp get) (sym has.on) u) in
            omega (arith, has.enough, f.most has.room s);
      }

  pick_live_lem :
      (l : Live) (node : String)
      → pick_live l ≡ picked node
      → node ≢ ""
      → (ls : List Room) × (r : Room) × (l ≡ live ls) × IsFirst r ls × (r.node ≡ node)
  unfolding pick_live
  pick_live_lem (live_failed e) node h n = absurd (cc)
  pick_live_lem (live ls) node h n = elim (list_cases (sort_rooms ls)) [
    | inl e ↦ absurd (n (cc (rw e at h)))
    | inr (r, ss, e) ↦ let h' = rw e at h in (ls, r, refl, sort-IsFirst ls r ss e, (cc))
  ]

-- A claim without a pinned pool gets a node that is up and has an available pool of the tier of
-- the claim's class, and of all such pools on nodes that are up none has more free space than the
-- best of that node.
pub pick_among-IsRoomiest :
    (lib : MetaLib) (io : Replies) (pvc : Pvc) (sc : StorageClass) (pools : List StoragePool)
    (node : String)
    → pvc.annotation pool_annotation ≡ ""
    → pick_among lib io pvc sc pools ≡ picked node
    → node ≢ ""
    → IsRoomiest lib (tier_or_default sc.tier_parameter) io.get_node pools node
unfolding pick_among
pick_among-IsRoomiest lib io pvc sc pools node u h n =
    let tier = tier_or_default sc.tier_parameter in
    let h' = rw (test_of_eq (pvc.annotation pool_annotation) "" u, pick_among) at h in
    let (ls, r, e, f, s) =
      pick_live_lem lib tier (live_rooms io.get_node (rooms_of lib tier pools [])) node h' n in
    subst (IsRoomiest lib tier io.get_node pools) s
      (first-IsRoomiest lib tier io.get_node pools ls r e f)
