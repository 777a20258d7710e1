-- ===== src/EventBus/Wakes.antt =====
-- No wake is lost, wherever the steps of the publishers (internal/eventbus/bus.go) fall.
use stornas.Base.{
  ℕ, zero, suc, ◌≡◌, refl, sym, ap, ◌∙◌, ◌⊎◌, inl, inr, Bool, true, false, some, List, [], ◌∷◌,
  Bool-cases, All, In, here, there, subst,
}
use stornas.EventBus.{
  Kind, pool_changed, same_kind, Subscription, Bus, bump, wake, Stage, at_add, at_wake, returned,
  publish_step, subscribe, cancel, receive,
}
use stornas.EventBus.Subs.{
  sub_of, sub_of-wake_all, sub_of-append, sub_of-without, sub_of-drain, sub_of-drain_self,
  wake_kinds, wake_keeps, wake_pending, kind_of_index,
}
use stornas.EventBus.System.{
  Publisher, System, advance, Event, begins, advances, subscribes, cancels, receives, takes, reads,
  step, run, IsFair, in_flight, Informed, woken, has_to_read, will_be_woken, is_current, IsServed,
}

-- What a step of a publisher leaves of a subscription.
record Turn (i : ℕ) (k : Kind) (s : Subscription) (ps : List Publisher) (b : Bus)
    (r : Bus × List Publisher) : Type 0 where
  sub : Subscription
  listed : sub_of i r.0.subs ≡ some sub
  same_kinds : sub.kinds ≡ s.kinds
  keeps : s.pending ≡ true → sub.pending ≡ true
  wakes : s.kinds k ≡ true → In (in_flight k) ps → In (in_flight k) r.1 ⊎ (sub.pending ≡ true)
  moves : In (in_flight k) r.1 ⊎ (r.0.versions k ≡ b.versions k)

stage-Turn :
    (i : ℕ) (k j : Kind) (stage : Stage) (s : Subscription) (ps : List Publisher) (b : Bus)
    → sub_of i b.subs ≡ some s
    → Turn i k s
        (record { kind = j; stage = stage } ∷ ps)
        b
        (advance 0 (record { kind = j; stage = stage } ∷ ps) b)
unfolding advance publish_step bump
stage-Turn i k j at_add s ps b h = record {
  sub = s;
  listed = h;
  same_kinds = refl;
  keeps = λ p. p;
  wakes = λ g m. elim m [ here e ↦ absurd (cc (ap Publisher.stage e)) | there q ↦ inl (there q) ];
  moves = elim (Bool-cases (same_kind j k)) [
    | inl e ↦ inl (here (ap in_flight (sym (kind_of_index j k e))))
    | inr e ↦ inr (rw e refl)
  ];
}
stage-Turn i k j at_wake s ps b h = record {
  sub = wake j s;
  listed = sub_of-wake_all i j b.subs s h;
  same_kinds = wake_kinds j s;
  keeps = wake_keeps j s;
  wakes = λ g m. elim m [
    | here e ↦ inr (wake_pending j s (subst (λ x. s.kinds x ≡ true) (ap Publisher.kind e) g))
    | there q ↦ inl (there q)
  ];
  moves = inr refl;
}
stage-Turn i k j returned s ps b h = record {
  sub = s;
  listed = h;
  same_kinds = refl;
  keeps = λ p. p;
  wakes = λ g m. elim m [ here e ↦ absurd (cc (ap Publisher.stage e)) | there q ↦ inl (there q) ];
  moves = inr refl;
}

advance-Turn :
    (i : ℕ) (k : Kind) (n : ℕ) (s : Subscription) (ps : List Publisher) (b : Bus)
    → sub_of i b.subs ≡ some s
    → Turn i k s ps b (advance n ps b)
unfolding advance
advance-Turn i k n s [] b h = record {
  sub = s;
  listed = h;
  same_kinds = refl;
  keeps = λ p. p;
  wakes = λ g m. inl m;
  moves = inr refl;
}
advance-Turn i k zero s (p ∷ ps) b h = stage-Turn i k p.kind p.stage s ps b h
advance-Turn i k (suc n) s (p ∷ ps) b h =
    let t = advance-Turn i k n s ps b h in
    record {
      sub = t.sub;
      listed = t.listed;
      same_kinds = t.same_kinds;
      keeps = t.keeps;
      wakes = λ g m. elim m [
        | here e ↦ inl (here e)
        | there q ↦ elim (t.wakes g q) [ inl x ↦ inl (there x) | inr x ↦ inr x ]
      ];
      moves = elim t.moves [ inl x ↦ inl (there x) | inr x ↦ inr x ];
    }

-- A step that leaves the consumer's reads and the publishers, and of the bus the versions.
bus-IsServed :
    (i : ℕ) (kinds : Kind → Bool) (y : System) (b : Bus) (v : IsServed i kinds y)
    → sub_of i b.subs ≡ some v.sub
    → b.versions ≡ y.bus.versions
    → IsServed i kinds (record y { bus = b })
bus-IsServed i kinds y b v h e = record {
  sub = v.sub;
  listed = h;
  same_kinds = v.same_kinds;
  informed = λ k g. elim (v.informed k g) [
    | woken s l p ↦
        woken v.sub h
          (subst (λ (x : Subscription). x.pending ≡ true) (some_equal _ _ (sym l ∙ v.listed)) p)
    | has_to_read d ↦ has_to_read d
    | will_be_woken m ↦ will_be_woken m
    | is_current q ↦ is_current (q ∙ ap (λ (f : Kind → ℕ). f k) (sym e))
  ];
}
  where
    some_equal : (a b : Subscription) → some a ≡ some b → a ≡ b
    some_equal a b q = cc

advance-IsServed :
    (i n : ℕ) (kinds : Kind → Bool) (y : System)
    → IsServed i kinds y
    → IsServed i kinds (step i (advances n) y)
unfolding step
advance-IsServed i n kinds y v =
    let t = λ (k : Kind). advance-Turn i k n v.sub y.publishers y.bus v.listed in
    record {
      sub = (t pool_changed).sub;
      listed = (t pool_changed).listed;
      same_kinds = (t pool_changed).same_kinds ∙ v.same_kinds;
      informed = λ k g. after k g (t k) (v.informed k g);
    }
  where
    some_equal : (a b : Subscription) → some a ≡ some b → a ≡ b
    some_equal a b q = cc

    after :
        (k : Kind)
        → kinds k ≡ true
        → Turn i k v.sub y.publishers y.bus (advance n y.publishers y.bus)
        → Informed i k y
        → Informed i k (step i (advances n) y)
    after k g t (woken s l p) = woken t.sub t.listed (
        t.keeps
          (subst (λ (x : Subscription). x.pending ≡ true) (some_equal _ _ (sym l ∙ v.listed)) p))
    after k g t (has_to_read d) = has_to_read d
    after k g t (will_be_woken m) =
        elim (t.wakes (subst (λ (f : Kind → Bool). f k ≡ true) (sym v.same_kinds) g) m) [
          | inl x ↦ will_be_woken x
          | inr p ↦ woken t.sub t.listed p
        ]
    after k g t (is_current q) = elim t.moves [
      | inl x ↦ will_be_woken x
      | inr e ↦ is_current (q ∙ sym e)
    ]

read-Informed :
    (i : ℕ) (k j : Kind) (y : System) → Informed i k y → Informed i k (step i (reads j) y)
unfolding step
read-Informed i k j y v = elim (Bool-cases (same_kind j k)) [
  | inl e ↦ is_current (rw e refl)
  | inr e ↦ elim v [
    | woken s l p ↦ woken s l p
    | has_to_read d ↦ has_to_read (rw e d)
    | will_be_woken m ↦ will_be_woken m
    | is_current q ↦ is_current (rw e q)
  ]
]

begin-Informed :
    (i : ℕ) (k j : Kind) (y : System) → Informed i k y → Informed i k (step i (begins j) y)
unfolding step
begin-Informed i k j y (woken s l p) = woken s l p
begin-Informed i k j y (has_to_read d) = has_to_read d
begin-Informed i k j y (will_be_woken m) = will_be_woken (there m)
begin-Informed i k j y (is_current q) = is_current q

step-IsServed :
    (i : ℕ) (kinds : Kind → Bool) (e : Event) (y : System)
    → IsFair i e
    → IsServed i kinds y
    → IsServed i kinds (step i e y)
unfolding step subscribe cancel receive
step-IsServed i kinds (begins j) y o v = record {
  sub = v.sub;
  listed = v.listed;
  same_kinds = v.same_kinds;
  informed = λ k g. begin-Informed i k j y (v.informed k g);
}
step-IsServed i kinds (advances n) y o v = advance-IsServed i n kinds y v
step-IsServed i kinds (subscribes ks) y o v =
    bus-IsServed i kinds y (subscribe ks y.bus).0 v
      (sub_of-append i y.bus.subs (record { id = y.bus.next_id; kinds = ks; pending = false } ∷ [])
        v.sub v.listed)
      refl
step-IsServed i kinds (cancels j) y o v =
    bus-IsServed i kinds y (cancel j y.bus) v (sub_of-without i j y.bus.subs v.sub o v.listed) refl
step-IsServed i kinds (receives j) y o v =
    bus-IsServed i kinds y (receive j y.bus) v (sub_of-drain i j y.bus.subs v.sub o v.listed) refl
step-IsServed i kinds takes y o v = record {
  sub = record v.sub { pending = false };
  listed = sub_of-drain_self i y.bus.subs v.sub v.listed;
  same_kinds = v.same_kinds;
  informed = λ k g. has_to_read refl;
}
step-IsServed i kinds (reads j) y o v = record {
  sub = v.sub;
  listed = v.listed;
  same_kinds = v.same_kinds;
  informed = λ k g. read-Informed i k j y (v.informed k g);
}

-- A consumer that has subscribed and not read yet is served, and stays so over any events: others
-- begin to publish, take single steps of `Publish` in any order, subscribe, cancel and take their own
-- wakes; the consumer takes its wake, and reads the version of a kind. So at any time, of each of its
-- kinds, either its channel holds a wake, or it has not read the version since it last took one, or a
-- publisher has added to the version and not woken yet, or the version that it read last is the
-- version of the bus.
pub run-IsServed :
    (i : ℕ) (s : Subscription) (es : List Event) (y : System)
    → All (IsFair i) es
    → sub_of i y.bus.subs ≡ some s
    → ((k : Kind) → s.kinds k ≡ true → y.due k ≡ true)
    → IsServed i s.kinds (run i es y)
unfolding run
run-IsServed i s es y o h d =
    go es y o
      (record { sub = s; listed = h; same_kinds = refl; informed = λ k g. has_to_read (d k g) })
  where
    go :
        (l : List Event) (x : System)
        → All (IsFair i) l
        → IsServed i s.kinds x
        → IsServed i s.kinds (run i l x)
    go [] x p v = v
    go (e ∷ l) x p v = go l (step i e x) p.1 (step-IsServed i s.kinds e x p.0 v)
