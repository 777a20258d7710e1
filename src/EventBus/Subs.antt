-- ===== src/EventBus/Subs.antt =====
-- The subscriptions of the bus (internal/eventbus/bus.go), by id, and the kinds by index.
use stornas.Base.{
  ℕ, ◌≡◌, refl, sym, ap, ◌∙◌, ◌⊎◌, inl, inr, true, false, Option, none, some, List, [], ◌∷◌, ◌++◌,
  arith, nat_eq, if◌then◌else◌, Bool-cases,
}
use stornas.EventBus.{
  Kind, pool_changed, node_changed, volume_changed, target_changed, share_changed, snapshot_changed,
  alert_changed, task_changed, same_kind, kind_index, Subscription, wake, wake_all, without, drain,
}

-- The subscription of an id.
abbrev pub sub_of : ℕ → List Subscription → Option Subscription
sub_of i [] = none
sub_of i (s ∷ ss) = if nat_eq s.id i then some s else sub_of i ss

sub_step :
    (i : ℕ) (s : Subscription) (ss : List Subscription) (x : Subscription)
    → sub_of i (s ∷ ss) ≡ some x
    → ((nat_eq s.id i ≡ true) × (s ≡ x)) ⊎ ((nat_eq s.id i ≡ false) × (sub_of i ss ≡ some x))
sub_step i s ss x h = elim (Bool-cases (nat_eq s.id i)) [
  | inl e ↦ let h' = rw e at h in inl (e, (cc))
  | inr e ↦ inr (e, rw e at h)
]

wake_id : (k : Kind) (s : Subscription) → (wake k s).id ≡ s.id
unfolding wake
wake_id k s = ground arith

pub sub_of-wake_all :
    (i : ℕ) (k : Kind) (ss : List Subscription) (x : Subscription)
    → sub_of i ss ≡ some x
    → sub_of i (wake_all k ss) ≡ some (wake k x)
unfolding wake_all
sub_of-wake_all i k [] x h = absurd (cc)
sub_of-wake_all i k (s ∷ ss) x h = elim (sub_step i s ss x h) [
  | inl (e, q) ↦ rw (ap (λ (n : ℕ). nat_eq n i) (wake_id k s) ∙ e) (ap some (ap (wake k) q))
  | inr (e, q) ↦ rw (ap (λ (n : ℕ). nat_eq n i) (wake_id k s) ∙ e) (sub_of-wake_all i k ss x q)
]

pub sub_of-append :
    (i : ℕ) (ss ts : List Subscription) (x : Subscription)
    → sub_of i ss ≡ some x
    → sub_of i (ss ++ ts) ≡ some x
sub_of-append i [] ts x h = absurd (cc)
sub_of-append i (s ∷ ss) ts x h = elim (sub_step i s ss x h) [
  | inl (e, q) ↦ rw e (ap some q)
  | inr (e, q) ↦ rw e (sub_of-append i ss ts x q)
]

same_id : (a b c : ℕ) → nat_eq a b ≡ true → nat_eq c b ≡ false → nat_eq a c ≡ false
same_id a b c h g = ground arith

pub sub_of-without :
    (i j : ℕ) (ss : List Subscription) (x : Subscription)
    → nat_eq j i ≡ false
    → sub_of i ss ≡ some x
    → sub_of i (without j ss) ≡ some x
unfolding without
sub_of-without i j [] x n h = absurd (cc)
sub_of-without i j (s ∷ ss) x n h = elim (sub_step i s ss x h) [
  | inl (e, q) ↦ rw (same_id s.id i j e n, without, e) (ap some q)
  | inr (e, q) ↦ elim (Bool-cases (nat_eq s.id j)) [
    | inl t ↦ rw (t, without) (sub_of-without i j ss x n q)
    | inr t ↦ rw (t, without, e) (sub_of-without i j ss x n q)
  ]
]

pub sub_of-drain :
    (i j : ℕ) (ss : List Subscription) (x : Subscription)
    → nat_eq j i ≡ false
    → sub_of i ss ≡ some x
    → sub_of i (drain j ss) ≡ some x
unfolding drain
sub_of-drain i j [] x n h = absurd (cc)
sub_of-drain i j (s ∷ ss) x n h = elim (sub_step i s ss x h) [
  | inl (e, q) ↦ rw (same_id s.id i j e n, drain, e) (ap some q)
  | inr (e, q) ↦ elim (Bool-cases (nat_eq s.id j)) [
    | inl t ↦ rw (t, drain, e) (sub_of-drain i j ss x n q)
    | inr t ↦ rw (t, drain, e) (sub_of-drain i j ss x n q)
  ]
]

pub wake_kinds : (k : Kind) (s : Subscription) → (wake k s).kinds ≡ s.kinds
unfolding wake
wake_kinds k s = elim (Bool-cases (s.kinds k)) [
  | inl e ↦ rw (e, wake) refl
  | inr e ↦ rw (e, wake) refl
]

pub wake_keeps : (k : Kind) (s : Subscription) → s.pending ≡ true → (wake k s).pending ≡ true
unfolding wake
wake_keeps k s h = ground arith

pub wake_pending : (k : Kind) (s : Subscription) → s.kinds k ≡ true → (wake k s).pending ≡ true
unfolding wake
wake_pending k s h = rw h refl

-- The consumer's own channel is empty once it has taken the wake.
pub sub_of-drain_self :
    (i : ℕ) (ss : List Subscription) (x : Subscription)
    → sub_of i ss ≡ some x
    → sub_of i (drain i ss) ≡ some (record x { pending = false })
unfolding drain
sub_of-drain_self i [] x h = absurd (cc)
sub_of-drain_self i (s ∷ ss) x h = elim (sub_step i s ss x h) [
  | inl (e, q) ↦ rw (e, drain, e) (ap (λ (y : Subscription). some (record y { pending = false })) q)
  | inr (e, q) ↦ rw (e, drain, e) (sub_of-drain_self i ss x q)
]

-- The kind of an index, so that the index tells the kinds apart.
abbrev kind_at : ℕ → Kind
kind_at n =
    if nat_eq n 0
    then pool_changed
    else if nat_eq n 1
    then node_changed
    else if nat_eq n 2
    then volume_changed
    else if nat_eq n 3
    then target_changed
    else if nat_eq n 4
    then share_changed
    else if nat_eq n 5
    then snapshot_changed
    else if nat_eq n 6
    then alert_changed
    else task_changed

kind_at-kind_index : (k : Kind) → kind_at (kind_index k) ≡ k
kind_at-kind_index pool_changed = refl
kind_at-kind_index node_changed = refl
kind_at-kind_index volume_changed = refl
kind_at-kind_index target_changed = refl
kind_at-kind_index share_changed = refl
kind_at-kind_index snapshot_changed = refl
kind_at-kind_index alert_changed = refl
kind_at-kind_index task_changed = refl

eq_of_nat_eq : (m n : ℕ) → nat_eq m n ≡ true → m ≡ n
eq_of_nat_eq m n h = ground arith

pub kind_of_index : (a b : Kind) → same_kind a b ≡ true → a ≡ b
kind_of_index a b h =
    sym (kind_at-kind_index a)
    ∙ ap kind_at (eq_of_nat_eq (kind_index a) (kind_index b) h)
    ∙ kind_at-kind_index b
