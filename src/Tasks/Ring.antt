-- ===== src/Tasks/Ring.antt =====
-- The ring of internal/tasks/tasks.go is the end of the history of operations.
use stornas.Base.{
  ℕ, zero, suc, ◌≤◌, ◌≡◌, refl, sym, ap, ◌∙◌, inl, inr, List, [], ◌∷◌, arith, ltb, Bool-cases,
  length, take, length-take_le,
}
use stornas.EventBus.{Bus}
use stornas.Tasks.{ops_cap, Op, Merge, Feed, new_feed, cut_ring, record_op, record_merge}

-- What happens to a feed.
pub data Event : Type 0 where
  does_op : Op → Event
  merges_at : ℕ → Merge → Event

pub run_event : Event → Feed → Feed
run_event (does_op op) f = record_op op f
run_event (merges_at now m) f = record_merge now m f

-- Events, the last one first.
unfoldable pub run_events : List Event → Feed → Feed
run_events [] f = f
run_events (e ∷ es) f = run_event e (run_events es f)

-- The operations of a history, the last one first.
unfoldable pub history : List Event → List Op
history [] = []
history (does_op op ∷ es) = op ∷ history es
history (merges_at now m ∷ es) = history es

take_of_short {ℓ} : {A : Type ℓ} (n : ℕ) (xs : List A) → length xs ≤ n → take n xs ≡ xs
take_of_short zero [] h = refl
take_of_short zero (x ∷ xs) h = absurd (omega arith)
take_of_short (suc n) [] h = refl
take_of_short (suc n) (x ∷ xs) h = ap (λ ys. x ∷ ys) (take_of_short n xs (omega arith))

take_twice {ℓ} : {A : Type ℓ} (n : ℕ) (xs : List A) → take n (take (suc n) xs) ≡ take n xs
take_twice zero xs = refl
take_twice (suc n) [] = refl
take_twice (suc n) (x ∷ xs) = ap (λ ys. x ∷ ys) (take_twice n xs)

take_again {ℓ} :
    {A : Type ℓ} (n : ℕ) (x : A) (xs : List A) → take n (x ∷ take n xs) ≡ take n (x ∷ xs)
take_again zero x xs = refl
take_again (suc n) x xs = ap (λ ys. x ∷ ys) (take_twice n xs)

cut_ring-take : (cap : ℕ) (ops : List Op) → cut_ring cap ops ≡ take cap ops
unfolding cut_ring
cut_ring-take cap ops = elim (Bool-cases (ltb cap (length ops))) [
  | inl e ↦ rw e refl
  | inr e ↦ rw e (sym (take_of_short cap ops (ground arith)))
]

record_op-history :
    (op : Op) (f : Feed) (h : List Op)
    → f.ops ≡ take ops_cap h
    → (record_op op f).ops ≡ take ops_cap (op ∷ h)
unfolding record_op
record_op-history op f h e =
    cut_ring-take ops_cap (op ∷ f.ops)
    ∙ ap (λ (l : List Op). take ops_cap (op ∷ l)) e
    ∙ take_again ops_cap op h

run_events-history :
    (bus : Bus) (events : List Event)
    → (run_events events (new_feed bus)).ops ≡ take ops_cap (history events)
unfolding run_events run_event history record_merge
run_events-history bus [] = refl
run_events-history bus (does_op op ∷ es) =
    record_op-history op (run_events es (new_feed bus)) (history es) (run_events-history bus es)
run_events-history bus (merges_at now m ∷ es) = run_events-history bus es

-- However operations and merges are recorded in turn, the ring holds just the last 100 operations,
-- the newest first, and so never more than 100.
pub ops-history :
    (bus : Bus) (events : List Event)
    → ((run_events events (new_feed bus)).ops ≡ take ops_cap (history events))
      × (length (run_events events (new_feed bus)).ops ≤ ops_cap)
ops-history bus events =
    let e = run_events-history bus events in (e, rw e (length-take_le ops_cap (history events)))
