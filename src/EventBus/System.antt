-- ===== src/EventBus/System.antt =====
-- The steps of the publishers of the bus (internal/eventbus/bus.go) in any order, beside a consumer.
use stornas.Base.{
  ℕ, zero, suc, ◌≡◌, Bool, true, false, some, List, [], ◌∷◌, nat_eq, if◌then◌else◌, In,
}
use stornas.EventBus.{
  Kind, same_kind, Subscription, Bus, Stage, at_add, at_wake, publish_step, subscribe, cancel,
  receive,
}
use stornas.EventBus.Subs.{sub_of}

-- A call of `Publish` that was begun.
pub record Publisher : Type 0 where
  pub kind : Kind
  pub stage : Stage

-- The bus with its publishers, and one consumer: the versions that it read last, by kind, and of
-- which kinds it has not read the version since it last took a wake.
pub record System : Type 0 where
  pub bus : Bus
  pub publishers : List Publisher
  pub seen : Kind → ℕ
  pub due : Kind → Bool

-- A step of the publisher of a number.
unfoldable pub advance : ℕ → List Publisher → Bus → Bus × List Publisher
advance n [] b = (b, [])
advance zero (p ∷ ps) b =
    let (b', stage) = publish_step p.kind p.stage b in
    (b', record { kind = p.kind; stage = stage } ∷ ps)
advance (suc n) (p ∷ ps) b = let (b', qs) = advance n ps b in (b', p ∷ qs)

-- What others do, and then what the consumer does: it takes the wake, and reads the version of a kind.
pub data Event : Type 0 where
  begins : Kind → Event
  advances : ℕ → Event
  subscribes : (Kind → Bool) → Event
  cancels : ℕ → Event
  receives : ℕ → Event
  takes : Event
  reads : Kind → Event

-- One event, for the consumer of a subscription's id.
unfoldable pub step : ℕ → Event → System → System
step i (begins k) y = record y { publishers = record { kind = k; stage = at_add } ∷ y.publishers }
step i (advances n) y =
    let (b, ps) = advance n y.publishers y.bus in record y { bus = b; publishers = ps }
step i (subscribes kinds) y = record y { bus = (subscribe kinds y.bus).0 }
step i (cancels j) y = record y { bus = cancel j y.bus }
step i (receives j) y = record y { bus = receive j y.bus }
step i takes y = record y { bus = receive i y.bus; due = λ k. true }
step i (reads k) y = record y {
  seen = λ j. if same_kind k j then y.bus.versions j else y.seen j;
  due = λ j. if same_kind k j then false else y.due j;
}

-- The system after some events, the first one first.
unfoldable pub run : ℕ → List Event → System → System
run i [] y = y
run i (e ∷ es) y = run i es (step i e y)

-- Nobody else cancels the subscription, or takes its wakes.
abbrev pub IsFair : ℕ → Event → Type 0
IsFair i (begins k) = Unit
IsFair i (advances n) = Unit
IsFair i (subscribes kinds) = Unit
IsFair i (cancels j) = nat_eq j i ≡ false
IsFair i (receives j) = nat_eq j i ≡ false
IsFair i takes = Unit
IsFair i (reads k) = Unit

abbrev pub in_flight : Kind → Publisher
in_flight k = record { kind = k; stage = at_wake }

-- The consumer knows of the last version of a kind, or is bound to: its channel holds a wake, it has
-- still to read the version after the wake that it took, or a publisher of the kind has still to wake.
pub data Informed (i : ℕ) (k : Kind) (y : System) : Type 0 where
  woken : (s : Subscription) → sub_of i y.bus.subs ≡ some s → s.pending ≡ true → Informed i k y
  has_to_read : y.due k ≡ true → Informed i k y
  will_be_woken : In (in_flight k) y.publishers → Informed i k y
  is_current : y.seen k ≡ y.bus.versions k → Informed i k y

pub record IsServed (i : ℕ) (kinds : Kind → Bool) (y : System) : Type 0 where
  pub sub : Subscription
  pub listed : sub_of i y.bus.subs ≡ some sub
  pub same_kinds : sub.kinds ≡ kinds
  pub informed : (k : Kind) → kinds k ≡ true → Informed i k y
