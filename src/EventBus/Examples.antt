-- ===== src/EventBus/Examples.antt =====
-- Two subscribers, and a change of the volumes.
use stornas.Base.{◌≡◌, refl, Bool, true, false, some, List, [], ◌∷◌}
use stornas.EventBus.{
  Kind, volume_changed, pool_changed, same_kind, Subscription, Bus, new_bus, bump, wake, wake_all,
  returned, publish_step, publish, version, subscribe, without, cancel, drain, receive,
}
use stornas.EventBus.Subs.{sub_of}
use stornas.EventBus.System.{
  System, advance, Event, begins, advances, subscribes, cancels, receives, takes, reads, step, run,
  IsServed,
}
use stornas.EventBus.Wakes.{run-IsServed}

bus_runs : Unit {0}
unfolding bump wake wake_all publish_step publish version subscribe without cancel drain receive
    advance step run
bus_runs = tt

abbrev volumes_only : Kind → Bool
volumes_only k = same_kind k volume_changed

abbrev hub : Subscription
hub = record { id = 0; kinds = volumes_only; pending = false }

abbrev bus : Bus
bus = (subscribe volumes_only new_bus).0

listed : sub_of 0 bus.subs ≡ some hub
unfolding bus_runs
listed = refl

-- Two changes of the volumes are one pending wake, and two versions.
coalesces :
    let b = publish volume_changed (publish pool_changed (publish volume_changed bus)) in
    (sub_of 0 b.subs ≡ some (record hub { pending = true }))
    × (version (volume_changed ∷ pool_changed ∷ []) b ≡ 3)
unfolding bus_runs
coalesces = (refl, refl)

abbrev start : System
start = record { bus = bus; publishers = []; seen = λ k. 0; due = λ k. true }

-- The consumer reads between the two steps of a publisher, which then wakes it.
abbrev events : List Event
events =
    begins volume_changed
    ∷ subscribes (λ k. true)
    ∷ reads volume_changed
    ∷ advances 0
    ∷ advances 0
    ∷ receives 1
    ∷ cancels 1
    ∷ takes
    ∷ reads volume_changed
    ∷ []

catches_up :
    ((run 0 events start).seen volume_changed ≡ 1)
    × ((run 0 events start).bus.versions volume_changed ≡ 1)
    × ((run 0 events start).due volume_changed ≡ false)
    × ((run 0 events start).publishers ≡ record { kind = volume_changed; stage = returned } ∷ [])
unfolding bus_runs
catches_up = (refl, refl, refl, refl)

run-IsServed_example : IsServed 0 volumes_only (run 0 events start)
run-IsServed_example =
    run-IsServed 0 hub events start (tt, (tt, (tt, (tt, (tt, (refl, (refl, (tt, (tt, tt)))))))))
      listed (λ k g. refl)
