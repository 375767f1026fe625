-- ===== src/Events/Tests.antt =====
-- One subscription, and the theorems at such inputs.
use ai_modrator.Common.{◌≡◌, refl, true, false, some, [], ◌∷◌}
use ai_modrator.Common.Dict.{lookup, insert}
use ai_modrator.Events.Bus.{
  new_bus, named, event_class, subscribe, subscribe_all, unsubscribe, dispatch_local, append,
  extract_type_name, is_among,
}
use ai_modrator.Events.Delivery.{unsubscribe-subscribe, unsubscribe_class_misses}

delivered :
    dispatch_local "StreamConnected" (
      subscribe_all 9
        (subscribe (event_class (some "StreamConnected") "StreamConnectedEvent") 7 new_bus))
    ≡ 7 ∷ 9 ∷ []
unfolding dispatch_local subscribe subscribe_all extract_type_name append lookup insert
delivered = refl

unsubscribe-subscribe_example :
    let r = unsubscribe (named "a") 7 (subscribe (named "a") 7 new_bus) in
    (r.0 ≡ true) × (dispatch_local "a" r.1 ≡ dispatch_local "a" new_bus)
unfolding lookup is_among
unsubscribe-subscribe_example = unsubscribe-subscribe "a" 7 new_bus "a" refl

unsubscribe_class_misses_example :
    let t = event_class (some "StreamConnected") "StreamConnectedEvent" in
    let r = unsubscribe t 7 (subscribe t 7 new_bus) in
    (r.0 ≡ false)
    × (dispatch_local "StreamConnected" r.1
        ≡ dispatch_local "StreamConnected" (subscribe t 7 new_bus))
unfolding lookup is_among
unsubscribe_class_misses_example =
    unsubscribe_class_misses "StreamConnected" "StreamConnectedEvent" 7 new_bus refl refl
