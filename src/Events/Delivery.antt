-- ===== src/Events/Delivery.antt =====
-- Who gets the events of app/events/bus.py after a subscription and its end.
use ai_modrator.Common.{
  String, ◌≡◌, refl, true, false, ◌||◌, List, [], ◌∷◌, str_eq, eq_iff, arith, some,
}
use ai_modrator.Common.Dict.{lookup, insert, lookup-insert}
use ai_modrator.Events.Bus.{
  EventHandler, named, event_class, EventBus, or_nobody, append, subscribe, is_among, remove_first,
  unsubscribe, unsubscribe_name, extract_type_name, dispatch_local,
}

is_among-append :
    (h : EventHandler) (hs ks : List EventHandler)
    → is_among h (append hs ks) ≡ (is_among h hs || is_among h ks)
unfolding is_among append
is_among-append h [] ks = refl
is_among-append h (k ∷ hs) ks = ground (arith, is_among-append h hs ks)

remove_first-append :
    (h : EventHandler) (hs : List EventHandler)
    → is_among h hs ≡ false
    → remove_first h (append hs (h ∷ [])) ≡ hs
unfolding is_among append remove_first
remove_first-append h [] e = ground arith
remove_first-append h (k ∷ hs) e = ground (arith, e, remove_first-append h hs)

-- If a handler is not subscribed to a topic, then subscribing it by the topic's name and
-- unsubscribing it by that name succeeds and leaves the deliveries of every topic as they were.
pub unsubscribe-subscribe :
    (n : String) (h : EventHandler) (b : EventBus) (m : String)
    → is_among h (or_nobody (lookup n b.subscribers)) ≡ false
    → let r = unsubscribe (named n) h (subscribe (named n) h b) in
      (r.0 ≡ true) × (dispatch_local m r.1 ≡ dispatch_local m b)
unfolding unsubscribe subscribe dispatch_local extract_type_name unsubscribe_name is_among
unsubscribe-subscribe n h b m fresh =
    let hs = or_nobody (lookup n b.subscribers) in
    let more = append hs (h ∷ []) in
    let d = insert n more b.subscribers in
    let stored : or_nobody (lookup n d) ≡ more =
      ground (arith, lookup-insert n n more b.subscribers, eq_iff n n) in
    let present : is_among h (or_nobody (lookup n d)) ≡ true =
      rw stored (ground (arith, is_among-append h hs (h ∷ []))) in
    let restored : remove_first h (or_nobody (lookup n d)) ≡ hs =
      rw stored (remove_first-append h hs fresh) in
    rw (present, restored)
      (
        refl,
        ground (arith, eq_iff n m, lookup-insert n m hs d, lookup-insert n m more b.subscribers),
      )

-- If an event class has a default type that is not its name, and the handler is not subscribed
-- under the name, then unsubscribing a handler by the class right after subscribing it by the
-- class reports failure and leaves the deliveries of the type as they were after the
-- subscription.
pub unsubscribe_class_misses :
    (default class_name : String) (h : EventHandler) (b : EventBus)
    → str_eq default class_name ≡ false
    → is_among h (or_nobody (lookup class_name b.subscribers)) ≡ false
    → let t = event_class (some default) class_name in
      let r = unsubscribe t h (subscribe t h b) in
      (r.0 ≡ false) × (dispatch_local default r.1 ≡ dispatch_local default (subscribe t h b))
unfolding unsubscribe subscribe dispatch_local extract_type_name unsubscribe_name
unsubscribe_class_misses default class_name h b apart fresh =
    let hs = or_nobody (lookup default b.subscribers) in
    let more = append hs (h ∷ []) in
    let d = insert default more b.subscribers in
    let others : lookup class_name d ≡ lookup class_name b.subscribers =
      ground (arith, lookup-insert default class_name more b.subscribers, apart) in
    let absent : is_among h (or_nobody (lookup class_name d)) ≡ false = rw others fresh in
    rw absent (
      refl,
      ground (
        arith,
        apart,
        eq_iff default class_name,
        eq_iff class_name default,
        lookup-insert class_name default (or_nobody (lookup class_name d)) d,
      ),
    )
