-- ===== src/Events/Bus.antt =====
-- `EventBus` of app/events/bus.py within one process: subscription and local delivery. A handler is
-- a number, by which handlers are compared. The handlers' own work, which runs in tasks, and the
-- broadcast over Redis are not part of the model.
use ai_modrator.Common.{
  ℕ, ◌+◌, String, Bool, true, false, ◌||◌, Option, none, some, List, [], ◌∷◌, ◌==◌, if◌then◌else◌,
}
use ai_modrator.Common.Dict.{Dict, lookup, insert}

abbrev pub EventHandler : Type 0
EventHandler = ℕ

-- A topic is given by its name, or by a class: the default of its field `event_type`, if it has
-- one, and its `__name__`.
pub data EventType : Type 0 where
  named : String → EventType
  event_class : Option String → String → EventType

pub record EventBus : Type 0 where
  pub subscribers : Dict (List EventHandler)
  pub all_subscribers : List EventHandler
  pub events_published : ℕ

abbrev pub new_bus : EventBus
new_bus = record { subscribers = []; all_subscribers = []; events_published = 0 }

unfoldable pub extract_type_name : EventType → String
extract_type_name (named n) = n
extract_type_name (event_class none class_name) = class_name
extract_type_name (event_class (some default) class_name) = default

abbrev pub or_nobody : Option (List EventHandler) → List EventHandler
or_nobody none = []
or_nobody (some hs) = hs

unfoldable pub append : List EventHandler → List EventHandler → List EventHandler
append [] ks = ks
append (h ∷ hs) ks = h ∷ append hs ks

unfoldable pub subscribe : EventType → EventHandler → EventBus → EventBus
subscribe event_type handler b =
    let type_name = extract_type_name event_type in
    let handlers = append (or_nobody (lookup type_name b.subscribers)) (handler ∷ []) in
    record b { subscribers = insert type_name handlers b.subscribers }

unfoldable pub subscribe_all : EventHandler → EventBus → EventBus
subscribe_all handler b = record b { all_subscribers = append b.all_subscribers (handler ∷ []) }

unfoldable pub is_among : EventHandler → List EventHandler → Bool
is_among h [] = false
is_among h (k ∷ ks) = k == h || is_among h ks

-- `list.remove`, which takes the first one.
unfoldable pub remove_first : EventHandler → List EventHandler → List EventHandler
remove_first h [] = []
remove_first h (k ∷ ks) = let rest = remove_first h ks in if k == h then ks else k ∷ rest

-- The name that `unsubscribe` takes.
unfoldable pub unsubscribe_name : EventType → String
unsubscribe_name (named n) = n
unsubscribe_name (event_class default class_name) = class_name

-- The lookup in the `defaultdict` enters an empty list for a name that is not there.
unfoldable pub unsubscribe : EventType → EventHandler → EventBus → Bool × EventBus
unsubscribe event_type handler b =
    let type_name = unsubscribe_name event_type in
    let handlers = or_nobody (lookup type_name b.subscribers) in
    if is_among handler handlers
    then (
      true,
      record b { subscribers = insert type_name (remove_first handler handlers) b.subscribers },
    )
    else (false, record b { subscribers = insert type_name handlers b.subscribers })

-- The handlers that an event of a type is given to, in their order.
unfoldable pub dispatch_local : String → EventBus → List EventHandler
dispatch_local type_name b = append (or_nobody (lookup type_name b.subscribers)) b.all_subscribers

unfoldable pub publish : String → EventBus → List EventHandler × EventBus
publish type_name b =
    (dispatch_local type_name b, record b { events_published = b.events_published + 1 })

unfoldable pub clear : EventBus → EventBus
clear b = record b { subscribers = []; all_subscribers = [] }
