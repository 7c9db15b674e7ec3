-- ===== src/Core/Bus/Tests.antt =====
-- A bus at concrete subscriptions.
use cordyceps.Common.{◌≡◌, refl, List, [], ◌∷◌}
use cordyceps.Common.Map
use cordyceps.Core.Bus.{ServiceBus, Handle, create_service_bus, emitted, on, unsubscribe}
use cordyceps.Core.Bus.Separate.{Use, subscribes, leaves, on_uses, emitted-on_uses}

abbrev one : ServiceBus
one = (on "tick" 1 create_service_bus).0

abbrev handle : Handle
handle = (on "tick" 1 create_service_bus).1

-- The handle of a subscription that has ended takes the next listener of the event off the bus.
stale_handle : emitted "tick" (unsubscribe handle (on "tick" 2 (unsubscribe handle one)).0) ≡ []
unfolding on unsubscribe emitted Map.get Map.delete Map.put
stale_handle = refl

-- Two subscriptions of one callback, one of another, and the end of one event's.
abbrev uses : List Use
uses =
    subscribes "tick" 1
    ∷ subscribes "tock" 1
    ∷ subscribes "tick" 2
    ∷ subscribes "tick" 1
    ∷ leaves "tock" 1
    ∷ []

emitted-on_uses_example : emitted "tick" (on_uses uses create_service_bus) ≡ 1 ∷ 2 ∷ []
emitted-on_uses_example = emitted-on_uses uses "tick"
