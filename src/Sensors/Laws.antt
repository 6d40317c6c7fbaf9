-- ===== src/Sensors/Laws.antt =====
-- What the sensor reader puts in its queues, and with which locations.
use circular_manu_system.Base.{Bool, List, [], arith, none, some, ℕ, ◌∷◌, ◌≡◌}
use circular_manu_system.Base.Lists.{All, All-append, In}
use circular_manu_system.Events.{
  Barrier, Location, Queue, SensorEvent, Source, barrier_to_location, from_gpio,
  mcp_barrier_to_location, or_unknown, put_nowait,
}
use circular_manu_system.Events.Names.{name}
use circular_manu_system.Sensors.{
  SensorReader, get_barriers_for_pin, gpio_callback, mcp_event, mcp_pins, mcp_poll, poll_from,
  poll_pin, put_all,
}

unfoldable pub location_of : Barrier → Location
location_of b = elim (barrier_to_location b) [
  | some l ↦ l
  | none ↦ or_unknown (mcp_barrier_to_location b)
]

abbrev pub IsLocated : SensorEvent → Type 0
IsLocated e = e.location ≡ location_of e.barrier_id

abbrev PairIsLocated : Barrier × Location → Type 0
PairIsLocated (b, l) = l ≡ location_of b

pub get_barriers_for_pin-IsLocated :
    (channel : ℕ) → All PairIsLocated (get_barriers_for_pin channel)
unfolding get_barriers_for_pin location_of
get_barriers_for_pin-IsLocated channel = ground arith

put_nowait-All :
    (e : SensorEvent) (q : Queue SensorEvent)
    → IsLocated e
    → All IsLocated q.items
    → All IsLocated (put_nowait e q).items
unfolding put_nowait
put_nowait-All e q h all = ground (arith, All-append IsLocated q.items (e ∷ []) all (h, tt))

put_all-IsLocated :
    (from : Source) (t : ℕ) (bs : List (Barrier × Location)) (q : Queue SensorEvent)
    → All PairIsLocated bs
    → All IsLocated q.items
    → All IsLocated (put_all from t bs q).items
unfolding put_all
put_all-IsLocated from t [] q hb h = h
put_all-IsLocated from t ((b, l) ∷ rest) q hb h =
    put_all-IsLocated from t rest _ hb.1 (put_nowait-All _ q hb.0 h)

-- If every event in a queue carries the location of its barrier, then so does every event after an
-- interrupt on any channel.
pub gpio_callback-IsLocated :
    (channel t : ℕ) (r : SensorReader) (q : Queue SensorEvent)
    → All IsLocated q.items
    → All IsLocated (gpio_callback channel t r q).1.items
unfolding gpio_callback
gpio_callback-IsLocated channel t r q h =
    ground (arith, put_all-IsLocated from_gpio t _ q (get_barriers_for_pin-IsLocated channel) h)

mcp_event-IsLocated :
    (name : Barrier) (t : ℕ) → barrier_to_location name ≡ none → IsLocated (mcp_event name t)
unfolding mcp_event location_of
mcp_event-IsLocated name t h = ground arith

poll_from-IsLocated :
    (names : List Barrier) (values : Barrier → Bool) (t : ℕ) (r : SensorReader)
    (q : Queue SensorEvent)
    → All (λ name. barrier_to_location name ≡ none) names
    → All IsLocated q.items
    → All IsLocated (poll_from names values t r q).1.items
unfolding poll_from poll_pin
poll_from-IsLocated [] values t r q hn h = h
poll_from-IsLocated (name ∷ rest) values t r q hn h =
    poll_from-IsLocated rest values t _ _ hn.1
      (ground (arith, put_nowait-All (mcp_event name t) q (mcp_event-IsLocated name t hn.0) h))

pub mcp_poll-IsLocated :
    (values : Barrier → Bool) (t : ℕ) (r : SensorReader) (q : Queue SensorEvent)
    → All IsLocated q.items
    → All IsLocated (mcp_poll values t r q).1.items
unfolding mcp_poll
mcp_poll-IsLocated values t r q h = poll_from-IsLocated mcp_pins values t r q (ground arith) h

mcp_pin_located : (name : Barrier) → In name mcp_pins → barrier_to_location name ≡ none
mcp_pin_located name h = ground arith

pub poll_pin-IsLocated :
    (name : Barrier) (value : Bool) (t : ℕ) (r : SensorReader) (q : Queue SensorEvent)
    → In name mcp_pins
    → All IsLocated q.items
    → All IsLocated (poll_pin name value t r q).1.items
unfolding poll_pin
poll_pin-IsLocated name value t r q is_pin h = ground (
  arith,
  put_nowait-All (mcp_event name t) q (mcp_event-IsLocated name t (mcp_pin_located name is_pin)) h,
)
