-- ===== src/Sensors.antt =====
-- physical_system/sensor_reader.py: the producer of sensor events, by interrupts and by polling.
pub mod Laws
pub mod Debounce
pub mod Setup
pub mod Edges
use circular_manu_system.Base.{
  Bool, List, Option, [], false, if◌then◌else◌, ltb, none, not, some, ℕ, ◌&&◌, ◌++◌, ◌+◌, ◌==◌, ◌∷◌,
}
use circular_manu_system.Events.{
  Barrier, Location, Queue, SensorEvent, Source, at_corner, barrier_to_location, c1_pos, c2_pos,
  c3_pos, c4_pos, corner1_ext, corner1_ret, corner2_ext, corner2_ret, corner3_ext, corner3_ret,
  corner4_ext, corner4_ret, from_gpio, from_mcp, m1_start, m2_start, mcp_barrier_to_location,
  or_unknown, place, put_nowait, s1_entry, s1_exit, s1_process, s2_entry, s2_exit, s2_process, same,
}
use circular_manu_system.Events.Names.{name}

-- `last_trigger_time` is a dictionary read with the default 0; `mcp_prev_state` holds `None` until
-- the first poll.
pub record SensorReader : Type 0 where
  pub last_trigger_time : ℕ → ℕ
  pub debounce_time : ℕ
  pub mcp_prev_state : Barrier → Option Bool

-- A reader as the constructor leaves it, in hardware mode.
unfoldable pub init : SensorReader
init = record {
  last_trigger_time = λ pin. 0;
  debounce_time = 50_000;
  mcp_prev_state = λ name. none;
}

-- `GPIO_TO_BARRIER`
abbrev pub gpio_to_barrier : ℕ → Option Barrier
gpio_to_barrier pin =
    if pin == 17
    then some s1_entry
    else if pin == 27
    then some s1_process
    else if pin == 22
    then some s1_exit
    else if pin == 5
    then some s2_entry
    else if pin == 6
    then some s2_process
    else if pin == 13
    then some s2_exit
    else if pin == 21
    then some c1_pos
    else if pin == 12
    then some c3_pos
    else none

primary : Option Barrier → List (Barrier × Location)
primary none = []
primary (some b) = (b, or_unknown (barrier_to_location b)) ∷ []

-- A station's exit is also the arrival at the next corner.
dual_purpose : ℕ → List (Barrier × Location)
dual_purpose channel =
    if channel == 22
    then (c4_pos, place at_corner 4) ∷ []
    else if channel == 13
    then (c2_pos, place at_corner 2) ∷ []
    else []

unfoldable pub get_barriers_for_pin : ℕ → List (Barrier × Location)
unfolding primary dual_purpose
get_barriers_for_pin channel = primary (gpio_to_barrier channel) ++ dual_purpose channel

-- The loop of `_gpio_callback` over the barriers of a pin.
unfoldable pub put_all :
    Source → ℕ → List (Barrier × Location) → Queue SensorEvent → Queue SensorEvent
put_all from t [] q = q
put_all from t ((b, l) ∷ rest) q =
    put_all from t rest
      (put_nowait (record { timestamp = t; barrier_id = b; location = l; source = from }) q)

-- `t_gpio - last < debounce_time`, with no difference that could fall below 0.
unfoldable pub bounces : SensorReader → ℕ → ℕ → Bool
bounces r channel t = ltb t (r.last_trigger_time channel + r.debounce_time)

record_trigger : ℕ → ℕ → SensorReader → SensorReader
record_trigger channel t r = record r {
  last_trigger_time = λ pin. if pin == channel then t else r.last_trigger_time pin;
}

unfoldable pub gpio_callback :
    ℕ → ℕ → SensorReader → Queue SensorEvent → SensorReader × Queue SensorEvent
unfolding bounces record_trigger
gpio_callback channel t r q =
    if bounces r channel t
    then (r, q)
    else (record_trigger channel t r, put_all from_gpio t (get_barriers_for_pin channel) q)

-- The keys of `MCP_PIN_MAP`, in the order of the dictionary.
abbrev pub mcp_pins : List Barrier
mcp_pins =
    corner1_ret ∷ corner2_ret ∷ corner3_ret ∷ corner4_ret ∷ m1_start ∷ m2_start ∷ corner1_ext
    ∷ corner2_ext ∷ corner3_ext ∷ corner4_ext ∷ []

-- `prev_state is not None and not prev_state and current_state`
abbrev pub rises : Option Bool → Bool → Bool
rises none current = false
rises (some prev) current = not prev && current

unfoldable pub mcp_event : Barrier → ℕ → SensorEvent
mcp_event name t = record {
  timestamp = t;
  barrier_id = name;
  location = or_unknown (mcp_barrier_to_location name);
  source = from_mcp;
}

unfoldable pub remember : Barrier → Bool → SensorReader → SensorReader
remember name current r = record r {
  mcp_prev_state = λ other. if same other name then some current else r.mcp_prev_state other;
}

-- One round of the `for` loop of `_mcp_poll_loop`: `value` is `pin.value`, which is active low.
unfoldable pub poll_pin :
    Barrier → Bool → ℕ → SensorReader → Queue SensorEvent → SensorReader × Queue SensorEvent
unfolding mcp_event remember
poll_pin name value t r q =
    let current = not value in
    (
      remember name current r,
      if rises (r.mcp_prev_state name) current then put_nowait (mcp_event name t) q else q,
    )

poll_from :
    List Barrier
    → (Barrier → Bool)
    → ℕ
    → SensorReader
    → Queue SensorEvent
    → SensorReader × Queue SensorEvent
poll_from [] values t r q = (r, q)
poll_from (name ∷ rest) values t r q =
    let (r', q') = poll_pin name (values name) t r q in poll_from rest values t r' q'

-- One pass of the `while` loop over all pins of the expander.
unfoldable pub mcp_poll :
    (Barrier → Bool) → ℕ → SensorReader → Queue SensorEvent → SensorReader × Queue SensorEvent
unfolding poll_from
mcp_poll values t r q = poll_from mcp_pins values t r q
