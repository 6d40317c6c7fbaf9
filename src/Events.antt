-- ===== src/Events.antt =====
-- The events that travel from the producers to the state machines: light barriers and limit
-- switches (physical_system/sensor_reader.py, the tables), the dictionaries of the events, and
-- `queue.Queue` as the producers and the consumer use it.
pub mod Names
use circular_manu_system.Base.{
  Bool, List, Option, [], arith, false, if◌then◌else◌, leb, ltb, none, refl, some, true, ℕ, ◌&&◌,
  ◌++◌, ◌↔◌, ◌∷◌, ◌≡◌,
}
use circular_manu_system.Base.Lists.{length}
use circular_manu_system.Base.Text.{Text}

-- `station_num`
pub data Station : Type 0 where
  station1 station2 : Station

abbrev pub station_number : Station → ℕ
station_number station1 = 1
station_number station2 = 2

-- The identifiers that the tables of `SensorReader` spell as strings (`Names.name`).
pub data Barrier : Type 0 where
  s1_entry s1_process s1_exit s2_entry s2_process s2_exit : Barrier
  c1_pos c2_pos c3_pos c4_pos : Barrier
  corner1_ret corner2_ret corner3_ret corner4_ret : Barrier
  corner1_ext corner2_ext corner3_ext corner4_ext : Barrier
  m1_start m2_start : Barrier

unfoldable pub Barrier-discrete : Discrete Barrier
Barrier-discrete = hlevel

-- `a == b` on identifiers.
unfoldable pub same : Barrier → Barrier → Bool
same a b = elim (Barrier-discrete a b) [ yes e ↦ true | no n ↦ false ]

pub same_iff : (a b : Barrier) → (same a b ≡ true) ↔ (a ≡ b)
unfolding same
same_iff a b = ground arith

pub same_refl : (b : Barrier) → same b b ≡ true
same_refl b = (same_iff b b).1 refl

-- The two parts of a location, `('station', 1)`.
pub data LocationType : Type 0 where
  at_station at_corner at_conveyor at_unknown : LocationType

pub record Location : Type 0 where
  pub location_type : LocationType
  pub location_id : ℕ

abbrev pub place : LocationType → ℕ → Location
place t n = record { location_type = t; location_id = n }

-- `BARRIER_TO_LOCATION`
abbrev pub barrier_to_location : Barrier → Option Location
barrier_to_location s1_entry = some (place at_station 1)
barrier_to_location s1_process = some (place at_station 1)
barrier_to_location s1_exit = some (place at_station 1)
barrier_to_location s2_entry = some (place at_station 2)
barrier_to_location s2_process = some (place at_station 2)
barrier_to_location s2_exit = some (place at_station 2)
barrier_to_location c1_pos = some (place at_corner 1)
barrier_to_location c2_pos = some (place at_corner 2)
barrier_to_location c3_pos = some (place at_corner 3)
barrier_to_location c4_pos = some (place at_corner 4)
barrier_to_location _ = none

-- `MCP_BARRIER_TO_LOCATION`
abbrev pub mcp_barrier_to_location : Barrier → Option Location
mcp_barrier_to_location corner1_ret = some (place at_corner 1)
mcp_barrier_to_location corner2_ret = some (place at_corner 2)
mcp_barrier_to_location corner3_ret = some (place at_corner 3)
mcp_barrier_to_location corner4_ret = some (place at_corner 4)
mcp_barrier_to_location corner1_ext = some (place at_corner 1)
mcp_barrier_to_location corner2_ext = some (place at_corner 2)
mcp_barrier_to_location corner3_ext = some (place at_corner 3)
mcp_barrier_to_location corner4_ext = some (place at_corner 4)
mcp_barrier_to_location m1_start = some (place at_conveyor 1)
mcp_barrier_to_location m2_start = some (place at_conveyor 2)
mcp_barrier_to_location _ = none

-- `.get(name, ('unknown', 0))`
abbrev pub or_unknown : Option Location → Location
or_unknown none = place at_unknown 0
or_unknown (some l) = l

-- Which thread made an event: `'source': 'gpio'` or `'mcp'`.
pub data Source : Type 0 where
  from_gpio from_mcp : Source

pub record SensorEvent : Type 0 where
  pub timestamp : ℕ
  pub barrier_id : Barrier
  pub location : Location
  pub source : Source

pub record NfcEvent : Type 0 where
  pub timestamp : ℕ
  pub station_id : ℕ
  pub part_id : Text
  pub reader_num : ℕ

-- What the consumer hands to a state machine.
pub record FusedEvent : Type 0 where
  pub timestamp : ℕ
  pub barrier_id : Barrier
  pub part_id : Option Text
  pub location : Location

-- `queue.Queue(maxsize)`; a maximum of 0 means that there is none.
pub record Queue {ℓ} (A : Type ℓ) : Type ℓ where
  pub maxsize : ℕ
  pub items : List A

module _ {ℓ} {A : Type ℓ} where
  unfoldable pub is_full : Queue A → Bool
  is_full q = ltb 0 q.maxsize && leb q.maxsize (length q.items)

  -- `put_nowait` under the producers' `try`: the item is dropped if the queue is full.
  unfoldable pub put_nowait : A → Queue A → Queue A
  unfolding is_full
  put_nowait a q = if is_full q then q else record q { items = q.items ++ a ∷ [] }
