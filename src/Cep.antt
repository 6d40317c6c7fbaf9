-- ===== src/Cep.antt =====
-- physical_system/cep_consumer.py: complex event processing, which fuses light-barrier events with
-- NFC reads and hands events to the state machines.
-- The consumer is written against an interface, since it knows the state machines, the data logger
-- and the InfluxDB writer by their methods only.
pub mod Removal
pub mod Fusion
pub mod Expiry
pub mod Matching
pub mod Keeps
pub mod Statistics
pub mod Accounting
pub mod Running
pub mod Pair
pub mod Lone
pub mod Sole
use mathlib.Core.Option
use circular_manu_system.Base.{
  Bool, List, Option, [], false, if◌then◌else◌, ltb, none, not, some, suc, true, zero, ℕ, ◌++◌, ◌+◌,
  ◌-◌, ◌==◌, ◌||◌, ◌∷◌,
}
use circular_manu_system.Base.Quad.{Corner, corner1, corner2, corner3, corner4}
use circular_manu_system.Base.Text.{Text}
use circular_manu_system.Events.{
  Barrier, FusedEvent, Location, LocationType, NfcEvent, SensorEvent, Station, at_conveyor,
  at_corner, at_station, at_unknown, s1_entry, s2_entry, station1, station2,
}

-- The keys of `fsm_map`: 'station_1', …, 'corner_4'.
pub data Fsm : Type 0 where
  station_fsm : Station → Fsm
  corner_fsm : Corner → Fsm

-- `self.fsm_map.get(f"{location_type}_{location_id}")`
abbrev pub fsm_map : LocationType → ℕ → Option Fsm
fsm_map at_station n =
    if n == 1
    then some (station_fsm station1)
    else if n == 2
    then some (station_fsm station2)
    else none
fsm_map at_corner n =
    if n == 1
    then some (corner_fsm corner1)
    else if n == 2
    then some (corner_fsm corner2)
    else if n == 3
    then some (corner_fsm corner3)
    else if n == 4
    then some (corner_fsm corner4)
    else none
fsm_map at_conveyor n = none
fsm_map at_unknown n = none

-- What the consumer calls, on a world `W`: `fsm.process_event`, `influx_writer.write_sensor_event`
-- and `data_logger.log_event`. What `process_event` raises is caught and logged, so it is total.
pub record Calls (W : Type 0) : Type 0 where
  pub process_event : Fsm → FusedEvent → ℕ → W → W
  pub write_sensor_event : Barrier → Location → W → W
  pub log_event : Text → Text → Text → ℕ → W → W

pub record Stats : Type 0 where
  pub fused_events : ℕ
  pub orphaned_gpio : ℕ
  pub ghost_nfc : ℕ
  pub total_gpio : ℕ
  pub total_nfc : ℕ

pub record Consumer : Type 0 where
  pub delta_t_fuse : ℕ
  pub delta_t_expiry : ℕ
  pub pending_gpio_events : List SensorEvent
  pub pending_nfc_events : List NfcEvent
  pub stats : Stats

unfoldable pub init : ℕ → ℕ → Consumer
init fusion_window expiry_timeout = record {
  delta_t_fuse = fusion_window;
  delta_t_expiry = expiry_timeout;
  pending_gpio_events = [];
  pending_nfc_events = [];
  stats = record {
    fused_events = 0;
    orphaned_gpio = 0;
    ghost_nfc = 0;
    total_gpio = 0;
    total_nfc = 0;
  };
}

-- The `while True` loops of `_consume_events`, over what the queue holds.
take_gpio : List SensorEvent → Consumer → Consumer
take_gpio [] c = c
take_gpio (e ∷ es) c = take_gpio es (record c {
  pending_gpio_events = c.pending_gpio_events ++ e ∷ [];
  stats = record c.stats { total_gpio = c.stats.total_gpio + 1 };
})

take_nfc : List NfcEvent → Consumer → Consumer
take_nfc [] c = c
take_nfc (e ∷ es) c = take_nfc es (record c {
  pending_nfc_events = c.pending_nfc_events ++ e ∷ [];
  stats = record c.stats { total_nfc = c.stats.total_nfc + 1 };
})

-- `_consume_events`: the queues are left empty.
unfoldable pub consume_events :
    List SensorEvent → List SensorEvent → List NfcEvent → Consumer → Consumer
unfolding take_gpio take_nfc
consume_events gpio mcp nfc c = take_nfc nfc (take_gpio mcp (take_gpio gpio c))

-- `barrier_id in ['S1_ENTRY', 'S2_ENTRY']`
abbrev pub is_entry_barrier : Barrier → Bool
is_entry_barrier s1_entry = true
is_entry_barrier s2_entry = true
is_entry_barrier _ = false

abbrev is_station : LocationType → Bool
is_station at_station = true
is_station _ = false

-- `abs(a - b)`
abbrev pub time_diff : ℕ → ℕ → ℕ
time_diff a b = (a - b) + (b - a)

unfoldable pub events_match : ℕ → SensorEvent → NfcEvent → Bool
events_match window g n =
    if not (is_station g.location.location_type)
    then false
    else if not (g.location.location_id == n.station_id)
    then false
    else not (ltb window (time_diff g.timestamp n.timestamp))

-- The inner loop: the first read that matches, with its index.
unfoldable pub find_match : ℕ → SensorEvent → ℕ → List NfcEvent → Option (ℕ × NfcEvent)
find_match window g i [] = none
find_match window g i (n ∷ ns) =
    if events_match window g n then some (i, n) else find_match window g (suc i) ns

-- `sorted(indices, reverse=True)`
unfoldable pub insert_down : ℕ → List ℕ → List ℕ
insert_down n [] = n ∷ []
insert_down n (m ∷ ms) = if ltb m n then n ∷ m ∷ ms else m ∷ insert_down n ms

unfoldable pub sort_down : List ℕ → List ℕ
unfolding insert_down
sort_down [] = []
sort_down (n ∷ ns) = insert_down n (sort_down ns)

module _ {A : Type 0} where
  -- `del xs[i]`; `none` stands for the `IndexError`.
  unfoldable pub delete_at : ℕ → List A → Option (List A)
  delete_at i [] = none
  delete_at zero (x ∷ xs) = some xs
  delete_at (suc i) (x ∷ xs) = Option.map (λ rest. x ∷ rest) (delete_at i xs)

  continue_with : (List A → List A × Bool) → List A → Option (List A) → List A × Bool
  continue_with next xs none = (xs, true)
  continue_with next xs (some rest) = next rest

  -- `for idx in indices: del xs[idx]`, which stops at an `IndexError`; whether it was raised.
  unfoldable pub delete_each : List ℕ → List A → List A × Bool
  unfolding continue_with delete_at
  delete_each [] xs = (xs, false)
  delete_each (i ∷ is) xs = continue_with (delete_each is) xs (delete_at i xs)

  -- `for idx in sorted(indices, reverse=True): del xs[idx]`
  unfoldable pub delete_marked : List ℕ → List A → List A × Bool
  unfolding sort_down delete_each
  delete_marked indices xs = delete_each (sort_down indices) xs

module _ {W : Type 0} (calls : Calls W) where
  hand_over : Option Fsm → SensorEvent → Option Text → ℕ → W → W
  hand_over none e part_id now w = w
  hand_over (some fsm) e part_id now w = calls.write_sensor_event e.barrier_id e.location (
      calls.process_event fsm
        (record {
          timestamp = e.timestamp;
          barrier_id = e.barrier_id;
          part_id = part_id;
          location = e.location;
        })
        now w)

  -- `_deliver_event`
  unfoldable pub deliver_event : SensorEvent → Option Text → ℕ → W → W
  unfolding hand_over
  deliver_event e part_id now w =
      hand_over (fsm_map e.location.location_type e.location.location_id) e part_id now w

  -- The variables of the outer loop of `_fuse_events`.
  pub record Pass : Type 0 where
    pub world : W
    pub gpio_to_remove : List ℕ
    pub nfc_to_remove : List ℕ
    pub fused : ℕ

  fuse_entry : ℕ → SensorEvent → Option (ℕ × NfcEvent) → ℕ → Pass → Pass
  fuse_entry i g none now p = p
  fuse_entry i g (some (j, n)) now p = record {
    world = deliver_event g (some n.part_id) now p.world;
    gpio_to_remove = p.gpio_to_remove ++ i ∷ [];
    nfc_to_remove = p.nfc_to_remove ++ j ∷ [];
    fused = p.fused + 1;
  }

  unfoldable pub fuse_one : ℕ → List NfcEvent → ℕ → SensorEvent → ℕ → Pass → Pass
  unfolding fuse_entry
  fuse_one window nfc i g now p =
      if not (is_entry_barrier g.barrier_id)
      then record p {
        world = deliver_event g none now p.world;
        gpio_to_remove = p.gpio_to_remove ++ i ∷ [];
      }
      else fuse_entry i g (find_match window g 0 nfc) now p

  unfoldable pub fuse_from : ℕ → List NfcEvent → ℕ → List SensorEvent → ℕ → Pass → Pass
  fuse_from window nfc i [] now p = p
  fuse_from window nfc i (g ∷ gs) now p =
      fuse_from window nfc (suc i) gs now (fuse_one window nfc i g now p)

  -- `_fuse_events`, and whether it ends by an `IndexError` of a `del`.
  unfoldable pub fuse_events : ℕ → Consumer → W → Consumer × W × Bool
  fuse_events now c w =
      let p =
        fuse_from c.delta_t_fuse c.pending_nfc_events 0 c.pending_gpio_events now
          (record { world = w; gpio_to_remove = []; nfc_to_remove = []; fused = 0 }) in
      let (gpio, gpio_error) = delete_marked p.gpio_to_remove c.pending_gpio_events in
      let (nfc, nfc_error) = delete_marked p.nfc_to_remove c.pending_nfc_events in
      (
        record c {
          pending_gpio_events = gpio;
          pending_nfc_events = if gpio_error then c.pending_nfc_events else nfc;
          stats = record c.stats { fused_events = c.stats.fused_events + p.fused };
        },
        p.world,
        gpio_error || nfc_error,
      )
