-- ===== src/Plant/Push.antt =====
-- What a push by corner 1 or 3 does to the machines and the sensors, one step at a time: the position
-- sensor, the approach, the limit switch.
use circular_manu_system.Corner
use circular_manu_system.Base.{Option, [], ap, false, none, refl, some, sym, true, ℕ, ◌∙◌, ◌∷◌, ◌≡◌}
use circular_manu_system.Base.Quad.{Corner, corner1, corner3, corner_number, get}
use circular_manu_system.Base.Text.{Text}
use circular_manu_system.Cep.{deliver_event, is_entry_barrier}
use circular_manu_system.Cep.Keeps.{fused_with}
use circular_manu_system.Collision.{request_corner}
use circular_manu_system.Corner.{
  CornerCall, CornerController, ext_barrier, extending, feed_motor_num, final_approach_complete,
  handshake_timeout, may_stop_feed, pos_barrier, waiting_for_confirmation,
}
use circular_manu_system.Corner.Cycle.{Remains, approach_of, arrive, extend, push}
use circular_manu_system.Events.{
  Queue, SensorEvent, Station, at_corner, at_station, c1_pos, c3_pos, corner1_ext, corner3_ext,
  from_gpio, from_mcp, place, same_iff, station_number,
}
use circular_manu_system.Machines.{Machines, calls, fire_corner, get_station, on_shop, process}
use circular_manu_system.Plant.Entry.{entry_pin, put_first}
use circular_manu_system.Sensors.{
  SensorReader, bounces, get_barriers_for_pin, gpio_callback, poll_pin, put_all,
}
use circular_manu_system.Shop.{Timer, to_influx}

-- Corners 1 and 3 push to the entry of stations 1 and 2.
abbrev pub main_corner : Station → Corner
main_corner Station.station1 = corner1
main_corner Station.station2 = corner3

-- The pins C1_POS and C3_POS.
abbrev pub position_pin : Station → ℕ
position_pin Station.station1 = 21
position_pin Station.station2 = 12

abbrev pub pusher : Station → Machines → CornerController
pusher k m = get m.corners (main_corner k)

abbrev pub in_position : Station → ℕ → SensorEvent
in_position k t = record {
  timestamp = t;
  barrier_id = pos_barrier (main_corner k);
  location = place at_corner (corner_number (main_corner k));
  source = from_gpio;
}

abbrev pub switch_closed : Station → ℕ → SensorEvent
switch_closed k t = record {
  timestamp = t;
  barrier_id = ext_barrier (main_corner k);
  location = place at_corner (corner_number (main_corner k));
  source = from_mcp;
}

pub comes_to_rest :
    (k : Station) (t now : ℕ) (m : Machines)
    → (pusher k m).corner ≡ main_corner k
    → (pusher k m).state ≡ Corner.idle
    → (pusher k m).timers ≡ []
    → may_stop_feed (feed_motor_num (main_corner k)) m.shop ≡ true
    → let m' = deliver_event calls (in_position k t) none now m in
      ((pusher k m').timers ≡ approach_of (pusher k m) now ∷ [])
      × Remains (pusher k m) (pusher k m')
      × (m'.shop.collision_mgr ≡ m.shop.collision_mgr)
      × (get_station k m' ≡ get_station k m)
unfolding deliver_event process on_shop to_influx
comes_to_rest Station.station1 t now m own st ti safe =
    let a =
      arrive (fused_with (in_position Station.station1 t) none) now m.corners.at1 m.shop
        ((same_iff c1_pos (pos_barrier m.corners.at1.corner)).1 (ap pos_barrier (sym own))) st ti
        (ap (λ j. may_stop_feed (feed_motor_num j) m.shop) own ∙ safe) in
    (a.1, a.2, a.3, refl)
comes_to_rest Station.station2 t now m own st ti safe =
    let a =
      arrive (fused_with (in_position Station.station2 t) none) now m.corners.at3 m.shop
        ((same_iff c3_pos (pos_barrier m.corners.at3.corner)).1 (ap pos_barrier (sym own))) st ti
        (ap (λ j. may_stop_feed (feed_motor_num j) m.shop) own ∙ safe) in
    (a.1, a.2, a.3, refl)

pub pushes :
    (k : Station) (t : Timer CornerCall) (now : ℕ) (m : Machines)
    → (pusher k m).timers ≡ t ∷ []
    → t.call ≡ final_approach_complete
    → (request_corner (pusher k m).corner now m.shop.collision_mgr).0 ≡ true
    → let m' = fire_corner (main_corner k) t now m in
      ((pusher k m').state ≡ extending)
      × ((pusher k m').timers ≡ [])
      × Remains (pusher k m) (pusher k m')
      × (get_station k m' ≡ get_station k m)
unfolding fire_corner
pushes Station.station1 t now m ti ca granted =
    let a = push t now m.corners.at1 m.shop ti ca granted in (a.0, a.1, a.2, refl)
pushes Station.station2 t now m ti ca granted =
    let a = push t now m.corners.at3 m.shop ti ca granted in (a.0, a.1, a.2, refl)

-- A corner that waits for its confirmation, with the timer of the handshake as its only one.
abbrev pub Confirming : CornerController → Type 0
Confirming c =
    (c.state ≡ waiting_for_confirmation)
    × ((t : Timer CornerCall) × (c.timers ≡ t ∷ []) × (t.call ≡ handshake_timeout))

abbrev pub Awaits : Station → Machines → Type 0
Awaits k m = Confirming (pusher k m)

pub extends :
    (k : Station) (t now : ℕ) (m : Machines)
    → (pusher k m).corner ≡ main_corner k
    → (pusher k m).state ≡ extending
    → (pusher k m).timers ≡ []
    → let m' = deliver_event calls (switch_closed k t) none now m in
      Awaits k m' × (get_station k m' ≡ get_station k m)
unfolding deliver_event process on_shop to_influx
extends Station.station1 t now m own st ti =
    let a =
      extend (fused_with (switch_closed Station.station1 t) none) now m.corners.at1 m.shop
        ((same_iff corner1_ext (ext_barrier m.corners.at1.corner)).1 (ap ext_barrier (sym own))) st
        ti in
    (let (timer, only, _, call) = a.2 in (a.0, (timer, only, call)), refl)
extends Station.station2 t now m own st ti =
    let a =
      extend (fused_with (switch_closed Station.station2 t) none) now m.corners.at3 m.shop
        ((same_iff corner3_ext (ext_barrier m.corners.at3.corner)).1 (ap ext_barrier (sym own))) st
        ti in
    (let (timer, only, _, call) = a.2 in (a.0, (timer, only, call)), refl)

-- What a station does leaves the corners as they are.
pub station_alone :
    (k : Station) (e : SensorEvent) (part : Option Text) (now : ℕ) (m : Machines)
    → e.location ≡ place at_station (station_number k)
    → pusher k (deliver_event calls e part now m) ≡ pusher k m
unfolding deliver_event process on_shop
station_alone Station.station1 e part now m at = rw at refl
station_alone Station.station2 e part now m at = rw at refl

-- The interrupt of the position sensor is remembered for its own pin only.
pub sensed :
    (k : Station) (t : ℕ) (r : SensorReader) (q : Queue SensorEvent)
    → bounces r (position_pin k) t ≡ false
    → let (r', q') = gpio_callback (position_pin k) t r q in
      ((seen_at : ℕ) → bounces r' (entry_pin k) seen_at ≡ bounces r (entry_pin k) seen_at)
      × (r'.mcp_prev_state ≡ r.mcp_prev_state)
      × (q.items ≡ [] → q'.items ≡ in_position k t ∷ [])
unfolding gpio_callback put_all get_barriers_for_pin
sensed Station.station1 t r q quiet = rw quiet (λ seen_at. refl, refl, λ e. put_first _ q e)
sensed Station.station2 t r q quiet = rw quiet (λ seen_at. refl, refl, λ e. put_first _ q e)

-- The limit switch closes.
pub closed :
    (k : Station) (t : ℕ) (r : SensorReader) (q : Queue SensorEvent)
    → r.mcp_prev_state (ext_barrier (main_corner k)) ≡ some false
    → let (r', q') = poll_pin (ext_barrier (main_corner k)) false t r q in
      ((seen_at : ℕ) → bounces r' (entry_pin k) seen_at ≡ bounces r (entry_pin k) seen_at)
      × (q.items ≡ [] → q'.items ≡ switch_closed k t ∷ [])
unfolding poll_pin bounces
closed Station.station1 t r q released = rw released (λ seen_at. refl, λ e. put_first _ q e)
closed Station.station2 t r q released = rw released (λ seen_at. refl, λ e. put_first _ q e)

pub not_entry :
    (k : Station)
    → (is_entry_barrier (pos_barrier (main_corner k)) ≡ false)
      × (is_entry_barrier (ext_barrier (main_corner k)) ≡ false)
not_entry Station.station1 = (refl, refl)
not_entry Station.station2 = (refl, refl)
