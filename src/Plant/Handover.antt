-- ===== src/Plant/Handover.antt =====
-- A corner that is fed by a main conveyor pushes a part to its station: from the position sensor,
-- over the approach, the push and the limit switch, to the read and the barrier of the station.
use mathlib.Core.Path.{subst}
use circular_manu_system.Corner
use circular_manu_system.Station
use circular_manu_system.Base.{
  List, [], ap, arith, false, refl, some, sym, true, ℕ, ◌∙◌, ◌∷◌, ◌≡◌, ◌≤◌,
}
use circular_manu_system.Cep.{time_diff}
use circular_manu_system.Collision.{request_corner}
use circular_manu_system.Corner.{ext_barrier, extending, feed_motor_num, may_stop_feed}
use circular_manu_system.Corner.Cycle.{approach_of}
use circular_manu_system.Events.{Station, same}
use circular_manu_system.Machines.{Machines, fire_corner, get_station}
use circular_manu_system.Nfc.{hex}
use circular_manu_system.Plant.{Plant}
use circular_manu_system.Plant.Entry.{
  Quiet, arrival, arrival_enters, arrival_round, entry_pin, seen,
}
use circular_manu_system.Plant.Push.{
  Awaits, Confirming, main_corner, position_pin, pusher, pushes, station_alone,
}
use circular_manu_system.Plant.Pushing.{
  Leaves, positioned, positioned-Leaves, pushed_out, pushed_out-Leaves,
}
use circular_manu_system.Sensors.{bounces}
use circular_manu_system.Station.{StationController, entering}

pub record PushTimes : Type 0 where
  pub at_sensor : ℕ
  pub to_corner : ℕ
  pub push_at : ℕ
  pub out_at : ℕ
  pub to_pusher : ℕ
  pub read_at : ℕ
  pub at_station : ℕ
  pub to_station : ℕ

-- The part comes to the corner, the approach ends, the pusher is out, and the part is at the station.
abbrev pub approached : Station → PushTimes → Plant → Plant
approached k t p =
    let q = positioned k t.at_sensor t.to_corner p in
    record q {
      machines =
          fire_corner (main_corner k) (approach_of (pusher k p.machines) t.to_corner) t.push_at
            q.machines;
    }

abbrev pub handed_over : Station → PushTimes → ℕ → List ℕ → Plant → Plant
handed_over k t b bs p =
    arrival k t.read_at t.at_station b bs t.to_station
      (pushed_out k t.out_at t.to_pusher (approached k t p))

-- The corner and the station that it pushes to are idle.
pub record Waiting (k : Station) (m : Machines) : Type 0 where
  pub corner_is : (pusher k m).corner ≡ main_corner k
  pub corner_idle : (pusher k m).state ≡ Corner.idle
  pub no_timer : (pusher k m).timers ≡ []
  pub station_is : (get_station k m).station ≡ k
  pub station_idle : (get_station k m).state ≡ Station.idle

approached-Leaves :
    (k : Station) (t : PushTimes) (p : Plant)
    → Quiet p
    → Waiting k p.machines
    → bounces p.sensors (position_pin k) t.at_sensor ≡ false
    → may_stop_feed (feed_motor_num (main_corner k)) p.machines.shop ≡ true
    → (request_corner (main_corner k) t.push_at p.machines.shop.collision_mgr).0 ≡ true
    → let q = approached k t p in
      Leaves k p q
      × (q.sensors.mcp_prev_state ≡ p.sensors.mcp_prev_state)
      × ((pusher k q.machines).corner ≡ main_corner k)
      × ((pusher k q.machines).state ≡ extending)
      × ((pusher k q.machines).timers ≡ [])
approached-Leaves k t p h w placed safe granted =
    let q = positioned k t.at_sensor t.to_corner p in
    let (l, levels, timers, same, manager) =
      positioned-Leaves k t.at_sensor t.to_corner p h placed w.corner_is w.corner_idle w.no_timer
        safe in
    let own = same.0 ∙ w.corner_is in
    let granted_now : (request_corner (pusher k q.machines).corner t.push_at
          q.machines.shop.collision_mgr).0
        ≡ true =
      (λ i. (request_corner (own i) t.push_at (manager i)).0) ∙ granted in
    let (state, none_left, kept, station) =
      pushes k (approach_of (pusher k p.machines) t.to_corner) t.push_at q.machines timers refl
        granted_now in
    (
      record {
        quiet = record {
          gpio = l.quiet.gpio;
          mcp = l.quiet.mcp;
          nfc = l.quiet.nfc;
          pending_gpio = l.quiet.pending_gpio;
          pending_nfc = l.quiet.pending_nfc;
        };
        bounces_same = l.bounces_same;
        window = l.window;
        station = station ∙ l.station;
      },
      levels,
      kept.0 ∙ own,
      state,
      none_left,
    )

-- If no event is on its way, and a corner with a main conveyor that may be stopped and the station
-- it pushes to are idle, the corner with no timer, then after the position sensor's interrupt, the
-- end of the approach with the request granted, a poll that finds the pusher's limit switch closed
-- where the poll before found it open, the read of a tag with a non-empty id, and the interrupt of
-- the station's entry pin within the fusion window of the read, neither interrupt debounced, and a
-- round of the consumer after each event of a sensor, the station is entering with that part, but
-- the corner still waits for the confirmation, with the timer of the handshake as its only one,
-- and again no event is on its way.
pub handover_unconfirmed :
    (k : Station) (t : PushTimes) (b : ℕ) (bs : List ℕ) (p : Plant)
    → Quiet p
    → Waiting k p.machines
    → bounces p.sensors (position_pin k) t.at_sensor ≡ false
    → bounces p.sensors (entry_pin k) t.at_station ≡ false
    → p.sensors.mcp_prev_state (ext_barrier (main_corner k)) ≡ some false
    → time_diff t.at_station t.read_at ≤ p.consumer.delta_t_fuse
    → may_stop_feed (feed_motor_num (main_corner k)) p.machines.shop ≡ true
    → (request_corner (main_corner k) t.push_at p.machines.shop.collision_mgr).0 ≡ true
    → let q = handed_over k t b bs p in
      ((get_station k q.machines).state ≡ entering)
      × ((get_station k q.machines).current_part ≡ some (hex (b ∷ bs)))
      × Awaits k q.machines
      × Quiet q
handover_unconfirmed k t b bs p h w placed crossed released near safe granted =
    let (l, levels, own, state, no_timer) = approached-Leaves k t p h w placed safe granted in
    let q = pushed_out k t.out_at t.to_pusher (approached k t p) in
    let (r, awaits) =
      pushed_out-Leaves k t.out_at t.to_pusher (approached k t p) l.quiet
        (ap (λ f. f (ext_barrier (main_corner k))) levels ∙ released) own state no_timer in
    let station : get_station k q.machines ≡ get_station k p.machines = r.station ∙ l.station in
    let quiet = r.bounces_same t.at_station ∙ l.bounces_same t.at_station ∙ crossed in
    let in_window : time_diff t.at_station t.read_at ≤ q.consumer.delta_t_fuse =
      omega (arith, r.window, l.window) in
    let (entering_now, part, _, _, _) =
      arrival_enters k t.read_at t.at_station b bs t.to_station q r.quiet quiet in_window
        (ap (λ (c : StationController). c.state) station ∙ w.station_idle)
        (ap (λ (c : StationController). c.station) station ∙ w.station_is) in
    let (machines, _, empty) =
      arrival_round k t.read_at t.at_station b bs t.to_station q r.quiet quiet in_window in
    let alone =
      ap (pusher k) machines
      ∙ station_alone k (seen k t.at_station) (some (hex (b ∷ bs))) t.to_station q.machines refl in
    (entering_now, part, subst Confirming (sym alone) awaits, empty)
