-- ===== src/Corner/Apart.antt =====
-- Which motors the methods of physical_system/corner_controller.py drive.
use circular_manu_system.Corner
use circular_manu_system.Base.{arith, false, refl, some, ℕ, ◌<◌, ◌==◌, ◌≡◌}
use circular_manu_system.Base.Int.{neg, ℤ}
use circular_manu_system.Base.Quad.{Corner, corner1, corner2, corner3, corner4}
use circular_manu_system.Base.Text.{codes}
use circular_manu_system.Collision.{clear_handshake_wait, release_corner, request_corner}
use circular_manu_system.Corner.{
  CornerCall, CornerController, cancel_handshake, complete_approach, extending, feed_motor_num,
  halt_pusher, handle_retracting, handle_waiting_for_confirmation, log_push, motor_num, on_feed,
  on_manager, ready_to_push, retracting, try_to_push,
}
use circular_manu_system.Events.{FusedEvent}
use circular_manu_system.Shop.{Shop, Timer, cancel, log, set_motor, stop_motor, to_influx}
use circular_manu_system.Shop.Throttles.{Untouched, set_motor-Untouched, stop_motor-Untouched}

feed-Untouched :
    (n : ℕ) (k : Corner) (speed : ℤ) (s : Shop)
    → 2 < n
    → Untouched n s (on_feed (λ i. set_motor i speed) (feed_motor_num k) s)
unfolding on_feed
feed-Untouched n corner1 speed s h = set_motor-Untouched n 1 speed s (ground arith)
feed-Untouched n corner2 speed s h = (refl, refl)
feed-Untouched n corner3 speed s h = set_motor-Untouched n 2 speed s (ground arith)
feed-Untouched n corner4 speed s h = (refl, refl)

halt_feed-Untouched :
    (n : ℕ) (k : Corner) (s : Shop)
    → 2 < n
    → Untouched n s (on_feed stop_motor (feed_motor_num k) s)
unfolding on_feed
halt_feed-Untouched n corner1 s h = stop_motor-Untouched n 1 s (ground arith)
halt_feed-Untouched n corner2 s h = (refl, refl)
halt_feed-Untouched n corner3 s h = stop_motor-Untouched n 2 s (ground arith)
halt_feed-Untouched n corner4 s h = (refl, refl)

abbrev pub IsOther : ℕ → CornerController → Type 0
IsOther n c = (2 < n) × (motor_num c.corner == n ≡ false)

handle_retracting-Untouched :
    (n : ℕ) (e : FusedEvent) (now : ℕ) (c : CornerController) (s : Shop)
    → IsOther n c
    → Untouched n s (handle_retracting e now (c, s)).1
unfolding handle_retracting to_influx log
handle_retracting-Untouched n e now c s h =
    let w1 =
      on_manager (λ j. release_corner j now)
        (log_push (codes "PUSH_COMPLETE") (codes "FINISH") now (halt_pusher (c, s))) in
    ground (
      arith,
      stop_motor-Untouched n (motor_num c.corner) s,
      feed-Untouched n c.corner c.config.conveyor_speed w1.1,
    )

handle_waiting-Untouched :
    (n : ℕ) (e : FusedEvent) (now : ℕ) (c : CornerController) (s : Shop)
    → IsOther n c
    → Untouched n s (handle_waiting_for_confirmation e now (c, s)).1
unfolding handle_waiting_for_confirmation to_influx
handle_waiting-Untouched n e now c s h =
    let w1 =
      Corner.transition_to retracting (on_manager clear_handshake_wait (cancel_handshake (c, s))) in
    ground (arith, set_motor-Untouched n (motor_num c.corner) (neg c.config.push_speed) w1.1)

pub process_event-Untouched :
    (n : ℕ) (e : FusedEvent) (now : ℕ) (c : CornerController) (s : Shop)
    → IsOther n c
    → Untouched n s (Corner.process_event e now (c, s)).1
unfolding Corner.process_event to_influx
process_event-Untouched n e now c s h = ground (
  arith,
  halt_feed-Untouched n c.corner s,
  stop_motor-Untouched n (motor_num c.corner) s,
  handle_waiting-Untouched n e now c s,
  handle_retracting-Untouched n e now c s,
)

try_to_push-Untouched :
    (n now : ℕ) (c : CornerController) (s : Shop)
    → IsOther n c
    → Untouched n s (try_to_push now (c, s)).1
unfolding try_to_push to_influx log
try_to_push-Untouched n now c s h =
    let s1 : Shop = record s { collision_mgr = (request_corner c.corner now s.collision_mgr).1 } in
    let w1 =
      log_push (codes "PUSH_START") (codes "START") now (Corner.transition_to extending (c, s1)) in
    ground (arith, set_motor-Untouched n (motor_num c.corner) c.config.push_speed w1.1)

pub fire-Untouched :
    (n : ℕ) (t : Timer CornerCall) (now : ℕ) (c : CornerController) (s : Shop)
    → IsOther n c
    → Untouched n s (Corner.fire t now (c, s)).1
unfolding Corner.fire complete_approach to_influx
fire-Untouched n t now c s h =
    let c1 = record c { timers = cancel (some t.handle) c.timers } in
    let w = Corner.transition_to ready_to_push (c1, s) in
    ground (arith, try_to_push-Untouched n now c1 s, try_to_push-Untouched n now w.0 w.1)
