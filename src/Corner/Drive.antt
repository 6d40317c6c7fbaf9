-- ===== src/Corner/Drive.antt =====
-- Which way the motor of a pusher runs in each state.
use mathlib.Core.Path.{subst}
use circular_manu_system.Corner
use circular_manu_system.Base.{arith, false, refl, some, sym, true, ℕ, ◌==◌, ◌∙◌, ◌≡◌}
use circular_manu_system.Base.Int.{neg, pos, ℤ}
use circular_manu_system.Base.Lists.{In}
use circular_manu_system.Base.Quad.{Corner, corner1, corner2, corner3, corner4}
use circular_manu_system.Base.Text.{codes}
use circular_manu_system.Collision.{clear_handshake_wait, release_corner, request_corner}
use circular_manu_system.Corner.{
  CornerCall, CornerController, CornerState, Work, complete_approach, corner_id, extending,
  feed_motor_num, final_approach, final_approach_complete, fire, halt_pusher, handle_extending,
  handle_idle, handle_retracting, handle_waiting_for_confirmation, idle, log_push, motor_num,
  on_feed, on_manager, process_event, ready_to_push, retracting, run_call, try_to_push,
  waiting_for_confirmation,
}
use circular_manu_system.Corner.Invariant.{
  Rests, approaching, asking, confirming, fire-run_call, jammed, pulling_back, reaching_out,
  resting, without, without_only,
}
use circular_manu_system.Events.{FusedEvent}
use circular_manu_system.Influx.{when_present, write_corner_state}
use circular_manu_system.Motors.{clamp, throttle}
use circular_manu_system.Motors.Laws.{reaches}
use circular_manu_system.Shop.{Shop, Timer, log, set_motor, stop_motor, to_influx}
use circular_manu_system.Shop.Throttles.{
  reaches-set_motor, reaches-stop_motor, throttle-set_motor, throttle-stop_motor,
}

-- The throttle that goes with a state: out, back, or still.
abbrev pub expected : CornerState → ℤ → ℤ
expected extending speed = clamp speed
expected retracting speed = clamp (neg speed)
expected _ speed = pos 0

pub record Driven (c : CornerController) (s : Shop) : Type 0 where
  pub drive : throttle s.motors (motor_num c.corner) ≡ expected c.state c.config.push_speed
  pub hardware : reaches s.motors (motor_num c.corner) ≡ true

-- A feed conveyor is not a pusher.
feed_apart : (k : Corner) (n : ℕ) → feed_motor_num k ≡ some n → n == motor_num k ≡ false
feed_apart corner1 n h = ground arith
feed_apart corner2 n h = ground arith
feed_apart corner3 n h = ground arith
feed_apart corner4 n h = ground arith

-- The feed conveyor's motor is set, and the throttle of the pusher stays.
on_feed-throttle :
    (k : Corner) (speed : ℤ) (s : Shop)
    → let s' = on_feed (λ n. set_motor n speed) (feed_motor_num k) s in
      (throttle s'.motors (motor_num k) ≡ throttle s.motors (motor_num k))
      × (reaches s'.motors (motor_num k) ≡ reaches s.motors (motor_num k))
unfolding on_feed
on_feed-throttle corner1 speed s =
    ground (arith, throttle-set_motor 1 5 speed s, reaches-set_motor 1 5 speed s)
on_feed-throttle corner2 speed s = (refl, refl)
on_feed-throttle corner3 speed s =
    ground (arith, throttle-set_motor 2 7 speed s, reaches-set_motor 2 7 speed s)
on_feed-throttle corner4 speed s = (refl, refl)

off_feed-throttle :
    (k : Corner) (s : Shop)
    → let s' = on_feed stop_motor (feed_motor_num k) s in
      (throttle s'.motors (motor_num k) ≡ throttle s.motors (motor_num k))
      × (reaches s'.motors (motor_num k) ≡ reaches s.motors (motor_num k))
unfolding on_feed
off_feed-throttle corner1 s = ground (arith, throttle-stop_motor 1 5 s, reaches-stop_motor 1 5 s)
off_feed-throttle corner2 s = (refl, refl)
off_feed-throttle corner3 s = ground (arith, throttle-stop_motor 2 7 s, reaches-stop_motor 2 7 s)
off_feed-throttle corner4 s = (refl, refl)

handle_idle-Driven :
    (e : FusedEvent) (now : ℕ) (c : CornerController) (s : Shop)
    → c.state ≡ idle
    → Driven c s
    → let w = handle_idle e now (c, s) in Driven w.0 w.1
unfolding handle_idle to_influx
handle_idle-Driven e now c s st h = ground (arith, off_feed-throttle c.corner s)

handle_extending-Driven :
    (e : FusedEvent) (now : ℕ) (c : CornerController) (s : Shop)
    → c.state ≡ extending
    → Driven c s
    → let w = handle_extending e now (c, s) in Driven w.0 w.1
unfolding handle_extending to_influx
handle_extending-Driven e now c s st h = ground (
  arith,
  throttle-stop_motor (motor_num c.corner) (motor_num c.corner) s,
  reaches-stop_motor (motor_num c.corner) (motor_num c.corner) s,
)

handle_waiting-Driven :
    (e : FusedEvent) (now : ℕ) (c : CornerController) (s : Shop)
    → c.state ≡ waiting_for_confirmation
    → Driven c s
    → let w = handle_waiting_for_confirmation e now (c, s) in Driven w.0 w.1
unfolding handle_waiting_for_confirmation to_influx
handle_waiting-Driven e now c s st h =
    let k = motor_num c.corner in
    let back = neg c.config.push_speed in
    let s' : Shop = record s {
      collision_mgr = clear_handshake_wait c.corner s.collision_mgr;
      influx_writer =
          when_present (write_corner_state (corner_id c.corner) (Corner.state_value retracting))
            s.influx_writer;
    } in
    ground (arith, throttle-set_motor k k back s', reaches-set_motor k k back s')

handle_retracting-Driven :
    (e : FusedEvent) (now : ℕ) (c : CornerController) (s : Shop)
    → c.state ≡ retracting
    → Driven c s
    → let w = handle_retracting e now (c, s) in Driven w.0 w.1
unfolding handle_retracting to_influx log
handle_retracting-Driven e now c s st h =
    let k = motor_num c.corner in
    let w1 =
      on_manager (λ j. release_corner j now)
        (log_push (codes "PUSH_COMPLETE") (codes "FINISH") now (halt_pusher (c, s))) in
    ground (
      arith,
      throttle-stop_motor k k s,
      reaches-stop_motor k k s,
      on_feed-throttle c.corner c.config.conveyor_speed w1.1,
    )

pub process_event-Driven :
    (e : FusedEvent) (now : ℕ) (c : CornerController) (s : Shop)
    → Driven c s
    → let w = process_event e now (c, s) in Driven w.0 w.1
unfolding process_event
process_event-Driven e now c s h = ground (
  arith,
  handle_idle-Driven e now c s,
  handle_extending-Driven e now c s,
  handle_waiting-Driven e now c s,
  handle_retracting-Driven e now c s,
)

try_to_push-Driven :
    (now : ℕ) (c : CornerController) (s : Shop)
    → c.state ≡ ready_to_push
    → Driven c s
    → let w = try_to_push now (c, s) in Driven w.0 w.1
unfolding try_to_push to_influx log
try_to_push-Driven now c s st h =
    let k = motor_num c.corner in
    let s1 : Shop = record s { collision_mgr = (request_corner c.corner now s.collision_mgr).1 } in
    let w1 =
      log_push (codes "PUSH_START") (codes "START") now (Corner.transition_to extending (c, s1)) in
    ground (
      arith,
      throttle-set_motor k k c.config.push_speed w1.1,
      reaches-set_motor k k c.config.push_speed w1.1,
    )

complete_approach-Driven :
    (now : ℕ) (c : CornerController) (s : Shop)
    → c.state ≡ final_approach
    → Driven c s
    → let w = complete_approach now (c, s) in Driven w.0 w.1
unfolding complete_approach to_influx
complete_approach-Driven now c s st h =
    let w = Corner.transition_to ready_to_push (c, s) in
    try_to_push-Driven now w.0 w.1 refl (record { drive = ground arith; hardware = h.hardware })

abbrev DrivenAfter : Work → Type 0
DrivenAfter w = Driven w.0 w.1

without-Driven :
    (t : Timer CornerCall) (c : CornerController) (s : Shop) → Driven c s → Driven (without t c) s
unfolding without
without-Driven t c s h = record { drive = h.drive; hardware = h.hardware }

pub fire-Driven :
    (t : Timer CornerCall) (now : ℕ) (c : CornerController) (s : Shop)
    → In t c.timers
    → Rests c s
    → Driven c s
    → DrivenAfter (fire t now (c, s))
unfolding without run_call complete_approach
fire-Driven t now c s p (resting st ti oc wa) h = absurd (ground arith)
fire-Driven t now c s p (approaching u st ti ca ha oc wa) h =
    let (none_left, same_call) = without_only t u c ti p in
    subst DrivenAfter (sym (fire-run_call t final_approach_complete now c s (same_call ∙ ca)))
      (complete_approach-Driven now (without t c) s st (without-Driven t c s h))
fire-Driven t now c s p (asking u st ti ca oc wa) h =
    let (none_left, same_call) = without_only t u c ti p in
    subst DrivenAfter (sym (fire-run_call t CornerCall.try_push now c s (same_call ∙ ca)))
      (try_to_push-Driven now (without t c) s st (without-Driven t c s h))
fire-Driven t now c s p (reaching_out st ti oc wa) h = absurd (ground arith)
fire-Driven t now c s p (confirming u st ti ca ha oc wa) h =
    let (none_left, same_call) = without_only t u c ti p in
    subst DrivenAfter (sym (fire-run_call t CornerCall.handshake_timeout now c s (same_call ∙ ca)))
      (record { drive = h.drive; hardware = h.hardware })
fire-Driven t now c s p (jammed st ti oc wa) h = absurd (ground arith)
fire-Driven t now c s p (pulling_back st ti oc wa) h = absurd (ground arith)
