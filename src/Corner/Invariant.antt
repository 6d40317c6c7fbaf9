-- ===== src/Corner/Invariant.antt =====
-- The state of a corner between two steps, beside what the collision manager records of it.
use mathlib.Core.Path.{subst}
use circular_manu_system.Base.{
  Bool, Bool-cases, [], ap, arith, false, inl, inr, refl, some, sym, true, ℕ, ◌+◌, ◌∙◌, ◌∷◌, ◌≡◌,
}
use circular_manu_system.Base.Lists.{In, keep}
use circular_manu_system.Base.Quad.{get}
use circular_manu_system.Collision.{
  clear_handshake_wait, release_corner, request_corner, set_handshake_wait,
}
use circular_manu_system.Corner.{
  CornerCall, CornerController, Work, complete_approach, confirmation_sensor, ext_barrier,
  extending, feed_motor_num, final_approach, final_approach_complete, fire, handshake_timeout, idle,
  may_stop_feed, pos_barrier, process_event, ready_to_push, ret_barrier, retracting, run_call,
  try_push, try_to_push, waiting_for_confirmation,
}
use circular_manu_system.Events.{FusedEvent, same}
use circular_manu_system.Shop.{Shop, Timer, cancel, log, set_motor, stop_motor, to_influx}

abbrev pub occupied : CornerController → Shop → Bool
occupied c s = get s.collision_mgr.corners_occupied c.corner

abbrev pub waiting : CornerController → Shop → Bool
waiting c s = get s.collision_mgr.corners_waiting_handshake c.corner

-- The timer of the state is pending, and no other; the corner is reserved exactly while its pusher
-- is out of its rest position; the handshake flag stands exactly while the handshake may time out.
pub data Rests (c : CornerController) (s : Shop) : Type 0 where
  resting : c.state ≡ idle → c.timers ≡ [] → occupied c s ≡ false → waiting c s ≡ false → Rests c s
  approaching :
      (t : Timer CornerCall)
      → c.state ≡ final_approach
      → c.timers ≡ t ∷ []
      → t.call ≡ final_approach_complete
      → c.approach_timer ≡ some t.handle
      → occupied c s ≡ false
      → waiting c s ≡ false
      → Rests c s
  asking :
      (t : Timer CornerCall)
      → c.state ≡ ready_to_push
      → c.timers ≡ t ∷ []
      → t.call ≡ try_push
      → occupied c s ≡ false
      → waiting c s ≡ false
      → Rests c s
  reaching_out :
      c.state ≡ extending → c.timers ≡ [] → occupied c s ≡ true → waiting c s ≡ false → Rests c s
  confirming :
      (t : Timer CornerCall)
      → c.state ≡ waiting_for_confirmation
      → c.timers ≡ t ∷ []
      → t.call ≡ handshake_timeout
      → c.handshake_timer ≡ some t.handle
      → occupied c s ≡ true
      → waiting c s ≡ true
      → Rests c s
  jammed :
      c.state ≡ waiting_for_confirmation
      → c.timers ≡ []
      → occupied c s ≡ true
      → waiting c s ≡ false
      → Rests c s
  pulling_back :
      c.state ≡ retracting → c.timers ≡ [] → occupied c s ≡ true → waiting c s ≡ false → Rests c s

abbrev RestsAfter : Work → Type 0
RestsAfter w = Rests w.0 w.1

pub process_event-Rests :
    (e : FusedEvent) (now : ℕ) (c : CornerController) (s : Shop)
    → Rests c s
    → RestsAfter (process_event e now (c, s))
unfolding process_event set_handshake_wait clear_handshake_wait release_corner to_influx set_motor
    stop_motor log cancel keep
process_event-Rests e now c s (resting st ti oc wa) =
    elim (Bool-cases (same e.barrier_id (pos_barrier c.corner))) [
      | inl hit ↦ elim (Bool-cases (may_stop_feed (feed_motor_num c.corner) s)) [
        | inl safe ↦
            approaching
              (record {
                handle = c.started;
                due = now + c.config.final_delay;
                call = final_approach_complete;
              })
              (ground arith) (ground arith) refl (ground arith) (ground arith) (ground arith)
        | inr busy ↦ resting (ground arith) (ground arith) (ground arith) (ground arith)
      ]
      | inr miss ↦ resting (ground arith) (ground arith) (ground arith) (ground arith)
    ]
process_event-Rests e now c s (approaching t st ti ca ha oc wa) =
    approaching t (ground arith) (ground arith) ca (ground arith) (ground arith) (ground arith)
process_event-Rests e now c s (asking t st ti ca oc wa) =
    asking t (ground arith) (ground arith) ca (ground arith) (ground arith)
process_event-Rests e now c s (reaching_out st ti oc wa) =
    elim (Bool-cases (same e.barrier_id (ext_barrier c.corner))) [
      | inl hit ↦
          confirming
            (record {
              handle = c.started;
              due = now + c.config.handshake_timeout;
              call = CornerCall.handshake_timeout;
            })
            (ground arith) (ground arith) refl (ground arith) (ground arith) (ground arith)
      | inr miss ↦ reaching_out (ground arith) (ground arith) (ground arith) (ground arith)
    ]
process_event-Rests e now c s (confirming t st ti ca ha oc wa) =
    elim (Bool-cases (same e.barrier_id (confirmation_sensor c.corner))) [
      | inl hit ↦ pulling_back (ground arith) (ground arith) (ground arith) (ground arith)
      | inr miss ↦
          confirming t (ground arith) (ground arith) ca (ground arith) (ground arith) (ground arith)
    ]
process_event-Rests e now c s (jammed st ti oc wa) =
    elim (Bool-cases (same e.barrier_id (confirmation_sensor c.corner))) [
      | inl hit ↦ pulling_back (ground arith) (ground arith) (ground arith) (ground arith)
      | inr miss ↦ jammed (ground arith) (ground arith) (ground arith) (ground arith)
    ]
process_event-Rests e now c s (pulling_back st ti oc wa) =
    elim (Bool-cases (same e.barrier_id (ret_barrier c.corner))) [
      | inl hit ↦ resting (ground arith) (ground arith) (ground arith) (ground arith)
      | inr miss ↦ pulling_back (ground arith) (ground arith) (ground arith) (ground arith)
    ]

-- A request by a corner that is not reserved and has no timer left.
try_to_push-Rests :
    (now : ℕ) (c : CornerController) (s : Shop)
    → c.state ≡ ready_to_push
    → c.timers ≡ []
    → occupied c s ≡ false
    → waiting c s ≡ false
    → RestsAfter (try_to_push now (c, s))
unfolding try_to_push request_corner to_influx set_motor log
try_to_push-Rests now c s st ti oc wa =
    elim (Bool-cases (request_corner c.corner now s.collision_mgr).0) [
      | inl granted ↦ reaching_out (ground arith) (ground arith) (ground arith) (ground arith)
      | inr refused ↦
          asking (record { handle = c.started; due = now + 200_000; call = CornerCall.try_push })
            (ground arith) (ground arith) refl (ground arith) (ground arith)
    ]

arrive-Rests :
    (now : ℕ) (c : CornerController) (s : Shop)
    → c.timers ≡ []
    → occupied c s ≡ false
    → waiting c s ≡ false
    → RestsAfter (complete_approach now (c, s))
unfolding complete_approach to_influx
arrive-Rests now c s ti oc wa = try_to_push-Rests now _ _ refl ti oc wa

unfoldable pub without : Timer CornerCall → CornerController → CornerController
without t c = record c { timers = cancel (some t.handle) c.timers }

pub fire-run_call :
    (t : Timer CornerCall) (call : CornerCall) (now : ℕ) (c : CornerController) (s : Shop)
    → t.call ≡ call
    → fire t now (c, s) ≡ run_call call now (without t c, s)
unfolding fire without
fire-run_call t call now c s e = ap (λ k. run_call k now (without t c, s)) e

pub without_only :
    (t u : Timer CornerCall) (c : CornerController)
    → c.timers ≡ u ∷ []
    → In t c.timers
    → ((without t c).timers ≡ []) × (t.call ≡ u.call)
unfolding without cancel keep
without_only t u c e p = ground arith

pub fire-Rests :
    (t : Timer CornerCall) (now : ℕ) (c : CornerController) (s : Shop)
    → In t c.timers
    → Rests c s
    → RestsAfter (fire t now (c, s))
unfolding fire cancel keep clear_handshake_wait without
fire-Rests t now c s p (resting st ti oc wa) = absurd (ground arith)
fire-Rests t now c s p (approaching u st ti ca ha oc wa) =
    let (none_left, same_call) = without_only t u c ti p in
    subst RestsAfter (sym (fire-run_call t final_approach_complete now c s (same_call ∙ ca)))
      (arrive-Rests now (without t c) s none_left oc wa)
fire-Rests t now c s p (asking u st ti ca oc wa) =
    let (none_left, same_call) = without_only t u c ti p in
    subst RestsAfter (sym (fire-run_call t CornerCall.try_push now c s (same_call ∙ ca)))
      (try_to_push-Rests now (without t c) s st none_left oc wa)
fire-Rests t now c s p (reaching_out st ti oc wa) = absurd (ground arith)
fire-Rests t now c s p (confirming u st ti ca ha oc wa) =
    jammed (ground arith) (ground arith) (ground arith) (ground arith)
fire-Rests t now c s p (jammed st ti oc wa) = absurd (ground arith)
fire-Rests t now c s p (pulling_back st ti oc wa) = absurd (ground arith)
