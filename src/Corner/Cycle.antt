-- ===== src/Corner/Cycle.antt =====
-- One whole transfer by a corner, if each event reaches it: the protocol that the state machine is
-- written for.
use circular_manu_system.Base.{[], arith, none, refl, some, true, ℕ, ◌+◌, ◌∷◌, ◌≡◌}
use circular_manu_system.Base.Lists.{keep}
use circular_manu_system.Collision.{
  clear_handshake_wait, release_corner, request_corner, set_handshake_wait,
}
use circular_manu_system.Corner.{
  CornerCall, CornerController, Work, confirmation_sensor, ext_barrier, extending, feed_motor_num,
  final_approach, final_approach_complete, fire, idle, may_stop_feed, pos_barrier, process_event,
  ret_barrier, retracting, waiting_for_confirmation,
}
use circular_manu_system.Events.{Barrier, FusedEvent, at_corner, place, same, same_refl}
use circular_manu_system.Shop.{Shop, Timer, cancel, log, set_motor, stop_motor, to_influx}

abbrev pub event : Barrier → FusedEvent
event b = record { timestamp = 0; barrier_id = b; part_id = none; location = place at_corner 0 }

abbrev pub approach_of : CornerController → ℕ → Timer CornerCall
approach_of c now = record {
  handle = c.started;
  due = now + c.config.final_delay;
  call = final_approach_complete;
}

-- What the steps of a transfer leave of a controller.
abbrev pub Remains : CornerController → CornerController → Type 0
Remains c c' = (c'.corner ≡ c.corner) × (c'.config ≡ c.config)

pub arrive :
    (e : FusedEvent) (now : ℕ) (c : CornerController) (s : Shop)
    → same e.barrier_id (pos_barrier c.corner) ≡ true
    → c.state ≡ idle
    → c.timers ≡ []
    → may_stop_feed (feed_motor_num c.corner) s ≡ true
    → let w = process_event e now (c, s) in
      (w.0.state ≡ final_approach)
      × (w.0.timers ≡ approach_of c now ∷ [])
      × Remains c w.0
      × (w.1.collision_mgr ≡ s.collision_mgr)
unfolding process_event to_influx stop_motor
arrive e now c s hit st ti safe = ground arith

pub push :
    (t : Timer CornerCall) (now : ℕ) (c : CornerController) (s : Shop)
    → c.timers ≡ t ∷ []
    → t.call ≡ final_approach_complete
    → (request_corner c.corner now s.collision_mgr).0 ≡ true
    → let w = fire t now (c, s) in
      (w.0.state ≡ extending)
      × (w.0.timers ≡ [])
      × Remains c w.0
      × (w.1.collision_mgr ≡ (request_corner c.corner now s.collision_mgr).1)
unfolding fire to_influx set_motor log cancel keep
push t now c s ti ca granted = ground arith

pub extend :
    (e : FusedEvent) (now : ℕ) (c : CornerController) (s : Shop)
    → same e.barrier_id (ext_barrier c.corner) ≡ true
    → c.state ≡ extending
    → c.timers ≡ []
    → let w = process_event e now (c, s) in
      (w.0.state ≡ waiting_for_confirmation)
      × Remains c w.0
      × ((t : Timer CornerCall) × (w.0.timers ≡ t ∷ [])
          × (w.0.handshake_timer ≡ some t.handle)
          × (t.call ≡ CornerCall.handshake_timeout))
      × (w.1.collision_mgr ≡ set_handshake_wait c.corner s.collision_mgr)
unfolding process_event to_influx stop_motor
extend e now c s hit st ti = (
  ground arith,
  (ground arith, ground arith),
  (
    record {
      handle = c.started;
      due = now + c.config.handshake_timeout;
      call = CornerCall.handshake_timeout;
    },
    ground arith,
    ground arith,
    refl,
  ),
  ground arith,
)

confirm :
    (t : Timer CornerCall) (now : ℕ) (c : CornerController) (s : Shop)
    → c.state ≡ waiting_for_confirmation
    → c.timers ≡ t ∷ []
    → c.handshake_timer ≡ some t.handle
    → let w = process_event (event (confirmation_sensor c.corner)) now (c, s) in
      (w.0.state ≡ retracting)
      × (w.0.timers ≡ [])
      × Remains c w.0
      × (w.1.collision_mgr ≡ clear_handshake_wait c.corner s.collision_mgr)
unfolding process_event to_influx set_motor cancel keep
confirm t now c s st ti ha = ground (arith, same_refl (confirmation_sensor c.corner))

retract :
    (now : ℕ) (c : CornerController) (s : Shop)
    → c.state ≡ retracting
    → c.timers ≡ []
    → let w = process_event (event (ret_barrier c.corner)) now (c, s) in
      (w.0.state ≡ idle)
      × (w.0.timers ≡ [])
      × Remains c w.0
      × (w.1.collision_mgr ≡ release_corner c.corner now s.collision_mgr)
unfolding process_event to_influx set_motor stop_motor log
retract now c s st ti = ground (arith, same_refl (ret_barrier c.corner))

-- The part arrives, the approach ends, the pusher is out, the part is seen at the next sensor, and
-- the pusher is back, at the five times.
module _ (t1 t2 t3 t4 t5 : ℕ) where
  pub at_position : Work → Work
  at_position w = process_event (event (pos_barrier w.0.corner)) t1 w

  pub pushed : Work → Work
  pushed w = fire (approach_of w.0 t1) t2 (at_position w)

  pub extended : Work → Work
  extended w = process_event (event (ext_barrier (pushed w).0.corner)) t3 (pushed w)

  pub confirmed : Work → Work
  confirmed w = process_event (event (confirmation_sensor (extended w).0.corner)) t4 (extended w)

  unfoldable pub transfer : Work → Work
  transfer w = process_event (event (ret_barrier (confirmed w).0.corner)) t5 (confirmed w)

  -- From the idle state with no timer, if the feed conveyor may be stopped and the request at the
  -- end of the approach is granted, a corner that is given the events of the position, extension,
  -- confirmation and retraction sensors is idle again with no timer, and the collision manager has
  -- seen the request, the handshake flag set and cleared, and the release, in this order.
  pub transfer_completes :
      (c : CornerController) (s : Shop)
      → c.state ≡ idle
      → c.timers ≡ []
      → may_stop_feed (feed_motor_num c.corner) s ≡ true
      → (request_corner c.corner t2 s.collision_mgr).0 ≡ true
      → ((transfer (c, s)).0.state ≡ idle)
        × ((transfer (c, s)).0.timers ≡ [])
        × ((transfer (c, s)).1.collision_mgr
            ≡ release_corner c.corner t5 (
                clear_handshake_wait c.corner
                  (set_handshake_wait c.corner (request_corner c.corner t2 s.collision_mgr).1)))
  unfolding transfer confirmed extended pushed at_position
  transfer_completes c s st ti safe granted =
      let w = at_position (c, s) in
      let a =
        arrive (event (pos_barrier c.corner)) t1 c s (same_refl (pos_barrier c.corner)) st ti
          safe in
      let b = push (approach_of c t1) t2 w.0 w.1 a.1 refl (rw (a.2.0, a.3) granted) in
      let p = pushed (c, s) in
      let d =
        extend (event (ext_barrier p.0.corner)) t3 p.0 p.1 (same_refl (ext_barrier p.0.corner)) b.0
          b.1 in
      let x = extended (c, s) in
      let (timer, only, handle, _) = d.2 in
      let e = confirm timer t4 x.0 x.1 d.0 only handle in
      let y = confirmed (c, s) in
      let f = retract t5 y.0 y.1 e.0 e.1 in
      (f.0, f.1, cc (a.2.0, a.3, b.2.0, b.3, d.1.0, d.3, e.2.0, e.3, f.3))
