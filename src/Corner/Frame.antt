-- ===== src/Corner/Frame.antt =====
-- What a step of one corner leaves alone: the other corners' entries in the collision manager, and
-- that no two adjacent corners are reserved.
use mathlib.Core.Path.{subst}
use circular_manu_system.Base.{arith, false, inl, inr, sym, ℕ, ◌≡◌, ◌⊎◌}
use circular_manu_system.Base.Quad.{Corner, get, put, same_corner}
use circular_manu_system.Collision.{
  clear_handshake_wait, release_corner, request_corner, set_handshake_wait,
}
use circular_manu_system.Collision.Laws.{Clear, release_corner-Clear, request_corner-Clear}
use circular_manu_system.Corner.{CornerCall, CornerController, fire, process_event}
use circular_manu_system.Events.{FusedEvent}
use circular_manu_system.Shop.{Shop, Timer, log, set_motor, stop_motor, to_influx}

abbrev pub Elsewhere : Corner → Corner → Shop → Shop → Type 0
Elsewhere c d s s' =
    same_corner c d ≡ false
    → (get s'.collision_mgr.corners_occupied d ≡ get s.collision_mgr.corners_occupied d)
      × (get s'.collision_mgr.corners_waiting_handshake d
          ≡ get s.collision_mgr.corners_waiting_handshake d)

pub process_event-Elsewhere :
    (e : FusedEvent) (now : ℕ) (c : CornerController) (s : Shop) (d : Corner)
    → Elsewhere c.corner d s (process_event e now (c, s)).1
unfolding process_event set_handshake_wait clear_handshake_wait release_corner to_influx set_motor
    stop_motor log
process_event-Elsewhere e now c s d n = ground arith

pub fire-Elsewhere :
    (t : Timer CornerCall) (now : ℕ) (c : CornerController) (s : Shop) (d : Corner)
    → Elsewhere c.corner d s (fire t now (c, s)).1
unfolding fire clear_handshake_wait to_influx set_motor log request_corner
fire-Elsewhere t now c s d n = ground arith

pub process_event-corner :
    (e : FusedEvent) (now : ℕ) (c : CornerController) (s : Shop)
    → (process_event e now (c, s)).0.corner ≡ c.corner
unfolding process_event
process_event-corner e now c s = ground arith

pub fire-corner :
    (t : Timer CornerCall) (now : ℕ) (c : CornerController) (s : Shop)
    → (fire t now (c, s)).0.corner ≡ c.corner
unfolding fire
fire-corner t now c s = ground arith

process_event-occupied :
    (e : FusedEvent) (now : ℕ) (c : CornerController) (s : Shop)
    → ((process_event e now (c, s)).1.collision_mgr.corners_occupied
        ≡ s.collision_mgr.corners_occupied)
      ⊎ ((process_event e now (c, s)).1.collision_mgr.corners_occupied
          ≡ put s.collision_mgr.corners_occupied c.corner false)
unfolding process_event set_handshake_wait clear_handshake_wait release_corner to_influx set_motor
    stop_motor log
process_event-occupied e now c s = ground arith

fire-occupied :
    (t : Timer CornerCall) (now : ℕ) (c : CornerController) (s : Shop)
    → ((fire t now (c, s)).1.collision_mgr.corners_occupied ≡ s.collision_mgr.corners_occupied)
      ⊎ ((fire t now (c, s)).1.collision_mgr.corners_occupied
          ≡ (request_corner c.corner now s.collision_mgr).1.corners_occupied)
unfolding fire clear_handshake_wait to_influx set_motor log
fire-occupied t now c s = ground arith

pub process_event-Clear :
    (e : FusedEvent) (now : ℕ) (c : CornerController) (s : Shop)
    → Clear s.collision_mgr.corners_occupied
    → Clear (process_event e now (c, s)).1.collision_mgr.corners_occupied
unfolding release_corner
process_event-Clear e now c s h = elim (process_event-occupied e now c s) [
  | inl same_table ↦ subst Clear (sym same_table) h
  | inr freed ↦ subst Clear (sym freed) (release_corner-Clear c.corner now s.collision_mgr h)
]

pub fire-Clear :
    (t : Timer CornerCall) (now : ℕ) (c : CornerController) (s : Shop)
    → Clear s.collision_mgr.corners_occupied
    → Clear (fire t now (c, s)).1.collision_mgr.corners_occupied
fire-Clear t now c s h = elim (fire-occupied t now c s) [
  | inl same_table ↦ subst Clear (sym same_table) h
  | inr asked ↦ subst Clear (sym asked) (request_corner-Clear c.corner now s.collision_mgr h)
]
