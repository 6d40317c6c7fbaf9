-- ===== src/Collision.antt =====
-- physical_system/collision_manager.py: which corners may push at the same time.
-- A clock reading is a number of microseconds since the epoch. The lock is held for the whole of
-- each method, so a method is one step.
pub mod Laws
use circular_manu_system.Base.{
  Bool, List, [], false, if◌then◌else◌, ltb, not, true, ℕ, ◌+◌, ◌==◌, ◌||◌, ◌∷◌,
}
use circular_manu_system.Base.Quad.{
  Corner, Quad, all_four, corner1, corner2, corner3, corner4, get, put,
}

pub record CollisionManager : Type 0 where
  pub corners_occupied : Quad Bool
  pub corner_last_used : Quad ℕ
  pub corners_waiting_handshake : Quad Bool
  pub min_interval : ℕ

unfoldable pub init : CollisionManager
init = record {
  corners_occupied = all_four false;
  corner_last_used = all_four 0;
  corners_waiting_handshake = all_four false;
  min_interval = 2_000_000;
}

-- The table `adjacency`.
abbrev pub adjacent_corners : Corner → List Corner
adjacent_corners corner1 = corner2 ∷ corner4 ∷ []
adjacent_corners corner2 = corner1 ∷ corner3 ∷ []
adjacent_corners corner3 = corner2 ∷ corner4 ∷ []
adjacent_corners corner4 = corner1 ∷ corner3 ∷ []

-- The loop over the adjacent corners, which returns at the first that is occupied.
abbrev pub any_occupied : Quad Bool → List Corner → Bool
any_occupied occupied [] = false
any_occupied occupied (adj ∷ rest) = get occupied adj || any_occupied occupied rest

-- `time.time() - last_used < min_interval`, with no difference that could fall below 0.
too_soon : CollisionManager → Corner → ℕ → Bool
too_soon m c now = ltb now (get m.corner_last_used c + m.min_interval)

unfoldable pub request_corner : Corner → ℕ → CollisionManager → Bool × CollisionManager
unfolding too_soon
request_corner c now m =
    if get m.corners_occupied c
    then (false, m)
    else if too_soon m c now
    then (false, m)
    else if any_occupied m.corners_occupied (adjacent_corners c)
    then (false, m)
    else (true, record m { corners_occupied = put m.corners_occupied c true })

unfoldable pub release_corner : Corner → ℕ → CollisionManager → CollisionManager
release_corner c now m = record m {
  corners_occupied = put m.corners_occupied c false;
  corner_last_used = put m.corner_last_used c now;
}

unfoldable pub set_handshake_wait : Corner → CollisionManager → CollisionManager
set_handshake_wait c m = record m {
  corners_waiting_handshake = put m.corners_waiting_handshake c true;
}

unfoldable pub clear_handshake_wait : Corner → CollisionManager → CollisionManager
clear_handshake_wait c m = record m {
  corners_waiting_handshake = put m.corners_waiting_handshake c false;
}

unfoldable pub is_conveyor_safe_to_stop : ℕ → CollisionManager → Bool
is_conveyor_safe_to_stop feed_motor_num m =
    if feed_motor_num == 1
    then not (get m.corners_waiting_handshake corner2)
    else if feed_motor_num == 2
    then not (get m.corners_waiting_handshake corner4)
    else true

-- `get_status`: copies of two of the tables.
unfoldable pub get_status : CollisionManager → Quad Bool × Quad ℕ
get_status m = (m.corners_occupied, m.corner_last_used)
