-- ===== src/Collision/Laws.antt =====
-- physical_system/collision_manager.py: when a reservation is granted, and what it leaves.
use circular_manu_system.Base.{Bool, arith, false, true, ℕ, ◌+◌, ◌↔◌, ◌≡◌, ◌≤◌}
use circular_manu_system.Base.Lists.{All}
use circular_manu_system.Base.Quad.{Corner, Quad, corner1, corner2, corner3, corner4, get}
use circular_manu_system.Collision.{
  CollisionManager, adjacent_corners, init, release_corner, request_corner,
}

-- No two adjacent corners are occupied.
abbrev pub Clear : Quad Bool → Type 0
Clear occupied =
    (c : Corner)
    → get occupied c ≡ true
    → All (λ adj. get occupied adj ≡ false) (adjacent_corners c)

pub init-Clear : Clear init.corners_occupied
unfolding init
init-Clear corner1 h = ground arith
init-Clear _ h = ground arith

-- If no two adjacent corners are occupied, then none are after a request, granted or not.
pub request_corner-Clear :
    (c : Corner) (now : ℕ) (m : CollisionManager)
    → Clear m.corners_occupied
    → Clear (request_corner c now m).1.corners_occupied
unfolding request_corner
request_corner-Clear corner1 now m h e = ground (arith, h corner1, h corner2, h corner3, h corner4)
request_corner-Clear corner2 now m h e = ground (arith, h corner1, h corner2, h corner3, h corner4)
request_corner-Clear corner3 now m h e = ground (arith, h corner1, h corner2, h corner3, h corner4)
request_corner-Clear corner4 now m h e = ground (arith, h corner1, h corner2, h corner3, h corner4)

pub release_corner-Clear :
    (c : Corner) (now : ℕ) (m : CollisionManager)
    → Clear m.corners_occupied
    → Clear (release_corner c now m).corners_occupied
unfolding release_corner
release_corner-Clear corner1 now m h e = ground (arith, h corner1, h corner2, h corner3, h corner4)
release_corner-Clear _ now m h e = ground (arith, h corner1, h corner2, h corner3, h corner4)

-- A request is granted exactly if the corner is free, its minimum interval since the last use has
-- passed, and both adjacent corners are free.
pub request_corner_iff :
    (c : Corner) (now : ℕ) (m : CollisionManager)
    → ((request_corner c now m).0 ≡ true) ↔ (
        (get m.corners_occupied c ≡ false)
        × (get m.corner_last_used c + m.min_interval ≤ now)
        × All (λ adj. get m.corners_occupied adj ≡ false) (adjacent_corners c))
unfolding request_corner
request_corner_iff corner1 now m = ground arith
request_corner_iff _ now m = ground arith
