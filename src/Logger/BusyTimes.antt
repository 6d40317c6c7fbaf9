-- ===== src/Logger/BusyTimes.antt =====
-- The busy times of the stations and corners, if the clock does not go back.
use circular_manu_system.Base.{Option, Option-cases, arith, inl, inr, none, some, ℕ, ◌+◌, ◌≡◌, ◌≤◌}
use circular_manu_system.Base.Int.{+ℤ_parts, neg_part, pos_part, sub_ℕ}
use circular_manu_system.Logger.{Busy, end_busy, free, start_busy}
use circular_manu_system.Logger.Kpis.{busy_time}

-- At time `t`, a resource has been busy for no longer than since `start`, and the stretch that is
-- not over yet began after the ones that are.
abbrev pub Until : ℕ → ℕ → ℕ → Option ℕ → Type 0
Until start t total none = total + start ≤ t
Until start t total (some u) = (total + start ≤ u) × (u ≤ t)

pub record Within (start t : ℕ) (b : Busy) : Type 0 where
  pub positive : neg_part b.total_busy_time ≡ 0
  pub bounded : Until start t (pos_part b.total_busy_time) b.busy_since

pub Within-later : (start t now : ℕ) (b : Busy) → t ≤ now → Within start t b → Within start now b
Within-later start t now b le h = record {
  positive = h.positive;
  bounded = ground (arith, h.bounded);
}

pub start_busy-Within :
    (start t now : ℕ) (b : Busy) → t ≤ now → Within start t b → Within start now (start_busy now b)
unfolding start_busy
start_busy-Within start t now b le h = ground arith

pub end_busy-Within :
    (start t now : ℕ) (b : Busy) → t ≤ now → Within start t b → Within start now (end_busy now b)
unfolding end_busy
end_busy-Within start t now b le h = elim (Option-cases b.busy_since) [
  | inl free ↦ ground arith
  | inr (u, since) ↦ ground (arith, +ℤ_parts b.total_busy_time (sub_ℕ now u))
]

pub busy_time-Within :
    (start now : ℕ) (b : Busy)
    → Within start now b
    → (neg_part (busy_time now b) ≡ 0) × (pos_part (busy_time now b) + start ≤ now)
unfolding busy_time
busy_time-Within start now b h = elim (Option-cases b.busy_since) [
  | inl free ↦ ground arith
  | inr (u, since) ↦ ground (arith, +ℤ_parts b.total_busy_time (sub_ℕ now u))
]
