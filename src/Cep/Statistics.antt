-- ===== src/Cep/Statistics.antt =====
-- physical_system/cep_consumer.py: get_statistics and _print_statistics.
use circular_manu_system.Base.{List, [], suc, zero, ℕ, ◌*◌, ◌∷◌}
use circular_manu_system.Base.Int.{Ratio, pos, whole}
use circular_manu_system.Base.Text.{Text, codes}
use circular_manu_system.Cep.{Consumer, Stats}

-- `self.stats.copy()`
abbrev pub get_statistics : Consumer → Stats
get_statistics c = c.stats

-- The items of the dictionary, in its order.
abbrev pub stats_items : Stats → List (Text × ℕ)
stats_items s =
    (codes "fused_events", s.fused_events)
    ∷ (codes "orphaned_gpio", s.orphaned_gpio)
    ∷ (codes "ghost_nfc", s.ghost_nfc)
    ∷ (codes "total_gpio", s.total_gpio)
    ∷ (codes "total_nfc", s.total_nfc)
    ∷ []

-- The last printed line, if there is one.
rate_line : ℕ → ℕ → List (Text × Ratio)
rate_line fused zero = []
rate_line fused (suc n) =
    (codes "Fusion rate", record { numerator = pos (fused * 100); denominator = suc n }) ∷ []

-- The labels and values that `_print_statistics` prints; the counts are whole.
unfoldable pub print_statistics : Stats → List (Text × Ratio)
unfolding rate_line
print_statistics s =
    (codes "Total GPIO events", whole (pos s.total_gpio))
    ∷ (codes "Total NFC events", whole (pos s.total_nfc))
    ∷ (codes "Fused events", whole (pos s.fused_events))
    ∷ (codes "Orphaned GPIO", whole (pos s.orphaned_gpio))
    ∷ (codes "Ghost NFC", whole (pos s.ghost_nfc))
    ∷ rate_line s.fused_events s.total_gpio
