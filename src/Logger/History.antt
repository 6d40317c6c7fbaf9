-- ===== src/Logger/History.antt =====
-- The data logger over a whole history of calls of `log_event`.
use circular_manu_system.Base.{
  Bool, List, Option, [], arith, false, if◌then◌else◌, refl, true, ℕ, ◌&&◌, ◌++◌, ◌+◌, ◌∙◌, ◌∷◌,
  ◌≡◌,
}
use circular_manu_system.Base.Text.{Text, codes, text_eq, text_eq_iff}
use circular_manu_system.Events.{Station, station1, station2}
use circular_manu_system.Logger.{
  DataLogger, Row, corner_metrics, enter, exit, init, place_metrics, station_metrics, update_kpis,
  update_realtime_metrics, which_station,
}
use circular_manu_system.Logger.Log.{logged, or_inferred, row}

pub record Entry : Type 0 where
  pub part_id : Text
  pub station_id : Text
  pub activity : Text
  pub tag : Option Text
  pub time : ℕ

abbrev pub log_entry : Entry → DataLogger → DataLogger
log_entry e d = logged e.part_id e.station_id e.activity e.tag e.time d

unfoldable pub log_all : List Entry → DataLogger → DataLogger
log_all [] d = d
log_all (e ∷ es) d = log_all es (log_entry e d)

abbrev is_exit : Row → Bool
is_exit r = text_eq r.activity (codes "EXIT")

abbrev is_exit_at : Text → Row → Bool
is_exit_at id r = is_exit r && text_eq r.station_id id

abbrev pub count : (Row → Bool) → List Row → ℕ
count test [] = 0
count test (r ∷ rs) = (if test r then 1 else 0) + count test rs

count-append :
    (test : Row → Bool) (rs qs : List Row) → count test (rs ++ qs) ≡ count test rs + count test qs
count-append test [] qs = omega arith
count-append test (r ∷ rs) qs = omega (arith, count-append test rs qs)

-- The counters say what the rows of the log say.
pub record Agrees (d : DataLogger) : Type 0 where
  pub all_exits : d.total_parts ≡ count is_exit d.rows
  pub exits1 : d.station1_count ≡ count (is_exit_at (codes "S1")) d.rows
  pub exits2 : d.station2_count ≡ count (is_exit_at (codes "S2")) d.rows

pub init-Agrees : (now : ℕ) → Agrees (init now)
unfolding init
init-Agrees now = omega arith

abbrev pub SameCounts : DataLogger → DataLogger → Type 0
SameCounts d e =
    (e.rows ≡ d.rows)
    × (e.total_parts ≡ d.total_parts)
    × (e.station1_count ≡ d.station1_count)
    × (e.station2_count ≡ d.station2_count)

enter-SameCounts :
    (p id : Text) (s : Station) (now : ℕ) (d : DataLogger) → SameCounts d (enter p id s now d)
unfolding enter
enter-SameCounts p id station1 now d = ground arith
enter-SameCounts p id _ now d = ground arith

exit-SameCounts :
    (p id : Text) (s : Station) (now : ℕ) (d : DataLogger) → SameCounts d (exit p id s now d)
unfolding exit
exit-SameCounts p id station1 now d = ground arith
exit-SameCounts p id _ now d = ground arith

pub place_metrics-SameCounts :
    (p id activity : Text) (now : ℕ) (d : DataLogger)
    → SameCounts d (place_metrics p id activity now d)
unfolding place_metrics station_metrics corner_metrics
place_metrics-SameCounts p id activity now d = ground (
  arith,
  enter-SameCounts p id station1 now d,
  enter-SameCounts p id station2 now d,
  exit-SameCounts p id station1 now d,
  exit-SameCounts p id station2 now d,
)

s1-ne-s2 : (id : Text) → text_eq id (codes "S1") ≡ true → text_eq id (codes "S2") ≡ false
s1-ne-s2 id h = rw ((text_eq_iff id (codes "S1")).0 h) (unfold text_eq in refl)

update_kpis-Agrees :
    (r : Row) (d : DataLogger)
    → Agrees d
    → Agrees (update_kpis r.station_id r.activity (record d { rows = d.rows ++ r ∷ [] }))
unfolding update_kpis which_station
update_kpis-Agrees r d h = ground (
  arith,
  s1-ne-s2 r.station_id,
  count-append is_exit d.rows (r ∷ []),
  count-append (is_exit_at (codes "S1")) d.rows (r ∷ []),
  count-append (is_exit_at (codes "S2")) d.rows (r ∷ []),
)

Agrees-same : (d e : DataLogger) → SameCounts d e → Agrees d → Agrees e
Agrees-same d e s h = ground arith

logged-Agrees : (e : Entry) (d : DataLogger) → Agrees d → Agrees (log_entry e d)
unfolding logged update_realtime_metrics
logged-Agrees e d h =
    Agrees-same _ _ (place_metrics-SameCounts e.part_id e.station_id e.activity e.time _)
      (update_kpis-Agrees _ d h)

-- If the three counters of finished parts are the numbers of EXIT rows in the log, overall, of
-- station 1 and of station 2, then they still are after any list of calls of log_event.
pub log_all-Agrees : (es : List Entry) (d : DataLogger) → Agrees d → Agrees (log_all es d)
unfolding log_all
log_all-Agrees [] d h = h
log_all-Agrees (e ∷ es) d h = log_all-Agrees es (log_entry e d) (logged-Agrees e d h)

update_kpis-rows : (id activity : Text) (d : DataLogger) → (update_kpis id activity d).rows ≡ d.rows
unfolding update_kpis
update_kpis-rows id activity d = ground arith

-- A call adds one row to the log.
pub rows-logged :
    (p id activity : Text) (tag : Option Text) (now : ℕ) (d : DataLogger)
    → (logged p id activity tag now d).rows
      ≡ d.rows ++ row now id p activity (or_inferred tag activity) ∷ []
unfolding logged update_realtime_metrics
rows-logged p id activity tag now d =
    (place_metrics-SameCounts p id activity now _).0 ∙ update_kpis-rows id activity _
