-- ===== src/Logger/Within.antt =====
-- physical_system/data_logger.py: the busy times over a history of calls of log_event.
use circular_manu_system.Base.{
  Bool-cases, List, Option, Option-cases, [], arith, inl, inr, none, refl, some, ℕ, ◌∷◌, ◌≡◌, ◌≤◌,
}
use circular_manu_system.Base.Lists.{lookup}
use circular_manu_system.Base.Quad.{Corner, get, get-put, same_corner}
use circular_manu_system.Base.Text.{Text, codes, text_eq}
use circular_manu_system.Events.{Station, station1, station2}
use circular_manu_system.Logger.{
  Busy, DataLogger, corner_metrics, end_busy, enter, entry_key, exit, init, leave_system,
  place_metrics, record_cycle, set_corner_busy, set_station_busy, start_busy, station_busy,
  station_metrics, update_kpis, update_realtime_metrics, which_corner, which_station,
}
use circular_manu_system.Logger.BusyTimes.{Within, Within-later, end_busy-Within, start_busy-Within}
use circular_manu_system.Logger.History.{Entry, log_all, log_entry}
use circular_manu_system.Logger.Log.{logged}

pub record AllWithin (t : ℕ) (d : DataLogger) : Type 0 where
  pub within1 : Within d.system_start_time t d.state_s1
  pub within2 : Within d.system_start_time t d.state_s2
  pub within_corner : (c : Corner) → Within d.system_start_time t (get d.corner_states c)

pub AllWithin-later : (t now : ℕ) (d : DataLogger) → t ≤ now → AllWithin t d → AllWithin now d
AllWithin-later t now d le h = record {
  within1 = Within-later d.system_start_time t now d.state_s1 le h.within1;
  within2 = Within-later d.system_start_time t now d.state_s2 le h.within2;
  within_corner =
      λ c. Within-later d.system_start_time t now (get d.corner_states c) le (h.within_corner c);
}

-- The four fields that the bounds are about.
abbrev SameBusy : DataLogger → DataLogger → Type 0
SameBusy d e =
    (e.system_start_time ≡ d.system_start_time)
    × (e.state_s1 ≡ d.state_s1)
    × (e.state_s2 ≡ d.state_s2)
    × (e.corner_states ≡ d.corner_states)

SameBusy-AllWithin : (t : ℕ) (d e : DataLogger) → SameBusy d e → AllWithin t d → AllWithin t e
SameBusy-AllWithin t d e s h = record {
  within1 = rw (s.0, s.1) h.within1;
  within2 = rw (s.0, s.2) h.within2;
  within_corner = λ c. rw (s.0, s.3) (h.within_corner c);
}

set_busy-AllWithin :
    (s : Station) (now : ℕ) (b : Busy) (d : DataLogger)
    → Within d.system_start_time now b
    → AllWithin now d
    → AllWithin now (set_station_busy s b d)
set_busy-AllWithin station1 now b d w h = record {
  within1 = w;
  within2 = h.within2;
  within_corner = h.within_corner;
}
set_busy-AllWithin station2 now b d w h = record {
  within1 = h.within1;
  within2 = w;
  within_corner = h.within_corner;
}

station_busy-Within :
    (s : Station) (now : ℕ) (d : DataLogger)
    → AllWithin now d
    → Within d.system_start_time now (station_busy s d)
station_busy-Within station1 now d h = h.within1
station_busy-Within station2 now d h = h.within2

set_corner-AllWithin :
    (c : Corner) (now : ℕ) (b : Busy) (d : DataLogger)
    → Within d.system_start_time now b
    → AllWithin now d
    → AllWithin now (set_corner_busy c b d)
set_corner-AllWithin c now b d w h = record {
  within1 = h.within1;
  within2 = h.within2;
  within_corner = λ k. elim (Bool-cases (same_corner c k)) [
    | inl hit ↦ rw (get-put d.corner_states c k b, hit) w
    | inr miss ↦ rw (get-put d.corner_states c k b, miss) (h.within_corner k)
  ];
}

enter-AllWithin :
    (p id : Text) (s : Station) (now : ℕ) (d : DataLogger)
    → AllWithin now d
    → AllWithin now (enter p id s now d)
unfolding enter
enter-AllWithin p id s now d h =
    set_busy-AllWithin s now (start_busy now (station_busy s d)) _
      (start_busy-Within d.system_start_time now now (station_busy s d) (omega arith)
        (station_busy-Within s now d h))
      (SameBusy-AllWithin now d _ (refl, refl, refl, refl) h)

leave-SameBusy :
    (s : Station) (key : Text) (since : Option ℕ) (now : ℕ) (d : DataLogger)
    → SameBusy d (leave_system s (record_cycle s key since now d))
unfolding leave_system record_cycle
leave-SameBusy station1 key none now d = (refl, refl, refl, refl)
leave-SameBusy station1 key (some t) now d = (refl, refl, refl, refl)
leave-SameBusy station2 key none now d = (refl, refl, refl, refl)
leave-SameBusy station2 key (some t) now d = (refl, refl, refl, refl)

exit-AllWithin :
    (p id : Text) (s : Station) (now : ℕ) (d : DataLogger)
    → AllWithin now d
    → AllWithin now (exit p id s now d)
unfolding exit
exit-AllWithin p id s now d h =
    let key = entry_key p id in
    let since = lookup key d.station_entry_times in
    let d' = leave_system s (record_cycle s key since now d) in
    let h' = SameBusy-AllWithin now d d' (leave-SameBusy s key since now d) h in
    set_busy-AllWithin s now (end_busy now (station_busy s d')) d'
      (end_busy-Within d'.system_start_time now now (station_busy s d') (omega arith)
        (station_busy-Within s now d' h'))
      h'

corner_metrics-AllWithin :
    (activity : Text) (c : Corner) (now : ℕ) (d : DataLogger)
    → AllWithin now d
    → AllWithin now (corner_metrics activity c now d)
unfolding corner_metrics
corner_metrics-AllWithin activity c now d h =
    let started =
      start_busy-Within d.system_start_time now now (get d.corner_states c) (omega arith)
        (h.within_corner c) in
    let ended =
      end_busy-Within d.system_start_time now now (get d.corner_states c) (omega arith)
        (h.within_corner c) in
    elim (Bool-cases (text_eq activity (codes "PUSH_START"))) [
      | inl push ↦ rw push (set_corner-AllWithin c now _ d started h)
      | inr other ↦ elim (Bool-cases (text_eq activity (codes "PUSH_COMPLETE"))) [
        | inl complete ↦ rw (other, complete) (set_corner-AllWithin c now _ d ended h)
        | inr neither ↦ rw (other, neither) h
      ]
    ]

station_metrics-AllWithin :
    (p id activity : Text) (s : Station) (now : ℕ) (d : DataLogger)
    → AllWithin now d
    → AllWithin now (station_metrics p id activity s now d)
unfolding station_metrics
station_metrics-AllWithin p id activity s now d h =
    elim (Bool-cases (text_eq activity (codes "ENTER"))) [
      | inl enters ↦ rw enters (enter-AllWithin p id s now d h)
      | inr other ↦ elim (Bool-cases (text_eq activity (codes "EXIT"))) [
        | inl exits ↦ rw (other, exits) (exit-AllWithin p id s now d h)
        | inr neither ↦ rw (other, neither) h
      ]
    ]

place_metrics-AllWithin :
    (p id activity : Text) (now : ℕ) (d : DataLogger)
    → AllWithin now d
    → AllWithin now (place_metrics p id activity now d)
unfolding place_metrics
place_metrics-AllWithin p id activity now d h = elim (Option-cases (which_station id)) [
  | inl no_station ↦ elim (Option-cases (which_corner id)) [
    | inl no_corner ↦
        let nothing : place_metrics p id activity now d ≡ d = ground arith in rw nothing h
    | inr (c, is_c) ↦
        let at_corner : place_metrics p id activity now d ≡ corner_metrics activity c now d =
          ground arith in
        rw at_corner (corner_metrics-AllWithin activity c now d h)
  ]
  | inr (s, is_s) ↦
      let at_station : place_metrics p id activity now d ≡ station_metrics p id activity s now d =
        ground arith in
      rw at_station (station_metrics-AllWithin p id activity s now d h)
]

update_kpis-SameBusy :
    (id activity : Text) (d : DataLogger) → SameBusy d (update_kpis id activity d)
unfolding update_kpis
update_kpis-SameBusy id activity d = ground arith

pub logged-AllWithin :
    (e : Entry) (t : ℕ) (d : DataLogger)
    → t ≤ e.time
    → AllWithin t d
    → AllWithin e.time (log_entry e d)
unfolding logged update_realtime_metrics
logged-AllWithin e t d le h = place_metrics-AllWithin e.part_id e.station_id e.activity e.time _ (
    SameBusy-AllWithin e.time d _ (update_kpis-SameBusy e.station_id e.activity _)
      (AllWithin-later t e.time d le h))

-- Times that do not go back, from a first to a last.
abbrev pub Ordered : ℕ → List Entry → ℕ → Type 0
Ordered t [] now = t ≤ now
Ordered t (e ∷ es) now = (t ≤ e.time) × Ordered e.time es now

pub log_all-AllWithin :
    (t now : ℕ) (es : List Entry) (d : DataLogger)
    → Ordered t es now
    → AllWithin t d
    → AllWithin now (log_all es d)
unfolding log_all
log_all-AllWithin t now [] d o h = AllWithin-later t now d o h
log_all-AllWithin t now (e ∷ es) d o h =
    log_all-AllWithin e.time now es (log_entry e d) o.1 (logged-AllWithin e t d o.0 h)

pub init-AllWithin : (start : ℕ) → AllWithin start (init start)
unfolding init
init-AllWithin start = record {
  within1 = record { positive = refl; bounded = omega arith };
  within2 = record { positive = refl; bounded = omega arith };
  within_corner = λ c. record { positive = ground arith; bounded = ground arith };
}
