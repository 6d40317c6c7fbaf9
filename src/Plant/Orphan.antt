-- ===== src/Plant/Orphan.antt =====
-- A part that comes to a station with no tag read: the interrupt, the rounds of the consumer and
-- the log.
use mathlib.Core.Path.{subst}
use circular_manu_system.Base.{
  [], ap, arith, false, if◌then◌else◌, none, refl, sym, true, ℕ, ◌++◌, ◌+◌, ◌<◌, ◌∙◌, ◌∷◌, ◌≡◌, ◌≤◌,
}
use circular_manu_system.Base.Text.{Text, codes}
use circular_manu_system.Cep.{is_entry_barrier}
use circular_manu_system.Cep.Expiry.{is_old, location_text, report_orphan, run_round}
use circular_manu_system.Cep.Lone.{Lone, Waits, arrives-Lone, Waits-Lone}
use circular_manu_system.Events.{Station, at_station, place, station_number}
use circular_manu_system.Events.Names.{name}
use circular_manu_system.Logger.{Row}
use circular_manu_system.Logger.Log.{or_inferred, row}
use circular_manu_system.Logger.Tag.{infer_tag}
use circular_manu_system.Machines.{Machines, calls, get_station, on_shop}
use circular_manu_system.Plant.{Plant, consume, interrupt}
use circular_manu_system.Plant.Entry.{Quiet, entry_pin, interrupt_item, logged_rows, seen}
use circular_manu_system.Sensors.{bounces}
use circular_manu_system.Station.{entry_barrier}
use circular_manu_system.Station.Cycle.{rows, rows-log}

abbrev activity_of : Station → Text
activity_of k = codes "ERROR_ORPHAN_" ++ name (entry_barrier k)

-- The row that is logged for an event that has waited too long.
abbrev pub orphan_row : ℕ → Station → Row
orphan_row now k =
    row now (location_text (place at_station (station_number k))) (codes "UNKNOWN") (activity_of k)
      (infer_tag (activity_of k))

reported :
    (k : Station) (t now : ℕ) (m : Machines)
    → let m' = report_orphan calls (seen k t) now m in
      (logged_rows m' ≡ logged_rows m ++ orphan_row now k ∷ [])
      × (get_station k m' ≡ get_station k m)
unfolding report_orphan on_shop or_inferred
reported Station.station1 t now m = (
  rows-log (codes "UNKNOWN") (location_text (seen Station.station1 t).location)
      (activity_of Station.station1) none now m.shop,
  refl,
)
reported Station.station2 t now m = (
  rows-log (codes "UNKNOWN") (location_text (seen Station.station2 t).location)
      (activity_of Station.station2) none now m.shop,
  refl,
)

-- The barrier is crossed, the consumer comes round in time, and comes again too late.
abbrev pub untagged : Station → ℕ → ℕ → ℕ → Plant → Plant
untagged k seen_at soon late p = consume late (consume soon (interrupt (entry_pin k) seen_at p))

entry_of : (k : Station) → is_entry_barrier (entry_barrier k) ≡ true
entry_of Station.station1 = refl
entry_of Station.station2 = refl

-- After the first round the event is all that is pending, and the machines are as they were.
abbrev AfterFirst : Station → ℕ → Plant → Plant → Type 0
AfterFirst k t p q =
    (q.machines ≡ p.machines)
    × Waits (seen k t) q.consumer
    × (q.consumer.stats.orphaned_gpio ≡ p.consumer.stats.orphaned_gpio)
    × (q.consumer.delta_t_expiry ≡ p.consumer.delta_t_expiry)

first_round :
    (k : Station) (t soon : ℕ) (p : Plant)
    → Quiet p
    → bounces p.sensors (entry_pin k) t ≡ false
    → is_old p.consumer.delta_t_expiry soon t ≡ false
    → AfterFirst k t p (consume soon (interrupt (entry_pin k) t p))
unfolding consume interrupt
first_round k t soon p h quiet fresh =
    let e = seen k t in
    let c = p.consumer in
    let m = p.machines in
    let gpio = interrupt_item k t p quiet h.gpio in
    let crossed = interrupt (entry_pin k) t p in
    let same : run_round calls soon (e ∷ []) [] [] c m
        ≡ run_round calls soon crossed.gpio_queue.items p.mcp_queue.items p.nfc_queue.items c m =
      λ i. run_round calls soon (sym gpio i) (sym h.mcp i) (sym h.nfc i) c m in
    let l =
      subst (Lone calls soon e c m) same
        (arrives-Lone calls soon e c m (entry_of k) h.pending_gpio h.pending_nfc) in
    (
      l.world ∙ ap (λ b. if b then report_orphan calls e soon m else m) fresh,
      record { gpio = l.gpio ∙ ap (λ b. if b then [] else e ∷ []) fresh; nfc = l.nfc },
      omega (arith, l.counted, ap {B = ℕ} (λ b. if b then 1 else 0) fresh),
      l.expiry,
    )

second_round :
    (k : Station) (t late : ℕ) (p q : Plant)
    → Quiet p
    → AfterFirst k t p q
    → q.gpio_queue.items ≡ []
    → q.mcp_queue.items ≡ []
    → q.nfc_queue.items ≡ []
    → is_old p.consumer.delta_t_expiry late t ≡ true
    → let r = consume late q in
      (r.machines ≡ report_orphan calls (seen k t) late p.machines)
      × (r.consumer.stats.orphaned_gpio ≡ p.consumer.stats.orphaned_gpio + 1)
      × Quiet r
unfolding consume
second_round k t late p q h (machines, waits, counted, expiry) gpio mcp nfc old =
    let e = seen k t in
    let old_now : is_old q.consumer.delta_t_expiry late t ≡ true =
      ap (λ x. is_old x late t) expiry ∙ old in
    let same : run_round calls late [] [] [] q.consumer q.machines
        ≡ run_round calls late q.gpio_queue.items q.mcp_queue.items q.nfc_queue.items q.consumer
            q.machines =
      λ i. run_round calls late (sym gpio i) (sym mcp i) (sym nfc i) q.consumer q.machines in
    let l =
      subst (Lone calls late e q.consumer q.machines) same
        (Waits-Lone calls late e q.consumer q.machines (entry_of k) waits) in
    (
      l.world
          ∙ ap (λ b. if b then report_orphan calls e late q.machines else q.machines) old_now
          ∙ ap (report_orphan calls e late) machines,
      omega (arith, l.counted, ap {B = ℕ} (λ b. if b then 1 else 0) old_now, counted),
      record {
        gpio = refl;
        mcp = refl;
        nfc = refl;
        pending_gpio = l.gpio ∙ ap (λ b. if b then [] else e ∷ []) old_now;
        pending_nfc = l.nfc;
      },
    )

-- If no event is on its way, then after an interrupt of a station's entry pin that is not
-- debounced, a round of the consumer before the event is too old and a round after, with no tag
-- read, the station is what it was, the log has exactly one more row, ERROR_ORPHAN for that
-- barrier with the part UNKNOWN, one more event is counted as orphaned, and again no event is on
-- its way.
pub untagged_reported :
    (k : Station) (seen_at soon late : ℕ) (p : Plant)
    → Quiet p
    → bounces p.sensors (entry_pin k) seen_at ≡ false
    → soon ≤ seen_at + p.consumer.delta_t_expiry
    → seen_at + p.consumer.delta_t_expiry < late
    → let q = untagged k seen_at soon late p in
      (get_station k q.machines ≡ get_station k p.machines)
      × (logged_rows q.machines ≡ logged_rows p.machines ++ orphan_row late k ∷ [])
      × (q.consumer.stats.orphaned_gpio ≡ p.consumer.stats.orphaned_gpio + 1)
      × Quiet q
unfolding consume
untagged_reported k seen_at soon late p h quiet in_time too_late =
    let q = consume soon (interrupt (entry_pin k) seen_at p) in
    let once = first_round k seen_at soon p h quiet (ground arith) in
    let (machines, counted, empty) =
      second_round k seen_at late p q h once refl refl refl (ground arith) in
    let (rows, station) = reported k seen_at late p.machines in
    (ap (get_station k) machines ∙ station, ap logged_rows machines ∙ rows, counted, empty)
