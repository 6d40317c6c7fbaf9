-- ===== src/Plant/Entry.antt =====
-- A part comes to a station: from the tag and the light barrier, over the queues and the consumer,
-- to the station and the log.
use circular_manu_system.Station
use circular_manu_system.Base.{
  List, [], ap, arith, false, refl, some, true, ℕ, ◌++◌, ◌+◌, ◌∙◌, ◌∷◌, ◌≡◌, ◌≤◌,
}
use circular_manu_system.Base.Text.{Text, codes}
use circular_manu_system.Cep.{Consumer, deliver_event, events_match, is_entry_barrier, time_diff}
use circular_manu_system.Cep.Expiry.{run_round}
use circular_manu_system.Cep.Keeps.{fused_with}
use circular_manu_system.Cep.Pair.{pair-Fuses}
use circular_manu_system.Events.{
  NfcEvent, Queue, SensorEvent, Station, at_station, from_gpio, place, put_nowait, s1_entry,
  s2_entry, same, same_refl, station_number,
}
use circular_manu_system.Logger.{Row}
use circular_manu_system.Logger.Log.{row}
use circular_manu_system.Logger.Tag.{infer_tag}
use circular_manu_system.Machines.{Machines, calls, get_station, on_shop, process}
use circular_manu_system.Nfc.{blocking_read_tag, hex, scan, tag}
use circular_manu_system.Plant.{Plant, consume, interrupt, scan_tag}
use circular_manu_system.Sensors.{bounces, get_barriers_for_pin, gpio_callback, put_all}
use circular_manu_system.Shop.{to_influx}
use circular_manu_system.Station.{entering, entry_barrier, station_id}
use circular_manu_system.Station.Cycle.{enters}

-- The pins STATION1_ENTRY and STATION2_ENTRY.
abbrev pub entry_pin : Station → ℕ
entry_pin Station.station1 = 17
entry_pin Station.station2 = 5

abbrev pub logged_rows : Machines → List Row
logged_rows m = m.shop.data_logger.rows

-- What the barrier's interrupt and the scan put into the queues.
abbrev pub enter_row : ℕ → Text → Station → Row
enter_row now part k =
    row now (Station.station_id k) part (codes "ENTER") (infer_tag (codes "ENTER"))

abbrev pub seen : Station → ℕ → SensorEvent
seen k t = record {
  timestamp = t;
  barrier_id = entry_barrier k;
  location = place at_station (station_number k);
  source = from_gpio;
}

abbrev read_of : Station → ℕ → ℕ → List ℕ → NfcEvent
read_of k t b bs = record {
  timestamp = t;
  station_id = station_number k;
  part_id = hex (b ∷ bs);
  reader_num = station_number k;
}

pub put_first : {A : Type 0} (a : A) (q : Queue A) → q.items ≡ [] → (put_nowait a q).items ≡ a ∷ []
unfolding put_nowait
put_first a q e = ground arith

scanned_item :
    (k : Station) (t b : ℕ) (bs : List ℕ) (p : Plant)
    → p.nfc_queue.items ≡ []
    → (scan_tag k false (tag (b ∷ bs)) t p).nfc_queue.items ≡ read_of k t b bs ∷ []
unfolding scan_tag scan blocking_read_tag hex
scanned_item k t b bs p e = put_first _ p.nfc_queue e

pub interrupt_item :
    (k : Station) (t : ℕ) (p : Plant)
    → bounces p.sensors (entry_pin k) t ≡ false
    → p.gpio_queue.items ≡ []
    → (interrupt (entry_pin k) t p).gpio_queue.items ≡ seen k t ∷ []
unfolding interrupt gpio_callback put_all get_barriers_for_pin
interrupt_item Station.station1 t p quiet e = rw quiet (put_first _ p.gpio_queue e)
interrupt_item Station.station2 t p quiet e = rw quiet (put_first _ p.gpio_queue e)

-- Delivering the fused event is the station's own work, and then a point for InfluxDB.
pub record Enters (k : Station) (part : Text) (now : ℕ) (m m' : Machines) : Type 0 where
  pub state : (get_station k m').state ≡ entering
  pub timers : (get_station k m').timers ≡ (get_station k m).timers
  pub part_is : (get_station k m').current_part ≡ some part
  pub own : (get_station k m').station ≡ k
  pub log : logged_rows m' ≡ logged_rows m ++ enter_row now part k ∷ []

pub deliver-Enters :
    (k : Station) (t : ℕ) (part : Text) (now : ℕ) (m : Machines)
    → (get_station k m).state ≡ Station.idle
    → (get_station k m).station ≡ k
    → Enters k part now m (deliver_event calls (seen k t) (some part) now m)
unfolding deliver_event process on_shop to_influx
deliver-Enters Station.station1 t part now m st own =
    let (state, timers, part_is, kept, log) =
      enters (fused_with (seen Station.station1 t) (some part)) part now m.station1 m.shop
        (ap (λ j. same s1_entry (entry_barrier j)) own ∙ same_refl s1_entry) refl st in
    record {
      state = state;
      timers = timers;
      part_is = part_is;
      own = kept ∙ own;
      log = log ∙ ap (λ j. logged_rows m ++ enter_row now part j ∷ []) own;
    }
deliver-Enters Station.station2 t part now m st own =
    let (state, timers, part_is, kept, log) =
      enters (fused_with (seen Station.station2 t) (some part)) part now m.station2 m.shop
        (ap (λ j. same s2_entry (entry_barrier j)) own ∙ same_refl s2_entry) refl st in
    record {
      state = state;
      timers = timers;
      part_is = part_is;
      own = kept ∙ own;
      log = log ∙ ap (λ j. logged_rows m ++ enter_row now part j ∷ []) own;
    }

-- A plant in which no event is on its way.
pub record Quiet (p : Plant) : Type 0 where
  pub gpio : p.gpio_queue.items ≡ []
  pub mcp : p.mcp_queue.items ≡ []
  pub nfc : p.nfc_queue.items ≡ []
  pub pending_gpio : p.consumer.pending_gpio_events ≡ []
  pub pending_nfc : p.consumer.pending_nfc_events ≡ []

-- The tag is read, then the barrier is crossed, then the consumer comes round.
abbrev pub arrival : Station → ℕ → ℕ → ℕ → List ℕ → ℕ → Plant → Plant
arrival k read_at seen_at b bs now p =
    consume now (interrupt (entry_pin k) seen_at (scan_tag k false (tag (b ∷ bs)) read_at p))

pair_matches :
    (k : Station) (window read_at seen_at b : ℕ) (bs : List ℕ)
    → time_diff seen_at read_at ≤ window
    → (is_entry_barrier (entry_barrier k) ≡ true)
      × (events_match window (seen k seen_at) (read_of k read_at b bs) ≡ true)
unfolding events_match
pair_matches Station.station1 window read_at seen_at b bs near = (refl, ground arith)
pair_matches Station.station2 window read_at seen_at b bs near = (refl, ground arith)

-- The consumer hands the barrier's event to the station with the part of the read.
pub arrival_round :
    (k : Station) (read_at seen_at b : ℕ) (bs : List ℕ) (now : ℕ) (p : Plant)
    → Quiet p
    → bounces p.sensors (entry_pin k) seen_at ≡ false
    → time_diff seen_at read_at ≤ p.consumer.delta_t_fuse
    → let q = arrival k read_at seen_at b bs now p in
      (q.machines ≡ deliver_event calls (seen k seen_at) (some (hex (b ∷ bs))) now p.machines)
      × (q.consumer.stats.fused_events ≡ p.consumer.stats.fused_events + 1)
      × Quiet q
unfolding consume interrupt scan_tag
arrival_round k read_at seen_at b bs now p h quiet near =
    let (entry, match) = pair_matches k p.consumer.delta_t_fuse read_at seen_at b bs near in
    let e = seen k seen_at in
    let n = read_of k read_at b bs in
    let f =
      pair-Fuses calls now e n p.consumer p.machines entry match h.pending_gpio h.pending_nfc in
    let gpio = interrupt_item k seen_at p quiet h.gpio in
    let nfc = scanned_item k read_at b bs p h.nfc in
    let scanned = scan_tag k false (tag (b ∷ bs)) read_at p in
    let crossed = interrupt (entry_pin k) seen_at p in
    let alike : run_round calls now crossed.gpio_queue.items p.mcp_queue.items
          scanned.nfc_queue.items p.consumer p.machines
        ≡ run_round calls now (e ∷ []) [] (n ∷ []) p.consumer p.machines =
      λ i. run_round calls now (gpio i) (h.mcp i) (nfc i) p.consumer p.machines in
    (
      ap (λ (r : Consumer × Machines). r.1) alike ∙ f.world,
      ap (λ (r : Consumer × Machines). r.0.stats.fused_events) alike ∙ f.counted,
      record {
        gpio = refl;
        mcp = refl;
        nfc = refl;
        pending_gpio = ap (λ (r : Consumer × Machines). r.0.pending_gpio_events) alike ∙ f.no_gpio;
        pending_nfc = ap (λ (r : Consumer × Machines). r.0.pending_nfc_events) alike ∙ f.no_nfc;
      },
    )

-- If no event is on its way and a station is idle, then after the read of a tag with a non-empty
-- id at the station, an interrupt of its entry pin that is not debounced, within the fusion window
-- of the read, and a round of the consumer, the station is entering with the tag's hexadecimal
-- string as its part, the log has exactly one more row, ENTER for that part, one more event is
-- fused, and again no event is on its way.
pub arrival_enters :
    (k : Station) (read_at seen_at b : ℕ) (bs : List ℕ) (now : ℕ) (p : Plant)
    → Quiet p
    → bounces p.sensors (entry_pin k) seen_at ≡ false
    → time_diff seen_at read_at ≤ p.consumer.delta_t_fuse
    → (get_station k p.machines).state ≡ Station.idle
    → (get_station k p.machines).station ≡ k
    → let q = arrival k read_at seen_at b bs now p in
      ((get_station k q.machines).state ≡ entering)
      × ((get_station k q.machines).current_part ≡ some (hex (b ∷ bs)))
      × (logged_rows q.machines ≡ logged_rows p.machines ++ enter_row now (hex (b ∷ bs)) k ∷ [])
      × (q.consumer.stats.fused_events ≡ p.consumer.stats.fused_events + 1)
      × Quiet q
arrival_enters k read_at seen_at b bs now p h quiet near st own =
    let (machines, counted, empty) = arrival_round k read_at seen_at b bs now p h quiet near in
    let r = deliver-Enters k seen_at (hex (b ∷ bs)) now p.machines st own in
    (
      ap (λ (m : Machines). (get_station k m).state) machines ∙ r.state,
      ap (λ (m : Machines). (get_station k m).current_part) machines ∙ r.part_is,
      ap logged_rows machines ∙ r.log,
      counted,
      empty,
    )
