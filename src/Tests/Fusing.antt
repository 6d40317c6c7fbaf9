-- ===== src/Tests/Fusing.antt =====
-- The consumer on a few events, over a world that notes what it is told.
use circular_manu_system.Cep
use circular_manu_system.Base.{List, [], false, refl, some, true, ℕ, ◌++◌, ◌+◌, ◌∷◌, ◌≡◌}
use circular_manu_system.Base.Lists.{keep, length}
use circular_manu_system.Base.Text.{Text, codes}
use circular_manu_system.Cep.{
  Calls, Consumer, delete_marked, deliver_event, events_match, find_match, fuse_events,
}
use circular_manu_system.Cep.Expiry.{expire_events}
use circular_manu_system.Cep.Expiry.Kept.{expire_events_lem, report_ghosts, report_orphans}
use circular_manu_system.Cep.Fusion.{
  chosen, chosen_one, deliver_all, fuse_events_lem, plan, plan_one,
}
use circular_manu_system.Cep.Fusion.Doubled.{fuse_twice_loses, fuse_twice_raises}
use circular_manu_system.Events.{
  Barrier-discrete, FusedEvent, NfcEvent, SensorEvent, at_station, from_gpio, place, s1_entry, same,
}

abbrev pub noted : Calls (List FusedEvent)
noted = record {
  process_event = λ f e now w. w ++ e ∷ [];
  write_sensor_event = λ b l w. w;
  log_event = λ part id activity now w. w;
}

abbrev pub at_entry : ℕ → SensorEvent
at_entry t = record {
  timestamp = t;
  barrier_id = s1_entry;
  location = place at_station 1;
  source = from_gpio;
}

abbrev pub tag_read : Text → ℕ → NfcEvent
tag_read p t = record { timestamp = t; station_id = 1; part_id = p; reader_num = 1 }

abbrev consumer : List SensorEvent → List NfcEvent → Consumer
consumer gpio nfc = record (Cep.init 2_000_000 5_000_000) {
  pending_gpio_events = gpio;
  pending_nfc_events = nfc;
}

abbrev pub part_a : NfcEvent
part_a = tag_read (codes "a1") 1_500_000

abbrev part_b : NfcEvent
part_b = tag_read (codes "b2") 1_600_000

abbrev one_pair : Consumer
one_pair = consumer (at_entry 1_000_000 ∷ []) (part_a ∷ part_b ∷ [])

-- The entry is delivered once, with the part of the first read, and the second read is left.
fuse_events_lem_example :
    ((fuse_events noted 2_000_000 one_pair []).1
      ≡ deliver_event noted (at_entry 1_000_000) (some (codes "a1")) 2_000_000 [])
    × ((fuse_events noted 2_000_000 one_pair []).0.pending_gpio_events ≡ [])
    × ((fuse_events noted 2_000_000 one_pair []).0.pending_nfc_events ≡ part_b ∷ [])
    × ((fuse_events noted 2_000_000 one_pair []).0.stats.fused_events ≡ 1)
    × ((fuse_events noted 2_000_000 one_pair []).2 ≡ false)
unfolding Cep.init plan plan_one chosen chosen_one find_match events_match same Barrier-discrete
    deliver_all delete_marked keep
fuse_events_lem_example = fuse_events_lem noted 2_000_000 one_pair []

abbrev two_entries : List NfcEvent → Consumer
two_entries nfc = consumer (at_entry 1_000_000 ∷ at_entry 1_100_000 ∷ []) nfc

fuse_twice_loses_example :
    ((fuse_events noted 2_000_000 (two_entries (part_a ∷ part_b ∷ [])) []).1
      ≡ deliver_event noted
          (at_entry 1_100_000)
          (some (codes "a1"))
          2_000_000
          (deliver_event noted (at_entry 1_000_000) (some (codes "a1")) 2_000_000 []))
    × ((fuse_events noted 2_000_000 (two_entries (part_a ∷ part_b ∷ [])) []).0.pending_nfc_events
        ≡ [])
unfolding Cep.init events_match same Barrier-discrete
fuse_twice_loses_example =
    fuse_twice_loses noted 2_000_000 (two_entries (part_a ∷ part_b ∷ [])) [] (at_entry 1_000_000)
      (at_entry 1_100_000) part_a refl refl refl refl refl part_b [] refl

fuse_twice_raises_example : (fuse_events noted 2_000_000 (two_entries (part_a ∷ [])) []).2 ≡ true
unfolding Cep.init events_match same Barrier-discrete
fuse_twice_raises_example =
    fuse_twice_raises noted 2_000_000 (two_entries (part_a ∷ [])) [] (at_entry 1_000_000)
      (at_entry 1_100_000) part_a refl refl refl refl refl refl

-- Only the first of the two entries is older than five seconds.
abbrev stale : Consumer
stale = consumer (at_entry 1_000_000 ∷ at_entry 3_000_000 ∷ []) (part_a ∷ [])

expire_events_lem_example :
    ((expire_events noted 7_000_000 stale []).0.pending_gpio_events ≡ at_entry 3_000_000 ∷ [])
    × ((expire_events noted 7_000_000 stale []).0.pending_nfc_events ≡ [])
    × ((expire_events noted 7_000_000 stale []).0.stats.orphaned_gpio
          + length (expire_events noted 7_000_000 stale []).0.pending_gpio_events
        ≡ 2)
    × ((expire_events noted 7_000_000 stale []).0.stats.ghost_nfc
          + length (expire_events noted 7_000_000 stale []).0.pending_nfc_events
        ≡ 1)
    × ((expire_events noted 7_000_000 stale []).1
        ≡ report_ghosts noted 5_000_000 7_000_000 (part_a ∷ []) (
            report_orphans noted 5_000_000 7_000_000
              (at_entry 1_000_000 ∷ at_entry 3_000_000 ∷ [])
              []))
    × ((expire_events noted 7_000_000 stale []).2 ≡ false)
unfolding Cep.init keep
expire_events_lem_example = expire_events_lem noted 7_000_000 stale []
