-- ===== src/Cep/Fusion/Doubled.antt =====
-- A fusion pass with a read that two pending entries fit.
use circular_manu_system.Base.{List, [], arith, some, true, ℕ, ◌∷◌, ◌≡◌}
use circular_manu_system.Cep.{
  Calls, Consumer, delete_at, delete_each, delete_marked, deliver_event, events_match, find_match,
  fuse_events, insert_down, is_entry_barrier, sort_down,
}
use circular_manu_system.Cep.Fusion.{
  chosen, chosen_one, deliver_all, fuse_events_lem, plan, plan_one,
}
use circular_manu_system.Events.{NfcEvent, SensorEvent}

-- What two pending entries that both fit the first read lead to.
doubled :
    (window : ℕ) (g1 g2 : SensorEvent) (n : NfcEvent) (ns : List NfcEvent)
    → is_entry_barrier g1.barrier_id ≡ true
    → is_entry_barrier g2.barrier_id ≡ true
    → events_match window g1 n ≡ true
    → events_match window g2 n ≡ true
    → (plan window (n ∷ ns) (g1 ∷ g2 ∷ []) ≡ (g1, some n.part_id) ∷ (g2, some n.part_id) ∷ [])
      × (chosen window (n ∷ ns) (g1 ∷ g2 ∷ []) ≡ 0 ∷ 0 ∷ [])
unfolding plan plan_one chosen chosen_one find_match
doubled window g1 g2 n ns e1 e2 m1 m2 = (rw (e1, e2, m1, m2), rw (e1, e2, m1, m2))

module _ {W : Type 0} (calls : Calls W) (now : ℕ) (c : Consumer) (w : W) (g1 g2 : SensorEvent)
    (n : NfcEvent) (entry1 : is_entry_barrier g1.barrier_id ≡ true)
    (entry2 : is_entry_barrier g2.barrier_id ≡ true)
    (match1 : events_match c.delta_t_fuse g1 n ≡ true)
    (match2 : events_match c.delta_t_fuse g2 n ≡ true)
    (pending : c.pending_gpio_events ≡ g1 ∷ g2 ∷ []) where
  twice_delivered :
      (ns : List NfcEvent)
      → c.pending_nfc_events ≡ n ∷ ns
      → ((fuse_events calls now c w).1
          ≡ deliver_event calls g2
              (some n.part_id)
              now
              (deliver_event calls g1 (some n.part_id) now w))
        × ((fuse_events calls now c w).0.pending_nfc_events
            ≡ (delete_marked (0 ∷ 0 ∷ []) (n ∷ ns)).0)
        × ((fuse_events calls now c w).2 ≡ (delete_marked (0 ∷ 0 ∷ []) (n ∷ ns)).1)
  unfolding deliver_all
  twice_delivered ns reads =
      let (world, _, left, _, raised) = fuse_events_lem calls now c w in
      let (planned, used) = doubled c.delta_t_fuse g1 g2 n ns entry1 entry2 match1 match2 in
      (
        rw (world, pending, reads, planned),
        rw (left, pending, reads, used),
        rw (raised, pending, reads, used),
      )

  -- If exactly two entry events are pending and both match the first of at least two reads, a
  -- fusion pass delivers both with the part of that read and deletes the second read as well,
  -- which was fused with nothing.
  pub fuse_twice_loses :
      (m : NfcEvent) (rest : List NfcEvent)
      → c.pending_nfc_events ≡ n ∷ m ∷ rest
      → ((fuse_events calls now c w).1
          ≡ deliver_event calls g2
              (some n.part_id)
              now
              (deliver_event calls g1 (some n.part_id) now w))
        × ((fuse_events calls now c w).0.pending_nfc_events ≡ rest)
  unfolding delete_marked delete_each delete_at sort_down insert_down
  fuse_twice_loses m rest reads = ground (arith, twice_delivered (m ∷ rest) reads)

  -- If exactly two entry events are pending and both match the only read, the fusion pass ends
  -- with an IndexError.
  pub fuse_twice_raises : c.pending_nfc_events ≡ n ∷ [] → (fuse_events calls now c w).2 ≡ true
  unfolding delete_marked delete_each delete_at sort_down insert_down
  fuse_twice_raises reads = ground (arith, twice_delivered [] reads)
