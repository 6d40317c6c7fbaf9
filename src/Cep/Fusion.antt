-- ===== src/Cep/Fusion.antt =====
-- What a fusion pass of the consumer delivers and keeps, against a description of it with no
-- positions and no marks.
pub mod Doubled
use mathlib.Core.List.{append-nil, append_assoc}
use circular_manu_system.Base.{
  Bool, List, Option, Option-cases, [], ap, arith, if◌then◌else◌, is_some, none, not, refl, some,
  suc, sym, ℕ, ◌++◌, ◌+◌, ◌||◌, ◌∙◌, ◌∷◌, ◌≡◌,
}
use circular_manu_system.Base.Lists.{keep, length, length-append}
use circular_manu_system.Base.Text.{Text}
use circular_manu_system.Cep.{
  Calls, Consumer, Pass, delete_marked, deliver_event, find_match, fuse_events, fuse_from, fuse_one,
  is_entry_barrier,
}
use circular_manu_system.Cep.Removal.{delete_marked-marks, marks}
use circular_manu_system.Events.{NfcEvent, SensorEvent}

-- A delivery: an event, and the part that goes with it.
abbrev pub Delivery : Type 0
Delivery = SensorEvent × Option Text

delivery_of : SensorEvent → Option (ℕ × NfcEvent) → List Delivery
delivery_of g none = []
delivery_of g (some (j, n)) = (g, some n.part_id) ∷ []

choice_of : Option (ℕ × NfcEvent) → List ℕ
choice_of none = []
choice_of (some (j, n)) = j ∷ []

-- What one pending event leads to: an event that is no entry is delivered as it is, and an entry
-- with the part of the first read that matches, if there is one.
unfoldable pub plan_one : ℕ → List NfcEvent → SensorEvent → List Delivery
unfolding delivery_of
plan_one window nfc g =
    if is_entry_barrier g.barrier_id
    then delivery_of g (find_match window g 0 nfc)
    else (g, none) ∷ []

unfoldable pub plan : ℕ → List NfcEvent → List SensorEvent → List Delivery
plan window nfc [] = []
plan window nfc (g ∷ gs) = plan_one window nfc g ++ plan window nfc gs

-- The positions of the reads that are used.
unfoldable pub chosen_one : ℕ → List NfcEvent → SensorEvent → List ℕ
unfolding choice_of
chosen_one window nfc g =
    if is_entry_barrier g.barrier_id then choice_of (find_match window g 0 nfc) else []

unfoldable pub chosen : ℕ → List NfcEvent → List SensorEvent → List ℕ
chosen window nfc [] = []
chosen window nfc (g ∷ gs) = chosen_one window nfc g ++ chosen window nfc gs

-- Whether an event leaves the list of pending events.
abbrev pub handled : ℕ → List NfcEvent → SensorEvent → Bool
handled window nfc g = not (is_entry_barrier g.barrier_id) || is_some (find_match window g 0 nfc)

module _ {W : Type 0} (calls : Calls W) where
  unfoldable pub deliver_all : ℕ → List Delivery → W → W
  deliver_all now [] w = w
  deliver_all now ((e, part) ∷ ds) w = deliver_all now ds (deliver_event calls e part now w)

  deliver_all-append :
      (now : ℕ) (ds es : List Delivery) (w : W)
      → deliver_all now (ds ++ es) w ≡ deliver_all now es (deliver_all now ds w)
  unfolding deliver_all
  deliver_all-append now [] es w = refl
  deliver_all-append now ((e, part) ∷ ds) es w =
      deliver_all-append now ds es (deliver_event calls e part now w)

  fuse_one_lem :
      (window : ℕ) (nfc : List NfcEvent) (i : ℕ) (g : SensorEvent) (now : ℕ) (p : Pass calls)
      → ((fuse_one calls window nfc i g now p).world
          ≡ deliver_all now (plan_one window nfc g) p.world)
        × ((fuse_one calls window nfc i g now p).gpio_to_remove
            ≡ (if handled window nfc g then p.gpio_to_remove ++ i ∷ [] else p.gpio_to_remove))
        × ((fuse_one calls window nfc i g now p).nfc_to_remove
            ≡ p.nfc_to_remove ++ chosen_one window nfc g)
        × ((fuse_one calls window nfc i g now p).fused ≡ p.fused + length (chosen_one window nfc g))
  unfolding fuse_one deliver_all plan_one chosen_one
  fuse_one_lem window nfc i g now p =
      ground (arith, Option-cases (find_match window g 0 nfc), append-nil p.nfc_to_remove)

  fuse_from-world :
      (window : ℕ) (nfc : List NfcEvent) (i : ℕ) (gs : List SensorEvent) (now : ℕ) (p : Pass calls)
      → (fuse_from calls window nfc i gs now p).world ≡ deliver_all now (plan window nfc gs) p.world
  unfolding fuse_from plan
  fuse_from-world window nfc i [] now p = unfold deliver_all in refl
  fuse_from-world window nfc i (g ∷ gs) now p =
      let q : Pass calls = fuse_one calls window nfc i g now p in
      fuse_from-world window nfc (suc i) gs now q
      ∙ ap (deliver_all now (plan window nfc gs)) (fuse_one_lem window nfc i g now p).0
      ∙ sym (deliver_all-append now (plan_one window nfc g) (plan window nfc gs) p.world)

  fuse_from-gpio :
      (window : ℕ) (nfc : List NfcEvent) (i : ℕ) (gs : List SensorEvent) (now : ℕ) (p : Pass calls)
      → (fuse_from calls window nfc i gs now p).gpio_to_remove
        ≡ p.gpio_to_remove ++ marks (handled window nfc) i gs
  unfolding fuse_from marks
  fuse_from-gpio window nfc i [] now p = sym (append-nil p.gpio_to_remove)
  fuse_from-gpio window nfc i (g ∷ gs) now p =
      let q : Pass calls = fuse_one calls window nfc i g now p in
      ground (
        arith,
        fuse_from-gpio window nfc (suc i) gs now q,
        fuse_one_lem window nfc i g now p,
        append_assoc p.gpio_to_remove (i ∷ []) (marks (handled window nfc) (suc i) gs),
      )

  fuse_from-nfc :
      (window : ℕ) (nfc : List NfcEvent) (i : ℕ) (gs : List SensorEvent) (now : ℕ) (p : Pass calls)
      → (fuse_from calls window nfc i gs now p).nfc_to_remove
        ≡ p.nfc_to_remove ++ chosen window nfc gs
  unfolding fuse_from chosen
  fuse_from-nfc window nfc i [] now p = sym (append-nil p.nfc_to_remove)
  fuse_from-nfc window nfc i (g ∷ gs) now p =
      let q : Pass calls = fuse_one calls window nfc i g now p in
      fuse_from-nfc window nfc (suc i) gs now q
      ∙ ap (λ l. l ++ chosen window nfc gs) (fuse_one_lem window nfc i g now p).2
      ∙ append_assoc p.nfc_to_remove (chosen_one window nfc g) (chosen window nfc gs)

  fuse_from-fused :
      (window : ℕ) (nfc : List NfcEvent) (i : ℕ) (gs : List SensorEvent) (now : ℕ) (p : Pass calls)
      → (fuse_from calls window nfc i gs now p).fused ≡ p.fused + length (chosen window nfc gs)
  unfolding fuse_from chosen
  fuse_from-fused window nfc i [] now p = omega arith
  fuse_from-fused window nfc i (g ∷ gs) now p =
      let q : Pass calls = fuse_one calls window nfc i g now p in
      omega (
        arith,
        fuse_from-fused window nfc (suc i) gs now q,
        (fuse_one_lem window nfc i g now p).3,
        length-append (chosen_one window nfc g) (chosen window nfc gs),
      )

  abbrev start : W → Pass calls
  start w = record { world = w; gpio_to_remove = []; nfc_to_remove = []; fused = 0 }

  -- A fusion pass is its plan: an event that is no entry is delivered without a part, an entry
  -- with the part of the first read that matches, in the order of the pending events; the pending
  -- events that are left are exactly the entries with no match, in their order; the reads are what
  -- deleting the chosen positions leaves; the counter grows by the number of chosen reads; and the
  -- pass raises exactly when that deletion does.
  pub fuse_events_lem :
      (now : ℕ) (c : Consumer) (w : W)
      → ((fuse_events calls now c w).1
          ≡ deliver_all now (plan c.delta_t_fuse c.pending_nfc_events c.pending_gpio_events) w)
        × ((fuse_events calls now c w).0.pending_gpio_events
            ≡ keep (λ g. not (handled c.delta_t_fuse c.pending_nfc_events g)) c.pending_gpio_events)
        × ((fuse_events calls now c w).0.pending_nfc_events
            ≡ (delete_marked
                (chosen c.delta_t_fuse c.pending_nfc_events c.pending_gpio_events)
                c.pending_nfc_events).0)
        × ((fuse_events calls now c w).0.stats.fused_events
            ≡ c.stats.fused_events
              + length (chosen c.delta_t_fuse c.pending_nfc_events c.pending_gpio_events))
        × ((fuse_events calls now c w).2
            ≡ (delete_marked
                (chosen c.delta_t_fuse c.pending_nfc_events c.pending_gpio_events)
                c.pending_nfc_events).1)
  unfolding fuse_events
  fuse_events_lem now c w =
      let window = c.delta_t_fuse in
      let nfc = c.pending_nfc_events in
      let gs = c.pending_gpio_events in
      ground (
        arith,
        fuse_from-world window nfc 0 gs now (start w),
        fuse_from-gpio window nfc 0 gs now (start w),
        fuse_from-nfc window nfc 0 gs now (start w),
        fuse_from-fused window nfc 0 gs now (start w),
        delete_marked-marks (handled window nfc) gs,
      )
