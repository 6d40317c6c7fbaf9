-- ===== src/Cep/Matching.antt =====
-- Which read the consumer fuses with an entry event.
use mathlib.Core.Path.{subst}
use circular_manu_system.Base.{
  Bool-cases, List, [], arith, inl, inr, none, some, suc, true, ℕ, ◌+◌, ◌↔◌, ◌∷◌, ◌≡◌, ◌≤◌,
}
use circular_manu_system.Base.Lists.{All}
use circular_manu_system.Cep.{events_match, find_match}
use circular_manu_system.Events.{LocationType, NfcEvent, SensorEvent}

-- The matching criteria of the source: the same station, and times within the window.
pub record Matches (window : ℕ) (g : SensorEvent) (n : NfcEvent) : Type 0 where
  pub at_station : g.location.location_type ≡ LocationType.at_station
  pub same_station : g.location.location_id ≡ n.station_id
  pub not_late : g.timestamp ≤ n.timestamp + window
  pub not_early : n.timestamp ≤ g.timestamp + window

-- The matching test is true exactly if the event is of a station, the read is of the same station,
-- and neither time is later than the other by more than the window.
pub events_match_iff :
    (window : ℕ) (g : SensorEvent) (n : NfcEvent)
    → (events_match window g n ≡ true) ↔ Matches window g n
unfolding events_match
events_match_iff window g n = (λ h. ground arith, λ h. ground arith)

-- The read at position `j` of a list that starts at position `i` matches, and none before it does.
pub data FirstMatch (window : ℕ) (g : SensorEvent) (j : ℕ) (n : NfcEvent)
    : ℕ → List NfcEvent → Type 0 where
  first : {ns : List NfcEvent} → Matches window g n → FirstMatch window g j n j (n ∷ ns)
  later :
      {m : NfcEvent} {i : ℕ} {ns : List NfcEvent}
      → ¬ Matches window g m
      → FirstMatch window g j n (suc i) ns
      → FirstMatch window g j n i (m ∷ ns)

-- If the search for a read returns a position and a read, that read stands at that position and
-- matches the event, and no read before it matches.
pub find_match_sound :
    (window : ℕ) (g : SensorEvent) (i : ℕ) (ns : List NfcEvent) (j : ℕ) (n : NfcEvent)
    → find_match window g i ns ≡ some (j, n)
    → FirstMatch window g j n i ns
unfolding find_match
find_match_sound window g i [] j n h = cc
find_match_sound window g i (m ∷ ns) j n h = elim (Bool-cases (events_match window g m)) [
  | inl hit ↦
      let found : m ≡ n = ground arith in
      let at : i ≡ j = ground arith in
      subst (λ k. FirstMatch window g j k i (m ∷ ns)) found
        (subst (λ k. FirstMatch window g k m i (m ∷ ns)) at
          (first ((events_match_iff window g m).0 hit)))
  | inr miss ↦
      later (λ k. ground (arith, events_match_iff window g m))
        (find_match_sound window g (suc i) ns j n (ground arith))
]

-- If the search for a read returns nothing, no read in the list matches the event.
pub find_match_complete :
    (window : ℕ) (g : SensorEvent) (i : ℕ) (ns : List NfcEvent)
    → find_match window g i ns ≡ none
    → All (λ n. ¬ Matches window g n) ns
unfolding find_match
find_match_complete window g i [] h = tt
find_match_complete window g i (n ∷ ns) h = elim (Bool-cases (events_match window g n)) [
  | inl hit ↦ absurd (ground arith)
  | inr miss ↦ (
    λ k. ground (arith, events_match_iff window g n),
    find_match_complete window g (suc i) ns (ground arith),
  )
]
