-- ===== src/Nfc/Part.antt =====
-- physical_system/nfc_reader.py: class Part, which follows one part.
use circular_manu_system.Base.{List, [], if◌then◌else◌, ltb, suc, zero, ℕ, ◌++◌, ◌∷◌}
use circular_manu_system.Base.Int.{sub_ℕ, ℤ}
use circular_manu_system.Base.Lists.{length}
use circular_manu_system.Base.Text.{Text, codes}

pub record PartEvent : Type 0 where
  pub timestamp : ℕ
  pub part_id : Text
  pub station_id : Text
  pub activity : Text

pub record Part : Type 0 where
  pub part_id : Text
  pub entry_time : ℕ
  pub events : List PartEvent
  pub current_location : Text

unfoldable pub init : Text → ℕ → Part
init part_id now = record {
  part_id = part_id;
  entry_time = now;
  events = [];
  current_location = codes "Entry";
}

unfoldable pub add_event : Text → Text → ℕ → Part → Part
add_event station activity timestamp p = record p {
  events =
      p.events
      ++ record {
        timestamp = timestamp;
        part_id = p.part_id;
        station_id = station;
        activity = activity;
      }
        ∷ [];
  current_location = station;
}

unfoldable pub time_in_system : ℕ → Part → ℤ
time_in_system now p = sub_ℕ now p.entry_time

-- `text[:n]`
unfoldable pub take : ℕ → Text → Text
take zero t = []
take (suc n) [] = []
take (suc n) (c ∷ t) = c ∷ take n t

unfoldable pub get_short_id : Part → Text
unfolding take
get_short_id p = if ltb 8 (length p.part_id) then take 8 p.part_id ++ codes "..." else p.part_id

-- `__str__`
unfoldable pub print : Part → Text
unfolding get_short_id
print p = codes "Part(" ++ get_short_id p ++ codes " at " ++ p.current_location ++ codes ")"
