-- ===== src/Logger/Tag.antt =====
-- `_infer_tag` of the data logger: the tag of an activity, from the words in its name.
pub mod Keywords
use mathlib.Core.List.{map}
use circular_manu_system.Base.{List, [], if◌then◌else◌, ◌∷◌}
use circular_manu_system.Base.Text.{Text, codes, is_in, to_upper}

abbrev pub finish_keywords : List Text
finish_keywords = codes "EXIT" ∷ codes "COMPLETE" ∷ codes "END" ∷ codes "FINISH" ∷ []

abbrev pub start_tag : Text
start_tag = codes "START"

abbrev pub finish_tag : Text
finish_tag = codes "FINISH"

pub tag_by : List Text → Text → Text
tag_by [] activity = start_tag
tag_by (keyword ∷ rest) activity =
    if is_in keyword activity then finish_tag else tag_by rest activity

unfoldable pub infer_tag : Text → Text
unfolding tag_by
infer_tag activity = tag_by finish_keywords (map to_upper activity)
