-- ===== src/Logger/File.antt =====
-- physical_system/data_logger.py: the file that the logger opens, as the cells of its rows.
use circular_manu_system.Base.{List, Option, [], none, some, ◌∷◌}
use circular_manu_system.Base.Text.{Text, codes}

-- `_create_csv`
abbrev header : List Text
header = codes "Time" ∷ codes "Station ID" ∷ codes "Part ID" ∷ codes "Activity" ∷ codes "Tag" ∷ []

-- `if not os.path.exists(log_file): self._create_csv()`; a file that is there is kept.
unfoldable pub open_file : Option (List (List Text)) → List (List Text)
open_file none = header ∷ []
open_file (some rows) = rows
