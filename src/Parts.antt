-- ===== src/Parts.antt =====
-- physical_system/part_uid_dict.py: the table of the parts' tags.
use Prim.Native.Nat.{◌/◌, ◌%◌}
use circular_manu_system.Base.{
  Bool, List, Option, [], arith, false, leb, none, refl, true, ℕ, ◌&&◌, ◌<◌, ◌||◌, ◌∷◌, ◌≡◌, ◌⊎◌,
}
use circular_manu_system.Base.Lists.{All, lookup}
use circular_manu_system.Base.Text.{Text, codes, text_eq_iff}
use circular_manu_system.Nfc.{hex, hex_digit-no_capital}

abbrev uid_to_id : List (Text × ℕ)
uid_to_id =
    (codes "041DA4CA341290", 1)
    ∷ (codes "042EA2CA341291", 2)
    ∷ (codes "043FA4CA341290", 3)
    ∷ (codes "0483A4CA341290", 4)
    ∷ (codes "0440A4CA341290", 5)
    ∷ (codes "04A8A4CA341290", 6)
    ∷ (codes "0461A4CA341290", 7)
    ∷ (codes "041EA4CA341290", 8)
    ∷ (codes "0462A4CA341290", 9)
    ∷ (codes "0434A4CA341290", 10)
    ∷ (codes "0424A3CA341290", 11)
    ∷ (codes "0433A4CA341290", 12)
    ∷ (codes "041BA3CA341290", 13)
    ∷ (codes "0487A3CA341291", 14)
    ∷ (codes "0439A2CA341291", 15)
    ∷ (codes "045CA2CA341291", 16)
    ∷ (codes "04A9A4CA341290", 17)
    ∷ (codes "0479A4CA341290", 18)
    ∷ (codes "041AA3CA341290", 19)
    ∷ (codes "0425A3CA341290", 20)
    ∷ []

-- `UID_TO_ID.get(uid)`
unfoldable pub get_sensor_id : Text → Option ℕ
get_sensor_id uid = lookup uid uid_to_id

-- No letter of a text is a capital.
abbrev NoCapitals : Text → Type 0
NoCapitals t = All (λ c. (c < b'A') ⊎ (b'Z' < c)) t

hex-NoCapitals : (bs : List ℕ) → NoCapitals (hex bs)
unfolding hex
hex-NoCapitals [] = tt
hex-NoCapitals (b ∷ bs) =
    (hex_digit-no_capital (b / 16), (hex_digit-no_capital (b % 16), hex-NoCapitals bs))

has_capital : Text → Bool
has_capital [] = false
has_capital (c ∷ t) = (leb b'A' c && leb c b'Z') || has_capital t

has_capital-NoCapitals : (t : Text) → NoCapitals t → has_capital t ≡ false
unfolding has_capital
has_capital-NoCapitals [] h = refl
has_capital-NoCapitals (c ∷ t) h = ground (arith, has_capital-NoCapitals t h.1)

abbrev AllCapital : List (Text × ℕ) → Type 0
AllCapital m = All (λ e. has_capital e.0 ≡ true) m

lookup-none :
    (t : Text) (m : List (Text × ℕ)) → has_capital t ≡ false → AllCapital m → lookup t m ≡ none
unfolding lookup
lookup-none t [] h all = refl
lookup-none t ((k, v) ∷ m) h all = ground (arith, text_eq_iff k t, lookup-none t m h all.1)

uid_to_id-AllCapital : AllCapital uid_to_id
unfolding has_capital
uid_to_id-AllCapital = ground arith

-- No string of hexadecimal digits that the reader makes of a tag's bytes is found in the table of
-- the parts.
pub get_sensor_id-hex : (bs : List ℕ) → get_sensor_id (hex bs) ≡ none
unfolding get_sensor_id
get_sensor_id-hex bs =
    lookup-none (hex bs) uid_to_id (has_capital-NoCapitals (hex bs) (hex-NoCapitals bs))
      uid_to_id-AllCapital
