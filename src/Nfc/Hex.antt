-- ===== src/Nfc/Hex.antt =====
-- physical_system/nfc_reader.py: the text of a tag's bytes.
use Prim.Native.Nat.{◌/◌, ◌%◌}
use circular_manu_system.Base.{List, [], arith, refl, ℕ, ◌*◌, ◌<◌, ◌∷◌, ◌≡◌}
use circular_manu_system.Base.Lists.{All, length}
use circular_manu_system.Nfc.{hex, hex_digit}

hex_digit-injective : (a b : ℕ) → a < 16 → b < 16 → hex_digit a ≡ hex_digit b → a ≡ b
unfolding hex_digit
hex_digit-injective a b ha hb e = ground arith

abbrev pub AreBytes : List ℕ → Type 0
AreBytes bs = All (λ b. b < 256) bs

byte-injective :
    (a b : ℕ)
    → a < 256
    → b < 256
    → hex_digit (a / 16) ≡ hex_digit (b / 16)
    → hex_digit (a % 16) ≡ hex_digit (b % 16)
    → a ≡ b
byte-injective a b ha hb hi lo =
    let high : a / 16 ≡ b / 16 =
      hex_digit-injective (a / 16) (b / 16) (omega arith) (omega arith) hi in
    let low : a % 16 ≡ b % 16 =
      hex_digit-injective (a % 16) (b % 16) (omega arith) (omega arith) lo in
    omega arith

-- Two lists of bytes with the same hexadecimal string are equal.
pub hex-injective : (xs ys : List ℕ) → AreBytes xs → AreBytes ys → hex xs ≡ hex ys → xs ≡ ys
unfolding hex
hex-injective [] [] ha hb e = refl
hex-injective [] (b ∷ ys) ha hb e = cc
hex-injective (a ∷ xs) [] ha hb e = cc
hex-injective (a ∷ xs) (b ∷ ys) ha hb e =
    let same_byte : a ≡ b = byte-injective a b ha.0 hb.0 (cc) (cc) in
    let same_rest : xs ≡ ys = hex-injective xs ys ha.1 hb.1 (cc) in cc

pub length-hex : (bs : List ℕ) → length (hex bs) ≡ 2 * length bs
unfolding hex
length-hex [] = omega arith
length-hex (b ∷ bs) = omega (arith, length-hex bs)
