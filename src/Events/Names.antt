-- ===== src/Events/Names.antt =====
-- The strings of the source behind the identifiers.
use circular_manu_system.Base.{
  List, Option, [], ap, arith, if◌then◌else◌, none, refl, some, ◌∷◌, ◌≡◌,
}
use circular_manu_system.Base.Text.{Text, codes, text_eq, text_eq_iff}
use circular_manu_system.Events.{
  Barrier, c1_pos, c2_pos, c3_pos, c4_pos, corner1_ext, corner1_ret, corner2_ext, corner2_ret,
  corner3_ext, corner3_ret, corner4_ext, corner4_ret, m1_start, m2_start, s1_entry, s1_exit,
  s1_process, s2_entry, s2_exit, s2_process, same, same_iff,
}

unfoldable pub name : Barrier → Text
name s1_entry = codes "S1_ENTRY"
name s1_process = codes "S1_PROCESS"
name s1_exit = codes "S1_EXIT"
name s2_entry = codes "S2_ENTRY"
name s2_process = codes "S2_PROCESS"
name s2_exit = codes "S2_EXIT"
name c1_pos = codes "C1_POS"
name c2_pos = codes "C2_POS"
name c3_pos = codes "C3_POS"
name c4_pos = codes "C4_POS"
name corner1_ret = codes "CORNER1_RET"
name corner2_ret = codes "CORNER2_RET"
name corner3_ret = codes "CORNER3_RET"
name corner4_ret = codes "CORNER4_RET"
name corner1_ext = codes "CORNER1_EXT"
name corner2_ext = codes "CORNER2_EXT"
name corner3_ext = codes "CORNER3_EXT"
name corner4_ext = codes "CORNER4_EXT"
name m1_start = codes "M1_START"
name m2_start = codes "M2_START"

abbrev pub barriers : List Barrier
barriers =
    s1_entry ∷ s1_process ∷ s1_exit ∷ s2_entry ∷ s2_process ∷ s2_exit ∷ c1_pos ∷ c2_pos ∷ c3_pos
    ∷ c4_pos ∷ corner1_ret ∷ corner2_ret ∷ corner3_ret ∷ corner4_ret ∷ corner1_ext ∷ corner2_ext
    ∷ corner3_ext ∷ corner4_ext ∷ m1_start ∷ m2_start ∷ []

first_named : Text → List Barrier → Option Barrier
unfolding name
first_named t [] = none
first_named t (b ∷ bs) = if text_eq (name b) t then some b else first_named t bs

first_named-name : (b : Barrier) → first_named (name b) barriers ≡ some b
unfolding first_named text_eq
first_named-name s1_entry = refl
first_named-name _ = refl

-- Two light barriers or limit switches with the same string are equal.
pub name-injective : (a b : Barrier) → name a ≡ name b → a ≡ b
name-injective a b e =
    cc (first_named-name a, first_named-name b, ap (λ t. first_named t barriers) e)

pub same-name : (a b : Barrier) → same a b ≡ text_eq (name a) (name b)
same-name a b = ground (
  arith,
  same_iff a b,
  text_eq_iff (name a) (name b),
  name-injective a b,
  ap {B = Text} name {x = a} {y = b},
)
