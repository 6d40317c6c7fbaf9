-- ===== src/Base/Ending.antt =====
-- How a method ends: it returns, or an exception leaves it, with the state that it has made by then.
use circular_manu_system.Base.{Bool, false, refl, true, ◌≡◌}

pub data Ending (A : Type 0) : Type 0 where
  returns : A → Ending A
  raises : A → Ending A

infixl 5 ◌>>=◌
abbrev pub ◌>>=◌ : {A : Type 0} → Ending A → (A → Ending A) → Ending A
returns a >>= f = f a
raises a >>= f = raises a

module _ {A : Type 0} where
  abbrev pub left_by : Ending A → A
  left_by (returns a) = a
  left_by (raises a) = a

  abbrev pub is_raised : Ending A → Bool
  is_raised (returns a) = false
  is_raised (raises a) = true

  pub returns-eq : (e : Ending A) → is_raised e ≡ false → e ≡ returns (left_by e)
  returns-eq (returns a) h = refl
  returns-eq (raises a) h = cc

  pub raises-eq : (e : Ending A) → is_raised e ≡ true → e ≡ raises (left_by e)
  raises-eq (returns a) h = cc
  raises-eq (raises a) h = refl

abbrev pub map_ending : {A B : Type 0} → (A → B) → Ending A → Ending B
map_ending f (returns a) = returns (f a)
map_ending f (raises a) = raises (f a)
