-- ===== src/Base/Quad.antt =====
-- The dictionaries `{1: …, 2: …, 3: …, 4: …}` that are keyed by the number of a corner.
use Prim.Native.Nat.{ℕ}
use mathlib.Core.Path.{◌≡◌, refl}
use mathlib.Core.Bool.{Bool, true, false}
use native.Mathlib.Omega.{arith}
use circular_manu_system.Base.{if◌then◌else◌}

-- `range(1, 5)`
pub data Corner : Type 0 where
  corner1 corner2 corner3 corner4 : Corner

abbrev pub corner_number : Corner → ℕ
corner_number corner1 = 1
corner_number corner2 = 2
corner_number corner3 = 3
corner_number corner4 = 4

abbrev pub same_corner : Corner → Corner → Bool
same_corner corner1 corner1 = true
same_corner corner2 corner2 = true
same_corner corner3 corner3 = true
same_corner corner4 corner4 = true
same_corner _ _ = false

pub record Quad {ℓ} (A : Type ℓ) : Type ℓ where
  pub at1 : A
  pub at2 : A
  pub at3 : A
  pub at4 : A

module _ {ℓ} {A : Type ℓ} where
  abbrev pub all_four : A → Quad A
  all_four a = record { at1 = a; at2 = a; at3 = a; at4 = a }

  -- `d[c]`
  abbrev pub get : Quad A → Corner → A
  get d corner1 = d.at1
  get d corner2 = d.at2
  get d corner3 = d.at3
  get d corner4 = d.at4

  -- `d[c] = a`
  abbrev pub put : Quad A → Corner → A → Quad A
  put d corner1 a = record d { at1 = a }
  put d corner2 a = record d { at2 = a }
  put d corner3 a = record d { at3 = a }
  put d corner4 a = record d { at4 = a }

  pub get-put :
      (d : Quad A) (c e : Corner) (a : A)
      → get (put d c a) e ≡ (if same_corner c e then a else get d e)
  get-put d corner1 e a = ground arith
  get-put d corner2 e a = ground arith
  get-put d corner3 e a = ground arith
  get-put d corner4 e a = ground arith

  pub get-put_self : (d : Quad A) (c : Corner) (a : A) → get (put d c a) c ≡ a
  get-put_self d corner1 a = refl
  get-put_self d corner2 a = refl
  get-put_self d corner3 a = refl
  get-put_self d corner4 a = refl

  -- What holds of the new entry and of the other entries holds of the dictionary after `put`.
  pub put-cases {κ} :
      (P : Corner → A → Type κ) (d : Quad A) (k e : Corner) (a : A)
      → P k a
      → ((e : Corner) → same_corner k e ≡ false → P e (get d e))
      → P e (get (put d k a) e)
  put-cases P d corner1 corner1 a p q = p
  put-cases P d corner2 corner2 a p q = p
  put-cases P d corner3 corner3 a p q = p
  put-cases P d corner4 corner4 a p q = p
  put-cases P d corner1 e a p q = q e refl
  put-cases P d corner2 e a p q = q e refl
  put-cases P d corner3 e a p q = q e refl
  put-cases P d corner4 e a p q = q e refl
