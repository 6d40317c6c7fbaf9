-- ===== src/Cep/Removal.antt =====
-- physical_system/cep_consumer.py: the deletions of marked positions, from the back.
use mathlib.Core.List.{map}
use circular_manu_system.Base.{
  Bool, List, Option-cases, [], arith, false, if◌then◌else◌, inl, inr, not, refl, suc, ℕ, ◌++◌, ◌+◌,
  ◌∷◌, ◌≡◌,
}
use circular_manu_system.Base.Lists.{keep, length}
use circular_manu_system.Cep.{delete_at, delete_each, delete_marked, insert_down, sort_down}

module _ {A : Type 0} where
  -- The positions, counted from `i`, of the items that pass the test.
  unfoldable pub marks : (A → Bool) → ℕ → List A → List ℕ
  marks test i [] = []
  marks test i (x ∷ xs) = let rest = marks test (suc i) xs in if test x then i ∷ rest else rest

  marks-suc :
      (test : A → Bool) (i : ℕ) (xs : List A) → marks test (suc i) xs ≡ map suc (marks test i xs)
  unfolding marks
  marks-suc test i [] = refl
  marks-suc test i (x ∷ xs) = ground (arith, marks-suc test (suc i) xs)

insert_down-map-suc :
    (n : ℕ) (l : List ℕ) → insert_down (suc n) (map suc l) ≡ map suc (insert_down n l)
unfolding insert_down
insert_down-map-suc n [] = refl
insert_down-map-suc n (m ∷ ms) = ground (arith, insert_down-map-suc n ms)

sort_down-map-suc : (l : List ℕ) → sort_down (map suc l) ≡ map suc (sort_down l)
unfolding sort_down
sort_down-map-suc [] = refl
sort_down-map-suc (n ∷ ns) = rw (sort_down-map-suc ns) (insert_down-map-suc n (sort_down ns))

insert_down-zero : (l : List ℕ) → insert_down 0 l ≡ l ++ 0 ∷ []
unfolding insert_down
insert_down-zero [] = refl
insert_down-zero (m ∷ ms) = ground (arith, insert_down-zero ms)

module _ {A : Type 0} where
  delete_each-map-suc :
      (l : List ℕ) (x : A) (xs : List A)
      → delete_each (map suc l) (x ∷ xs) ≡ (x ∷ (delete_each l xs).0, (delete_each l xs).1)
  unfolding delete_each
  delete_each-map-suc [] x xs = refl
  delete_each-map-suc (i ∷ is) x xs = elim (Option-cases (delete_at i xs)) [
    | inl e ↦ rw (e, delete_each) refl
    | inr (rest, e) ↦ rw (e, delete_each) (delete_each-map-suc is x rest)
  ]

  delete_each-append :
      (l m : List ℕ) (xs : List A)
      → (delete_each l xs).1 ≡ false
      → delete_each (l ++ m) xs ≡ delete_each m (delete_each l xs).0
  unfolding delete_each
  delete_each-append [] m xs h = refl
  delete_each-append (i ∷ is) m xs h = elim (Option-cases (delete_at i xs)) [
    | inl e ↦ absurd (ground arith)
    | inr (rest, e) ↦ ground (arith, delete_each-append is m rest)
  ]

  delete_marked-map-suc :
      (l : List ℕ) (x : A) (xs : List A)
      → delete_marked (map suc l) (x ∷ xs) ≡ (x ∷ (delete_marked l xs).0, (delete_marked l xs).1)
  unfolding delete_marked
  delete_marked-map-suc l x xs = rw (sort_down-map-suc l) (delete_each-map-suc (sort_down l) x xs)

  delete_marked-zero :
      (l : List ℕ) (x : A) (xs : List A)
      → (delete_marked l xs).1 ≡ false
      → delete_marked (0 ∷ map suc l) (x ∷ xs) ≡ ((delete_marked l xs).0, false)
  unfolding delete_marked
  delete_marked-zero l x xs h =
      rw (sort_down-map-suc l, insert_down-zero (map suc (sort_down l)))
        (ground (
          arith,
          delete_each-map-suc (sort_down l) x xs,
          delete_each-append (map suc (sort_down l)) (0 ∷ []) (x ∷ xs),
        ))

  pub length-marks :
      (test : A → Bool) (i : ℕ) (xs : List A)
      → length (marks test i xs) + length (keep (λ x. not (test x)) xs) ≡ length xs
  unfolding marks keep
  length-marks test i [] = omega arith
  length-marks test i (x ∷ xs) = ground (arith, length-marks test (suc i) xs)

  -- Deleting the positions of the items that pass a test, from the greatest to the least, raises
  -- no IndexError and leaves the items that fail the test, in their order.
  pub delete_marked-marks :
      (test : A → Bool) (xs : List A)
      → delete_marked (marks test 0 xs) xs ≡ (keep (λ x. not (test x)) xs, false)
  unfolding marks keep
  delete_marked-marks test [] = unfold delete_marked sort_down delete_each in refl
  delete_marked-marks test (x ∷ xs) = rw (marks-suc test 0 xs) (
      ground (
        arith,
        delete_marked-map-suc (marks test 0 xs) x xs,
        delete_marked-zero (marks test 0 xs) x xs,
        delete_marked-marks test xs,
      ))
