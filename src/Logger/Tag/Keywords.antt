-- ===== src/Logger/Tag/Keywords.antt =====
-- When exactly an activity is tagged as a finish.
use mathlib.Core.List.{map}
use circular_manu_system.Base.{
  Bool-cases, List, [], ap, arith, inl, inr, refl, sym, true, ◌++◌, ◌∷◌, ◌≡◌,
}
use circular_manu_system.Base.Lists.{In}
use circular_manu_system.Base.Text.{Text, is_in, starts_with, to_upper}
use circular_manu_system.Logger.Tag.{finish_keywords, finish_tag, infer_tag, start_tag, tag_by}

-- The text `k` stands somewhere in `s`.
abbrev pub Contains : Text → Text → Type 0
Contains k s = (before : Text) × (after : Text) × (s ≡ before ++ k ++ after)

starts_with-append : (k s : Text) → starts_with k (k ++ s) ≡ true
unfolding starts_with
starts_with-append [] s = refl
starts_with-append (c ∷ k) s = ground (arith, starts_with-append k s)

starts_with_rest : (k s : Text) → starts_with k s ≡ true → (after : Text) × (s ≡ k ++ after)
unfolding starts_with
starts_with_rest [] s h = (s, refl)
starts_with_rest (c ∷ k) [] h = absurd (ground arith)
starts_with_rest (c ∷ k) (d ∷ s) h =
    let (after, e) = starts_with_rest k s (ground arith) in (after, ground (arith, e))

is_in_here : (k s : Text) → starts_with k s ≡ true → is_in k s ≡ true
unfolding is_in
is_in_here k [] h = h
is_in_here k (c ∷ s) h = ground arith

is_in-Contains : (k s : Text) → is_in k s ≡ true → Contains k s
unfolding is_in
is_in-Contains k [] h = let (after, e) = starts_with_rest k [] h in ([], after, e)
is_in-Contains k (c ∷ s) h = elim (Bool-cases (starts_with k (c ∷ s))) [
  | inl hit ↦ let (after, e) = starts_with_rest k (c ∷ s) hit in ([], after, e)
  | inr miss ↦
      let (before, after, e) = is_in-Contains k s (ground arith) in
      (c ∷ before, after, ap (λ t. c ∷ t) e)
]

is_in-append : (before k after : Text) → is_in k (before ++ k ++ after) ≡ true
unfolding is_in
is_in-append [] k after = is_in_here k (k ++ after) (starts_with-append k after)
is_in-append (c ∷ before) k after = ground (arith, is_in-append before k after)

Contains-is_in : (k s : Text) → Contains k s → is_in k s ≡ true
Contains-is_in k s (before, after, e) = rw e (is_in-append before k after)

-- A keyword stands in the activity's upper-case form.
abbrev pub HasKeyword : Text → Type 0
HasKeyword activity = (k : Text) × In k finish_keywords × Contains k (map to_upper activity)

tag_by-finish : (ks : List Text) (t k : Text) → In k ks → Contains k t → tag_by ks t ≡ finish_tag
unfolding tag_by
tag_by-finish [] t k p c = absurd p
tag_by-finish (j ∷ ks) t k (inl e) c = rw (sym e, Contains-is_in k t c)
tag_by-finish (j ∷ ks) t k (inr p) c = ground (arith, tag_by-finish ks t k p c)

tag_by-start :
    (ks : List Text) (t : Text) → ((k : Text) → In k ks → ¬ Contains k t) → tag_by ks t ≡ start_tag
unfolding tag_by
tag_by-start [] t none_in = refl
tag_by-start (k ∷ ks) t none_in = elim (Bool-cases (is_in k t)) [
  | inl hit ↦ absurd (none_in k (inl refl) (is_in-Contains k t hit))
  | inr miss ↦ rw miss (tag_by-start ks t (λ j p. none_in j (inr p)))
]

-- The inferred tag is FINISH if one of the keywords stands somewhere in the upper-case form of the
-- activity, and START if none does.
pub infer_tag_lem :
    (activity : Text)
    → (HasKeyword activity → infer_tag activity ≡ finish_tag)
      × (¬ HasKeyword activity → infer_tag activity ≡ start_tag)
unfolding infer_tag
infer_tag_lem activity = (
  λ (k, p, c). tag_by-finish finish_keywords (map to_upper activity) k p c,
  λ n. tag_by-start finish_keywords (map to_upper activity) (λ k p c. n (k, p, c)),
)
