-- ===== src/Workers/Loop.antt =====
-- The loop of a thread over what it works on. `flags i` is the thread as the test of round `i`
-- finds it, since other threads may call `stop` at any time. `none` means that the fuel ran out.
use mathlib.Core.Path.{subst}
use circular_manu_system.Base.{
  Option, arith, false, if◌then◌else◌, none, refl, some, suc, true, zero, ℕ, ◌+◌, ◌<◌, ◌≡◌,
}
use circular_manu_system.Base.Lists.{keep}
use circular_manu_system.Workers.{Worker, goes_on}

module _ {S : Type 0} (body : ℕ → S → S) where
  -- The rounds from round `i` on, as many as the first argument says.
  unfoldable pub rounds_from : ℕ → ℕ → S → S
  rounds_from zero i s = s
  rounds_from (suc k) i s = rounds_from k (suc i) (body i s)

  -- A property that each round keeps holds at the end.
  pub rounds_from-Keeps :
      (P : S → Type 0)
      → ((i : ℕ) (s : S) → P s → P (body i s))
      → (k i : ℕ) (s : S) → P s
      → P (rounds_from k i s)
  unfolding rounds_from
  rounds_from-Keeps P keep zero i s h = h
  rounds_from-Keeps P keep (suc k) i s h =
      rounds_from-Keeps P keep k (suc i) (body i s) (keep i s h)

module _ {S : Type 0} (flags : ℕ → Worker) (body : ℕ → S → S) where
  unfoldable pub run_loop : ℕ → ℕ → S → Option S
  run_loop zero i s = none
  run_loop (suc fuel) i s =
      let rest = run_loop fuel (suc i) (body i s) in if goes_on (flags i) then rest else some s

  -- With more fuel than rounds the loop ends at the first test that fails, after the rounds before.
  pub run_loop_ends :
      (k fuel i : ℕ) (s : S)
      → k < fuel
      → ((j : ℕ) → j < k → goes_on (flags (i + j)) ≡ true)
      → goes_on (flags (i + k)) ≡ false
      → run_loop fuel i s ≡ some (rounds_from body k i s)
  unfolding run_loop rounds_from
  run_loop_ends k zero i s enough on off = elim enough [ ]
  run_loop_ends zero (suc fuel) i s enough on off =
      let here : goes_on (flags i) ≡ false =
        subst (λ n. goes_on (flags n) ≡ false) (omega arith) off in
      rw here refl
  run_loop_ends (suc k) (suc fuel) i s enough on off =
      let here : goes_on (flags i) ≡ true =
        subst (λ n. goes_on (flags n) ≡ true) (omega arith) (on 0 (omega arith)) in
      let later : (j : ℕ) → j < k → goes_on (flags (suc i + j)) ≡ true =
        λ j below. subst (λ n. goes_on (flags n) ≡ true) (omega arith) (on (suc j) (omega arith)) in
      let last : goes_on (flags (suc i + k)) ≡ false =
        subst (λ n. goes_on (flags n) ≡ false) (omega arith) off in
      rw here (run_loop_ends k fuel (suc i) (body i s) (omega arith) later last)

  pub run_loop_ends_at_zero :
      (k fuel : ℕ) (s : S)
      → k < fuel
      → ((i : ℕ) → i < k → goes_on (flags i) ≡ true)
      → goes_on (flags k) ≡ false
      → run_loop fuel 0 s ≡ some (rounds_from body k 0 s)
  run_loop_ends_at_zero k fuel s enough on off =
      run_loop_ends k fuel 0 s enough
        (λ j below. subst (λ n. goes_on (flags n) ≡ true) (omega arith) (on j below))
        (subst (λ n. goes_on (flags n) ≡ false) (omega arith) off)
