-- ===== src/Prelude/Maps.antt =====
-- A map keyed by numbers, as the function of its lookups: the `HashMap`s of the scheduler.
use Prim.Native.Nat.{ℕ}
use mathlib.Core.Path.{◌≡◌}
use mathlib.Core.Logic.{◌≢◌}
use mathlib.Core.Option.{Option, none, some}
use native.Mathlib.Omega.{arith}
use wasmer_js.Prelude.Tests.{◌==◌, if◌then◌else◌}

abbrev pub HashMap {ℓ} : Type ℓ → Type ℓ
HashMap A = ℕ → Option A

module _ {ℓ} {A : Type ℓ} where
  abbrev pub empty : HashMap A
  empty k = none

  unfoldable pub insert : HashMap A → ℕ → A → HashMap A
  insert f k x j = if j == k then some x else f j

  unfoldable pub remove : HashMap A → ℕ → HashMap A
  remove f k j = if j == k then none else f j

  pub insert_self : (f : HashMap A) (k : ℕ) (x : A) → insert f k x k ≡ some x
  unfolding insert
  insert_self f k x = ground arith

  pub insert_other : (f : HashMap A) (k j : ℕ) (x : A) → j ≢ k → insert f k x j ≡ f j
  unfolding insert
  insert_other f k j x h = ground arith

  pub remove_self : (f : HashMap A) (k : ℕ) → remove f k k ≡ none
  unfolding remove
  remove_self f k = ground arith

  pub remove_other : (f : HashMap A) (k j : ℕ) → j ≢ k → remove f k j ≡ f j
  unfolding remove
  remove_other f k j h = ground arith
