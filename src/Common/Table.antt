-- ===== src/Common/Table.antt =====
-- Tests of every number below a bound, by evaluation.
use Prim.Native.Nat.{ℕ, zero, suc, ◌≤◌, ◌<◌}
use mathlib.Core.Path.{◌≡◌, refl, ap, sym, ◌∙◌}
use mathlib.Core.Logic.{◌⊎◌, inl, inr}
use mathlib.Core.Bool.{Bool, true, false}
use native.Mathlib.Omega.{arith}
use train_utils.Common.Tests.{if◌then◌else◌, Bool-cases}

pub le_split : (i n : ℕ) → i ≤ n → (i < n) ⊎ (i ≡ n)
le_split i n h = ground arith

-- A test that holds of every number below a bound, found by running it.
unfoldable pub all_below : ℕ → (ℕ → Bool) → Bool
all_below zero f = true
all_below (suc n) f = if f n then all_below n f else false

pub all_below-lt : (n : ℕ) (f : ℕ → Bool) → all_below n f ≡ true → (i : ℕ) → i < n → f i ≡ true
unfolding all_below
all_below-lt zero f h i l = elim l [ ]
all_below-lt (suc n) f h i l = elim (Bool-cases (f n)) [
  | inr e ↦ ground (arith, e, h)
  | inl e ↦ elim (le_split i n (omega arith)) [
    | inl p ↦ all_below-lt n f (sym (rw e refl) ∙ h) i p
    | inr p ↦ ap f p ∙ e
  ]
]
