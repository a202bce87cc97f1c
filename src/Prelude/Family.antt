-- ===== src/Prelude/Family.antt =====
-- Tables indexed by a number: update at one index, and sums over the first `n` entries.
use Prim.Native.Nat.{ℕ, zero, suc, ◌+◌, ◌*◌, ◌≤◌, ◌<◌}
use mathlib.Core.Path.{◌≡◌, refl}
use mathlib.Core.Logic.{◌≢◌}
use native.Mathlib.Decide.{dec_lt}
use native.Mathlib.Omega.{arith}
use tiny_os.Prelude.Tests.{◌==◌, if◌then◌else◌}

abbrev pub update {ℓ} : {A : Type ℓ} → (ℕ → A) → ℕ → A → ℕ → A
update f i a j = if i == j then a else f j

pub sum_below : ℕ → (ℕ → ℕ) → ℕ
sum_below zero g = 0
sum_below (suc n) g = sum_below n g + g n

pub sum_below-cong :
    (n : ℕ) (g g' : ℕ → ℕ) → ((j : ℕ) → j < n → g' j ≡ g j) → sum_below n g' ≡ sum_below n g
unfolding sum_below
sum_below-cong zero g g' same = refl
sum_below-cong (suc n) g g' same =
    omega (arith, same n (omega arith), sum_below-cong n g g' (λ j h. same j (omega arith)))

-- A change of one entry changes the sum by as much.
pub sum_below-change :
    (n : ℕ) (g g' : ℕ → ℕ) (i : ℕ)
    → i < n
    → ((j : ℕ) → j ≢ i → g' j ≡ g j)
    → sum_below n g' + g i ≡ sum_below n g + g' i
unfolding sum_below
sum_below-change zero g g' i h same = absurd (omega arith)
sum_below-change (suc n) g g' i h same = elim (dec_lt i n) [
  | yes below ↦ omega (arith, same n (omega arith), sum_below-change n g g' i below same)
  | no last ↦
      let e : i ≡ n = omega arith in
      rw e (omega (arith, sum_below-cong n g g' (λ j b. same j (omega arith))))
]

pub sum_below-le : (n k : ℕ) (g : ℕ → ℕ) → ((j : ℕ) → g j ≤ k) → sum_below n g ≤ n * k
unfolding sum_below
sum_below-le zero k g small = omega arith
sum_below-le (suc n) k g small = grind (arith, small n, sum_below-le n k g small)

pub sum_below-zero : (n : ℕ) (g : ℕ → ℕ) → ((j : ℕ) → g j ≡ 0) → sum_below n g ≡ 0
unfolding sum_below
sum_below-zero zero g h = refl
sum_below-zero (suc n) g h = omega (arith, h n, sum_below-zero n g h)

-- An entry is at most the sum.
pub le-sum_below : (n : ℕ) (g : ℕ → ℕ) (i : ℕ) → i < n → g i ≤ sum_below n g
unfolding sum_below
le-sum_below zero g i h = absurd (omega arith)
le-sum_below (suc n) g i h = elim (dec_lt i n) [
  | yes below ↦ omega (arith, le-sum_below n g i below)
  | no last ↦ let e : i ≡ n = omega arith in rw e (omega arith)
]
