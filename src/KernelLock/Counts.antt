-- ===== src/KernelLock/Counts.antt =====
-- How many threads are at a place.
use tiny_os.Prelude.{
  ℕ, ◌+◌, ◌≤◌, ◌<◌, ◌≡◌, refl, false, arith, ◌==◌, update, sum_below, sum_below-change,
  le-sum_below, sum_below-zero,
}
use tiny_os.KernelLock.{Place, outside, inside, signalled}

abbrev pub is_inside : Place → ℕ
is_inside inside = 1
is_inside _ = 0

abbrev pub is_signalled : Place → ℕ
is_signalled signalled = 1
is_signalled _ = 0

pub tally : ℕ → (Place → ℕ) → (ℕ → Place) → ℕ
tally n f place = sum_below n (λ t. f (place t))

pub tally-update :
    (n : ℕ) (f : Place → ℕ) (place : ℕ → Place) (t : ℕ) (p : Place)
    → t < n
    → tally n f (update place t p) + f (place t) ≡ tally n f place + f p
unfolding tally
tally-update n f place t p lt = omega (
  arith,
  sum_below-change n (λ u. f (place u)) (λ u. f (update place t p u)) t lt (λ u ne. ground arith),
  self,
)
  where
    self : f (update place t p t) ≡ f p
    self = ground arith

pub tally-le :
    (n : ℕ) (f : Place → ℕ) (place : ℕ → Place) (t : ℕ) → t < n → f (place t) ≤ tally n f place
unfolding tally
tally-le n f place t lt = le-sum_below n (λ u. f (place u)) t lt

pub tally-none : (n : ℕ) (f : Place → ℕ) → f outside ≡ 0 → tally n f (λ t. outside) ≡ 0
unfolding tally
tally-none n f e = sum_below-zero n _ (λ t. e)

-- Two different threads count twice.
pub tally-two :
    (n : ℕ) (place : ℕ → Place) (t u : ℕ)
    → t < n
    → u < n
    → (t == u) ≡ false
    → place t ≡ inside
    → place u ≡ inside
    → 2 ≤ tally n is_inside place
tally-two n place t u lt lu ne et eu = omega (
  arith,
  tally-update n is_inside place t outside lt,
  tally-le n is_inside (update place t outside) u lu,
  here,
  there,
)
  where
    here : is_inside (place t) ≡ 1
    here = rw et refl

    there : is_inside (update place t outside u) ≡ 1
    there = rw (ne, eu) refl
