-- ===== src/Prelude/Lists.antt =====
-- Lists of object numbers: length, membership as a test, removal, distinctness.
use Prim.Native.Nat.{ℕ, zero, suc, ◌+◌, ◌≤◌, ◌<◌}
use mathlib.Core.Path.{◌≡◌, refl}
use mathlib.Core.Bool.{Bool, true, false, ◌||◌}
use mathlib.Core.List.{List, [], ◌∷◌, ◌++◌, reverse, reverse_aux}
use native.Mathlib.Omega.{arith}
use tiny_os.Prelude.Tests.{◌==◌, if◌then◌else◌}

module _ {ℓ} {A : Type ℓ} where
  abbrev pub length : List A → ℕ
  length [] = 0
  length (x ∷ xs) = suc (length xs)

  pub length-append : (xs ys : List A) → length (xs ++ ys) ≡ length xs + length ys
  length-append [] ys = omega arith
  length-append (x ∷ xs) ys = omega (arith, length-append xs ys)

  abbrev pub take : ℕ → List A → List A
  take zero xs = []
  take (suc n) [] = []
  take (suc n) (x ∷ xs) = x ∷ take n xs

abbrev pub has : ℕ → List ℕ → Bool
has a [] = false
has a (x ∷ xs) = (a == x) || has a xs

-- The numbers of the list that pass a test.
abbrev pub passing : (ℕ → Bool) → List ℕ → List ℕ
passing p [] = []
passing p (x ∷ xs) = if p x then x ∷ passing p xs else passing p xs

-- The list without the first occurrence of `a`.
unfoldable pub erase : ℕ → List ℕ → List ℕ
erase a [] = []
erase a (x ∷ xs) = if a == x then xs else x ∷ erase a xs

unfoldable pub count : ℕ → List ℕ → ℕ
count a [] = 0
count a (x ∷ xs) = (if a == x then 1 else 0) + count a xs

abbrev pub Distinct : List ℕ → Type 0
Distinct [] = Unit {0}
Distinct (x ∷ xs) = (has x xs ≡ false) × Distinct xs

pub has-append : (a : ℕ) (xs ys : List ℕ) → has a (xs ++ ys) ≡ (has a xs || has a ys)
has-append a [] ys = refl
has-append a (x ∷ xs) ys = ground (arith, has-append a xs ys)

pub has-erase : (a b : ℕ) (xs : List ℕ) → has a xs ≡ false → has a (erase b xs) ≡ false
unfolding erase
has-erase a b [] h = refl
has-erase a b (x ∷ xs) h = ground (arith, has-erase a b xs)

pub has-erase_self : (a : ℕ) (xs : List ℕ) → Distinct xs → has a (erase a xs) ≡ false
unfolding erase
has-erase_self a [] h = refl
has-erase_self a (x ∷ xs) h = ground (arith, has-erase_self a xs h.1)

pub has-erase_ne : (a b : ℕ) (xs : List ℕ) → (a == b) ≡ false → has a (erase b xs) ≡ has a xs
unfolding erase
has-erase_ne a b [] h = refl
has-erase_ne a b (x ∷ xs) h = ground (arith, has-erase_ne a b xs h)

pub Distinct-erase : (a : ℕ) (xs : List ℕ) → Distinct xs → Distinct (erase a xs)
unfolding erase
Distinct-erase a [] h = tt
Distinct-erase a (x ∷ xs) h = ground (arith, has-erase x a xs, Distinct-erase a xs h.1)

pub Distinct-append_one :
    (xs : List ℕ) (a : ℕ) → Distinct xs → has a xs ≡ false → Distinct (xs ++ a ∷ [])
Distinct-append_one [] a h out = (refl, tt)
Distinct-append_one (x ∷ xs) a h out =
    ground (arith, has-append x xs (a ∷ []), Distinct-append_one xs a h.1)

pub count-le-length : (a : ℕ) (xs : List ℕ) → count a xs ≤ length xs
unfolding count
count-le-length a [] = omega arith
count-le-length a (x ∷ xs) = ground (arith, count-le-length a xs)

pub count-erase :
    (a b : ℕ) (xs : List ℕ)
    → has b xs ≡ true
    → count a (erase b xs) + (if a == b then 1 else 0) ≡ count a xs
unfolding count erase
count-erase a b [] h = absurd (ground arith)
count-erase a b (x ∷ xs) h = ground (arith, count-erase a b xs)

pub length-erase : (b : ℕ) (xs : List ℕ) → length (erase b xs) ≤ length xs
unfolding erase
length-erase b [] = omega arith
length-erase b (x ∷ xs) = ground (arith, length-erase b xs)

pub has→count : (a : ℕ) (xs : List ℕ) → has a xs ≡ true → 0 < count a xs
unfolding count
has→count a [] h = absurd (ground arith)
has→count a (x ∷ xs) h = ground (arith, has→count a xs)

pub has-reverse_aux : (a : ℕ) (xs ys : List ℕ) → has a (reverse_aux xs ys) ≡ (has a xs || has a ys)
has-reverse_aux a [] ys = refl
has-reverse_aux a (x ∷ xs) ys = ground (arith, has-reverse_aux a xs (x ∷ ys))

pub Distinct-reverse_aux :
    (xs ys : List ℕ)
    → Distinct xs
    → Distinct ys
    → ((a : ℕ) → has a xs ≡ true → has a ys ≡ false)
    → Distinct (reverse_aux xs ys)
Distinct-reverse_aux [] ys dx dy apart = dy
Distinct-reverse_aux (x ∷ xs) ys dx dy apart =
    Distinct-reverse_aux xs (x ∷ ys) dx.1 (apart x (ground arith), dy)
      (λ a h. ground (arith, apart a))

pub has-reverse : (a : ℕ) (xs : List ℕ) → has a (reverse xs) ≡ has a xs
has-reverse a xs = ground (arith, has-reverse_aux a xs [])

pub Distinct-reverse : (xs : List ℕ) → Distinct xs → Distinct (reverse xs)
Distinct-reverse xs d = Distinct-reverse_aux xs [] d tt (λ a h. refl)

module _ {ℓ} {A : Type ℓ} where
  reverse_aux-append : (xs ys zs : List A) → reverse_aux xs (ys ++ zs) ≡ reverse_aux xs ys ++ zs
  reverse_aux-append [] ys zs = refl
  reverse_aux-append (x ∷ xs) ys zs = reverse_aux-append xs (x ∷ ys) zs

  pub reverse_aux_lem : (xs ys : List A) → reverse_aux xs ys ≡ reverse xs ++ ys
  reverse_aux_lem xs ys = reverse_aux-append xs [] ys

  length-reverse_aux : (xs ys : List A) → length (reverse_aux xs ys) ≡ length xs + length ys
  length-reverse_aux [] ys = omega arith
  length-reverse_aux (x ∷ xs) ys = omega (arith, length-reverse_aux xs (x ∷ ys))

  pub length-reverse : (xs : List A) → length (reverse xs) ≡ length xs
  length-reverse xs = omega (arith, length-reverse_aux xs [])

length-le-erase : (a : ℕ) (xs : List ℕ) → length xs ≤ suc (length (erase a xs))
unfolding erase
length-le-erase a [] = omega arith
length-le-erase a (x ∷ xs) = ground (arith, length-le-erase a xs)

pub has-erase→has : (a b : ℕ) (xs : List ℕ) → has a (erase b xs) ≡ true → has a xs ≡ true
unfolding erase
has-erase→has a b [] h = h
has-erase→has a b (x ∷ xs) h = ground (arith, has-erase→has a b xs)

-- Distinct numbers below `n` are at most `n`.
pub length-le_of_Distinct :
    (n : ℕ) (xs : List ℕ) → Distinct xs → ((a : ℕ) → has a xs ≡ true → a < n) → length xs ≤ n
length-le_of_Distinct zero [] d below = omega arith
length-le_of_Distinct zero (x ∷ xs) d below = absurd (ground (arith, below x))
length-le_of_Distinct (suc n) xs d below = omega (
  arith,
  length-le-erase n xs,
  length-le_of_Distinct n (erase n xs) (Distinct-erase n xs d)
      (λ a h. ground (arith, below a, has-erase→has a n xs h, has-erase_self n xs d)),
)

pub Distinct-append :
    (xs ys : List ℕ)
    → Distinct xs
    → Distinct ys
    → ((a : ℕ) → has a xs ≡ true → has a ys ≡ false)
    → Distinct (xs ++ ys)
Distinct-append [] ys dx dy apart = dy
Distinct-append (x ∷ xs) ys dx dy apart = (
  ground (arith, has-append x xs ys, dx.0, apart x),
  Distinct-append xs ys dx.1 dy (λ a h. ground (arith, apart a)),
)
