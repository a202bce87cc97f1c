-- ===== src/Args/Packed.antt =====
-- What the argument buffer of util.h holds, and what is read from it.

use tiny_os.Prelude.{
  ℕ, ◌+◌, ◌≤◌, ◌<◌, ◌≡◌, refl, List, [], ◌∷◌, ◌==◌, length, update, false, arith, subst, ◌∙◌,
}
use tiny_os.Args.{Memory, argvlen, write_string, pack_loop}

-- A C string has no zero byte before its end.
abbrev pub NoZero : List ℕ → Type 0
NoZero [] = Unit {0}
NoZero (c ∷ s) = ((c == 0) ≡ false) × NoZero s

abbrev pub Strings : List (List ℕ) → Type 0
Strings [] = Unit {0}
Strings (s ∷ ss) = NoZero s × Strings ss

-- The string at address `a` is `s`.
abbrev pub StringAt : Memory → ℕ → List ℕ → Type 0
StringAt m a [] = m a ≡ 0
StringAt m a (c ∷ s) = (m a ≡ c) × StringAt m (a + 1) s

-- From address `a` on, the strings stand one after the other.
abbrev pub Packed : Memory → ℕ → List (List ℕ) → Type 0
Packed m a [] = Unit {0}
Packed m a (s ∷ ss) = StringAt m a s × Packed m (a + length s + 1) ss

-- The pointers point at the strings, in order.
abbrev pub PointAt : Memory → List ℕ → List (List ℕ) → Type 0
PointAt m [] [] = Unit {0}
PointAt m (p ∷ ps) (s ∷ ss) = StringAt m p s × PointAt m ps ss
PointAt m [] (s ∷ ss) = ⊥
PointAt m (p ∷ ps) [] = ⊥

write_string-pos :
    (s : List ℕ) (pos : ℕ) (m : Memory) → (write_string s pos m).0 ≡ pos + length s + 1
unfolding write_string
write_string-pos [] pos m = omega arith
write_string-pos (c ∷ s) pos m = omega (arith, write_string-pos s (pos + 1) (update m pos c))

write_string-before :
    (s : List ℕ) (pos : ℕ) (m : Memory) (a : ℕ) → a < pos → (write_string s pos m).1 a ≡ m a
unfolding write_string
write_string-before [] pos m a h = ground arith
write_string-before (c ∷ s) pos m a h =
    write_string-before s (pos + 1) (update m pos c) a (omega arith) ∙ ground arith

write_string-StringAt :
    (s : List ℕ) (pos : ℕ) (m : Memory) → StringAt (write_string s pos m).1 pos s
unfolding write_string
write_string-StringAt [] pos m = ground arith
write_string-StringAt (c ∷ s) pos m = (
  write_string-before s (pos + 1) (update m pos c) pos (omega arith) ∙ ground arith,
  write_string-StringAt s (pos + 1) (update m pos c),
)

StringAt-same :
    (m m' : Memory) (a : ℕ) (s : List ℕ)
    → ((b : ℕ) → a ≤ b → b ≤ a + length s → m' b ≡ m b)
    → StringAt m a s
    → StringAt m' a s
StringAt-same m m' a [] same h = same a (omega arith) (omega arith) ∙ h
StringAt-same m m' a (c ∷ s) same (h, hs) = (
  same a (omega arith) (omega arith) ∙ h,
  StringAt-same m m' (a + 1) s (λ b lo hi. same b (omega arith) (omega arith)) hs,
)

pub pack_loop-before :
    (ss : List (List ℕ)) (pos argl : ℕ) (m : Memory) (a : ℕ)
    → a < pos
    → (pack_loop ss pos argl m).1 a ≡ m a
unfolding pack_loop
pack_loop-before [] pos argl m a h = refl
pack_loop-before (s ∷ ss) pos argl m a h =
    pack_loop-before ss _ _ _ a (omega (arith, write_string-pos s pos m))
    ∙ write_string-before s pos m a h

pub pack_loop-argl :
    (ss : List (List ℕ)) (pos argl : ℕ) (m : Memory)
    → (pack_loop ss pos argl m).0 + length ss ≡ argl + argvlen ss
unfolding pack_loop argvlen
pack_loop-argl [] pos argl m = refl
pack_loop-argl (s ∷ ss) pos argl m =
    omega
      (arith, pack_loop-argl ss (write_string s pos m).0 (argl + length s) (write_string s pos m).1)

pub pack_loop-Packed :
    (ss : List (List ℕ)) (pos argl : ℕ) (m : Memory) → Packed (pack_loop ss pos argl m).1 pos ss
unfolding pack_loop
pack_loop-Packed [] pos argl m = tt
pack_loop-Packed (s ∷ ss) pos argl m = (
  StringAt-same (write_string s pos m).1 _ pos s
      (λ b lo hi. pack_loop-before ss _ _ _ b (omega (arith, write_string-pos s pos m)))
      (write_string-StringAt s pos m),
  subst
      (λ q.
        Packed (pack_loop ss (write_string s pos m).0 (argl + length s) (write_string s pos m).1).1
          q ss)
      (write_string-pos s pos m)
      (pack_loop-Packed ss (write_string s pos m).0 (argl + length s) (write_string s pos m).1),
)
