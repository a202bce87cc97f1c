-- ===== src/Tests/Strings.antt =====
-- The strings "hi" and "", packed at address 8.
use tiny_os.Prelude.{ℕ, ◌<◌, ◌≡◌, refl, List, [], ◌∷◌, length, some}
use tiny_os.Args.{
  Memory, argvlen, argvpack, argscount, argvunpack, write_string, pack_loop, skip_string,
}
use tiny_os.Args.RoundTrip.{Unpacks, argvunpack-argvpack}

abbrev blank : Memory
blank = λ a. 7

abbrev two_strings : List (List ℕ)
two_strings = (104 ∷ 105 ∷ []) ∷ [] ∷ []

two_pointers : argvunpack 2 4 8 (argvpack 8 two_strings blank).1 ≡ some (8 ∷ 11 ∷ [], 12)
unfolding argvpack write_string pack_loop argvunpack skip_string
two_pointers = refl

argvunpack-argvpack_example :
    ((argvpack 8 two_strings blank).0 ≡ argvlen two_strings)
    × (argscount (argvlen two_strings) 8 (argvpack 8 two_strings blank).1 ≡ length two_strings)
    × Unpacks (argvlen two_strings) 8 (argvpack 8 two_strings blank).1 two_strings
    × ((a : ℕ) → a < 8 → (argvpack 8 two_strings blank).1 a ≡ blank a)
argvunpack-argvpack_example = argvunpack-argvpack two_strings 8 blank ((refl, (refl, tt)), (tt, tt))
