-- ===== src/Args.antt =====
-- util.h: packing and unpacking of vectors of strings. Memory is a table of bytes, a pointer an
-- address, and an input string the list of its bytes before the terminating zero. The lengths fit
-- the `int` that the source counts them in.
pub mod Packed
pub mod RoundTrip
use mathlib.Core.Option
use tiny_os.Prelude.{
  ℕ, zero, suc, ◌+◌, Option, none, some, List, [], ◌∷◌, ◌==◌, length, update, if◌then◌else◌,
}

abbrev pub Memory : Type 0
Memory = ℕ → ℕ

unfoldable pub argvlen : List (List ℕ) → ℕ
argvlen [] = 0
argvlen (s ∷ ss) = length s + 1 + argvlen ss

-- The inner loop of argvpack: where `pos` is after it, and the memory.
unfoldable pub write_string : List ℕ → ℕ → Memory → ℕ × Memory
write_string [] pos m = (pos + 1, update m pos 0)
write_string (c ∷ s) pos m = write_string s (pos + 1) (update m pos c)

-- The loop of argvpack: `argl`, and the memory.
unfoldable pub pack_loop : List (List ℕ) → ℕ → ℕ → Memory → ℕ × Memory
unfolding write_string
pack_loop [] pos argl m = (argl, m)
pack_loop (s ∷ ss) pos argl m =
    let (pos', m') = write_string s pos m in pack_loop ss pos' (argl + length s) m'

unfoldable pub argvpack : ℕ → List (List ℕ) → Memory → ℕ × Memory
unfolding pack_loop
argvpack args argv m = let (argl, m') = pack_loop argv args 0 m in (argl + length argv, m')

unfoldable pub argscount : ℕ → ℕ → Memory → ℕ
argscount zero a m = 0
argscount (suc argl) a m = (if m a == 0 then 1 else 0) + argscount argl (a + 1) m

-- `while(*a++);`, reading at most `fuel` bytes.
unfoldable pub skip_string : ℕ → ℕ → Memory → Option ℕ
skip_string zero a m = none
skip_string (suc fuel) a m =
    let rest = skip_string fuel (a + 1) m in if m a == 0 then some (a + 1) else rest

unfoldable pub after_string : Option ℕ → (ℕ → Option (List ℕ × ℕ)) → Option (List ℕ × ℕ)
after_string none more = none
after_string (some b) more = more b

unfoldable pub cons_pointer : ℕ → Option (List ℕ × ℕ) → Option (List ℕ × ℕ)
cons_pointer a none = none
cons_pointer a (some (ps, e)) = some (a ∷ ps, e)

-- The pointers in `argv`, and the first location not unpacked.
unfoldable pub argvunpack : ℕ → ℕ → ℕ → Memory → Option (List ℕ × ℕ)
unfolding after_string cons_pointer skip_string
argvunpack zero fuel a m = some ([], a)
argvunpack (suc argc) fuel a m =
    after_string (skip_string fuel a m) (λ b. cons_pointer a (argvunpack argc fuel b m))
