-- ===== src/Args/RoundTrip.antt =====
-- Packing by argvpack and unpacking by argscount and argvunpack (util.h).
use tiny_os.Prelude.{
  ℕ, zero, suc, ◌+◌, ◌≤◌, ◌<◌, ◌≡◌, refl, some, List, [], ◌∷◌, ◌==◌, length, false, arith, ap, ◌∙◌,
}
use tiny_os.Args.{
  Memory, argvlen, pack_loop, argvpack, argscount, skip_string, after_string, cons_pointer,
  argvunpack,
}
use tiny_os.Args.Packed.{
  NoZero, Strings, StringAt, Packed, PointAt, pack_loop-argl, pack_loop-Packed, pack_loop-before,
}

-- One string has one zero byte, and the count goes on after it.
argscount-StringAt :
    (s : List ℕ) (more a : ℕ) (m : Memory)
    → StringAt m a s
    → NoZero s
    → argscount (length s + 1 + more) a m ≡ suc (argscount more (a + length s + 1) m)
unfolding argscount
argscount-StringAt [] more a m h nz = ground arith
argscount-StringAt (c ∷ s) more a m (h, hs) (nz, nzs) =
    ap (λ n. argscount n a m) {y = suc (length s + 1 + more)} (omega arith)
    ∙ next
    ∙ argscount-StringAt s more (a + 1) m hs nzs
    ∙ ap (λ b. suc (argscount more b m)) (omega arith)
  where
    next : argscount (suc (length s + 1 + more)) a m ≡ argscount (length s + 1 + more) (a + 1) m
    next = let e : (m a == 0) ≡ false = ground arith in rw e (omega arith)

pub argscount-Packed :
    (ss : List (List ℕ)) (a : ℕ) (m : Memory)
    → Packed m a ss
    → Strings ss
    → argscount (argvlen ss) a m ≡ length ss
unfolding argvlen argscount
argscount-Packed [] a m h nz = refl
argscount-Packed (s ∷ ss) a m (h, hs) (nz, nzs) =
    argscount-StringAt s (argvlen ss) a m h nz
    ∙ ap suc (argscount-Packed ss (a + length s + 1) m hs nzs)

skip_string-StringAt :
    (s : List ℕ) (fuel a : ℕ) (m : Memory)
    → StringAt m a s
    → NoZero s
    → length s < fuel
    → skip_string fuel a m ≡ some (a + length s + 1)
unfolding skip_string
skip_string-StringAt s zero a m h nz lt = absurd (omega arith)
skip_string-StringAt [] (suc fuel) a m h nz lt = ground arith
skip_string-StringAt (c ∷ s) (suc fuel) a m (h, hs) (nz, nzs) lt =
    let e : (m a == 0) ≡ false = ground arith in
    rw e (skip_string-StringAt s fuel (a + 1) m hs nzs (omega arith) ∙ ap some (omega arith))

-- What argvunpack finds in a buffer that holds `ss`.
unfoldable pub Unpacks : ℕ → ℕ → Memory → List (List ℕ) → Type 0
Unpacks fuel a m ss =
    (ps : List ℕ) × (argvunpack (length ss) fuel a m ≡ some (ps, a + argvlen ss)) × PointAt m ps ss

pub argvunpack-Packed :
    (ss : List (List ℕ)) (fuel a : ℕ) (m : Memory)
    → Packed m a ss
    → Strings ss
    → argvlen ss ≤ fuel
    → Unpacks fuel a m ss
unfolding Unpacks argvunpack argvlen
argvunpack-Packed [] fuel a m h nz enough = ([], ap (λ e. some ([], e)) (omega arith), tt)
argvunpack-Packed (s ∷ ss) fuel a m (h, hs) (nz, nzs) enough =
    found (argvunpack-Packed ss fuel (a + length s + 1) m hs nzs (omega arith))
  where
    found : Unpacks fuel (a + length s + 1) m ss → Unpacks fuel a m (s ∷ ss)
    found (ps, e, at) = (
      a ∷ ps,
      rw (skip_string-StringAt s fuel a m h nz (omega arith), after_string, e, cons_pointer)
          (ap (λ e. some (a ∷ ps, e)) (omega arith)),
      (h, at),
    )

-- For strings without a zero byte, argvpack returns argvlen; argscount of the buffer that it fills is
-- the number of strings; argvunpack, reading no more bytes for a string than the buffer has, returns
-- pointers to the same strings in order and the end of the buffer; and no byte before the buffer
-- has changed.
pub argvunpack-argvpack :
    (ss : List (List ℕ)) (args : ℕ) (m : Memory)
    → Strings ss
    → ((argvpack args ss m).0 ≡ argvlen ss)
      × (argscount (argvlen ss) args (argvpack args ss m).1 ≡ length ss)
      × Unpacks (argvlen ss) args (argvpack args ss m).1 ss
      × ((a : ℕ) → a < args → (argvpack args ss m).1 a ≡ m a)
unfolding argvpack
argvunpack-argvpack ss args m nz = (
  omega (arith, pack_loop-argl ss args 0 m),
  argscount-Packed ss args _ packed nz,
  argvunpack-Packed ss (argvlen ss) args _ packed nz (omega arith),
  λ a lt. pack_loop-before ss args 0 m a lt,
)
  where
    packed : Packed (pack_loop ss args 0 m).1 args ss
    packed = pack_loop-Packed ss args 0 m
