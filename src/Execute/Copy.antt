-- ===== src/Execute/Copy.antt =====
-- Copies of memory (tinyoslib.c, util.h): numbers as bytes, and strings elsewhere.
use tiny_os.Prelude.{
  ℕ, zero, suc, ◌+◌, ◌/◌, ◌%◌, ◌^◌, ◌<◌, ◌≡◌, refl, List, [], ◌∷◌, arith, ap, ◌∙◌, length, take,
  update,
}
use tiny_os.Args.{Memory, argvlen}
use tiny_os.Args.Packed.{StringAt, Packed}
use tiny_os.Execute.{put_bytes, get_bytes, read_bytes, load_bytes}

-- The `n` bytes from `b` on in `m'` are those from `a` on in `m`.
abbrev pub Copied : ℕ → ℕ → Memory → ℕ → Memory → Type 0
Copied n a m b m' = (i : ℕ) → i < n → m' (b + i) ≡ m (a + i)

Copied-next : (n a b : ℕ) (m m' : Memory) → Copied (suc n) a m b m' → Copied n (a + 1) m (b + 1) m'
Copied-next n a b m m' same i lt =
    ap m' {x = b + 1 + i} {y = b + suc i} (omega arith)
    ∙ same (suc i) (omega arith)
    ∙ ap m {x = a + suc i} {y = a + 1 + i} (omega arith)

pub Copied-from :
    (k n a b : ℕ) (m m' : Memory) → Copied (k + n) a m b m' → Copied n (a + k) m (b + k) m'
Copied-from k n a b m m' same i lt =
    ap m' {x = b + k + i} {y = b + (k + i)} (omega arith)
    ∙ same (k + i) (omega arith)
    ∙ ap m {x = a + (k + i)} {y = a + k + i} (omega arith)

pub load_bytes-Copied :
    (n a b : ℕ) (m m' : Memory) → Copied n a m b (load_bytes (read_bytes n a m) b m')
unfolding load_bytes read_bytes
load_bytes-Copied zero a b m m' i lt = absurd (omega arith)
load_bytes-Copied (suc n) a b m m' zero lt = ground arith
load_bytes-Copied (suc n) a b m m' (suc i) lt =
    let rest = load_bytes (read_bytes n (a + 1) m) (b + 1) m' in
    skip rest
    ∙ ap rest {x = b + suc i} {y = b + 1 + i} (omega arith)
    ∙ load_bytes-Copied n (a + 1) (b + 1) m m' i (omega arith)
    ∙ ap m {x = a + 1 + i} {y = a + suc i} (omega arith)
  where
    skip : (rest : Memory) → update rest b (m a) (b + suc i) ≡ rest (b + suc i)
    skip rest = ground arith

pub take-read_bytes : (n a : ℕ) (m : Memory) → take n (read_bytes n a m) ≡ read_bytes n a m
unfolding read_bytes
take-read_bytes zero a m = refl
take-read_bytes (suc n) a m = ap (λ l. m a ∷ l) (take-read_bytes n (a + 1) m)

pub get_bytes-Copied :
    (n a b : ℕ) (m m' : Memory) → Copied n a m b m' → get_bytes n b m' ≡ get_bytes n a m
unfolding get_bytes
get_bytes-Copied zero a b m m' same = refl
get_bytes-Copied (suc n) a b m m' same = omega (
  arith,
  ap m' {x = b} {y = b + 0} (omega arith)
      ∙ same 0 (omega arith)
      ∙ ap m {x = a + 0} {y = a} (omega arith),
  get_bytes-Copied n (a + 1) (b + 1) m m' (Copied-next n a b m m' same),
)

put_bytes-before : (n v a : ℕ) (m : Memory) (u : ℕ) → u < a → put_bytes n v a m u ≡ m u
unfolding put_bytes
put_bytes-before zero v a m u lt = refl
put_bytes-before (suc n) v a m u lt =
    put_bytes-before n (v / 256) (a + 1) (update m a (v % 256)) u (omega arith) ∙ ground arith

-- A number below 256^n is read back from the `n` bytes that it was written to.
pub get_bytes-put_bytes :
    (n v a : ℕ) (m : Memory) → v < 256 ^ n → get_bytes n a (put_bytes n v a m) ≡ v
unfolding put_bytes get_bytes
get_bytes-put_bytes zero v a m lt = omega arith
get_bytes-put_bytes (suc n) v a m lt =
    omega
      (arith, first, get_bytes-put_bytes n (v / 256) (a + 1) (update m a (v % 256)) (omega arith))
  where
    first : put_bytes n (v / 256) (a + 1) (update m a (v % 256)) a ≡ v % 256
    first =
        put_bytes-before n (v / 256) (a + 1) (update m a (v % 256)) a (omega arith) ∙ ground arith

StringAt-Copied :
    (s : List ℕ) (a b : ℕ) (m m' : Memory)
    → Copied (length s + 1) a m b m'
    → StringAt m a s
    → StringAt m' b s
StringAt-Copied [] a b m m' same h =
    ap m' {x = b} {y = b + 0} (omega arith)
    ∙ same 0 (omega arith)
    ∙ ap m {x = a + 0} {y = a} (omega arith)
    ∙ h
StringAt-Copied (c ∷ s) a b m m' same (h, hs) = (
  ap m' {x = b} {y = b + 0} (omega arith)
      ∙ same 0 (omega arith)
      ∙ ap m {x = a + 0} {y = a} (omega arith)
      ∙ h,
  StringAt-Copied s (a + 1) (b + 1) m m'
      (Copied-next (length s + 1) a b m m' (λ i lt. same i (omega arith))) hs,
)

-- Strings in a row are such in a copy.
pub Packed-Copied :
    (ss : List (List ℕ)) (a b : ℕ) (m m' : Memory)
    → Copied (argvlen ss) a m b m'
    → Packed m a ss
    → Packed m' b ss
unfolding argvlen
Packed-Copied [] a b m m' same h = tt
Packed-Copied (s ∷ ss) a b m m' same (h, hs) = (
  StringAt-Copied s a b m m' (λ i lt. same i (omega arith)) h,
  Packed-Copied ss (a + length s + 1) (b + length s + 1) m m' moved hs,
)
  where
    moved : Copied (argvlen ss) (a + length s + 1) m (b + length s + 1) m'
    moved i lt =
        ap m' {x = b + length s + 1 + i} {y = b + (length s + 1 + i)} (omega arith)
        ∙ same (length s + 1 + i) (omega arith)
        ∙ ap m {x = a + (length s + 1 + i)} {y = a + length s + 1 + i} (omega arith)
