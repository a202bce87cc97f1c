-- ===== src/Streams/Reserve/Find.antt =====
-- The first loop of FCB_reserve (kernel_streams.c): the empty ids that it finds.
use mathlib.Core.Option
use tiny_os.Prelude.{
  ℕ, zero, suc, ◌+◌, ◌-◌, ◌≤◌, ◌<◌, ◌≡◌, refl, inl, inr, Option, none, some, List, [], ◌∷◌, arith,
  ◌==◌, length, Bool-cases, update, if◌then◌else◌, is_none, is_none→eq,
}
use tiny_os.Kernel.{max_fileid}
use tiny_os.Streams.{skip_used, find_fids}

-- The number of empty entries among the `rounds` entries from `f` on.
pub empty_entries : ℕ → (ℕ → Option ℕ) → ℕ → ℕ
empty_entries zero t f = 0
empty_entries (suc rounds) t f = (if is_none (t f) then 1 else 0) + empty_entries rounds t (f + 1)

-- `fids` are empty entries of the table, in increasing order from `lo` on.
abbrev pub FreeIds : (ℕ → Option ℕ) → ℕ → List ℕ → Type 0
FreeIds t lo [] = Unit {0}
FreeIds t lo (i ∷ fids) = (lo ≤ i) × (i < max_fileid) × (t i ≡ none) × FreeIds t (i + 1) fids

pub record Skipped (rounds : ℕ) (t : ℕ → Option ℕ) (f g : ℕ) : Type 0 where
  pub above : f ≤ g
  pub below : g ≤ f + rounds
  pub stops : g < f + rounds → t g ≡ none
  pub rest : empty_entries (f + rounds - g) t g ≡ empty_entries rounds t f

skip_used-Skipped :
    (rounds : ℕ) (t : ℕ → Option ℕ) (f : ℕ) → Skipped rounds t f (skip_used rounds t f)
unfolding skip_used empty_entries
skip_used-Skipped zero t f = record {
  above = omega arith;
  below = omega arith;
  stops = λ h. absurd (omega arith);
  rest = let e : f + 0 - f ≡ 0 = omega arith in rw e;
}
skip_used-Skipped (suc rounds) t f = elim (Bool-cases (is_none (t f))) [
  | inl e ↦ rw e (record {
    above = omega arith;
    below = omega arith;
    stops = λ h. is_none→eq _ e;
    rest = let e' : f + suc rounds - f ≡ suc rounds = omega arith in rw e' (rw e);
  })
  | inr e ↦
      let s = skip_used-Skipped rounds t (f + 1) in
      rw e (record {
        above = omega (arith, s.above);
        below = omega (arith, s.below);
        stops = λ h. s.stops (omega arith);
        rest =
            let e' : f + suc rounds - skip_used rounds t (f + 1)
                ≡ f + 1 + rounds - skip_used rounds t (f + 1) =
              omega arith in
            rw e' (ground (arith, s.rest));
      })
]

-- What the first loop of FCB_reserve returns: `num` empty ids, or `none` when they are too few.
abbrev pub Found : ℕ → (ℕ → Option ℕ) → ℕ → Option (List ℕ) → Type 0
Found num t f none = empty_entries (max_fileid - f) t f < num
Found num t f (some fids) =
    (length fids ≡ num) × FreeIds t f fids × (num ≤ empty_entries (max_fileid - f) t f)

empty_entries-suc :
    (t : ℕ → Option ℕ) (g : ℕ)
    → g < max_fileid
    → t g ≡ none
    → empty_entries (max_fileid - g) t g ≡ suc (empty_entries (max_fileid - (g + 1)) t (g + 1))
unfolding empty_entries
empty_entries-suc t g h e =
    let e' : max_fileid - g ≡ suc (max_fileid - (g + 1)) = omega arith in rw (e', e) (omega arith)

Found-cons :
    (num : ℕ) (t : ℕ → Option ℕ) (f g : ℕ) (o : Option (List ℕ))
    → f ≤ g
    → g < max_fileid
    → t g ≡ none
    → empty_entries (max_fileid - g) t g ≡ empty_entries (max_fileid - f) t f
    → Found num t (g + 1) o
    → Found (suc num) t f (Option.map (λ fids. g ∷ fids) o)
Found-cons num t f g none le lt e same found = omega (arith, empty_entries-suc t g lt e, found)
Found-cons num t f g (some fids) le lt e same found = (
  omega (arith, found.0),
  (le, lt, e, found.1),
  omega (arith, empty_entries-suc t g lt e, found.2),
)

pub find_fids-Found :
    (num : ℕ) (t : ℕ → Option ℕ) (f : ℕ) → f ≤ max_fileid → Found num t f (find_fids num t f)
unfolding find_fids
find_fids-Found zero t f h = (refl, tt, omega arith)
find_fids-Found (suc num) t f h = elim (Bool-cases (g == max_fileid)) [
  | inl full ↦
      let e : f + (max_fileid - f) - g ≡ 0 = ground arith in
      rw full (omega (arith, rw e at s.rest, none_left))
  | inr found ↦
      let lt : g < max_fileid = ground (arith, s.below) in
      let e : f + (max_fileid - f) - g ≡ max_fileid - g = omega arith in
      rw found (
        Found-cons num t f g _ s.above lt (s.stops (omega arith)) (rw e at s.rest)
          (find_fids-Found num t (g + 1) (omega arith)))
]
  where
    g : ℕ
    g = skip_used (max_fileid - f) t f

    s : Skipped (max_fileid - f) t f g
    s = skip_used-Skipped (max_fileid - f) t f

    none_left : empty_entries 0 t g ≡ 0
    none_left = unfold empty_entries in refl

-- A write below `lo` leaves the ids from `lo` on empty.
pub FreeIds-update :
    (t : ℕ → Option ℕ) (i : ℕ) (v : Option ℕ) (lo : ℕ) (fids : List ℕ)
    → i < lo
    → FreeIds t lo fids
    → FreeIds (update t i v) lo fids
FreeIds-update t i v lo [] h free = tt
FreeIds-update t i v lo (j ∷ fids) h free =
    (free.0, free.1, ground arith, FreeIds-update t i v (j + 1) fids (omega arith) free.3)
