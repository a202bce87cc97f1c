-- ===== src/Cores/Halting.antt =====
-- The halted cores of bios.c.
use tiny_os.Prelude.{
  ℕ, zero, suc, ◌+◌, ◌≡◌, refl, true, false, List, [], ◌∷◌, arith, ◌==◌, has, erase, Distinct,
  Distinct-erase, has-erase_self, has-erase_ne, if◌then◌else◌, Bool-cases, inl, inr, ◌&&◌, leb, ltb,
  ◌∙◌, ap, subst, sym,
}
use tiny_os.Cores.{
  Machine, cpu_core_halt, core_restart, restart_head, cpu_core_restart_one, restart_from,
  cpu_core_restart_all,
}

-- The list holds the halted cores, each once.
pub record Listed (m : Machine) : Type 0 where
  pub distinct : Distinct m.halted_list
  pub listed : (c : ℕ) → has c m.halted_list ≡ m.halted c

module _ {m : Machine} (l : Listed m) where
  -- A core that runs halts.
  pub cpu_core_halt-Listed : (c : ℕ) → m.halted c ≡ false → Listed (cpu_core_halt c m)
  unfolding cpu_core_halt
  cpu_core_halt-Listed c runs = record {
    distinct = ground (arith, l.listed c, l.distinct);
    listed = λ d. ground (arith, l.listed d);
  }

  core_restart-Listed : (c : ℕ) → Listed (core_restart c m)
  unfolding core_restart
  core_restart-Listed c = elim (Bool-cases (m.halted c)) [
    | inl asleep ↦ rw asleep record {
      distinct = Distinct-erase c m.halted_list l.distinct;
      listed = λ d. ground (
        arith,
        l.listed d,
        has-erase_self c m.halted_list l.distinct,
        has-erase_ne d c m.halted_list,
      );
    }
    | inr runs ↦ rw runs l
  ]

core_restart-halted :
    (c d : ℕ) (m : Machine) → (core_restart c m).halted d ≡ (if c == d then false else m.halted d)
unfolding core_restart
core_restart-halted c d m = ground arith

erase-absent : (c : ℕ) (xs : List ℕ) → has c xs ≡ false → erase c xs ≡ xs
unfolding erase
erase-absent c [] h = refl
erase-absent c (x ∷ xs) h =
    let e : (c == x) ≡ false = ground arith in
    rw e (ap (λ l. x ∷ l) (erase-absent c xs (ground arith)))

-- What cpu_core_restart_one does, by the list of the halted cores.
abbrev pub RestartsOne : List ℕ → Machine → Machine → Type 0
RestartsOne [] m m' = m' ≡ m
RestartsOne (c ∷ cs) m m' =
    (m'.halted_list ≡ cs) × ((d : ℕ) → m'.halted d ≡ (if c == d then false else m.halted d))

-- cpu_core_restart_one restarts the core that halted last, and no other; if none is halted, nothing
-- changes. The list goes on to hold just the halted cores.
pub cpu_core_restart_one-RestartsOne :
    {m : Machine}
    → Listed m
    → RestartsOne m.halted_list m (cpu_core_restart_one m) × Listed (cpu_core_restart_one m)
unfolding cpu_core_restart_one
cpu_core_restart_one-RestartsOne {m} l = at m.halted_list refl
  where
    at :
        (q : List ℕ)
        → m.halted_list ≡ q
        → RestartsOne q m (restart_head q m) × Listed (restart_head q m)
    at [] e = unfold restart_head in (refl, l)
    at (c ∷ cs) e =
        let fresh : Distinct (c ∷ cs) = subst (λ q. Distinct q) e l.distinct in
        let asleep : m.halted c ≡ true = ground (arith, l.listed c, ap (has c) e) in
        unfold restart_head core_restart in
        rw asleep (
          (erase-absent c cs fresh.0, λ d. refl),
          record {
            distinct = subst (λ q. Distinct q) (sym (erase-absent c cs fresh.0)) fresh.1;
            listed = λ d.
                ap (has d) (erase-absent c cs fresh.0)
                ∙ ground (arith, l.listed d, ap (has d) e, fresh.0);
          },
        )

restart_from-halted :
    (rounds c : ℕ) (m : Machine)
    → Listed m
    → Listed (restart_from rounds c m)
      × ((d : ℕ)
          → (restart_from rounds c m).halted d
            ≡ (if leb c d && ltb d (c + rounds) then false else m.halted d))
unfolding restart_from
restart_from-halted zero c m l = (l, λ d. ground arith)
restart_from-halted (suc rounds) c m l =
    let (l', h) = restart_from-halted rounds (c + 1) (core_restart c m) (core_restart-Listed l c) in
    (l', λ d. ground (arith, h d, core_restart-halted c d m))

-- cpu_core_restart_all restarts the cores below `ncores`, and no other. The list goes on to hold just
-- the halted cores.
pub cpu_core_restart_all-halted :
    (ncores : ℕ) {m : Machine}
    → Listed m
    → Listed (cpu_core_restart_all ncores m)
      × ((d : ℕ)
          → (cpu_core_restart_all ncores m).halted d ≡ (if ltb d ncores then false else m.halted d))
unfolding cpu_core_restart_all
cpu_core_restart_all-halted ncores {m} l =
    let (l', h) = restart_from-halted ncores 0 m l in (l', λ d. ground (arith, h d))
