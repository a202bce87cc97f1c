-- ===== src/Symposium/Reach.antt =====
-- The runs of the monitor of symposium.c.
use tiny_os.Prelude.{ℕ, ◌<◌, ◌≡◌, refl, true, false, ◌==◌, ◌||◌, ◌&&◌, ◌∙◌, update, arith, subst}
use tiny_os.Symposium.{
  waiting, musing, hungry, thinking, move_to, set_state, is_hungry, is_eating, SymposiumTable, left,
  right, trytoeat, arrive, ask, finish, depart, initial, Step, arrives, asks, wakes, finishes,
  departs, Reaches, here, after,
}
use tiny_os.Symposium.Safe.{
  Good, arrive-Good, ask-Good, wake-Good, finish-Good, depart-Good, trytoeat-n,
}

ask-n : (i : ℕ) (s : SymposiumTable) → (ask i s).n ≡ s.n
unfolding ask
ask-n i s = trytoeat-n (move_to i waiting (set_state i hungry s)) i

finish-n : (i b : ℕ) (s : SymposiumTable) → (finish i b s).n ≡ s.n
unfolding finish
finish-n i b s = trytoeat-n (trytoeat s1 (left i s.n)) (right i s.n) ∙ trytoeat-n s1 (left i s.n)
  where
    s1 : SymposiumTable
    s1 = move_to i musing (set_state i thinking (record s { bites_left = update s.bites_left i b }))

Step-n : {s s' : SymposiumTable} → Step s s' → s'.n ≡ s.n
unfolding arrive depart
Step-n (arrives i hi at) = refl
Step-n {s} (asks i b hi at left_over) = ask-n i s
Step-n (wakes i hi at full) = refl
Step-n {s} (finishes i b hi at left_over) = finish-n i b s
Step-n (departs i hi at done) = refl

Step-Good :
    {s s' : SymposiumTable}
    → Step s s'
    → ((i : ℕ) → i < s.n → Good s i)
    → (j : ℕ) → j < s.n
    → Good s' j
Step-Good {s} (arrives i hi at) good j hj = arrive-Good s good i hi at j hj
Step-Good {s} (asks i b hi at left_over) good j hj = ask-Good s good i hi at j hj
Step-Good {s} (wakes i hi at full) good j hj = wake-Good s good i hi at full j hj
Step-Good {s} (finishes i b hi at left_over) good j hj = finish-Good s good i hi b j hj
Step-Good {s} (departs i hi at done) good j hj = depart-Good s good i hi at j hj

initial-Good : (n bites i : ℕ) → Good (initial n bites) i
unfolding initial
initial-Good n bites i = record {
  seat = record { apart = λ e. absurd (ground arith); fit = refl };
  fed = λ h. absurd (ground arith);
}

reached-Good :
    {s s' : SymposiumTable}
    → ((i : ℕ) → i < s.n → Good s i)
    → Reaches s s'
    → (i : ℕ) → i < s'.n
    → Good s' i
reached-Good good here i hi = good i hi
reached-Good good (after run step) i hi =
    Step-Good step (reached-Good good run) i (subst (λ m. i < m) (Step-n step) hi)

module _ (n bites : ℕ) {s : SymposiumTable} (run : Reaches (initial n bites) s) (i : ℕ)
    (hi : i < s.n) where
  -- In each state that a symposium comes to, two different neighbours do not both eat.
  pub neighbours_apart :
      (left i s.n == i) ≡ false
      → (is_eating (s.state i) && is_eating (s.state (left i s.n))) ≡ false
  neighbours_apart two =
      ground (arith, (reached-Good (λ j h. initial-Good n bites j) run i hi).seat.apart)

  -- In each state that a symposium comes to, a hungry philosopher has a neighbour who eats.
  pub hungry_blocked :
      is_hungry (s.state i) ≡ true
      → (is_eating (s.state (left i s.n)) || is_eating (s.state (right i s.n))) ≡ true
  hungry_blocked = (reached-Good (λ j h. initial-Good n bites j) run i hi).fed

  -- In each state that a symposium comes to, a philosopher in the wait loop who is not hungry eats, so
  -- the assertion after the loop holds.
  pub woken_eats :
      s.place i ≡ waiting → is_hungry (s.state i) ≡ false → is_eating (s.state i) ≡ true
  woken_eats at full =
      ground (arith, (reached-Good (λ j h. initial-Good n bites j) run i hi).seat.fit)
