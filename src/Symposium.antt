-- ===== src/Symposium.antt =====
-- symposium.c: the dining philosophers' monitor. Each part of SymposiumTable_philosopher between
-- Mutex_Lock and Mutex_Unlock is one function; `Cond_Wait` gives the monitor back, so the wait loop
-- is a step of its own. Thinking and eating burn time and change nothing here, and printing is left
-- out.
pub mod Safe
pub mod Reach
use tiny_os.Prelude.{
  ℕ, suc, zero, ◌+◌, ◌-◌, ◌%◌, ◌<◌, ◌≡◌, Bool, true, false, List, [], ◌∷◌, ◌++◌, ◌&&◌, not, update,
  if◌then◌else◌,
}

-- PHIL
pub data Phil : Type 0 where
  nothere thinking hungry eating : Phil

abbrev pub is_hungry : Phil → Bool
is_hungry hungry = true
is_hungry _ = false

abbrev pub is_eating : Phil → Bool
is_eating eating = true
is_eating _ = false

-- Where the thread of a philosopher is in the code: before its start, at the loop test, in the wait
-- loop, after it, and at its end.
pub data Place : Type 0 where
  outside musing waiting dining gone : Place

-- `bites_left` is `bites - j`; `signals` are the condition variables signalled, oldest first.
pub record SymposiumTable : Type 0 where
  pub n : ℕ
  pub bites : ℕ
  pub state : ℕ → Phil
  pub place : ℕ → Place
  pub bites_left : ℕ → ℕ
  pub signals : List ℕ

unfoldable pub left : ℕ → ℕ → ℕ
left i n = (i + 1) % n

unfoldable pub right : ℕ → ℕ → ℕ
right i n = (i + n - 1) % n

abbrev pub set_state : ℕ → Phil → SymposiumTable → SymposiumTable
set_state i x s = record s { state = update s.state i x }

abbrev pub move_to : ℕ → Place → SymposiumTable → SymposiumTable
move_to i x s = record s { place = update s.place i x }

unfoldable pub trytoeat : SymposiumTable → ℕ → SymposiumTable
trytoeat s i =
    if is_hungry (s.state i)
      && (not (is_eating (s.state (left i s.n))) && not (is_eating (s.state (right i s.n))))
    then record (set_state i eating s) { signals = s.signals ++ i ∷ [] }
    else s

unfoldable pub arrive : ℕ → SymposiumTable → SymposiumTable
arrive i s =
    move_to i musing
      (set_state i thinking (record s { bites_left = update s.bites_left i s.bites }))

unfoldable pub ask : ℕ → SymposiumTable → SymposiumTable
unfolding trytoeat
ask i s = trytoeat (move_to i waiting (set_state i hungry s)) i

-- The rest of a round, after the meal; `b` bites are left then.
unfoldable pub finish : ℕ → ℕ → SymposiumTable → SymposiumTable
unfolding trytoeat
finish i b s =
    let s1 =
      move_to i musing (set_state i thinking (record s { bites_left = update s.bites_left i b })) in
    trytoeat (trytoeat s1 (left i s.n)) (right i s.n)

unfoldable pub depart : ℕ → SymposiumTable → SymposiumTable
depart i s = move_to i gone (set_state i nothere s)

unfoldable pub initial : ℕ → ℕ → SymposiumTable
initial n bites = record {
  n = n;
  bites = bites;
  state = λ i. nothere;
  place = λ i. outside;
  bites_left = λ i. 0;
  signals = [];
}

-- One philosopher runs a part of its code; only the place of its own thread says which.
pub data Step : SymposiumTable → SymposiumTable → Type 0 where
  arrives : {s : SymposiumTable} (i : ℕ) → i < s.n → s.place i ≡ outside → Step s (arrive i s)
  asks :
      {s : SymposiumTable} (i b : ℕ)
      → i < s.n
      → s.place i ≡ musing
      → s.bites_left i ≡ suc b
      → Step s (ask i s)
  -- The test of the wait loop fails.
  wakes :
      {s : SymposiumTable} (i : ℕ)
      → i < s.n
      → s.place i ≡ waiting
      → is_hungry (s.state i) ≡ false
      → Step s (move_to i dining s)
  finishes :
      {s : SymposiumTable} (i b : ℕ)
      → i < s.n
      → s.place i ≡ dining
      → s.bites_left i ≡ suc b
      → Step s (finish i b s)
  departs :
      {s : SymposiumTable} (i : ℕ)
      → i < s.n
      → s.place i ≡ musing
      → s.bites_left i ≡ zero
      → Step s (depart i s)

-- The states that a run of the monitor comes to, in any interleaving.
pub data Reaches (s : SymposiumTable) : SymposiumTable → Type 0 where
  here : Reaches s s
  after : {s' s'' : SymposiumTable} → Reaches s s' → Step s' s'' → Reaches s s''
