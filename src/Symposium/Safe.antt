-- ===== src/Symposium/Safe.antt =====
-- The monitor of symposium.c: what holds in each state that it comes to.
use tiny_os.Prelude.{
  ℕ, ◌<◌, ◌≡◌, refl, Bool, true, false, arith, ◌==◌, ◌||◌, update, Bool-cases, inl, inr, subst, sym,
}
use tiny_os.Symposium.{
  Phil, nothere, thinking, hungry, eating, is_hungry, is_eating, Place, outside, musing, waiting,
  dining, gone, SymposiumTable, left, right, set_state, move_to, trytoeat, arrive, ask, finish,
  depart,
}

right-left : (i n : ℕ) → i < n → right (left i n) n ≡ i
unfolding left right
right-left i n h = grind arith

left-right : (i n : ℕ) → i < n → left (right i n) n ≡ i
unfolding left right
left-right i n h = grind arith

left-lt : (i n : ℕ) → i < n → left i n < n
unfolding left
left-lt i n h = grind arith

right-lt : (i n : ℕ) → i < n → right i n < n
unfolding right
right-lt i n h = grind arith

-- The state that goes with a place in the code.
abbrev pub fits : Place → Phil → Bool
fits outside nothere = true
fits musing thinking = true
fits waiting hungry = true
fits waiting eating = true
fits dining eating = true
fits gone nothere = true
fits _ _ = false

-- A philosopher and the left neighbour, who may be the same, do not both eat; the state goes with
-- the place.
pub record Seat (s : SymposiumTable) (i : ℕ) : Type 0 where
  pub apart :
      is_eating (s.state i) ≡ true
      → is_eating (s.state (left i s.n)) ≡ true
      → (left i s.n == i) ≡ true
  pub fit : fits (s.place i) (s.state i) ≡ true

-- A hungry philosopher has a neighbour who eats.
abbrev pub Fed : SymposiumTable → ℕ → Type 0
Fed s i =
    is_hungry (s.state i) ≡ true
    → (is_eating (s.state (left i s.n)) || is_eating (s.state (right i s.n))) ≡ true

pub trytoeat-n : (s : SymposiumTable) (k : ℕ) → (trytoeat s k).n ≡ s.n
unfolding trytoeat
trytoeat-n s k = ground arith

module _ (s : SymposiumTable) (k : ℕ) (hk : k < s.n) where
  trytoeat-Seat : (i : ℕ) → i < s.n → Seat s k → Seat s i → Seat (trytoeat s k) i
  unfolding trytoeat
  trytoeat-Seat i hi sk si = record {
    apart = ground (arith, sk.apart, si.apart, right-left i s.n hi, right-left k s.n hk);
    fit = ground (arith, sk.fit, si.fit);
  }

  trytoeat-Fed : (i : ℕ) → Fed s i → Fed (trytoeat s k) i
  unfolding trytoeat
  trytoeat-Fed i f = λ h. ground (arith, f)

trytoeat-Fed_self : (s : SymposiumTable) (k : ℕ) → Fed (trytoeat s k) k
unfolding trytoeat
trytoeat-Fed_self s k = λ h. ground arith

pub record Good (s : SymposiumTable) (i : ℕ) : Type 0 where
  pub seat : Seat s i
  pub fed : Fed s i

-- A philosopher who does not eat, before nor after, changes state.
module _ (s : SymposiumTable) (good : (i : ℕ) → i < s.n → Good s i) (i : ℕ) (hi : i < s.n) where
  set_state-Seat :
      (x : Phil) (p : Place) (j : ℕ)
      → is_eating x ≡ false
      → fits p x ≡ true
      → j < s.n
      → Seat (move_to i p (set_state i x s)) j
  set_state-Seat x p j calm ok hj = record {
    apart = ground (arith, (good j hj).seat.apart);
    fit = ground (arith, (good j hj).seat.fit);
  }

  -- But for the philosopher and the neighbours.
  set_state-Fed_far :
      (x : Phil) (p : Place) (j : ℕ)
      → j < s.n
      → (i == j) ≡ false
      → (left i s.n == j) ≡ false
      → (right i s.n == j) ≡ false
      → Fed (move_to i p (set_state i x s)) j
  set_state-Fed_far x p j hj ne nl nr =
      λ h. ground (arith, (good j hj).fed, left-right j s.n hj, right-left j s.n hj)

  -- If the philosopher did not eat before.
  set_state-Fed :
      (x : Phil) (p : Place) (j : ℕ)
      → is_eating (s.state i) ≡ false
      → j < s.n
      → (i == j) ≡ false
      → Fed (move_to i p (set_state i x s)) j
  set_state-Fed x p j calm hj ne = λ h. ground (arith, (good j hj).fed)

  pub arrive-Good : s.place i ≡ outside → (j : ℕ) → j < s.n → Good (arrive i s) j
  unfolding arrive
  arrive-Good at j hj = record {
    seat = record {
      apart = (set_state-Seat thinking musing j refl refl hj).apart;
      fit = (set_state-Seat thinking musing j refl refl hj).fit;
    };
    fed = elim (Bool-cases (i == j)) [
      | inl same ↦ λ h. absurd (ground arith)
      | inr other ↦ set_state-Fed thinking musing j (ground (arith, (good i hi).seat.fit)) hj other
    ];
  }

  pub depart-Good : s.place i ≡ musing → (j : ℕ) → j < s.n → Good (depart i s) j
  unfolding depart
  depart-Good at j hj = record {
    seat = set_state-Seat nothere gone j refl refl hj;
    fed = elim (Bool-cases (i == j)) [
      | inl same ↦ λ h. absurd (ground arith)
      | inr other ↦ set_state-Fed nothere gone j (ground (arith, (good i hi).seat.fit)) hj other
    ];
  }

  pub ask-Good : s.place i ≡ musing → (j : ℕ) → j < s.n → Good (ask i s) j
  unfolding ask
  ask-Good at j hj = record {
    seat = trytoeat-Seat s1 i hi j hj (seats i hi) (seats j hj);
    fed = elim (Bool-cases (i == j)) [
      | inl same ↦
          let e : i ≡ j = ground arith in
          subst (λ q. Fed (trytoeat s1 i) q) e (trytoeat-Fed_self s1 i)
      | inr other ↦
          trytoeat-Fed s1 i hi j
            (set_state-Fed hungry waiting j (ground (arith, (good i hi).seat.fit)) hj other)
    ];
  }
    where
      s1 : SymposiumTable
      s1 = move_to i waiting (set_state i hungry s)

      seats : (q : ℕ) → q < s.n → Seat s1 q
      seats q hq = set_state-Seat hungry waiting q refl refl hq

  pub wake-Good :
      s.place i ≡ waiting
      → is_hungry (s.state i) ≡ false
      → (j : ℕ) → j < s.n
      → Good (move_to i dining s) j
  wake-Good at full j hj = record {
    seat = record {
      apart = (good j hj).seat.apart;
      fit = ground (arith, (good j hj).seat.fit, (good i hi).seat.fit);
    };
    fed = (good j hj).fed;
  }

  pub finish-Good : (b : ℕ) (j : ℕ) → j < s.n → Good (finish i b s) j
  unfolding finish
  finish-Good b j hj = record {
    seat =
        trytoeat-Seat s2 r (subst (λ m. r < m) (sym same2) (right-lt i s.n hi)) j
          (subst (λ m. j < m) (sym same2) hj) (seats2 r (right-lt i s.n hi)) (seats2 j hj);
    fed = elim (Bool-cases (r == j)) [
      | inl same ↦
          let e : r ≡ j = ground arith in
          subst (λ q. Fed (trytoeat s2 r) q) e (trytoeat-Fed_self s2 r)
      | inr nr ↦ trytoeat-Fed s2 r (subst (λ m. r < m) (sym same2) (right-lt i s.n hi)) j (fed2 nr)
    ];
  }
    where
      l : ℕ
      l = left i s.n

      r : ℕ
      r = right i s.n

      s1 : SymposiumTable
      s1 =
          move_to i musing
            (set_state i thinking (record s { bites_left = update s.bites_left i b }))

      s2 : SymposiumTable
      s2 = trytoeat s1 l

      same2 : s2.n ≡ s.n
      same2 = trytoeat-n s1 l

      seats1 : (q : ℕ) → q < s.n → Seat s1 q
      seats1 q hq = record {
        apart = (set_state-Seat thinking musing q refl refl hq).apart;
        fit = (set_state-Seat thinking musing q refl refl hq).fit;
      }

      seats2 : (q : ℕ) → q < s.n → Seat s2 q
      seats2 q hq =
          trytoeat-Seat s1 l (left-lt i s.n hi) q hq (seats1 l (left-lt i s.n hi)) (seats1 q hq)

      fed1 : (r == j) ≡ false → (l == j) ≡ false → Fed s1 j
      fed1 nr nl = elim (Bool-cases (i == j)) [
        | inl same ↦ λ h. absurd (ground arith)
        | inr other ↦ set_state-Fed_far thinking musing j hj other nl nr
      ]

      fed2 : (r == j) ≡ false → Fed s2 j
      fed2 nr = elim (Bool-cases (l == j)) [
        | inl same ↦
            let e : l ≡ j = ground arith in subst (λ q. Fed s2 q) e (trytoeat-Fed_self s1 l)
        | inr nl ↦ trytoeat-Fed s1 l (left-lt i s.n hi) j (fed1 nr nl)
      ]
