-- ===== src/Rings/Select.antt =====
-- rlist_select of util.h.
use tiny_os.Prelude.{
  ℕ, zero, suc, ◌<◌, ◌≡◌, refl, Bool, true, false, not, List, [], ◌∷◌, ◌++◌, arith, ◌==◌, count,
  sym, subst, ◌∙◌, ap, some, length, Bool-cases, inl, inr, append-nil, append_assoc, passing, eq→==,
}
use tiny_os.Rings.{Nodes, rlist_push_back, rlist_remove, select_loop, rlist_select}
use tiny_os.Rings.Splice.{Edge, first, Links, Ring, count-append}
use tiny_os.Rings.Push.{Apart, rlist_push_back-Ring, rlist_push_back-others}
use tiny_os.Rings.Lists.{Removed, rlist_remove-Removed}

-- The last of the nodes, or `a` before them.
abbrev last : ℕ → List ℕ → ℕ
last a [] = a
last a (x ∷ xs) = last x xs

last-snoc : (a : ℕ) (xs : List ℕ) (x : ℕ) → last a (xs ++ x ∷ []) ≡ x
last-snoc a [] x = refl
last-snoc a (y ∷ xs) x = last-snoc y xs x

next-last :
    (m : Nodes) (a : ℕ) (xs ys : List ℕ) (z : ℕ)
    → Edge m a (first (xs ++ ys) z)
    → Links m (xs ++ ys) z
    → m.next (last a xs) ≡ first ys z
next-last m a [] ys z e es = e.0
next-last m a (x ∷ xs) ys z e (f, es) = next-last m x xs ys z f es

-- What the loop comes to when it has kept `kept`, and `rest` is still to be looked at.
Selects : ℕ → ℕ → ℕ → (ℕ → Bool) → Nodes → List ℕ → List ℕ → List ℕ → Type 0
Selects fuel lsrc ldest pred m kept rest ys =
    (m' : Nodes) × (select_loop fuel lsrc ldest pred (last lsrc kept) m ≡ some m')
    × Ring m' lsrc (kept ++ passing (λ x. not (pred x)) rest)
    × Ring m' ldest (ys ++ passing pred rest)

absent_lsrc :
    (lsrc x : ℕ) (kept rest : List ℕ) (m : Nodes)
    → Ring m lsrc (kept ++ x ∷ rest)
    → (x == lsrc) ≡ false
unfolding count
absent_lsrc lsrc x kept rest m r = ground (arith, r.once lsrc, count-append lsrc kept (x ∷ rest))

-- A node moves.
moved :
    (lsrc ldest x : ℕ) (kept rest ys : List ℕ) (m : Nodes)
    → Ring m lsrc (kept ++ x ∷ rest)
    → Ring m ldest ys
    → Apart lsrc (kept ++ x ∷ rest) ldest ys
    → let m' = rlist_push_back ldest x (rlist_remove x m) in
      Ring m' lsrc (kept ++ rest)
      × Ring m' ldest (ys ++ x ∷ [])
      × Apart lsrc (kept ++ rest) ldest (ys ++ x ∷ [])
unfolding count
moved lsrc ldest x kept rest ys m r s apart = (
  rlist_push_back-others (rlist_remove x m) ldest x lsrc ys [] (kept ++ rest) s' gone.single
      (λ u. omega (arith, apart u, count-append u kept (x ∷ rest), count-append u kept rest))
      (λ u. omega (arith, r.once u, count-append u kept (x ∷ rest), count-append u kept rest))
      gone.rest,
  rlist_push_back-Ring (rlist_remove x m) ldest x ys []
      (λ u. omega (arith, apart u, count-append u kept (x ∷ rest))) s' gone.single,
  λ u. omega (
    arith,
    apart u,
    count-append u kept (x ∷ rest),
    count-append u kept rest,
    count-append u ys (x ∷ []),
  ),
)
  where
    gone : Removed m (rlist_remove x m) x lsrc kept rest
    gone = rlist_remove-Removed m x lsrc kept rest r

    s' : Ring (rlist_remove x m) ldest ys
    s' = gone.others ldest ys apart s

select_loop-Selects :
    (fuel lsrc ldest : ℕ) (pred : ℕ → Bool) (m : Nodes) (kept rest ys : List ℕ)
    → Ring m lsrc (kept ++ rest)
    → Ring m ldest ys
    → Apart lsrc (kept ++ rest) ldest ys
    → length rest < fuel
    → Selects fuel lsrc ldest pred m kept rest ys
unfolding Selects select_loop
select_loop-Selects zero lsrc ldest pred m kept rest ys r s apart enough = absurd (omega arith)
select_loop-Selects (suc fuel) lsrc ldest pred m kept [] ys r s apart enough =
    let e : (m.next (last lsrc kept) == lsrc) ≡ true =
      eq→== _ _ (next-last m lsrc kept [] lsrc r.start r.links) in
    (m, rw e refl, r, subst (λ zs. Ring m ldest zs) (sym (append-nil ys)) s)
select_loop-Selects (suc fuel) lsrc ldest pred m kept (x ∷ rest) ys r s apart enough =
    elim (Bool-cases (pred x)) [
      | inl pass ↦ move pass (moved lsrc ldest x kept rest ys m r s apart) (λ r' s' apart'.
          select_loop-Selects fuel lsrc ldest pred (rlist_push_back ldest x (rlist_remove x m)) kept
            rest (ys ++ x ∷ []) r' s' apart' (omega arith))
      | inr fail ↦ keep fail (
          select_loop-Selects fuel lsrc ldest pred m (kept ++ x ∷ []) rest ys
            (subst (λ zs. Ring m lsrc zs) (sym (append_assoc kept (x ∷ []) rest)) r) s
            (subst (λ zs. Apart lsrc zs ldest ys) (sym (append_assoc kept (x ∷ []) rest)) apart)
            (omega arith))
    ]
  where
    at : m.next (last lsrc kept) ≡ x
    at = next-last m lsrc kept (x ∷ rest) lsrc r.start r.links

    on : (x == lsrc) ≡ false
    on = absent_lsrc lsrc x kept rest m r

    keep :
        pred x ≡ false
        → Selects fuel lsrc ldest pred m (kept ++ x ∷ []) rest ys
        → Selects (suc fuel) lsrc ldest pred m kept (x ∷ rest) ys
    keep fail (m', done, r', s') = (
      m',
      rw (at, on, fail)
          (ap (λ i. select_loop fuel lsrc ldest pred i m) (sym (last-snoc lsrc kept x)) ∙ done),
      rw fail (subst (λ zs. Ring m' lsrc zs) (append_assoc kept (x ∷ []) _) r'),
      rw fail s',
    )

    move :
        pred x ≡ true
        → (let m' = rlist_push_back ldest x (rlist_remove x m) in
            Ring m' lsrc (kept ++ rest)
            × Ring m' ldest (ys ++ x ∷ [])
            × Apart lsrc (kept ++ rest) ldest (ys ++ x ∷ []))
        → (let m' = rlist_push_back ldest x (rlist_remove x m) in
            Ring m' lsrc (kept ++ rest)
            → Ring m' ldest (ys ++ x ∷ [])
            → Apart lsrc (kept ++ rest) ldest (ys ++ x ∷ [])
            → Selects fuel lsrc ldest pred m' kept rest (ys ++ x ∷ []))
        → Selects (suc fuel) lsrc ldest pred m kept (x ∷ rest) ys
    move pass (r1, s1, apart1) loop = after (loop r1 s1 apart1)
      where
        after :
            Selects fuel lsrc ldest pred
              (rlist_push_back ldest x (rlist_remove x m))
              kept
              rest
              (ys ++ x ∷ [])
            → Selects (suc fuel) lsrc ldest pred m kept (x ∷ rest) ys
        after (m', done, r', s') = (
          m',
          rw (at, on, pass) done,
          rw pass r',
          rw pass (subst (λ zs. Ring m' ldest zs) (append_assoc ys (x ∷ []) _) s'),
        )

-- rlist_select moves the nodes that pass the test to the end of the other list, in their order, and keeps
-- the others in theirs; the two lists share no node, and the fuel is above the length of the first.
pub rlist_select-Ring :
    (lsrc ldest : ℕ) (pred : ℕ → Bool) (m : Nodes) (xs ys : List ℕ) (fuel : ℕ)
    → Ring m lsrc xs
    → Ring m ldest ys
    → Apart lsrc xs ldest ys
    → length xs < fuel
    → (m' : Nodes) × (rlist_select fuel lsrc ldest pred m ≡ some m')
      × Ring m' lsrc (passing (λ x. not (pred x)) xs)
      × Ring m' ldest (ys ++ passing pred xs)
unfolding rlist_select Selects
rlist_select-Ring lsrc ldest pred m xs ys fuel r s apart enough =
    select_loop-Selects fuel lsrc ldest pred m [] xs ys r s apart enough
