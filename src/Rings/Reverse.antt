-- ===== src/Rings/Reverse.antt =====
-- rlist_reverse of util.h.
use tiny_os.Prelude.{
  ℕ, zero, suc, ◌+◌, ◌≤◌, ◌<◌, ◌≡◌, refl, true, false, List, [], ◌∷◌, arith, ◌==◌, count, sym,
  subst, some, length, Bool-cases, inl, inr, reverse, reverse_aux, length-reverse, has-reverse, has,
  has→count, if◌then◌else◌,
}
use tiny_os.Rings.{Nodes, turn_node, reverse_loop, rlist_reverse}
use tiny_os.Rings.Splice.{Edge, first, Links, Ring}

-- The `prev` pointers lead through the nodes to `z`.
abbrev Back : Nodes → List ℕ → ℕ → Type 0
Back m [] z = Unit {0}
Back m (x ∷ xs) z = (m.prev x ≡ first xs z) × Back m xs z

-- The nodes `ps` have their pointers swapped, and no other node has changed.
record Turned (m m' : Nodes) (ps : List ℕ) : Type 0 where
  next : (u : ℕ) → m'.next u ≡ (if has u ps then m.prev u else m.next u)
  prev : (u : ℕ) → m'.prev u ≡ (if has u ps then m.next u else m.prev u)

Back-turn_node :
    (p : ℕ) (m : Nodes) (ws : List ℕ) (z : ℕ)
    → count p ws ≡ 0
    → Back m ws z
    → Back (turn_node p m) ws z
unfolding turn_node count
Back-turn_node p m [] z out b = tt
Back-turn_node p m (w ∷ ws) z out (e, b) = (ground arith, Back-turn_node p m ws z (ground arith) b)

absent : (a : ℕ) (xs : List ℕ) → count a xs ≡ 0 → has a xs ≡ false
absent a xs h = elim (Bool-cases (has a xs)) [
  | inl y ↦ absurd (omega (arith, has→count a xs y))
  | inr n ↦ n
]

turn_node-Turned :
    (p : ℕ) (ws : List ℕ) (m m' : Nodes)
    → count p ws ≡ 0
    → Turned (turn_node p m) m' ws
    → Turned m m' (p ∷ ws)
unfolding turn_node
turn_node-Turned p ws m m' out t = record {
  next = λ u. ground (arith, t.next u, absent p ws out);
  prev = λ u. ground (arith, t.prev u, absent p ws out);
}

reverse_loop-Turned :
    (fuel l p : ℕ) (ws : List ℕ) (m : Nodes)
    → ((u : ℕ) → count u (p ∷ ws) ≤ 1)
    → count l ws ≡ 0
    → Back m (p ∷ ws) l
    → length ws < fuel
    → (m' : Nodes) × (reverse_loop fuel l p m ≡ some m') × Turned m m' (p ∷ ws)
unfolding reverse_loop turn_node count
reverse_loop-Turned zero l p ws m once out b enough = absurd (omega arith)
reverse_loop-Turned (suc fuel) l p [] m once out (e, b) enough = (
  turn_node p m,
  ground arith,
  turn_node-Turned p [] m (turn_node p m) refl (record { next = λ u. refl; prev = λ u. refl }),
)
reverse_loop-Turned (suc fuel) l p (w ∷ ws) m once out (e, b) enough =
    let m1 = turn_node p m in
    let apart : count p (w ∷ ws) ≡ 0 = ground (arith, once p) in
    let at : m1.next p ≡ w = ground arith in
    let on : (w == l) ≡ false = ground arith in
    let (m', done, t) =
      reverse_loop-Turned fuel l w ws m1 (λ u. omega (arith, once u)) (ground arith)
        (Back-turn_node p m (w ∷ ws) l apart b) (omega arith) in
    (
      m',
      subst (λ q. (if q == l then some m1 else reverse_loop fuel l q m1) ≡ some m') (sym at)
          (rw on done),
      turn_node-Turned p (w ∷ ws) m m' apart t,
    )

-- The nodes of a ring, met against its direction.
Back-reverse_aux :
    (m : Nodes) (l : ℕ) (xs acc : List ℕ)
    → Edge m (first acc l) (first xs l)
    → Links m xs l
    → Back m acc l
    → (m.prev l ≡ first (reverse_aux xs acc) l) × Back m (reverse_aux xs acc) l
Back-reverse_aux m l [] acc e es b = (e.1, b)
Back-reverse_aux m l (x ∷ xs) acc e (f, es) b = Back-reverse_aux m l xs (x ∷ acc) f es (e.1, b)

-- Among nodes with their pointers swapped, the edges are turned.
Links-reverse_aux :
    (m m' : Nodes) (l : ℕ) (ps xs acc : List ℕ)
    → Turned m m' ps
    → ((u : ℕ) → has u (l ∷ xs) ≡ true → has u ps ≡ true)
    → has (first acc l) ps ≡ true
    → Edge m (first acc l) (first xs l)
    → Links m xs l
    → Links m' acc l
    → Edge m' l (first (reverse_aux xs acc) l) × Links m' (reverse_aux xs acc) l
Links-reverse_aux m m' l ps [] acc t mem now e es k =
    ((ground (arith, t.next l, mem l), ground (arith, t.prev (first acc l))), k)
Links-reverse_aux m m' l ps (x ∷ xs) acc t mem now e (f, es) k =
    Links-reverse_aux m m' l ps xs (x ∷ acc) t (λ u i. ground (arith, mem u))
      (ground (arith, mem x)) f es
      ((ground (arith, t.next x, mem x), ground (arith, t.prev (first acc l))), k)

count-reverse_aux :
    (u : ℕ) (xs acc : List ℕ) → count u (reverse_aux xs acc) ≡ count u xs + count u acc
unfolding count
count-reverse_aux u [] acc = omega arith
count-reverse_aux u (x ∷ xs) acc = omega (arith, count-reverse_aux u xs (x ∷ acc))

-- rlist_reverse reverses the list, with fuel for its nodes and the sentinel.
pub rlist_reverse-Ring :
    (m : Nodes) (l : ℕ) (xs : List ℕ) (fuel : ℕ)
    → Ring m l xs
    → length xs < fuel
    → (m' : Nodes) × (rlist_reverse fuel l m ≡ some m') × Ring m' l (reverse xs)
unfolding rlist_reverse count
rlist_reverse-Ring m l xs fuel r enough =
    let back = Back-reverse_aux m l xs [] r.start r.links tt in
    let (m', done, t) =
      reverse_loop-Turned fuel l l (reverse xs) m
        (λ u. omega (arith, r.once u, count-reverse_aux u xs []))
        (ground (arith, r.once l, count-reverse_aux l xs [])) (back.0, back.1)
        (omega (arith, length-reverse xs)) in
    let turned =
      Links-reverse_aux m m' l (l ∷ reverse xs) xs [] t (λ u i. ground (arith, has-reverse u xs))
        (ground arith) r.start r.links tt in
    (
      m',
      done,
      record {
        once = λ u. omega (arith, r.once u, count-reverse_aux u xs []);
        start = turned.0;
        links = turned.1;
      },
    )
