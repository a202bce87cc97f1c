-- ===== src/Rings/Splice.antt =====
-- rl_splice of util.h on rings: it joins two rings, and splits one.
use tiny_os.Prelude.{
  ℕ, ◌+◌, ◌≤◌, ◌≡◌, refl, false, List, [], ◌∷◌, ◌++◌, arith, ◌==◌, count, sym, subst,
}
use tiny_os.Rings.{Nodes, rl_splice}

abbrev pub Edge : Nodes → ℕ → ℕ → Type 0
Edge m u v = (m.next u ≡ v) × (m.prev v ≡ u)

-- The first of the nodes, or `z` after them.
abbrev pub first : List ℕ → ℕ → ℕ
first [] z = z
first (x ∷ xs) z = x

-- From each node an edge leads to the one after it, from the last to `z`.
abbrev pub Links : Nodes → List ℕ → ℕ → Type 0
Links m [] z = Unit {0}
Links m (x ∷ xs) z = Edge m x (first xs z) × Links m xs z

-- The ring [a, x...] of different nodes.
pub record Ring (m : Nodes) (a : ℕ) (xs : List ℕ) : Type 0 where
  pub once : (u : ℕ) → count u (a ∷ xs) ≤ 1
  pub start : Edge m a (first xs a)
  pub links : Links m xs a

pub count-append : (u : ℕ) (xs ys : List ℕ) → count u (xs ++ ys) ≡ count u xs + count u ys
unfolding count
count-append u [] ys = omega arith
count-append u (x ∷ xs) ys = omega (arith, count-append u xs ys)

pub first-append : (xs ys : List ℕ) (z : ℕ) → first (xs ++ ys) z ≡ first xs (first ys z)
first-append [] ys z = refl
first-append (x ∷ xs) ys z = refl

pub Links-append :
    (m : Nodes) (xs ys : List ℕ) (z : ℕ)
    → Links m xs (first ys z)
    → Links m ys z
    → Links m (xs ++ ys) z
Links-append m [] ys z l k = k
Links-append m (x ∷ xs) ys z (e, l) k =
    (subst (λ v. Edge m x v) (sym (first-append xs ys z)) e, Links-append m xs ys z l k)

pub Links-split :
    (m : Nodes) (xs ys : List ℕ) (z : ℕ)
    → Links m (xs ++ ys) z
    → Links m xs (first ys z) × Links m ys z
Links-split m [] ys z l = (tt, l)
Links-split m (x ∷ xs) ys z (e, l) =
    let (k, k') = Links-split m xs ys z l in
    ((subst (λ v. Edge m x v) (first-append xs ys z) e, k), k')

-- The two edges that a splice crosses, and the others.
module _ (m : Nodes) (a b x y : ℕ) (ea : Edge m a x) (eb : Edge m b y) where
  rl_splice-crossed : Edge (rl_splice a b m) a y × Edge (rl_splice a b m) b x
  unfolding rl_splice
  rl_splice-crossed = (ground arith, ground arith)

  rl_splice-other :
      (u v : ℕ) → (a == u) ≡ false → (b == u) ≡ false → Edge m u v → Edge (rl_splice a b m) u v
  unfolding rl_splice
  rl_splice-other u v na nb e = (ground arith, ground arith)

  rl_splice-Links :
      (us : List ℕ) (z : ℕ)
      → count a us ≡ 0
      → count b us ≡ 0
      → Links m us z
      → Links (rl_splice a b m) us z
  unfolding count
  rl_splice-Links [] z na nb l = tt
  rl_splice-Links (u ∷ us) z na nb (e, l) = (
    rl_splice-other u (first us z) (ground arith) (ground arith) e,
    rl_splice-Links us z (ground arith) (ground arith) l,
  )

  -- A ring that holds neither node.
  pub rl_splice-Ring :
      (c : ℕ) (us : List ℕ)
      → count a (c ∷ us) ≡ 0
      → count b (c ∷ us) ≡ 0
      → Ring m c us
      → Ring (rl_splice a b m) c us
  unfolding count
  rl_splice-Ring c us na nb r = record {
    once = r.once;
    start = rl_splice-other c (first us c) (ground arith) (ground arith) r.start;
    links = rl_splice-Links us c (ground arith) (ground arith) r.links;
  }

pub Ring-rotate :
    (m : Nodes) (a b : ℕ) (xs ys : List ℕ) → Ring m a (xs ++ b ∷ ys) → Ring m b (ys ++ a ∷ xs)
unfolding count
Ring-rotate m a b xs ys r =
    let l = Links-split m xs (b ∷ ys) a r.links in
    record {
      once = λ u. ground (arith, r.once u, count-append u xs (b ∷ ys), count-append u ys (a ∷ xs));
      start = subst (λ v. Edge m b v) (sym (first-append ys (a ∷ xs) b)) l.1.0;
      links =
          Links-append m ys (a ∷ xs) b l.1.1
            (subst (λ v. Edge m a v) (first-append xs (b ∷ ys) a) r.start, l.0);
    }

-- Splicing two nodes on different rings joins the rings.
pub rl_splice-join :
    (m : Nodes) (a b : ℕ) (xs ys : List ℕ)
    → ((u : ℕ) → count u (a ∷ xs) + count u (b ∷ ys) ≤ 1)
    → Ring m a xs
    → Ring m b ys
    → Ring (rl_splice a b m) a (ys ++ b ∷ xs)
unfolding count
rl_splice-join m a b xs ys apart r s =
    let c = rl_splice-crossed m a b (first xs a) (first ys b) r.start s.start in
    record {
      once = λ u. ground (arith, apart u, count-append u ys (b ∷ xs));
      start = subst (λ v. Edge (rl_splice a b m) a v) (sym (first-append ys (b ∷ xs) a)) c.0;
      links =
          Links-append (rl_splice a b m) ys (b ∷ xs) a
            (rl_splice-Links m a b _ _ r.start s.start ys b (ground (arith, apart a))
              (ground (arith, apart b)) s.links)
            (
              c.1,
              rl_splice-Links m a b _ _ r.start s.start xs a (ground (arith, apart a))
                  (ground (arith, apart b)) r.links,
            );
    }

-- The nodes of the two parts.
split_counts :
    (u a b : ℕ) (xs ys : List ℕ)
    → count u (a ∷ (xs ++ b ∷ ys)) ≤ 1
    → count u (a ∷ ys) + count u (b ∷ xs) ≤ 1
unfolding count
split_counts u a b xs ys h = omega (arith, h, count-append u xs (b ∷ ys))

-- A node is not among those that are disjoint from it.
count-absent : (a n : ℕ) (xs : List ℕ) → count a (a ∷ xs) + n ≤ 1 → (count a xs ≡ 0) × (n ≡ 0)
unfolding count
count-absent a n xs h = (ground arith, ground arith)

tail_0 : (u x : ℕ) (xs : List ℕ) → count u (x ∷ xs) ≡ 0 → count u xs ≡ 0
unfolding count
tail_0 u x xs h = omega arith

-- Splicing two nodes on one ring splits it.
pub rl_splice-split :
    (m : Nodes) (a b : ℕ) (xs ys : List ℕ)
    → Ring m a (xs ++ b ∷ ys)
    → Ring (rl_splice a b m) a ys × Ring (rl_splice a b m) b xs
rl_splice-split m a b xs ys r = (
  record {
    once = λ u. omega (arith, split_counts u a b xs ys (r.once u));
    start = c.0;
    links = rl_splice-Links m a b _ _ ea l.1.0 ys a (absent_a.0) (tail_0 b a ys absent_b.1) l.1.1;
  },
  record {
    once = λ u. omega (arith, split_counts u a b xs ys (r.once u));
    start = c.1;
    links = rl_splice-Links m a b _ _ ea l.1.0 xs b (tail_0 a b xs absent_a.1) absent_b.0 l.0;
  },
)
  where
    l : Links m xs b × Links m (b ∷ ys) a
    l = Links-split m xs (b ∷ ys) a r.links

    ea : Edge m a (first xs b)
    ea = subst (λ v. Edge m a v) (first-append xs (b ∷ ys) a) r.start

    c : Edge (rl_splice a b m) a (first ys a) × Edge (rl_splice a b m) b (first xs b)
    c = rl_splice-crossed m a b (first xs b) (first ys a) ea l.1.0

    absent_a : (count a ys ≡ 0) × (count a (b ∷ xs) ≡ 0)
    absent_a = count-absent a (count a (b ∷ xs)) ys (split_counts a a b xs ys (r.once a))

    absent_b : (count b xs ≡ 0) × (count b (a ∷ ys) ≡ 0)
    absent_b =
        count-absent b (count b (a ∷ ys)) xs (omega (arith, split_counts b a b xs ys (r.once b)))
