-- ===== src/Rings/Lists.antt =====
-- Taking from the lists of util.h, and joining them, against the list of the nodes after the sentinel.
use tiny_os.Prelude.{
  ℕ, ◌≡◌, refl, List, [], ◌∷◌, ◌++◌, arith, count, sym, subst, append_assoc, append-nil,
}
use tiny_os.Rings.{
  Nodes, rl_splice, rlist_remove, rlist_push_front, rlist_push_back, rlist_pop_front,
  rlist_pop_back, rlist_append, rlist_prepend,
}
use tiny_os.Rings.Splice.{Ring, count-append, Links-split, Ring-rotate, rl_splice-split}
use tiny_os.Rings.Push.{
  Ends, empty, snoc, ends, Ring-prev, Apart, splice_other-Ring, rlist_push_front-Ring,
  rlist_push_back-Ring,
}

-- What rlist_remove makes of the ring [l, us..., a, vs...], and of a ring apart from it.
pub record Removed (m m' : Nodes) (a l : ℕ) (us vs : List ℕ) : Type 0 where
  pub rest : Ring m' l (us ++ vs)
  pub single : Ring m' a []
  pub others : (c : ℕ) (zs : List ℕ) → Apart l (us ++ a ∷ vs) c zs → Ring m c zs → Ring m' c zs

remove_at :
    {us : List ℕ} (m : Nodes) (a l : ℕ) (vs : List ℕ)
    → Ends us
    → Ring m l (us ++ a ∷ vs)
    → Removed m (rlist_remove a m) a l us vs
unfolding rlist_remove count
remove_at m a l vs empty r =
    subst (λ q. Removed m (rl_splice a q m) a l [] vs) (sym r.start.1)
      record {
        rest = split.1;
        single = split.0;
        others = λ c zs apart s.
            splice_other-Ring m a l c vs [] zs turned
              (λ u. omega (arith, apart u, count-append u vs (l ∷ []))) s;
      }
  where
    turned : Ring m a (vs ++ l ∷ [])
    turned = Ring-rotate m l a [] vs r

    split : Ring (rl_splice a l m) a [] × Ring (rl_splice a l m) l vs
    split = rl_splice-split m a l vs [] turned
remove_at m a l vs (snoc us p) r =
    subst (λ q. Removed m (rl_splice a q m) a l (us ++ p ∷ []) vs) (sym before)
      record {
        rest =
            subst (λ ws. Ring (rl_splice a p m) l ws) (sym (append_assoc us (p ∷ []) vs))
              (Ring-rotate (rl_splice a p m) p l vs us split.1);
        single = split.0;
        others = λ c zs apart s.
            splice_other-Ring m a p c (vs ++ l ∷ us) [] zs turned
              (λ u. omega (
                arith,
                apart u,
                count-append u (us ++ p ∷ []) (a ∷ vs),
                count-append u us (p ∷ []),
                count-append u (vs ++ l ∷ us) (p ∷ []),
                count-append u vs (l ∷ us),
              ))
              s;
      }
  where
    before : m.prev a ≡ p
    before = (Links-split m us (p ∷ []) a (Links-split m (us ++ p ∷ []) (a ∷ vs) l r.links).0).1.0.1

    turned : Ring m a ((vs ++ l ∷ us) ++ p ∷ [])
    turned =
        subst (λ ws. Ring m a ws) (sym (append_assoc vs (l ∷ us) (p ∷ [])))
          (Ring-rotate m l a (us ++ p ∷ []) vs r)

    split : Ring (rl_splice a p m) a [] × Ring (rl_splice a p m) p (vs ++ l ∷ us)
    split = rl_splice-split m a p (vs ++ l ∷ us) [] turned

-- rlist_remove takes the node out of its ring, leaves the other nodes in order, makes the node a ring of
-- its own, and changes no ring that is apart.
pub rlist_remove-Removed :
    (m : Nodes) (a l : ℕ) (us vs : List ℕ)
    → Ring m l (us ++ a ∷ vs)
    → Removed m (rlist_remove a m) a l us vs
rlist_remove-Removed m a l us vs r = remove_at m a l vs (ends us) r

-- Removing a node that is alone changes nothing.
pub rlist_remove-alone : (m : Nodes) (a : ℕ) → Ring m a [] → Ring (rlist_remove a m) a []
unfolding rlist_remove rl_splice
rlist_remove-alone m a r = record {
  once = r.once;
  start = (ground (arith, r.start), ground (arith, r.start));
  links = tt;
}

-- rlist_pop_front takes the first node of a list that is not empty.
pub rlist_pop_front-Ring :
    (m : Nodes) (l x : ℕ) (xs : List ℕ)
    → Ring m l (x ∷ xs)
    → ((rlist_pop_front l m).0 ≡ x)
      × Ring (rlist_pop_front l m).1 l xs
      × Ring (rlist_pop_front l m).1 x []
unfolding rlist_pop_front
rlist_pop_front-Ring m l x xs r =
    subst (λ q. (q ≡ x) × Ring (rl_splice l q m) l xs × Ring (rl_splice l q m) x []) (sym r.start.0)
      (refl, split.0, split.1)
  where
    split : Ring (rl_splice l x m) l xs × Ring (rl_splice l x m) x []
    split = rl_splice-split m l x [] xs r

-- rlist_pop_back returns the last node of a list, but it empties the list: the other nodes stay in a ring
-- with the node that it returns.
pub rlist_pop_back-Ring :
    (m : Nodes) (l p : ℕ) (xs : List ℕ)
    → Ring m l (xs ++ p ∷ [])
    → ((rlist_pop_back l m).0 ≡ p)
      × Ring (rlist_pop_back l m).1 l []
      × Ring (rlist_pop_back l m).1 p xs
unfolding rlist_pop_back
rlist_pop_back-Ring m l p xs r =
    subst (λ q. (q ≡ p) × Ring (rl_splice l q m) l [] × Ring (rl_splice l q m) p xs)
      (sym (Ring-prev m l xs p r)) (refl, split.0, split.1)
  where
    split : Ring (rl_splice l p m) l [] × Ring (rl_splice l p m) p xs
    split = rl_splice-split m l p xs [] r

-- rlist_append moves all nodes of a list to the end of another.
pub rlist_append-Ring :
    (m : Nodes) (ldest lsrc : ℕ) (xs ys : List ℕ)
    → Apart ldest xs lsrc ys
    → Ring m ldest xs
    → Ring m lsrc ys
    → Ring (rlist_append ldest lsrc m) ldest (xs ++ ys) × Ring (rlist_append ldest lsrc m) lsrc []
unfolding rlist_append
rlist_append-Ring m ldest lsrc xs ys apart r s =
    (subst (λ zs. Ring m2 ldest zs) (append-nil (xs ++ ys)) gone.rest, gone.single)
  where
    m1 : Nodes
    m1 = rlist_push_back ldest lsrc m

    m2 : Nodes
    m2 = rlist_remove lsrc m1

    gone : Removed m1 m2 lsrc ldest (xs ++ ys) []
    gone = rlist_remove-Removed m1 lsrc ldest (xs ++ ys) [] (
        subst (λ zs. Ring m1 ldest zs) (sym (append_assoc xs ys (lsrc ∷ [])))
          (rlist_push_back-Ring m ldest lsrc xs ys apart r s))

-- rlist_prepend moves them to its front.
pub rlist_prepend-Ring :
    (m : Nodes) (ldest lsrc : ℕ) (xs ys : List ℕ)
    → Apart ldest xs lsrc ys
    → Ring m ldest xs
    → Ring m lsrc ys
    → Ring (rlist_prepend ldest lsrc m) ldest (ys ++ xs) × Ring (rlist_prepend ldest lsrc m) lsrc []
unfolding rlist_prepend
rlist_prepend-Ring m ldest lsrc xs ys apart r s = (gone.rest, gone.single)
  where
    m1 : Nodes
    m1 = rlist_push_front ldest lsrc m

    gone : Removed m1 (rlist_remove lsrc m1) lsrc ldest ys xs
    gone =
        rlist_remove-Removed m1 lsrc ldest ys xs
          (rlist_push_front-Ring m ldest lsrc xs ys apart r s)
