-- ===== src/Rings/Push.antt =====
-- Adding to the lists of util.h, against the list of the nodes after the sentinel.
use tiny_os.Prelude.{
  ℕ, ◌+◌, ◌≤◌, ◌≡◌, refl, true, List, [], ◌∷◌, ◌++◌, arith, count, sym, subst, ◌↔◌, append_assoc,
}
use tiny_os.Rings.{Nodes, rlnode_new, rl_splice, is_rlist_empty, rlist_push_front, rlist_push_back}
use tiny_os.Rings.Splice.{
  Ring, count-append, Links-split, Ring-rotate, rl_splice-join, rl_splice-Ring,
}

-- A list is empty or has a last element.
pub data Ends : List ℕ → Type 0 where
  empty : Ends []
  snoc : (xs : List ℕ) (x : ℕ) → Ends (xs ++ x ∷ [])

pub ends : (xs : List ℕ) → Ends xs
ends [] = empty
ends (x ∷ xs) = after x (ends xs)
  where
    after : {ys : List ℕ} (y : ℕ) → Ends ys → Ends (y ∷ ys)
    after y empty = snoc [] y
    after y (snoc zs z) = snoc (y ∷ zs) z

module _ (m : Nodes) (l : ℕ) where
  -- The node before the sentinel is the last one.
  pub Ring-prev : (xs : List ℕ) (p : ℕ) → Ring m l (xs ++ p ∷ []) → m.prev l ≡ p
  Ring-prev xs p r = (Links-split m xs (p ∷ []) l r.links).1.0.1

  Ring-prev_empty : Ring m l [] → m.prev l ≡ l
  Ring-prev_empty r = r.start.1

-- A fresh node is a ring of its own.
pub rlnode_new-Ring : (p : ℕ) (m : Nodes) → Ring (rlnode_new p m) p []
unfolding rlnode_new count
rlnode_new-Ring p m = record {
  once = λ u. ground arith;
  start = (ground arith, ground arith);
  links = tt;
}

-- is_rlist_empty tells the empty list from the others.
pub is_rlist_empty_lem :
    (m : Nodes) (l : ℕ) (xs : List ℕ) → Ring m l xs → (is_rlist_empty l m ≡ true) ↔ (xs ≡ [])
unfolding is_rlist_empty count
is_rlist_empty_lem m l [] r = (λ h. refl, λ h. ground (arith, r.start))
is_rlist_empty_lem m l (x ∷ xs) r =
    (λ h. absurd (ground (arith, r.start, r.once l)), λ h. absurd (cc))

-- The lists share no node.
abbrev pub Apart : ℕ → List ℕ → ℕ → List ℕ → Type 0
Apart a xs b ys = (u : ℕ) → count u (a ∷ xs) + count u (b ∷ ys) ≤ 1

-- rlist_push_front puts the ring of `n` in front.
pub rlist_push_front-Ring :
    (m : Nodes) (l n : ℕ) (xs ys : List ℕ)
    → Apart l xs n ys
    → Ring m l xs
    → Ring m n ys
    → Ring (rlist_push_front l n m) l (ys ++ n ∷ xs)
unfolding rlist_push_front
rlist_push_front-Ring m l n xs ys apart r s = rl_splice-join m l n xs ys apart r s

-- A ring that shares no node with the ring of the two spliced nodes.
pub splice_other-Ring :
    (m : Nodes) (a b c : ℕ) (xs ys zs : List ℕ)
    → Ring m a (xs ++ b ∷ ys)
    → Apart a (xs ++ b ∷ ys) c zs
    → Ring m c zs
    → Ring (rl_splice a b m) c zs
unfolding count
splice_other-Ring m a b c xs ys zs r apart s =
    let l = Links-split m xs (b ∷ ys) a r.links in
    rl_splice-Ring m a b _ _ r.start l.1.0 c zs (ground (arith, apart a))
      (omega (arith, apart b, count-append b xs (b ∷ ys), count_self b ys)) s
  where
    count_self : (u : ℕ) (us : List ℕ) → 1 ≤ count u (u ∷ us)
    count_self u us = ground arith

-- And rlist_push_back at the end.
push_back_at :
    {xs : List ℕ} (m : Nodes) (l n : ℕ) (ys : List ℕ)
    → Ends xs
    → Apart l xs n ys
    → Ring m l xs
    → Ring m n ys
    → Ring (rlist_push_back l n m) l (xs ++ (ys ++ n ∷ []))
unfolding rlist_push_back count
push_back_at m l n ys empty apart r s =
    subst (λ p. Ring (rl_splice p n m) l (ys ++ n ∷ [])) (sym (Ring-prev_empty m l r))
      (rl_splice-join m l n [] ys apart r s)
push_back_at m l n ys (snoc xs p) apart r s =
    subst (λ q. Ring (rl_splice q n m) l ((xs ++ p ∷ []) ++ (ys ++ n ∷ [])))
      (sym (Ring-prev m l xs p r))
      (subst (λ zs. Ring (rl_splice p n m) l zs) (sym (append_assoc xs (p ∷ []) (ys ++ n ∷ [])))
        (Ring-rotate (rl_splice p n m) p l (ys ++ n ∷ []) xs joined))
  where
    joined : Ring (rl_splice p n m) p ((ys ++ n ∷ []) ++ l ∷ xs)
    joined =
        subst (λ zs. Ring (rl_splice p n m) p zs) (sym (append_assoc ys (n ∷ []) (l ∷ xs)))
          (rl_splice-join m p n (l ∷ xs) ys
            (λ u. omega (arith, apart u, count-append u xs (p ∷ []))) (Ring-rotate m l p xs [] r) s)

pub rlist_push_back-Ring :
    (m : Nodes) (l n : ℕ) (xs ys : List ℕ)
    → Apart l xs n ys
    → Ring m l xs
    → Ring m n ys
    → Ring (rlist_push_back l n m) l (xs ++ (ys ++ n ∷ []))
rlist_push_back-Ring m l n xs ys apart r s = push_back_at m l n ys (ends xs) apart r s

-- The splice of two rings leaves a third as it is.
join_others :
    (m : Nodes) (a b c : ℕ) (xs ys zs : List ℕ)
    → Ring m a xs
    → Ring m b ys
    → Apart a xs c zs
    → Apart b ys c zs
    → Ring m c zs
    → Ring (rl_splice a b m) c zs
unfolding count
join_others m a b c xs ys zs r r' apart apart' s =
    rl_splice-Ring m a b _ _ r.start r'.start c zs (ground (arith, apart a))
      (ground (arith, apart' b)) s

push_back_others_at :
    {xs : List ℕ} (m : Nodes) (l n c : ℕ) (ys zs : List ℕ)
    → Ends xs
    → Ring m l xs
    → Ring m n ys
    → Apart l xs c zs
    → Apart n ys c zs
    → Ring m c zs
    → Ring (rlist_push_back l n m) c zs
unfolding rlist_push_back count
push_back_others_at m l n c ys zs empty r r' apart apart' s =
    subst (λ p. Ring (rl_splice p n m) c zs) (sym (Ring-prev_empty m l r))
      (join_others m l n c [] ys zs r r' apart apart' s)
push_back_others_at m l n c ys zs (snoc xs p) r r' apart apart' s =
    subst (λ q. Ring (rl_splice q n m) c zs) (sym (Ring-prev m l xs p r))
      (join_others m p n c (l ∷ xs) ys zs (Ring-rotate m l p xs [] r) r'
        (λ u. omega (arith, apart u, count-append u xs (p ∷ []))) apart' s)

pub rlist_push_back-others :
    (m : Nodes) (l n c : ℕ) (xs ys zs : List ℕ)
    → Ring m l xs
    → Ring m n ys
    → Apart l xs c zs
    → Apart n ys c zs
    → Ring m c zs
    → Ring (rlist_push_back l n m) c zs
rlist_push_back-others m l n c xs ys zs = push_back_others_at m l n c ys zs (ends xs)
