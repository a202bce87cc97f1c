-- ===== src/Cc/Others.antt =====
-- What remove_from_ring of kernel_cc.c leaves as it is: the queues of the other condition variables.
use tiny_os.Prelude.{
  ℕ, ◌+◌, ◌≤◌, ◌≡◌, refl, false, Option, none, some, List, [], ◌∷◌, arith, ◌==◌, count, sym, subst,
  ◌∙◌, ap,
}
use tiny_os.Rings.{Nodes, rlist_remove, rl_splice}
use tiny_os.Rings.Splice.{Ring, count-append, Ring-rotate, rl_splice-Ring}
use tiny_os.Rings.Push.{Apart}
use tiny_os.Rings.Lists.{rlist_remove-Removed}
use tiny_os.Cc.{Cc, advance_waitset, remove_from_ring}
use tiny_os.Cc.Waiters.{Waits, RingOf, remove_from_ring-nodes, rlist_remove-key}

pub remove_from_ring-elsewhere :
    (s : Cc) (cv w d : ℕ) → (cv == d) ≡ false → (remove_from_ring cv w s).waitset d ≡ s.waitset d
unfolding remove_from_ring
remove_from_ring-elsewhere s cv w d ne = at (s.waitset cv)
  where
    at : (o : Option ℕ) → (advance_waitset o cv w s).waitset d ≡ s.waitset d
    at none = refl
    at (some first) = ground arith

-- A ring that shares no node with the ring of the node that leaves.
rlist_remove-others :
    (m : Nodes) (w : ℕ) (vs : List ℕ) (c : ℕ) (zs : List ℕ)
    → Ring m w vs
    → Apart w vs c zs
    → Ring m c zs
    → Ring (rlist_remove w m) c zs
unfolding rlist_remove count
rlist_remove-others m w [] c zs r apart q =
    subst (λ p. Ring (rl_splice w p m) c zs) (sym r.start.1)
      (rl_splice-Ring m w w _ _ r.start r.start c zs (ground (arith, apart w))
        (ground (arith, apart w)) q)
rlist_remove-others m w (v ∷ vs) c zs r apart q =
    (rlist_remove-Removed m w v vs [] (Ring-rotate m w v [] vs r)).others c zs
      (λ u. omega (arith, apart u, count-append u vs (w ∷ []))) q

rlist_remove-RingOf_others :
    (m : Nodes) (w : ℕ) (vs us : List ℕ)
    → Ring m w vs
    → ((u : ℕ) → count u (w ∷ vs) + count u us ≤ 1)
    → RingOf m us
    → RingOf (rlist_remove w m) us
rlist_remove-RingOf_others m w vs [] r apart q = tt
rlist_remove-RingOf_others m w vs (x ∷ us) r apart q = rlist_remove-others m w vs x us r apart q

-- The queue of another condition variable, whose nodes are not in this one's.
pub remove_from_ring-others :
    (s : Cc) (cv w : ℕ) (vs : List ℕ) (d : ℕ) (us : List ℕ)
    → (cv == d) ≡ false
    → ((u : ℕ) → count u (w ∷ vs) + count u us ≤ 1)
    → Waits s cv (w ∷ vs)
    → Waits s d us
    → Waits (remove_from_ring cv w s) d us
remove_from_ring-others s cv w vs d us ne apart h q = record {
  waitset = remove_from_ring-elsewhere s cv w d ne ∙ q.waitset;
  ring =
      subst (λ m. RingOf m us) (sym (remove_from_ring-nodes cv w s))
        (rlist_remove-RingOf_others s.nodes w vs us h.ring apart q.ring);
  keys = λ u i.
      ap (λ m. m.key u) (remove_from_ring-nodes cv w s)
      ∙ (ap (λ k. k u) (rlist_remove-key w s.nodes) ∙ q.keys u i);
}
