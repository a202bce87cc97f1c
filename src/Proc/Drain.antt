-- ===== src/Proc/Drain.antt =====
-- The loop of sys_Exit in which process 1 waits for all its children (kernel_proc.c).
use tiny_os.Prelude.{
  ℕ, zero, suc, ◌+◌, ◌≤◌, ◌<◌, ◌≡◌, refl, true, none, some, Option, List, [], ◌∷◌, arith, ℤ, pos,
  negsuc, minus_one, length, erase, has, subst, ap, ◌∙◌,
}
use tiny_os.Kernel.{max_proc, alive, Kernel, cur}
use tiny_os.Proc.{
  Waited, returned, waits, assertion_failed, sys_wait_child, cleanup_zombie, wait_for_any_child,
  check_children, wait_any_loop, take_exited, reap_zombie, release_pcb, unlink_child,
}
use tiny_os.Proc.Table.{Table}
use tiny_os.Proc.Tree.{Tree}
use tiny_os.Proc.Wait.{Outcome, sys_wait_child-any}

-- What the loop comes to: its end, a sleep, or a failed assertion, with the state there.
pub data Drained : Type 0 where
  drained sleeps failed : Kernel → Drained

-- One round, and `more` of them. In the second clause WaitChild returned NOPROC.
unfoldable pub drain_round : (Kernel → Option Drained) → Kernel → Waited → Option Drained
drain_round more k (returned (pos c) status k') = more k'
drain_round more k (returned (negsuc m) status k') = some (drained k')
drain_round more k waits = some (sleeps k)
drain_round more k assertion_failed = some (failed k)

-- `while(sys_WaitChild(NOPROC,NULL)!=NOPROC);` up to the first sleep; each wake-up runs it again from
-- the loop of wait_for_any_child on.
unfoldable pub drain : ℕ → Kernel → Option Drained
unfolding drain_round
drain zero k = none
drain (suc fuel) k = drain_round (drain fuel) k (sys_wait_child minus_one k)

-- Process `p` has come to the end of the loop with no child left, or to a sleep while a child lives.
abbrev pub Ends : ℕ → ℕ → Drained → Type 0
Ends n p (drained k) =
    ((cur k).children_list ≡ []) × (k.curproc ≡ p) × Tree k × ((fl : List ℕ) × Table n fl k)
Ends n p (sleeps k) =
    ((c : ℕ) × ((k.pt c).pstate ≡ alive) × ((k.pt c).parent ≡ some p))
    × (k.curproc ≡ p)
    × Tree k
    × ((fl : List ℕ) × Table n fl k)
Ends n p (failed k) = ⊥

length-erase-has : (c : ℕ) (xs : List ℕ) → has c xs ≡ true → length (erase c xs) + 1 ≡ length xs
unfolding erase
length-erase-has c [] h = absurd (ground (arith, h))
length-erase-has c (x ∷ xs) h = ground (arith, length-erase-has c xs)

cleaned-length :
    (c : ℕ) (k : Kernel)
    → has c (cur k).children_list ≡ true
    → (length (cur (cleanup_zombie c k)).children_list + 1 ≡ length (cur k).children_list)
      × ((cleanup_zombie c k).curproc ≡ k.curproc)
unfolding cleanup_zombie release_pcb unlink_child
cleaned-length c k h = (ground (arith, length-erase-has c (cur k).children_list h), refl)

module _ {n : ℕ} (small : n ≤ max_proc) where
  -- What a round finds: no child; only living children; or an exited one.
  data Found (k : Kernel) (w : Waited) : Type 0 where
    no_child : (cur k).children_list ≡ [] → w ≡ returned minus_one none k → Found k w
    living :
        (c : ℕ) → (k.pt c).pstate ≡ alive → (k.pt c).parent ≡ some k.curproc → w ≡ waits → Found k w
    reaped :
        (c : ℕ) (status : Option ℤ)
        → has c (cur k).children_list ≡ true
        → w ≡ returned (pos c) status (cleanup_zombie c k)
        → Found k w

  found :
      {k : Kernel} {fl : List ℕ}
      → Tree k
      → Table n fl k
      → (cs xs : List ℕ) → (cur k).children_list ≡ cs
      → (cur k).exited_list ≡ xs
      → Found k (sys_wait_child minus_one k)
  unfolding sys_wait_child wait_for_any_child check_children wait_any_loop
  found {k} {fl} t table [] xs ec ex = no_child ec (ap (λ l. check_children l k) ec)
  found {k} {fl} t table (c ∷ cs) [] ec ex =
      let child : has c (cur k).children_list ≡ true = ap (has c) ec ∙ ground arith in
      living c (ground (arith, t.pairs k.curproc c, child, ap (has c) ex))
        (ground (arith, t.pairs k.curproc c, child))
        (ap (λ l. check_children l k) ec ∙ ap (λ l. take_exited l k) ex)
  found {k} {fl} t table (c ∷ cs) (x ∷ xs) ec ex =
      let dead = (t.pairs k.curproc x).exited_of (ap (has x) ex ∙ ground arith) in
      reaped x (some (k.pt x).exitval) (ground (arith, t.pairs k.curproc x, dead)) (
        ap (λ l. check_children l k) ec
        ∙ ap (λ l. take_exited l k) ex
        ∙ ap (λ s. reap_zombie s x k) dead.0)

  drain_round-Ends :
      (fuel : ℕ) (k : Kernel) (fl : List ℕ)
      → Tree k
      → Table n fl k
      → Found k (sys_wait_child minus_one k)
      → ((k' : Kernel) (fl' : List ℕ)
          → Tree k'
          → Table n fl' k'
          → length (cur k').children_list + 1 ≡ length (cur k).children_list
          → (k'.curproc ≡ k.curproc)
          → (r : Drained) × (drain fuel k' ≡ some r) × Ends n k'.curproc r)
      → (r : Drained) × (drain (suc fuel) k ≡ some r) × Ends n k.curproc r
  unfolding drain drain_round
  drain_round-Ends fuel k fl t table (no_child none_left w) more =
      (drained k, ap (drain_round (drain fuel) k) w, (none_left, refl, t, (fl, table)))
  drain_round-Ends fuel k fl t table (living c lives mine w) more =
      (sleeps k, ap (drain_round (drain fuel) k) w, ((c, lives, mine), refl, t, (fl, table)))
  drain_round-Ends fuel k fl t table (reaped c status child w) more =
      let out = subst (Outcome n fl k) w (sys_wait_child-any small t table minus_one) in
      let (shorter, same) = cleaned-length c k child in
      let (r, e, ends) = more (cleanup_zombie c k) (c ∷ fl) out.2 out.3 shorter same in
      (r, ap (drain_round (drain fuel) k) w ∙ e, subst (λ p. Ends n p r) same ends)

  -- In a well-formed table and tree, the loop of sys_Exit over WaitChild, with fuel above the number of
  -- the caller's children, comes to an end or to a sleep and never fails WaitChild's assertion; it ends
  -- with no child left, and sleeps only while a child lives; table and tree stay well formed.
  pub drain-Ends :
      (fuel : ℕ) (k : Kernel) (fl : List ℕ)
      → Tree k
      → Table n fl k
      → length (cur k).children_list < fuel
      → (r : Drained) × (drain fuel k ≡ some r) × Ends n k.curproc r
  drain-Ends zero k fl t table lt = absurd (omega (arith, lt))
  drain-Ends (suc fuel) k fl t table lt =
      drain_round-Ends fuel k fl t table
        (found t table (cur k).children_list (cur k).exited_list refl refl)
        (λ k' fl' t' table' shorter same.
          drain-Ends fuel k' fl' t' table' (omega (arith, lt, shorter)))
