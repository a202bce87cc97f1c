-- ===== src/Proc/Orphans/Childless.antt =====
-- Exit of a process without children (kernel_proc.c), as process 1 is at the end of its loop.
use tiny_os.Prelude.{
  ℕ, ◌≡◌, refl, true, Option, none, some, List, [], ◌∷◌, arith, ◌==◌, has, Distinct, ap, sym, subst,
  ◌∙◌, ℤ, ==_refl, Bool-cases, inl, inr,
}
use tiny_os.Kernel.{max_fileid, Kernel, cur}
use tiny_os.Proc.{get_pcb}
use tiny_os.Proc.Exit.{close_files, reparent, give_exited, tell_parent, die, free_args, sys_exit}
use tiny_os.Proc.Tree.{Forest, Pair, Tree, SameTree, SameTree-trans, SameTree-Tree}
use tiny_os.Proc.Orphans.{told_lists, exited_with, told_exited}
use tiny_os.Proc.Orphans.Steps.{close_files-SameTree, free_args-SameTree}

module _ (exitval : ℤ) {k : Kernel} (t : Tree k) (none_left : (cur k).children_list ≡ []) where
  no_exited : (xs : List ℕ) → (cur k).exited_list ≡ xs → (cur k).exited_list ≡ []
  no_exited [] e = e
  no_exited (x ∷ xs) e =
      let here : has x (cur k).exited_list ≡ true = ap (has x) e ∙ rw (==_refl x) in
      absurd (ground (arith, here, t.pairs k.curproc x, ap (has x) none_left))

  last-Pair :
      (o : Option ℕ) → (cur k).parent ≡ o → (p c : ℕ) → Pair (die exitval (tell_parent o k)).pt p c
  last-Pair none e p c =
      let l = told_lists exitval none k in
      let x = told_exited exitval none k in
      let h = t.pairs p c in
      let mine = ap (has c) none_left in
      record {
        child_of = ground (arith, l.pstate c, l.parent c, l.children p, h, t.running);
        of_child = ground (arith, l.pstate c, l.parent c, l.children p, h, t.running);
        exited_of = ground (arith, l.pstate c, l.parent c, x p, h, t.running);
        of_exited = ground (arith, l.pstate c, l.parent c, x p, h, t.running, e);
        parent_alive = ground (arith, l.pstate c, l.pstate p, l.parent c, h, t.running, mine);
      }
  last-Pair (some q) e p c =
      let l = told_lists exitval (some q) k in
      let x = told_exited exitval (some q) k in
      let h = t.pairs p c in
      let mine = ap (has c) none_left in
      record {
        child_of = ground (arith, l.pstate c, l.parent c, l.children p, h, t.running);
        of_child = ground (arith, l.pstate c, l.parent c, l.children p, h, t.running);
        exited_of = ground (arith, l.pstate c, l.parent c, x p, h, t.running, e);
        of_exited = ground (arith, l.pstate c, l.parent c, x p, h, t.running, e);
        parent_alive = ground (arith, l.pstate c, l.pstate p, l.parent c, h, t.running, mine);
      }

  last_exited-Distinct :
      (o : Option ℕ) (q : ℕ) → Distinct (exited_with o k.curproc q (k.pt q).exited_list)
  last_exited-Distinct none q = t.exited q
  last_exited-Distinct (some p) q = elim (Bool-cases (p == q)) [
    | inl same ↦ rw same ((ground (arith, t.pairs q k.curproc, t.running)), t.exited q)
    | inr other ↦ rw other (t.exited q)
  ]

  last-Forest : Forest (die exitval (tell_parent (cur k).parent k)).pt
  last-Forest = record {
    children =
        λ p. subst Distinct (sym ((told_lists exitval (cur k).parent k).children p)) (t.children p);
    exited = λ p.
        subst Distinct (sym (told_exited exitval (cur k).parent k p))
          (last_exited-Distinct (cur k).parent p);
    pairs = last-Pair (cur k).parent refl;
  }

  -- Nothing is moved or given.
  last_steps :
      (initpcb : Option ℕ)
      → (let k2 = reparent initpcb (cur k).children_list k in give_exited (cur k2).exited_list k2)
        ≡ k
  unfolding reparent give_exited
  last_steps initpcb =
      ap (λ cs. let k2 = reparent initpcb cs k in give_exited (cur k2).exited_list k2) none_left
      ∙ ap (λ xs. give_exited xs k) (no_exited (cur k).exited_list refl)

-- Exit of a process without children keeps the agreement of parents, children lists and exited lists.
pub childless-Forest :
    (exitval : ℤ) {k : Kernel}
    → Tree k
    → (cur k).children_list ≡ []
    → Forest (sys_exit exitval k).pt
unfolding sys_exit
childless-Forest exitval {k} t none_left =
    subst (λ k3. Forest (die exitval (tell_parent (cur k3).parent k3)).pt)
      (sym (last_steps exitval t1 none1 (get_pcb 1 k1))) (last-Forest exitval t1 none1)
  where
    k1 : Kernel
    k1 = close_files max_fileid 0 (free_args k)

    s : SameTree k k1
    s = SameTree-trans (free_args-SameTree k) (close_files-SameTree max_fileid 0 (free_args k))

    t1 : Tree k1
    t1 = SameTree-Tree s t

    none1 : (cur k1).children_list ≡ []
    none1 = ap (λ q. (k1.pt q).children_list) s.current ∙ s.children k.curproc ∙ none_left
