-- ===== src/Proc/Orphans.antt =====
-- sys_Exit of kernel_proc.c and the tree of processes.
pub mod Steps
pub mod Final
pub mod Childless
use tiny_os.Prelude.{
  ℕ, zero, suc, ◌+◌, ◌≡◌, refl, false, Option, none, some, List, [], ◌∷◌, ◌++◌, arith, ◌==◌, ◌||◌,
  ◌&&◌, has, Distinct, Bool-cases, ap, sym, subst, ◌∙◌, inl, inr, has-append, ℤ, if◌then◌else◌,
  reverse_aux, has-reverse_aux, Distinct-reverse_aux, Distinct-append, Option-cases, ==_refl,
  append-nil,
}
use tiny_os.Kernel.{max_fileid, alive, zombie, Kernel, Pcb, cur}
use tiny_os.Proc.{get_pcb}
use tiny_os.Proc.Exit.{
  close_one, close_files, move_child, reparent, give_exited, tell_parent, die, free_args, sys_exit,
}
use tiny_os.Streams.Counts.{points}
use tiny_os.Proc.Tree.{
  Forest, Pair, Tree, SameTree, SameTree-refl, SameTree-trans, SameTree-Tree, set_fid-SameTree,
  fcb_decref-SameTree,
}
use tiny_os.Proc.Orphans.Steps.{
  Moved, Gave, end, close_files-SameTree, free_args-SameTree, reparent-Moved, give_exited-Gave,
}
use tiny_os.Proc.Orphans.Final.{Ended, Ended-Forest}

-- What tell_parent and die leave of the lists.
pub record SameLists (k k' : Kernel) : Type 0 where
  pub pstate : (q : ℕ) → (k'.pt q).pstate ≡ (if q == k.curproc then zombie else (k.pt q).pstate)
  pub parent : (q : ℕ) → (k'.pt q).parent ≡ (k.pt q).parent
  pub children : (q : ℕ) → (k'.pt q).children_list ≡ (k.pt q).children_list

pub told_lists :
    (exitval : ℤ) (o : Option ℕ) (k : Kernel) → SameLists k (die exitval (tell_parent o k))
unfolding tell_parent die
told_lists exitval none k = record {
  pstate = λ q. ground arith;
  parent = λ q. ground arith;
  children = λ q. ground arith;
}
told_lists exitval (some p) k = record {
  pstate = λ q. ground arith;
  parent = λ q. ground arith;
  children = λ q. ground arith;
}

abbrev pub exited_with : Option ℕ → ℕ → ℕ → List ℕ → List ℕ
exited_with none c q xs = xs
exited_with (some p) c q xs = if p == q then c ∷ xs else xs

pub told_exited :
    (exitval : ℤ) (o : Option ℕ) (k : Kernel) (q : ℕ)
    → ((die exitval (tell_parent o k)).pt q).exited_list
      ≡ exited_with o k.curproc q (k.pt q).exited_list
unfolding tell_parent die
told_exited exitval none k q = ground arith
told_exited exitval (some p) k q = ground arith

end-Ended :
    (exitval : ℤ) (k k1 k2 : Kernel)
    → Tree k
    → (k.curproc == 1) ≡ false
    → Moved (cur k).children_list k k1
    → Gave (cur k).exited_list k1 k2
    → Ended k.curproc k.pt (end exitval k2).pt (λ q. (k2.pt q).exited_list)
unfolding end
end-Ended exitval k k1 k2 t ne m g = record {
  pstate = λ q. lists.pstate q ∙ ground (arith, same, g.pstate q, m.pstate q);
  parent = λ q. lists.parent q ∙ g.parent q ∙ m.parent q;
  children_own =
      lists.children k.curproc
      ∙ g.children k.curproc
      ∙ subst (λ q. (k1.pt q).children_list ≡ []) m.current m.own;
  children_init = lists.children 1 ∙ g.children 1 ∙ m.init;
  children_others = λ q a b. lists.children q ∙ g.children q ∙ m.others q a b;
  exited_own = subst (λ q. (k2.pt q).exited_list ≡ []) same g.own;
  exited_init = g.init ∙ ap (λ l. l ++ (cur k).exited_list) (m.exited 1);
  exited_others = λ q a b. g.others q (rw m.current a) b ∙ m.exited q;
  exited_none = λ h q. exited none q (own_parent ∙ h);
  exited_some = λ p h q. exited (some p) q (own_parent ∙ h);
}
  where
    same : k2.curproc ≡ k.curproc
    same = g.current ∙ m.current

    own_parent : (cur k2).parent ≡ (cur k).parent
    own_parent = ground (
      arith,
      same,
      g.parent k.curproc,
      m.parent k.curproc,
      t.pairs k.curproc k.curproc,
      t.running,
    )

    lists : SameLists k2 (end exitval k2)
    lists = unfold end in told_lists exitval (cur k2).parent k2

    exited :
        (o : Option ℕ) (q : ℕ)
        → (cur k2).parent ≡ o
        → ((end exitval k2).pt q).exited_list ≡ exited_with o k.curproc q (k2.pt q).exited_list
    exited o q h = rw (← same) (
        ap (λ x. ((die exitval (tell_parent x k2)).pt q).exited_list) h
        ∙ told_exited exitval o k2 q)

after_files : ℤ → Option ℕ → Kernel → Kernel
after_files exitval initpcb k =
    let k2 = reparent initpcb (cur k).children_list k in
    end exitval (give_exited (cur k2).exited_list k2)

after_files-Forest :
    (exitval : ℤ) (k : Kernel)
    → Tree k
    → (k.curproc == 1) ≡ false
    → (k.pt 1).pstate ≡ alive
    → Forest (after_files exitval (some 1) k).pt
      × (((after_files exitval (some 1) k).pt k.curproc).pstate ≡ zombie)
unfolding after_files
after_files-Forest exitval k t ne init =
    (Ended-Forest t ne init e, e.pstate k.curproc ∙ rw (==_refl k.curproc))
  where
    k2 : Kernel
    k2 = reparent (some 1) (cur k).children_list k

    m : Moved (cur k).children_list k k2
    m = reparent-Moved (cur k).children_list k refl ne

    same : (cur k2).exited_list ≡ (cur k).exited_list
    same = m.exited k2.curproc ∙ ap (λ q. (k.pt q).exited_list) m.current

    g : Gave (cur k).exited_list k2 (give_exited (cur k2).exited_list k2)
    g =
        subst (λ xs. Gave xs k2 (give_exited (cur k2).exited_list k2)) same
          (give_exited-Gave (cur k2).exited_list k2 refl (rw m.current ne))

    e :
        Ended k.curproc k.pt
          (end exitval (give_exited (cur k2).exited_list k2)).pt
          (λ q. ((give_exited (cur k2).exited_list k2).pt q).exited_list)
    e = end-Ended exitval k k2 _ t ne m g

get_pcb-alive : (p : ℕ) (k : Kernel) → (k.pt p).pstate ≡ alive → get_pcb p k ≡ some p
unfolding get_pcb
get_pcb-alive p k e = ground arith

split :
    (exitval : ℤ) (k : Kernel)
    → ((close_files max_fileid 0 (free_args k)).pt 1).pstate ≡ alive
    → sys_exit exitval k ≡ after_files exitval (some 1) (close_files max_fileid 0 (free_args k))
unfolding sys_exit after_files end
split exitval k e =
    ap (λ o. after_files exitval o (close_files max_fileid 0 (free_args k)))
      (get_pcb-alive 1 (close_files max_fileid 0 (free_args k)) e)

-- Exit of a process other than 1, while process 1 lives, keeps the agreement of parents, children
-- lists and exited lists, and leaves the caller a zombie.
pub sys_exit-Forest :
    (exitval : ℤ) (k : Kernel)
    → Tree k
    → (k.curproc == 1) ≡ false
    → (k.pt 1).pstate ≡ alive
    → Forest (sys_exit exitval k).pt × (((sys_exit exitval k).pt k.curproc).pstate ≡ zombie)
sys_exit-Forest exitval k t ne init =
    subst (λ q. Forest (sys_exit exitval k).pt × (((sys_exit exitval k).pt q).pstate ≡ zombie))
      s.current
      (subst (λ k'. Forest k'.pt × ((k'.pt k1.curproc).pstate ≡ zombie))
        (sym (split exitval k (s.pstate 1 ∙ init)))
        (after_files-Forest exitval k1 (SameTree-Tree s t) (rw s.current ne) (s.pstate 1 ∙ init)))
  where
    k1 : Kernel
    k1 = close_files max_fileid 0 (free_args k)

    s : SameTree k k1
    s = SameTree-trans (free_args-SameTree k) (close_files-SameTree max_fileid 0 (free_args k))
