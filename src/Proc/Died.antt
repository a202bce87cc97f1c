-- ===== src/Proc/Died.antt =====
-- What Exit leaves of the other processes (kernel_proc.c).
use tiny_os.Prelude.{
  ℕ, zero, suc, ◌+◌, ◌<◌, ◌≡◌, ◌==◌, ◌&&◌, true, false, Option, none, some, List, [], ◌∷◌, arith, ℤ,
  ltb, has, refl, sym, subst, ap, ◌∙◌, if◌then◌else◌,
}
use tiny_os.Kernel.{max_fileid, zombie, Kernel, cur, set_fid}
use tiny_os.Streams.{fcb_decref}
use tiny_os.Proc.{get_pcb}
use tiny_os.Proc.Exit.{
  close_one, close_files, move_child, reparent, give_exited, tell_parent, die, free_args, sys_exit,
}
use tiny_os.Proc.Tree.{SameTree, SameTree-trans}
use tiny_os.Proc.Orphans.Steps.{free_args-SameTree, close_files-SameTree}

-- Before Exit makes the caller `p` a zombie: the children of `cs` have a new parent, and `p` may have
-- fewer open files.
pub record Left (p : ℕ) (cs : List ℕ) (k k' : Kernel) : Type 0 where
  pub current : k'.curproc ≡ k.curproc
  pub head : k'.pcb_freelist ≡ k.pcb_freelist
  pub count : k'.process_count ≡ k.process_count
  pub pstate : (q : ℕ) → (k'.pt q).pstate ≡ (k.pt q).pstate
  pub parent : (q : ℕ) → has q cs ≡ false → (k'.pt q).parent ≡ (k.pt q).parent
  pub fidt : (q i : ℕ) → ((p == q) && ltb i max_fileid) ≡ false → (k'.pt q).fidt i ≡ (k.pt q).fidt i

Left-refl : (p : ℕ) (cs : List ℕ) (k : Kernel) → Left p cs k k
Left-refl p cs k = record {
  current = refl;
  head = refl;
  count = refl;
  pstate = λ q. refl;
  parent = λ q e. refl;
  fidt = λ q i e. refl;
}

Left-trans :
    (p : ℕ) (cs : List ℕ) {k k' k'' : Kernel} → Left p cs k k' → Left p cs k' k'' → Left p cs k k''
Left-trans p cs a b = record {
  current = b.current ∙ a.current;
  head = b.head ∙ a.head;
  count = b.count ∙ a.count;
  pstate = λ q. b.pstate q ∙ a.pstate q;
  parent = λ q e. b.parent q e ∙ a.parent q e;
  fidt = λ q i e. b.fidt q i e ∙ a.fidt q i e;
}

close_one-Left :
    (p : ℕ) (cs : List ℕ) (i : ℕ) (o : Option ℕ) (k : Kernel)
    → k.curproc ≡ p
    → i < max_fileid
    → Left p cs k (close_one i o k)
unfolding close_one fcb_decref set_fid
close_one-Left p cs i none k e lt = Left-refl p cs k
close_one-Left p cs i (some f) k e lt = record {
  current = ground arith;
  head = ground arith;
  count = ground arith;
  pstate = λ q. ground arith;
  parent = λ q h. ground arith;
  fidt = λ q j h. ground (arith, e, lt);
}

close_files-Left :
    (p : ℕ) (cs : List ℕ) (rounds i : ℕ) (k : Kernel)
    → k.curproc ≡ p
    → i + rounds ≡ max_fileid
    → Left p cs k (close_files rounds i k)
unfolding close_files
close_files-Left p cs zero i k e sum = Left-refl p cs k
close_files-Left p cs (suc rounds) i k e sum =
    let one = close_one-Left p cs i ((cur k).fidt i) k e (omega (arith, sum)) in
    Left-trans p cs one
      (close_files-Left p cs rounds (i + 1) _ (one.current ∙ e) (omega (arith, sum)))

move_child-Left :
    (p c : ℕ) (rest cs : List ℕ) (o : Option ℕ) (k : Kernel)
    → has c cs ≡ true
    → Left p cs k (move_child o c rest k)
unfolding move_child
move_child-Left p c rest cs o k listed = record {
  current = refl;
  head = refl;
  count = refl;
  pstate = λ q. ground arith;
  parent = λ q h. ground (arith, listed, h);
  fidt = λ q i h. ground arith;
}

reparent-Left :
    (p : ℕ) (rest cs : List ℕ) (o : Option ℕ) (k : Kernel)
    → ((q : ℕ) → has q rest ≡ true → has q cs ≡ true)
    → Left p cs k (reparent o rest k)
unfolding reparent
reparent-Left p [] cs o k within = Left-refl p cs k
reparent-Left p (c ∷ rest) cs o k within =
    Left-trans p cs (move_child-Left p c rest cs o k (within c (ground arith)))
      (reparent-Left p rest cs o _ (λ q h. within q (ground (arith, h))))

give_exited-Left : (p : ℕ) (cs xs : List ℕ) (k : Kernel) → Left p cs k (give_exited xs k)
unfolding give_exited
give_exited-Left p cs [] k = Left-refl p cs k
give_exited-Left p cs (x ∷ xs) k = record {
  current = refl;
  head = refl;
  count = refl;
  pstate = λ q. ground arith;
  parent = λ q h. ground arith;
  fidt = λ q i h. ground arith;
}

tell_parent-Left : (p : ℕ) (cs : List ℕ) (o : Option ℕ) (k : Kernel) → Left p cs k (tell_parent o k)
unfolding tell_parent
tell_parent-Left p cs none k = Left-refl p cs k
tell_parent-Left p cs (some r) k = record {
  current = refl;
  head = refl;
  count = refl;
  pstate = λ q. ground arith;
  parent = λ q h. ground arith;
  fidt = λ q i h. ground arith;
}

free_args-Left : (p : ℕ) (cs : List ℕ) (k : Kernel) → Left p cs k (free_args k)
unfolding free_args
free_args-Left p cs k = record {
  current = refl;
  head = refl;
  count = refl;
  pstate = λ q. ground arith;
  parent = λ q h. ground arith;
  fidt = λ q i h. ground arith;
}

-- Exit: a state that Left describes, and the caller is a zombie.
pub sys_exit-Left :
    (exitval : ℤ) (k : Kernel)
    → (k1 : Kernel) × Left k.curproc (cur k).children_list k k1
      × (sys_exit exitval k ≡ die exitval k1)
unfolding sys_exit
sys_exit-Left exitval k = (
  k4,
  Left-trans p cs (free_args-Left p cs k) (
      Left-trans p cs (close_files-Left p cs max_fileid 0 (free_args k) same.0 (omega arith)) (
        Left-trans p cs
          (reparent-Left p (cur k1).children_list cs (get_pcb 1 k1) k1 (λ q h. rw (← same.1) h))
          (Left-trans p cs (give_exited-Left p cs (cur k2).exited_list k2)
            (tell_parent-Left p cs (cur k3).parent k3)))),
  refl,
)
  where
    p : ℕ
    p = k.curproc

    cs : List ℕ
    cs = (cur k).children_list

    k1 : Kernel
    k1 = close_files max_fileid 0 (free_args k)

    k2 : Kernel
    k2 = reparent (get_pcb 1 k1) (cur k1).children_list k1

    k3 : Kernel
    k3 = give_exited (cur k2).exited_list k2

    k4 : Kernel
    k4 = tell_parent (cur k3).parent k3

    tree : SameTree k k1
    tree = SameTree-trans (free_args-SameTree k) (close_files-SameTree max_fileid 0 (free_args k))

    same : ((free_args k).curproc ≡ k.curproc) × ((cur k1).children_list ≡ (cur k).children_list)
    same = (
      (free_args-SameTree k).current,
      tree.children k1.curproc ∙ ap (λ q. (k.pt q).children_list) tree.current,
    )

-- What the process tables show of Exit.
pub record Died (k k' : Kernel) : Type 0 where
  pub current : k'.curproc ≡ k.curproc
  pub head : k'.pcb_freelist ≡ k.pcb_freelist
  pub count : k'.process_count ≡ k.process_count
  pub pstate : (q : ℕ) → (k'.pt q).pstate ≡ (if k.curproc == q then zombie else (k.pt q).pstate)
  pub parent : (q : ℕ) → has q (cur k).children_list ≡ false → (k'.pt q).parent ≡ (k.pt q).parent
  pub fidt :
      (q i : ℕ)
      → ((k.curproc == q) && ltb i max_fileid) ≡ false
      → (k'.pt q).fidt i ≡ (k.pt q).fidt i

pub sys_exit-Died : (exitval : ℤ) (k : Kernel) → Died k (sys_exit exitval k)
unfolding die
sys_exit-Died exitval k =
    let (k1, l, e) = sys_exit-Left exitval k in
    subst (Died k) (sym e) (record {
      current = l.current;
      head = l.head;
      count = l.count;
      pstate = λ q. ground (arith, l.pstate q, l.current);
      parent = λ q h. ground (arith, l.parent q h);
      fidt = λ q i h. ground (arith, l.fidt q i h);
    })
