-- ===== src/Proc/Orphans/Steps.antt =====
-- The steps of sys_Exit, each by what it does to the fields of the table.
use tiny_os.Prelude.{
  ℕ, zero, suc, ◌+◌, ◌≡◌, refl, false, Option, none, some, List, [], ◌∷◌, ◌++◌, arith, ◌==◌, has,
  ap, sym, ◌∙◌, ℤ, if◌then◌else◌, reverse_aux, append-nil,
}
use tiny_os.Kernel.{Kernel, cur}
use tiny_os.Proc.Exit.{
  close_one, close_files, move_child, reparent, give_exited, tell_parent, die, free_args,
}
use tiny_os.Proc.Tree.{
  SameTree, SameTree-refl, SameTree-trans, set_fid-SameTree, fcb_decref-SameTree,
}

pub close_files-SameTree : (rounds i : ℕ) (k : Kernel) → SameTree k (close_files rounds i k)
unfolding close_files
close_files-SameTree zero i k = SameTree-refl k
close_files-SameTree (suc rounds) i k =
    SameTree-trans (closed ((cur k).fidt i)) (close_files-SameTree rounds (i + 1) _)
  where
    closed : (o : Option ℕ) → SameTree k (close_one i o k)
    closed none = unfold close_one in SameTree-refl k
    closed (some f) =
        unfold close_one in
        SameTree-trans (fcb_decref-SameTree f k) (set_fid-SameTree k.curproc i none _)

pub free_args-SameTree : (k : Kernel) → SameTree k (free_args k)
unfolding free_args
free_args-SameTree k = record {
  current = refl;
  pstate = λ q. ground arith;
  parent = λ q. ground arith;
  children = λ q. ground arith;
  exited = λ q. ground arith;
}

-- What the loop over the children `cs` of the caller does.
pub record Moved (cs : List ℕ) (k k' : Kernel) : Type 0 where
  pub current : k'.curproc ≡ k.curproc
  pub pstate : (q : ℕ) → (k'.pt q).pstate ≡ (k.pt q).pstate
  pub parent : (q : ℕ) → (k'.pt q).parent ≡ (if has q cs then some 1 else (k.pt q).parent)
  pub exited : (q : ℕ) → (k'.pt q).exited_list ≡ (k.pt q).exited_list
  pub own : (cur k').children_list ≡ []
  pub init : (k'.pt 1).children_list ≡ reverse_aux cs (k.pt 1).children_list
  pub others :
      (q : ℕ)
      → (q == k.curproc) ≡ false
      → (q == 1) ≡ false
      → (k'.pt q).children_list ≡ (k.pt q).children_list

Moved-cons :
    (c : ℕ) (cs : List ℕ) (k k' : Kernel)
    → (cur k).children_list ≡ c ∷ cs
    → (k.curproc == 1) ≡ false
    → Moved cs (move_child (some 1) c cs k) k'
    → Moved (c ∷ cs) k k'
unfolding move_child
Moved-cons c cs k k' e ne m = record {
  current = m.current;
  pstate = λ q. m.pstate q ∙ ground arith;
  parent = λ q. m.parent q ∙ ground arith;
  exited = λ q. m.exited q ∙ ground arith;
  own = m.own;
  init = m.init ∙ ap (reverse_aux cs) (ground arith);
  others = λ q a b. m.others q a b ∙ ground arith;
}

pub reparent-Moved :
    (cs : List ℕ) (k : Kernel)
    → (cur k).children_list ≡ cs
    → (k.curproc == 1) ≡ false
    → Moved cs k (reparent (some 1) cs k)
unfolding reparent
reparent-Moved [] k e ne = record {
  current = refl;
  pstate = λ q. refl;
  parent = λ q. refl;
  exited = λ q. refl;
  own = e;
  init = refl;
  others = λ q a b. refl;
}
reparent-Moved (c ∷ cs) k e ne = Moved-cons c cs k _ e ne (
    reparent-Moved cs (move_child (some 1) c cs k) (unfold move_child in ground arith)
      (unfold move_child in ne))

-- What giving the exited list `xs` of the caller to process 1 does.
pub record Gave (xs : List ℕ) (k k' : Kernel) : Type 0 where
  pub current : k'.curproc ≡ k.curproc
  pub pstate : (q : ℕ) → (k'.pt q).pstate ≡ (k.pt q).pstate
  pub parent : (q : ℕ) → (k'.pt q).parent ≡ (k.pt q).parent
  pub children : (q : ℕ) → (k'.pt q).children_list ≡ (k.pt q).children_list
  pub own : (cur k').exited_list ≡ []
  pub init : (k'.pt 1).exited_list ≡ (k.pt 1).exited_list ++ xs
  pub others :
      (q : ℕ)
      → (q == k.curproc) ≡ false
      → (q == 1) ≡ false
      → (k'.pt q).exited_list ≡ (k.pt q).exited_list

pub give_exited-Gave :
    (xs : List ℕ) (k : Kernel)
    → (cur k).exited_list ≡ xs
    → (k.curproc == 1) ≡ false
    → Gave xs k (give_exited xs k)
unfolding give_exited
give_exited-Gave [] k e ne = record {
  current = refl;
  pstate = λ q. refl;
  parent = λ q. refl;
  children = λ q. refl;
  own = e;
  init = sym (append-nil _);
  others = λ q a b. refl;
}
give_exited-Gave (x ∷ xs) k e ne = record {
  current = refl;
  pstate = λ q. ground arith;
  parent = λ q. ground arith;
  children = λ q. ground arith;
  own = ground arith;
  init = ground arith;
  others = λ q a b. ground arith;
}

-- The last part of Exit, from the state that the others leave.
unfoldable pub end : ℤ → Kernel → Kernel
end exitval k = die exitval (tell_parent (cur k).parent k)
