-- ===== src/Proc/Files/Exit.antt =====
-- sys_Exit of kernel_proc.c and the reference counts of the file control blocks.
use tiny_os.Prelude.{ℕ, ◌<◌, ◌≡◌, refl, Option, none, some, List, [], ◌∷◌, arith, ℤ, ap, ◌∙◌, subst}
use tiny_os.Kernel.{max_fileid, Kernel, cur}
use tiny_os.Streams.Calls.{Exact, Ready}
use tiny_os.Proc.Exit.{
  close_files, move_child, reparent, give_exited, tell_parent, die, free_args, sys_exit,
}
use tiny_os.Proc.Files.{
  SameFiles, SameFiles-trans, SameFiles-Exact, set_pcb-SameFiles, close_files-Exact,
  close_files-current,
}

move_child-SameFiles :
    (initpcb : Option ℕ) (c : ℕ) (rest : List ℕ) (k : Kernel)
    → SameFiles k (move_child initpcb c rest k)
unfolding move_child
move_child-SameFiles initpcb c rest k = record {
  ft = refl;
  freelist = refl;
  fidt = λ q. ground arith;
  current = refl;
}

reparent-SameFiles :
    (initpcb : Option ℕ) (cs : List ℕ) (k : Kernel) → SameFiles k (reparent initpcb cs k)
unfolding reparent
reparent-SameFiles initpcb [] k = record {
  ft = refl;
  freelist = refl;
  fidt = λ q. refl;
  current = refl;
}
reparent-SameFiles initpcb (c ∷ cs) k =
    SameFiles-trans (move_child-SameFiles initpcb c cs k) (reparent-SameFiles initpcb cs _)

give_exited-SameFiles : (cs : List ℕ) (k : Kernel) → SameFiles k (give_exited cs k)
unfolding give_exited
give_exited-SameFiles [] k = record { ft = refl; freelist = refl; fidt = λ q. refl; current = refl }
give_exited-SameFiles (c ∷ cs) k = record {
  ft = refl;
  freelist = refl;
  fidt = λ q. ground arith;
  current = refl;
}

tell_parent-SameFiles : (o : Option ℕ) (k : Kernel) → SameFiles k (tell_parent o k)
unfolding tell_parent
tell_parent-SameFiles none k = record {
  ft = refl;
  freelist = refl;
  fidt = λ q. refl;
  current = refl;
}
tell_parent-SameFiles (some p) k = record {
  ft = refl;
  freelist = refl;
  fidt = λ q. ground arith;
  current = refl;
}

die-SameFiles : (v : ℤ) (k : Kernel) → SameFiles k (die v k)
unfolding die
die-SameFiles v k = record { ft = refl; freelist = refl; fidt = λ q. ground arith; current = refl }

-- Exit keeps the counts exact, and leaves the caller no open file.
pub sys_exit-Exact :
    {held : List ℕ} {k : Kernel} (exitval : ℤ)
    → Exact held k
    → Ready held k
    → Exact held (sys_exit exitval k)
      × ((j : ℕ) → j < max_fileid → ((sys_exit exitval k).pt k.curproc).fidt j ≡ none)
unfolding sys_exit
sys_exit-Exact {held} {k} exitval c r = (
  SameFiles-Exact rest closed.0,
  λ j h. ap (λ t. t j) (rest.fidt k.curproc) ∙ at_caller j (closed.1 j h),
)
  where
    start : SameFiles k (free_args k)
    start = unfold free_args in set_pcb-SameFiles k.curproc _ k refl

    k1 : Kernel
    k1 = close_files max_fileid 0 (free_args k)

    closed : Exact held k1 × ((j : ℕ) → j < max_fileid → (cur k1).fidt j ≡ none)
    closed =
        close_files-Exact max_fileid 0 (free_args k) (omega arith)
          (record { room = r.room; current = rw start.current r.current })
          (λ j h. absurd (omega arith)) (SameFiles-Exact start c)

    rest : SameFiles k1 (sys_exit exitval k)
    rest = SameFiles-trans (reparent-SameFiles _ _ k1) (
        SameFiles-trans (give_exited-SameFiles _ _)
          (SameFiles-trans (tell_parent-SameFiles _ _) (die-SameFiles exitval _)))

    at_caller : (j : ℕ) → (cur k1).fidt j ≡ none → (k1.pt k.curproc).fidt j ≡ none
    at_caller j e =
        subst (λ q. (k1.pt q).fidt j ≡ none)
          (close_files-current max_fileid 0 (free_args k) ∙ start.current) e
