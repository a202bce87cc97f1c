-- ===== src/Proc/Tree/Exec.antt =====
-- sys_Exec of kernel_proc.c and the tree of processes.
use tiny_os.Prelude.{
  ℕ, zero, suc, ◌+◌, ◌<◌, ◌≡◌, refl, true, Option, none, some, List, [], ◌∷◌, arith, has,
  Bool-cases, sym, subst, inl, inr, leb,
}
use tiny_os.Kernel.{max_fileid, Kernel, cur}
use tiny_os.Proc.{
  acquire_at, acquire_pcb, inherit_one, inherit_files, set_parent, set_task, start_thread, exec_at,
  sys_exec,
}
use tiny_os.Proc.Table.{is_free, Chain, Table}
use tiny_os.Proc.Tree.{
  Tree, SameTree, SameTree-refl, SameTree-trans, SameTree-Tree, set_fid-SameTree,
  fcb_incref-SameTree, adopt-Tree, orphan-Tree,
}

inherit_files-SameTree : (rounds i p : ℕ) (k : Kernel) → SameTree k (inherit_files rounds i p k)
unfolding inherit_files
inherit_files-SameTree zero i p k = SameTree-refl k
inherit_files-SameTree (suc rounds) i p k =
    SameTree-trans (inherited ((cur k).fidt i)) (inherit_files-SameTree rounds (i + 1) p _)
  where
    inherited : (o : Option ℕ) → SameTree k (inherit_one p i o k)
    inherited none = unfold inherit_one in set_fid-SameTree p i none k
    inherited (some f) =
        unfold inherit_one in
        SameTree-trans (set_fid-SameTree p i (some f) k) (fcb_incref-SameTree f _)

exec_rest-SameTree :
    (p : ℕ) (call : Option ℕ) (argl : ℕ) (args : Option (List ℕ)) (k : Kernel)
    → SameTree k (start_thread p call (set_task p call argl args k))
unfolding start_thread set_task
exec_rest-SameTree p none argl args k = record {
  current = refl;
  pstate = λ q. ground arith;
  parent = λ q. ground arith;
  children = λ q. ground arith;
  exited = λ q. ground arith;
}
exec_rest-SameTree p (some call) argl args k = record {
  current = refl;
  pstate = λ q. ground arith;
  parent = λ q. ground arith;
  children = λ q. ground arith;
  exited = λ q. ground arith;
}

-- With a well-formed table, Exec keeps the tree of processes, whether it finds a free process or not.
pub sys_exec-Tree :
    {n : ℕ} {fl : List ℕ} {k : Kernel} (call : Option ℕ) (argl : ℕ) (args : Option (List ℕ))
    → Table n fl k
    → Tree k
    → Tree (sys_exec call argl args k).1
unfolding sys_exec acquire_pcb exec_at
sys_exec-Tree {n} {fl} {k} call argl args table t =
    acquired fl table.chain table.states table.within
  where
    parented :
        (p : ℕ) → is_free (k.pt p).pstate ≡ true → Tree (set_parent p (acquire_at (some p) k).1)
    parented p f =
        unfold set_parent in
        (elim (Bool-cases (leb p 1)) [
          | inl first ↦ rw first (orphan-Tree t p f)
          | inr later ↦
              rw later
                (SameTree-Tree (inherit_files-SameTree max_fileid 0 p _) (adopt-Tree t p f later))
        ])

    acquired :
        (fl : List ℕ)
        → Chain k.pt k.pcb_freelist fl
        → ((p : ℕ) → p < n → is_free (k.pt p).pstate ≡ has p fl)
        → ((p : ℕ) → has p fl ≡ true → p < n)
        → Tree
            (exec_at
              (acquire_at k.pcb_freelist k).0
              call
              argl
              args
              (acquire_at k.pcb_freelist k).1).1
    acquired [] chain states within =
        subst (λ o. Tree (exec_at (acquire_at o k).0 call argl args (acquire_at o k).1).1)
          (sym chain) (unfold acquire_at in t)
    acquired (p ∷ fl) chain states within =
        subst (λ o. Tree (exec_at (acquire_at o k).0 call argl args (acquire_at o k).1).1)
          (sym chain.0)
          (SameTree-Tree (exec_rest-SameTree p call argl args _)
            (parented p (ground (arith, states p, within p))))
