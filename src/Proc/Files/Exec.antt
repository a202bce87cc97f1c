-- ===== src/Proc/Files/Exec.antt =====
-- sys_Exec of kernel_proc.c and the reference counts of the file control blocks.
use tiny_os.Prelude.{
  ℕ, ◌<◌, ◌≡◌, refl, ◌≢◌, inl, inr, Option, none, some, List, arith, Bool-cases, ap, ◌∙◌, leb,
}
use tiny_os.Kernel.{max_proc, max_fileid, Kernel}
use tiny_os.Streams.Calls.{Exact, Ready}
use tiny_os.Proc.{
  acquire_at, acquire_pcb, adopt, set_parent, set_task, start_thread, exec_at, sys_exec,
}
use tiny_os.Proc.Files.{
  SameFiles, SameFiles-trans, SameFiles-Exact, set_pcb-SameFiles, inherit_files-Exact,
}

-- The next process that Exec takes is in the table, is not the caller, and has no open file.
pub record NextIsClosed (k : Kernel) : Type 0 where
  pub next :
      (p : ℕ)
      → k.pcb_freelist ≡ some p
      → (p < max_proc) × (p ≢ k.curproc) × ((i : ℕ) → (k.pt p).fidt i ≡ none)

module _ {held : List ℕ} {k : Kernel} (c : Exact held k) (r : Ready held k) where
  set_parent-Exact :
      (p : ℕ)
      → p < max_proc
      → p ≢ k.curproc
      → ((i : ℕ) → (k.pt p).fidt i ≡ none)
      → Exact held (set_parent p k)
  unfolding set_parent adopt
  set_parent-Exact p lt ne closed = elim (Bool-cases (leb p 1)) [
    | inl first ↦ rw first (SameFiles-Exact (set_pcb-SameFiles p _ k refl) c)
    | inr later ↦
        let s =
          SameFiles-trans (set_pcb-SameFiles p (record (k.pt p) { parent = some k.curproc }) k refl)
            (set_pcb-SameFiles k.curproc _ _ refl) in
        rw later (
          inherit_files-Exact max_fileid 0 p _ (omega arith) lt ne
            (record { room = r.room; current = r.current })
            (λ j h. ap (λ t. t j) (s.fidt p) ∙ closed j) (SameFiles-Exact s c))
  ]

pub exec_rest-SameFiles :
    (p : ℕ) (call : Option ℕ) (argl : ℕ) (args : Option (List ℕ)) (k : Kernel)
    → SameFiles k (start_thread p call (set_task p call argl args k))
unfolding start_thread set_task
exec_rest-SameFiles p none argl args k = set_pcb-SameFiles p _ k refl
exec_rest-SameFiles p (some call) argl args k =
    SameFiles-trans {k' = set_task p (some call) argl args k} (set_pcb-SameFiles p _ k refl)
      (record { ft = refl; freelist = refl; fidt = λ q. ground arith; current = refl })

pub acquire_at-SameFiles : (o : Option ℕ) (k : Kernel) → SameFiles k (acquire_at o k).1
unfolding acquire_at
acquire_at-SameFiles none k = record {
  ft = refl;
  freelist = refl;
  fidt = λ q. refl;
  current = refl;
}
acquire_at-SameFiles (some p) k = record {
  ft = refl;
  freelist = refl;
  fidt = λ q. ground arith;
  current = refl;
}

-- If the next free process has an empty file table, Exec keeps the counts exact while the child
-- shares the open files of the parent.
pub sys_exec-Exact :
    {held : List ℕ} {k : Kernel} (call : Option ℕ) (argl : ℕ) (args : Option (List ℕ))
    → Exact held k
    → Ready held k
    → NextIsClosed k
    → Exact held (sys_exec call argl args k).1
unfolding sys_exec acquire_pcb exec_at
sys_exec-Exact {held} {k} call argl args c r n = acquired k.pcb_freelist refl
  where
    acquired :
        (o : Option ℕ)
        → k.pcb_freelist ≡ o
        → Exact held (exec_at (acquire_at o k).0 call argl args (acquire_at o k).1).1
    acquired none e = unfold acquire_at in c
    acquired (some p) e =
        let s = acquire_at-SameFiles (some p) k in
        let (lt, ne, closed) = n.next p e in
        unfold acquire_at in
        SameFiles-Exact (exec_rest-SameFiles p call argl args _) (
          set_parent-Exact (SameFiles-Exact s c) (record { room = r.room; current = r.current }) p
            lt ne (λ i. ap (λ t. t i) (s.fidt p) ∙ closed i))
