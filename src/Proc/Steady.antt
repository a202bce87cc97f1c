-- ===== src/Proc/Steady.antt =====
-- What Exec and WaitChild leave of the other processes (kernel_proc.c).
use tiny_os.Prelude.{
  ℕ, zero, suc, ◌+◌, ◌≤◌, ◌<◌, ◌≡◌, ◌==◌, ◌&&◌, false, Option, none, some, List, [], ◌∷◌, arith,
  ltb, leb, length, has, refl, sym, subst, ap, ◌∙◌, Bool-cases, inl, inr, if◌then◌else◌,
}
use tiny_os.Kernel.{max_proc, max_fileid, free, alive, Kernel, set_fid}
use tiny_os.Streams.{fcb_incref}
use tiny_os.Proc.{
  acquire_at, acquire_pcb, adopt, inherit_one, inherit_files, set_parent, set_task, start_thread,
  exec_at, sys_exec, release_pcb, unlink_child, cleanup_zombie,
}
use tiny_os.Proc.Table.{is_free, Chain, Chain-same, Table, acquire_pcb-Acquired, Acquired}
use tiny_os.Proc.Files.{SameFiles}

pub cleanup_zombie-SameFiles : (c : ℕ) (k : Kernel) → SameFiles k (cleanup_zombie c k)
unfolding cleanup_zombie release_pcb unlink_child
cleanup_zombie-SameFiles c k = record {
  ft = refl;
  freelist = refl;
  fidt = λ q. ground arith;
  current = refl;
}

pub cleanup_zombie-pstate :
    (c : ℕ) (k : Kernel) (q : ℕ)
    → ((cleanup_zombie c k).pt q).pstate ≡ (if c == q then free else (k.pt q).pstate)
unfolding cleanup_zombie release_pcb unlink_child
cleanup_zombie-pstate c k q = ground arith

-- Only process `p` has a new parent or new open files.
pub record Kept (p : ℕ) (k k' : Kernel) : Type 0 where
  pub current : k'.curproc ≡ k.curproc
  pub head : k'.pcb_freelist ≡ k.pcb_freelist
  pub count : k'.process_count ≡ k.process_count
  pub pstate : (q : ℕ) → (k'.pt q).pstate ≡ (k.pt q).pstate
  pub parent : (q : ℕ) → (p == q) ≡ false → (k'.pt q).parent ≡ (k.pt q).parent
  pub fidt : (q i : ℕ) → ((p == q) && ltb i max_fileid) ≡ false → (k'.pt q).fidt i ≡ (k.pt q).fidt i

Kept-refl : (p : ℕ) (k : Kernel) → Kept p k k
Kept-refl p k = record {
  current = refl;
  head = refl;
  count = refl;
  pstate = λ q. refl;
  parent = λ q e. refl;
  fidt = λ q i e. refl;
}

Kept-trans : (p : ℕ) {k k' k'' : Kernel} → Kept p k k' → Kept p k' k'' → Kept p k k''
Kept-trans p a b = record {
  current = b.current ∙ a.current;
  head = b.head ∙ a.head;
  count = b.count ∙ a.count;
  pstate = λ q. b.pstate q ∙ a.pstate q;
  parent = λ q e. b.parent q e ∙ a.parent q e;
  fidt = λ q i e. b.fidt q i e ∙ a.fidt q i e;
}

inherit_one-Kept :
    (p i : ℕ) (o : Option ℕ) (k : Kernel) → i < max_fileid → Kept p k (inherit_one p i o k)
unfolding inherit_one fcb_incref set_fid
inherit_one-Kept p i none k lt = record {
  current = refl;
  head = refl;
  count = refl;
  pstate = λ q. ground arith;
  parent = λ q e. ground arith;
  fidt = λ q j e. ground (arith, lt);
}
inherit_one-Kept p i (some f) k lt = record {
  current = refl;
  head = refl;
  count = refl;
  pstate = λ q. ground arith;
  parent = λ q e. ground arith;
  fidt = λ q j e. ground (arith, lt);
}

inherit_files-Kept :
    (rounds i p : ℕ) (k : Kernel) → i + rounds ≡ max_fileid → Kept p k (inherit_files rounds i p k)
unfolding inherit_files
inherit_files-Kept zero i p k e = Kept-refl p k
inherit_files-Kept (suc rounds) i p k e =
    Kept-trans p (inherit_one-Kept p i _ k (omega (arith, e)))
      (inherit_files-Kept rounds (i + 1) p _ (omega (arith, e)))

set_parent-Kept : (p : ℕ) (k : Kernel) → Kept p k (set_parent p k)
unfolding set_parent adopt
set_parent-Kept p k = elim (Bool-cases (leb p 1)) [
  | inl first ↦ rw first (record {
    current = refl;
    head = refl;
    count = refl;
    pstate = λ q. ground arith;
    parent = λ q e. ground arith;
    fidt = λ q i e. ground arith;
  })
  | inr later ↦ rw later (
      Kept-trans p {k' = adopt p k}
        (record {
          current = refl;
          head = refl;
          count = refl;
          pstate = λ q. ground arith;
          parent = λ q e. ground arith;
          fidt = λ q i e. ground arith;
        })
        (inherit_files-Kept max_fileid 0 p (adopt p k) (omega arith)))
]

exec_rest-Kept :
    (p : ℕ) (call : Option ℕ) (argl : ℕ) (args : Option (List ℕ)) (k : Kernel)
    → Kept p k (start_thread p call (set_task p call argl args k))
unfolding start_thread set_task
exec_rest-Kept p none argl args k = record {
  current = refl;
  head = refl;
  count = refl;
  pstate = λ q. ground arith;
  parent = λ q e. ground arith;
  fidt = λ q i e. ground arith;
}
exec_rest-Kept p (some call) argl args k = record {
  current = refl;
  head = refl;
  count = refl;
  pstate = λ q. ground arith;
  parent = λ q e. ground arith;
  fidt = λ q i e. ground arith;
}

-- Exec fails and changes nothing, or takes the free process `p`.
pub data Execed (n : ℕ) (fl : List ℕ) (k k' : Kernel) : Type 0 where
  full : k' ≡ k → Execed n fl k k'
  took :
      (p : ℕ) (rest : List ℕ)
      → (k.pcb_freelist ≡ some p)
      → fl ≡ p ∷ rest
      → Table n rest k'
      → (k'.curproc ≡ k.curproc)
      → ((q : ℕ) → (k'.pt q).pstate ≡ (if p == q then alive else (k.pt q).pstate))
      → ((q i : ℕ) → ((p == q) && ltb i max_fileid) ≡ false → (k'.pt q).fidt i ≡ (k.pt q).fidt i)
      → Execed n fl k k'

Kept-Table :
    {n p : ℕ} {fl : List ℕ} {k k' : Kernel}
    → has p fl ≡ false
    → Kept p k k'
    → Table n fl k
    → Table n fl k'
Kept-Table {n} {p} {fl} {k} {k'} out s t = record {
  chain =
      subst (λ h. Chain k'.pt h fl) (sym s.head)
        (Chain-same k.pt k'.pt k.pcb_freelist fl (λ q i. s.parent q (ground (arith, i, out)))
          t.chain);
  distinct = t.distinct;
  states = λ q lt. ap is_free (s.pstate q) ∙ t.states q lt;
  outside = λ q ge. ap is_free (s.pstate q) ∙ t.outside q ge;
  within = t.within;
  total = ap (λ m. m + length fl) s.count ∙ t.total;
}

-- Exec takes the first free process.
pub sys_exec-Table :
    {n : ℕ} (p : ℕ) (fl : List ℕ) {k : Kernel} (call : Option ℕ) (argl : ℕ) (args : Option (List ℕ))
    → n ≤ max_proc
    → Table n (p ∷ fl) k
    → Table n fl (sys_exec call argl args k).1
unfolding sys_exec acquire_pcb exec_at
sys_exec-Table {n} p fl {k} call argl args small t =
    let k1 = (acquire_at (some p) k).1 in
    let kept =
      Kept-trans p (set_parent-Kept p k1) (exec_rest-Kept p call argl args (set_parent p k1)) in
    let (r, table1, lives, others) =
      subst (λ o. Acquired n k (p ∷ fl) (acquire_at o k)) t.chain.0
        (acquire_pcb-Acquired (p ∷ fl) small t) in
    subst (λ o. Table n fl (exec_at (acquire_at o k).0 call argl args (acquire_at o k).1).1)
      (sym t.chain.0) (unfold acquire_at in Kept-Table t.distinct.0 kept table1)

pub sys_exec-Execed :
    {n : ℕ} (fl : List ℕ) {k : Kernel} (call : Option ℕ) (argl : ℕ) (args : Option (List ℕ))
    → n ≤ max_proc
    → Table n fl k
    → Execed n fl k (sys_exec call argl args k).1
unfolding sys_exec acquire_pcb exec_at
sys_exec-Execed {n} [] {k} call argl args small t =
    subst (λ o. Execed n [] k (exec_at (acquire_at o k).0 call argl args (acquire_at o k).1).1)
      (sym t.chain) (unfold acquire_at in full refl)
sys_exec-Execed {n} (p ∷ fl) {k} call argl args small t =
    subst
      (λ o. Execed n (p ∷ fl) k (exec_at (acquire_at o k).0 call argl args (acquire_at o k).1).1)
      (sym t.chain.0) taken
  where
    k1 : Kernel
    k1 = (acquire_at (some p) k).1

    k2 : Kernel
    k2 = start_thread p call (set_task p call argl args (set_parent p k1))

    table1 : Table n fl k1
    table1 =
        (subst (λ o. Acquired n k (p ∷ fl) (acquire_at o k)) t.chain.0
          (acquire_pcb-Acquired (p ∷ fl) small t)).1

    kept : Kept p k1 k2
    kept = Kept-trans p (set_parent-Kept p k1) (exec_rest-Kept p call argl args (set_parent p k1))

    taken : Execed n (p ∷ fl) k k2
    taken =
        unfold acquire_at in
        took p fl t.chain.0 refl (Kept-Table t.distinct.0 kept table1) kept.current
          (λ q. kept.pstate q ∙ ground arith) (λ q i e. kept.fidt q i e ∙ ground arith)
