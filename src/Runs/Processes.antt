-- ===== src/Runs/Processes.antt =====
-- The calls on processes keep the kernel well formed (kernel_proc.c).
use tiny_os.Prelude.{
  ℕ, ◌+◌, ◌≤◌, ◌<◌, ◌≡◌, ◌==◌, ◌≢◌, true, false, Option, none, some, List, [], ◌∷◌, arith, ℤ, pos,
  ltb, length, has, sym, subst, ap, ◌∙◌, Bool-cases, inl, inr, if◌then◌else◌,
}
use tiny_os.Kernel.{max_proc, max_fileid, free, alive, Kernel, cur}
use tiny_os.Streams.Calls.{Exact}
use tiny_os.Proc.Table.{is_free, Chain, Chain-same, Table}
use tiny_os.Proc.Tree.{Forest}
use tiny_os.Runs.{State, with_kernel}
use tiny_os.Runs.Safe.{is_alive, WellFormed, the-Tree, the_call}
use tiny_os.Proc.{sys_exec, sys_wait_child, returned}
use tiny_os.Proc.Exit.{sys_exit}
use tiny_os.Proc.Files.{SameFiles, SameFiles-Exact}
use tiny_os.Proc.Files.Exec.{sys_exec-Exact}
use tiny_os.Proc.Files.Exit.{sys_exit-Exact}
use tiny_os.Proc.Tree.Exec.{sys_exec-Tree}
use tiny_os.Proc.Wait.{Outcome, sys_wait_child-any}
use tiny_os.Proc.Died.{Died, sys_exit-Died}
use tiny_os.Proc.Steady.{
  Execed, full, took, sys_exec-Execed, cleanup_zombie-SameFiles, cleanup_zombie-pstate,
}

module _ {n : ℕ} (small : n ≤ max_proc) {s : State} (w : WellFormed n s)
    (running : (cur s.k).pstate ≡ alive) where
  next-closed :
      (fl : List ℕ)
      → Table n fl s.k
      → (p : ℕ) → s.k.pcb_freelist ≡ some p
      → (p < max_proc) × (p ≢ s.k.curproc) × ((i : ℕ) → (s.k.pt p).fidt i ≡ none)
  next-closed [] t p e = absurd (ground (arith, t.chain, e))
  next-closed (q ∷ fl) t p e =
      let same : q ≡ p = ground (arith, t.chain.0, e) in
      let below : p < n = t.within p (ground (arith, same)) in
      let unused : is_free (s.k.pt p).pstate ≡ true = t.states p below ∙ ground (arith, same) in
      (
        omega (arith, below, small),
        λ own. absurd (ground (arith, unused, running, ap (λ r. (s.k.pt r).pstate) own)),
        λ i. w.closed p i (ground (arith, unused)),
      )

  exec-Execed :
      (fl : List ℕ) (k' : Kernel)
      → Exact s.held k'
      → Forest k'.pt
      → Table n fl s.k
      → Execed n fl s.k k'
      → WellFormed n (with_kernel k' s)
  exec-Execed fl k' exact forest t (full e) = record {
    exact = exact;
    room = w.room;
    forest = forest;
    table = (fl, subst (Table n fl) (sym e) t);
    closed =
        subst (λ k. (p i : ℕ) → is_alive (k.pt p).pstate ≡ false → (k.pt p).fidt i ≡ none) (sym e)
          w.closed;
    legal =
        subst (λ k. (p i : ℕ) → ltb i max_fileid ≡ false → (k.pt p).fidt i ≡ none) (sym e) w.legal;
    init = subst (λ k. is_free (k.pt 1).pstate ≡ false) (sym e) w.init;
  }
  exec-Execed fl k' exact forest t (took p rest first is_fl t' current pstate fidt) = record {
    exact = exact;
    room = w.room;
    forest = forest;
    table = (rest, t');
    closed = λ q i dead.
        fidt q i (ground (arith, dead, pstate q)) ∙ w.closed q i (ground (arith, dead, pstate q));
    legal = λ q i high. fidt q i (ground (arith, high)) ∙ w.legal q i high;
    init = ground (arith, pstate 1, w.init);
  }

  pub exec-WellFormed :
      (call : Option ℕ) (argl : ℕ) (args : Option (List ℕ))
      → WellFormed n (with_kernel (sys_exec call argl args s.k).1 s)
  exec-WellFormed call argl args =
      let (fl, t) = w.table in
      let tree = sys_exec-Tree call argl args t (the-Tree small w running) in
      exec-Execed fl (sys_exec call argl args s.k).1
        (sys_exec-Exact call argl args w.exact (the_call small w running)
          (record { next = next-closed fl t }))
        (record { children = tree.children; exited = tree.exited; pairs = tree.pairs }) t
        (sys_exec-Execed fl call argl args small t)

  exit-Table : (fl : List ℕ) → Table n fl s.k → {k' : Kernel} → Died s.k k' → Table n fl k'
  exit-Table fl t {k'} d = record {
    chain =
        subst (λ h. Chain k'.pt h fl) (sym d.head)
          (Chain-same s.k.pt k'.pt s.k.pcb_freelist fl (λ q i. d.parent q (no_child q i)) t.chain);
    distinct = t.distinct;
    states = λ q lt. ground (arith, d.pstate q, t.states q lt, running);
    outside = λ q ge. ground (arith, d.pstate q, t.outside q ge, running);
    within = t.within;
    total = ap (λ m. m + length fl) d.count ∙ t.total;
  }
    where
      no_child : (q : ℕ) → has q fl ≡ true → has q (cur s.k).children_list ≡ false
      no_child q i = ground (arith, w.forest.pairs s.k.curproc q, t.states q (t.within q i), i)

  exit_closed :
      {k' : Kernel}
      → Died s.k k'
      → ((j : ℕ) → j < max_fileid → (k'.pt s.k.curproc).fidt j ≡ none)
      → (q i : ℕ) → is_alive (k'.pt q).pstate ≡ false
      → (k'.pt q).fidt i ≡ none
  exit_closed {k'} d gone q i dead = elim (Bool-cases (s.k.curproc == q)) [
    | inl same ↦
        let e : s.k.curproc ≡ q = ground arith in
        subst (λ r. (k'.pt r).fidt i ≡ none) e
          (elim (Bool-cases (ltb i max_fileid)) [
            | inl low ↦ gone i (ground arith)
            | inr high ↦ d.fidt s.k.curproc i (ground (arith, high)) ∙ w.legal s.k.curproc i high
          ])
    | inr other ↦
        d.fidt q i (ground (arith, other)) ∙ w.closed q i (ground (arith, d.pstate q, dead, other))
  ]

  pub exit-WellFormed :
      (exitval : ℤ)
      → Forest (sys_exit exitval s.k).pt
      → WellFormed n (with_kernel (sys_exit exitval s.k) s)
  exit-WellFormed exitval forest =
      let (fl, t) = w.table in
      let d = sys_exit-Died exitval s.k in
      let (exact, gone) = sys_exit-Exact exitval w.exact (the_call small w running) in
      record {
        exact = exact;
        room = w.room;
        forest = forest;
        table = (fl, exit-Table fl t d);
        closed = exit_closed d gone;
        legal = λ q i high. d.fidt q i (ground (arith, high)) ∙ w.legal q i high;
        init = ground (arith, d.pstate 1, w.init);
      }

  reap-Outcome :
      (c : ℕ) (status : Option ℤ) (k' : Kernel) (fl : List ℕ)
      → Outcome n fl s.k (returned (pos c) status k')
      → WellFormed n (with_kernel k' s)
  reap-Outcome c status k' fl (x, st, tree, t, e) =
      let pstate : (q : ℕ) → (k'.pt q).pstate ≡ (if c == q then free else (s.k.pt q).pstate) =
        λ q. ap (λ k. (k.pt q).pstate) e ∙ cleanup_zombie-pstate c s.k q in
      let files : SameFiles s.k k' =
        subst (SameFiles s.k) (sym e) (cleanup_zombie-SameFiles c s.k) in
      record {
        exact = SameFiles-Exact files w.exact;
        room = w.room;
        forest = record { children = tree.children; exited = tree.exited; pairs = tree.pairs };
        table = (c ∷ fl, t);
        closed = λ q i dead.
            ap (λ f. f i) (files.fidt q) ∙ w.closed q i (ground (arith, dead, pstate q, x.dead));
        legal = λ q i high. ap (λ f. f i) (files.fidt q) ∙ w.legal q i high;
        init = ground (
          arith,
          pstate 1,
          w.init,
          x.dead,
          x.mine,
          (the-Tree small w running).pairs s.k.curproc c,
        );
      }

  pub reap-WellFormed :
      (cpid : ℤ) (c : ℕ) (status : Option ℤ) (k' : Kernel)
      → sys_wait_child cpid s.k ≡ returned (pos c) status k'
      → WellFormed n (with_kernel k' s)
  reap-WellFormed cpid c status k' e =
      let (fl, t) = w.table in
      reap-Outcome c status k' fl
        (subst (Outcome n fl s.k) e (sys_wait_child-any small (the-Tree small w running) t cpid))
