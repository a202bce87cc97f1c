-- ===== src/Proc/Blank.antt =====
-- Entries of the process table without relatives and files, before and after the first calls of Exec
-- (kernel_proc.c).
use tiny_os.Prelude.{
  ℕ, zero, suc, ◌+◌, ◌≤◌, ◌<◌, ◌≡◌, ◌==◌, true, false, Option, none, some, List, [], ◌∷◌, arith,
  leb, has, refl, sym, subst, ap, ◌∙◌, Bool-cases, inl, inr, if◌then◌else◌, Distinct, dec_lt, ◌⊎◌,
}
use tiny_os.Kernel.{alive, Pcb, Kernel}
use tiny_os.Proc.{
  acquire_at, acquire_pcb, set_parent, set_task, start_thread, exec_at, sys_exec, initialize_pcb,
  init_pcbs, link_pcbs, initialize_table,
}
use tiny_os.Proc.Table.{is_free, below}
use tiny_os.Proc.Tree.{Forest}

pub record Blank (pcb : Pcb) : Type 0 where
  pub children : pcb.children_list ≡ []
  pub exited : pcb.exited_list ≡ []
  pub fidt : (i : ℕ) → pcb.fidt i ≡ none

init_pcbs-Blank :
    (n p : ℕ) (k : Kernel) (q : ℕ)
    → (q < p → Blank (k.pt q))
    → (p + n ≤ q → Blank (k.pt q))
    → Blank ((init_pcbs n p k).pt q)
unfolding init_pcbs initialize_pcb
init_pcbs-Blank zero p k q low high = elim (dec_lt q p) [
  | yes lt ↦ low lt
  | no ge ↦ high (omega (arith, ge))
]
init_pcbs-Blank (suc n) p k q low high =
    init_pcbs-Blank n (p + 1) _ q
      (λ lt. elim (Bool-cases (p == q)) [
        | inl same ↦ record {
          children = ground (arith, same);
          exited = ground (arith, same);
          fidt = λ i. ground (arith, same);
        }
        | inr other ↦
            let b = low (ground (arith, lt, other)) in
            record {
              children = ground (arith, other, b.children);
              exited = ground (arith, other, b.exited);
              fidt = λ i. ground (arith, other, b.fidt i);
            }
      ])
      (λ ge.
        let b = high (omega (arith, ge)) in
        record {
          children = ground (arith, ge, b.children);
          exited = ground (arith, ge, b.exited);
          fidt = λ i. ground (arith, ge, b.fidt i);
        })

link_pcbs-Blank : (n : ℕ) (k : Kernel) (q : ℕ) → Blank (k.pt q) → Blank ((link_pcbs n k).pt q)
unfolding link_pcbs
link_pcbs-Blank zero k q b = b
link_pcbs-Blank (suc p) k q b = link_pcbs-Blank p _ q (record {
  children = ground (arith, b.children);
  exited = ground (arith, b.exited);
  fidt = λ i. ground (arith, b.fidt i);
})

-- After the loops of initialize_processes, if the entries beyond the table are blank.
pub initialize_table-Blank :
    (n : ℕ) (k : Kernel)
    → ((q : ℕ) → n ≤ q → Blank (k.pt q))
    → (q : ℕ) → Blank ((initialize_table n k).pt q)
unfolding initialize_table
initialize_table-Blank n k beyond q = link_pcbs-Blank n _ q (
    init_pcbs-Blank n 0 k q (λ lt. absurd (omega (arith, lt))) (λ ge. beyond q (omega (arith, ge))))

-- Exec of process 0 or 1: it has no parent.
pub record Rooted (p : ℕ) (k k' : Kernel) : Type 0 where
  pub pstate : (q : ℕ) → (k'.pt q).pstate ≡ (if p == q then alive else (k.pt q).pstate)
  pub parent : (q : ℕ) → (k'.pt q).parent ≡ (if p == q then none else (k.pt q).parent)
  pub blank : (q : ℕ) → Blank (k.pt q) → Blank (k'.pt q)
  pub current : k'.curproc ≡ k.curproc

exec_rest-Rooted :
    (p : ℕ) (call : Option ℕ) (argl : ℕ) (args : Option (List ℕ)) (k : Kernel)
    → leb p 1 ≡ true
    → Rooted p k
        (start_thread p call (set_task p call argl args (set_parent p (acquire_at (some p) k).1)))
unfolding start_thread set_task set_parent acquire_at
exec_rest-Rooted p none argl args k first = rw first (record {
  pstate = λ q. ground arith;
  parent = λ q. ground arith;
  blank = λ q b. record {
    children = ground (arith, b.children);
    exited = ground (arith, b.exited);
    fidt = λ i. ground (arith, b.fidt i);
  };
  current = refl;
})
exec_rest-Rooted p (some call) argl args k first = rw first (record {
  pstate = λ q. ground arith;
  parent = λ q. ground arith;
  blank = λ q b. record {
    children = ground (arith, b.children);
    exited = ground (arith, b.exited);
    fidt = λ i. ground (arith, b.fidt i);
  };
  current = refl;
})

pub sys_exec-Rooted :
    (p : ℕ) (call : Option ℕ) (argl : ℕ) (args : Option (List ℕ)) (k : Kernel)
    → k.pcb_freelist ≡ some p
    → leb p 1 ≡ true
    → Rooted p k (sys_exec call argl args k).1
unfolding sys_exec acquire_pcb exec_at
sys_exec-Rooted p call argl args k e first =
    subst (λ o. Rooted p k (exec_at (acquire_at o k).0 call argl args (acquire_at o k).1).1) (sym e)
      (unfold acquire_at in exec_rest-Rooted p call argl args k first)

-- Without parents and children there is not much of a forest.
pub Blank-Forest :
    (pt : ℕ → Pcb)
    → ((q : ℕ) → Blank (pt q))
    → ((q : ℕ) → is_free (pt q).pstate ≡ false → (pt q).parent ≡ none)
    → Forest pt
Blank-Forest pt blank orphans = record {
  children = λ q. subst (λ l. Distinct l) (sym (blank q).children) tt;
  exited = λ q. subst (λ l. Distinct l) (sym (blank q).exited) tt;
  pairs = λ q c. record {
    child_of = λ h. absurd (ground (arith, h, ap (has c) (blank q).children));
    of_child = λ used mine. absurd (ground (arith, orphans c used, mine));
    exited_of = λ h. absurd (ground (arith, h, ap (has c) (blank q).exited));
    of_exited = λ dead mine. absurd (ground (arith, orphans c, dead, mine));
    parent_alive = λ used mine. absurd (ground (arith, orphans c used, mine));
  };
}

init_pcbs-current : (n p : ℕ) (k : Kernel) → (init_pcbs n p k).curproc ≡ k.curproc
unfolding init_pcbs
init_pcbs-current zero p k = refl
init_pcbs-current (suc n) p k = init_pcbs-current n (p + 1) _

link_pcbs-current : (n : ℕ) (k : Kernel) → (link_pcbs n k).curproc ≡ k.curproc
unfolding link_pcbs
link_pcbs-current zero k = refl
link_pcbs-current (suc p) k = link_pcbs-current p _

pub initialize_table-current : (n : ℕ) (k : Kernel) → (initialize_table n k).curproc ≡ k.curproc
unfolding initialize_table
initialize_table-current n k = link_pcbs-current n _ ∙ init_pcbs-current n 0 k

pub has-below :
    (n : ℕ) (fl : List ℕ) (q : ℕ) → (q < n) ⊎ (has q fl ≡ true) → has q (below n fl) ≡ true
unfolding below
has-below zero fl q (inl lt) = absurd (omega (arith, lt))
has-below zero fl q (inr h) = h
has-below (suc p) fl q o = has-below p (p ∷ fl) q (elim (Bool-cases (q == p)) [
  | inl same ↦ inr (ground (arith, same))
  | inr other ↦ elim o [
    | inl lt ↦ inl (ground (arith, lt, other))
    | inr h ↦ inr (ground (arith, h))
  ]
])
