-- ===== src/Proc/Orphans/Final.antt =====
-- The table that sys_Exit of kernel_proc.c leaves.
use tiny_os.Prelude.{
  ℕ, ◌≡◌, false, none, some, List, [], ◌∷◌, ◌++◌, arith, ◌==◌, ◌||◌, ◌&&◌, has, Distinct,
  Bool-cases, inl, inr, has-append, if◌then◌else◌, reverse_aux, has-reverse_aux,
  Distinct-reverse_aux, Distinct-append, Option-cases,
}
use tiny_os.Kernel.{alive, zombie, Kernel, Pcb, cur}
use tiny_os.Streams.Counts.{points}
use tiny_os.Proc.Tree.{Forest, Pair, Tree}

-- The fields of the table after Exit of process `c0`, when `X` are the exited lists before the
-- caller is put on one.
pub record Ended (c0 : ℕ) (pt pt' : ℕ → Pcb) (X : ℕ → List ℕ) : Type 0 where
  pub pstate : (q : ℕ) → (pt' q).pstate ≡ (if q == c0 then zombie else (pt q).pstate)
  pub parent :
      (q : ℕ) → (pt' q).parent ≡ (if has q (pt c0).children_list then some 1 else (pt q).parent)
  pub children_own : (pt' c0).children_list ≡ []
  pub children_init : (pt' 1).children_list ≡ reverse_aux (pt c0).children_list (pt 1).children_list
  pub children_others :
      (q : ℕ) → (q == c0) ≡ false → (q == 1) ≡ false → (pt' q).children_list ≡ (pt q).children_list
  pub exited_own : X c0 ≡ []
  pub exited_init : X 1 ≡ (pt 1).exited_list ++ (pt c0).exited_list
  pub exited_others : (q : ℕ) → (q == c0) ≡ false → (q == 1) ≡ false → X q ≡ (pt q).exited_list
  pub exited_none : (pt c0).parent ≡ none → (q : ℕ) → (pt' q).exited_list ≡ X q
  pub exited_some :
      (p : ℕ)
      → (pt c0).parent ≡ some p
      → (q : ℕ) → (pt' q).exited_list ≡ (if p == q then c0 ∷ X q else X q)

module _ {k : Kernel} {pt' : ℕ → Pcb} {X : ℕ → List ℕ} (t : Tree k) (ne : (k.curproc == 1) ≡ false)
    (init : (k.pt 1).pstate ≡ alive) (e : Ended k.curproc k.pt pt' X) where
  children_of :
      (q c : ℕ)
      → has c (pt' q).children_list ≡ (
          if q == 1
          then has c (cur k).children_list || has c (k.pt 1).children_list
          else if q == k.curproc
          then false
          else has c (k.pt q).children_list)
  children_of q c = elim (Bool-cases (q == 1)) [
    | inl first ↦
        let e1 : q ≡ 1 = ground arith in
        rw (e1, e.children_init) (has-reverse_aux c (cur k).children_list (k.pt 1).children_list)
    | inr later ↦ elim (Bool-cases (q == k.curproc)) [
      | inl own ↦ let e1 : q ≡ k.curproc = ground arith in rw (later, own) (rw (e1, e.children_own))
      | inr other ↦ rw (later, other, e.children_others q other later)
    ]
  ]

  exited_before :
      (q c : ℕ)
      → has c (X q) ≡ (
          if q == 1
          then has c (k.pt 1).exited_list || has c (cur k).exited_list
          else if q == k.curproc
          then false
          else has c (k.pt q).exited_list)
  exited_before q c = elim (Bool-cases (q == 1)) [
    | inl first ↦
        let e1 : q ≡ 1 = ground arith in
        rw (e1, e.exited_init) (has-append c (k.pt 1).exited_list (cur k).exited_list)
    | inr later ↦ elim (Bool-cases (q == k.curproc)) [
      | inl own ↦ let e1 : q ≡ k.curproc = ground arith in rw (later, own) (rw (e1, e.exited_own))
      | inr other ↦ rw (later, other, e.exited_others q other later)
    ]
  ]

  Ended-children : (q : ℕ) → Distinct (pt' q).children_list
  Ended-children q = elim (Bool-cases (q == 1)) [
    | inl first ↦
        let e1 : q ≡ 1 = ground arith in
        rw (e1, e.children_init)
          (Distinct-reverse_aux (cur k).children_list (k.pt 1).children_list (t.children k.curproc)
            (t.children 1) (λ a h. ground (arith, t.pairs k.curproc a, t.pairs 1 a)))
    | inr later ↦ elim (Bool-cases (q == k.curproc)) [
      | inl own ↦ let e1 : q ≡ k.curproc = ground arith in rw (e1, e.children_own) tt
      | inr other ↦ rw (e.children_others q other later) (t.children q)
    ]
  ]

  before-Distinct : (q : ℕ) → Distinct (X q)
  before-Distinct q = elim (Bool-cases (q == 1)) [
    | inl first ↦
        let e1 : q ≡ 1 = ground arith in
        rw (e1, e.exited_init)
          (Distinct-append (k.pt 1).exited_list (cur k).exited_list (t.exited 1)
            (t.exited k.curproc) (λ a h. ground (arith, t.pairs k.curproc a, t.pairs 1 a)))
    | inr later ↦ elim (Bool-cases (q == k.curproc)) [
      | inl own ↦ let e1 : q ≡ k.curproc = ground arith in rw (e1, e.exited_own) tt
      | inr other ↦ rw (e.exited_others q other later) (t.exited q)
    ]
  ]

  -- The caller is on no exited list yet.
  caller_not_exited : (q : ℕ) → has k.curproc (X q) ≡ false
  caller_not_exited q = ground (
    arith,
    exited_before q k.curproc,
    t.pairs q k.curproc,
    t.pairs 1 k.curproc,
    t.pairs k.curproc k.curproc,
    t.running,
  )

  Ended-exited : (q : ℕ) → Distinct (pt' q).exited_list
  Ended-exited q = elim (Option-cases (cur k).parent) [
    | inl orphan ↦ rw (e.exited_none orphan q) (before-Distinct q)
    | inr (p, child) ↦ elim (Bool-cases (p == q)) [
      | inl parent ↦
          rw (e.exited_some p child q) (rw parent (caller_not_exited q, before-Distinct q))
      | inr other ↦ rw (e.exited_some p child q) (rw other (before-Distinct q))
    ]
  ]

  exited_after :
      (q c : ℕ)
      → has c (pt' q).exited_list
        ≡ ((points (cur k).parent q == 1) && (c == k.curproc) || has c (X q))
  exited_after q c = elim (Option-cases (cur k).parent) [
    | inl orphan ↦ ground (arith, e.exited_none orphan q)
    | inr (p, child) ↦ ground (arith, e.exited_some p child q)
  ]

  Ended-Pair : (q c : ℕ) → Pair pt' q c
  Ended-Pair q c = record {
    child_of = ground (
      arith,
      children_of q c,
      e.parent c,
      e.pstate c,
      t.pairs q c,
      t.pairs 1 c,
      t.pairs k.curproc c,
    );
    of_child = ground (
      arith,
      children_of q c,
      e.parent c,
      e.pstate c,
      t.pairs q c,
      t.pairs 1 c,
      t.pairs k.curproc c,
    );
    exited_of = ground (
      arith,
      exited_after q c,
      exited_before q c,
      e.parent c,
      e.pstate c,
      t.pairs q c,
      t.pairs 1 c,
      t.pairs k.curproc c,
      t.running,
    );
    of_exited = ground (
      arith,
      exited_after q c,
      exited_before q c,
      e.parent c,
      e.pstate c,
      t.pairs q c,
      t.pairs 1 c,
      t.pairs k.curproc c,
      t.running,
    );
    parent_alive = ground (
      arith,
      e.pstate q,
      e.parent c,
      e.pstate c,
      t.pairs q c,
      t.pairs k.curproc c,
      init,
      t.running,
    );
  }

  pub Ended-Forest : Forest pt'
  Ended-Forest = record { children = Ended-children; exited = Ended-exited; pairs = Ended-Pair }
