-- ===== src/Proc/Answers.antt =====
-- Which child WaitChild answers for, and when it answers NOPROC (kernel_proc.c).
use tiny_os.Prelude.{
  ℕ, zero, suc, ◌≤◌, ◌≡◌, refl, ◌≢◌, false, Option, none, some, List, [], ◌∷◌, arith, ◌==◌,
  Bool-cases, ap, sym, ◌∙◌, ◌⊎◌, inl, inr, ℤ, pos, negsuc, ltb, false≢true, ==_refl, some-injective,
}
use tiny_os.Kernel.{max_proc, PidState, free, alive, zombie, Kernel, cur}
use tiny_os.Proc.{
  Waited, returned, waits, assertion_failed, get_pcb, reap, reap_ended, reap_zombie,
  wait_specific_loop, is_child_of, check_child, wait_for_specific_child, take_exited, wait_any_loop,
  check_children, wait_for_any_child, sys_wait_child,
}
use tiny_os.Proc.Table.{is_free, Table}
use tiny_os.Proc.Tree.{Tree}
use tiny_os.Proc.Wait.{Outcome, get_pcb-free, get_pcb-used, sys_wait_child-any}

-- `c` is not a process that the caller may wait for: it is no legal pid, it is free, or it is not the
-- caller's child.
abbrev pub NoChild : ℕ → Kernel → Type 0
NoChild c k =
    (ltb c max_proc ≡ false) ⊎ (((k.pt c).pstate ≡ free) ⊎ ((k.pt c).parent ≢ some k.curproc))

-- What WaitChild of the child `c` answers: that child's pid; NOPROC if there is no such child; and it
-- sleeps while that child lives.
abbrev pub AnswersOne : ℕ → Kernel → Waited → Type 0
AnswersOne c k (returned (pos p) status k') = p ≡ c
AnswersOne c k (returned (negsuc m) status k') = (m ≡ 0) × NoChild c k
AnswersOne c k waits = ((k.pt c).pstate ≡ alive) × ((k.pt c).parent ≡ some k.curproc)
AnswersOne c k assertion_failed = ⊥

-- What WaitChild of any child answers: the first of the exited children; NOPROC if there is no child;
-- and it sleeps if there are children and none has exited.
abbrev pub AnswersAny : Kernel → Waited → Type 0
AnswersAny k (returned (pos p) status k') = (rest : List ℕ) × ((cur k).exited_list ≡ p ∷ rest)
AnswersAny k (returned (negsuc m) status k') = (m ≡ 0) × ((cur k).children_list ≡ [])
AnswersAny k waits = ((cur k).children_list ≢ []) × ((cur k).exited_list ≡ [])
AnswersAny k assertion_failed = ⊥

-- Other negative pids are illegal.
abbrev pub Answers : ℤ → Kernel → Waited → Type 0
Answers (pos c) k w = AnswersOne c k w
Answers (negsuc zero) k w = AnswersAny k w
Answers (negsuc (suc m)) k w = w ≡ returned (negsuc zero) none k

module _ {k : Kernel} (t : Tree k) where
  reap_ended-Answers :
      (s : PidState) (c : ℕ)
      → (k.pt c).pstate ≡ s
      → is_free s ≡ false
      → (k.pt c).parent ≡ some k.curproc
      → AnswersOne c k (reap_ended s c k)
  unfolding reap_ended reap
  reap_ended-Answers free c e used mine = absurd (false≢true (sym used))
  reap_ended-Answers alive c e used mine = (e, mine)
  reap_ended-Answers zombie c e used mine = refl

  is_child_of-Answers :
      (o : Option ℕ) (c : ℕ)
      → (k.pt c).parent ≡ o
      → is_free (k.pt c).pstate ≡ false
      → AnswersOne c k (is_child_of c o k)
  unfolding is_child_of wait_specific_loop
  is_child_of-Answers none c e used = (refl, inr (inr (λ mine. absurd (ground (arith, e, mine)))))
  is_child_of-Answers (some q) c e used = elim (Bool-cases (q == k.curproc)) [
    | inl mine ↦
        rw mine (reap_ended-Answers (k.pt c).pstate c refl used (e ∙ ap some (ground arith)))
    | inr other ↦ rw other (
      refl,
      inr (
          inr (λ mine.
            let same : q ≡ k.curproc = some-injective _ _ (sym e ∙ mine) in
            absurd (ground (arith, same, other)))),
    )
  ]

  check_child-Answers :
      (c : ℕ) (s : PidState) → (k.pt c).pstate ≡ s → AnswersOne c k (check_child (get_pcb c k) k)
  unfolding check_child
  check_child-Answers c free e = rw (get_pcb-free c k e, check_child) (refl, inr (inl e))
  check_child-Answers c alive e =
      rw (get_pcb-used c k (ground arith), check_child)
        (is_child_of-Answers (k.pt c).parent c refl (ground arith))
  check_child-Answers c zombie e =
      rw (get_pcb-used c k (ground arith), check_child)
        (is_child_of-Answers (k.pt c).parent c refl (ground arith))

  check_children-Answers :
      (cs xs : List ℕ)
      → (cur k).children_list ≡ cs
      → (cur k).exited_list ≡ xs
      → AnswersAny k (check_children cs k)
  unfolding check_children wait_any_loop
  check_children-Answers [] xs e e' = (refl, e)
  check_children-Answers (c ∷ cs) [] e e' =
      rw (e', take_exited) ((λ none_left. absurd (ground (arith, e, none_left))), e')
  check_children-Answers (c ∷ cs) (x ∷ xs) e e' =
      let p = (t.pairs k.curproc x).exited_of (rw e' (rw (==_refl x))) in
      rw (e', take_exited) (rw (p.0, reap_zombie) (unfold reap in (xs, e')))

  pub sys_wait_child-Answers : (cpid : ℤ) → Answers cpid k (sys_wait_child cpid k)
  unfolding sys_wait_child wait_for_any_child wait_for_specific_child
  sys_wait_child-Answers (negsuc zero) =
      check_children-Answers (cur k).children_list (cur k).exited_list refl refl
  sys_wait_child-Answers (negsuc (suc m)) = refl
  sys_wait_child-Answers (pos c) = elim (Bool-cases (ltb c max_proc)) [
    | inl legal ↦ rw legal (check_child-Answers c (k.pt c).pstate refl)
    | inr illegal ↦ rw illegal (refl, inl illegal)
  ]

-- In a well-formed table and tree, WaitChild returns an exited child of the caller with its exit
-- value, whose entry is then free, and keeps table and tree; or it returns NOPROC and changes
-- nothing; or it sleeps; it never fails its assertion. For a pid that is not negative, the child is
-- that one, it returns NOPROC only if that is not a legal pid, is free or is not the caller's child,
-- and it sleeps only while that child lives. For NOPROC, the child is the first of the exited ones, it
-- returns NOPROC only if the caller has no child, and it sleeps only if no child has exited. For other
-- negative pids it returns NOPROC.
pub sys_wait_child-Outcome :
    {n : ℕ} {fl : List ℕ} {k : Kernel}
    → n ≤ max_proc
    → Tree k
    → Table n fl k
    → (cpid : ℤ) → Outcome n fl k (sys_wait_child cpid k) × Answers cpid k (sys_wait_child cpid k)
sys_wait_child-Outcome small t table cpid =
    (sys_wait_child-any small t table cpid, sys_wait_child-Answers t cpid)
