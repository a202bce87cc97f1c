-- ===== src/Proc/Wait.antt =====
-- The outcomes of sys_WaitChild (kernel_proc.c).
use tiny_os.Prelude.{
  ℕ, zero, suc, ◌≤◌, ◌<◌, ◌≡◌, refl, true, false, Option, none, some, List, [], ◌∷◌, arith, ◌==◌,
  has, Bool-cases, ap, sym, ◌∙◌, inl, inr, ℤ, pos, negsuc, ltb, dec_lt, false≢true, ==_refl,
}
use tiny_os.Kernel.{max_proc, PidState, free, alive, zombie, Kernel, cur}
use tiny_os.Proc.{
  Waited, returned, waits, assertion_failed, get_pcb, reap, reap_ended, reap_zombie, cleanup_zombie,
  unlink_child, wait_specific_loop, is_child_of, check_child, wait_for_specific_child, take_exited,
  wait_any_loop, check_children, wait_for_any_child, sys_wait_child,
}
use tiny_os.Proc.Table.{is_free, Chain-same, Table, release_pcb-Table}
use tiny_os.Proc.Tree.{Tree, cleanup_zombie-Tree}

-- `c` is a child of the running process that has exited.
pub record Exited (k : Kernel) (c : ℕ) : Type 0 where
  pub dead : (k.pt c).pstate ≡ zombie
  pub mine : (k.pt c).parent ≡ some k.curproc

-- The outcomes of WaitChild with free list `fl`: a reaped child, whose exit value is returned and
-- whose entry is free again; NOPROC with nothing changed; or a sleep, while a child lives.
abbrev pub Outcome : ℕ → List ℕ → Kernel → Waited → Type 0
Outcome n fl k (returned (pos c) status k') =
    Exited k c
    × (status ≡ some (k.pt c).exitval)
    × Tree k'
    × Table n (c ∷ fl) k'
    × (k' ≡ cleanup_zombie c k)
Outcome n fl k (returned (negsuc m) status k') = (status ≡ none) × (k' ≡ k)
Outcome n fl k waits = (c : ℕ) × ((k.pt c).pstate ≡ alive) × ((k.pt c).parent ≡ some k.curproc)
Outcome n fl k assertion_failed = ⊥

pub get_pcb-free : (c : ℕ) (k : Kernel) → (k.pt c).pstate ≡ free → get_pcb c k ≡ none
unfolding get_pcb
get_pcb-free c k e = ground arith

pub get_pcb-used : (c : ℕ) (k : Kernel) → is_free (k.pt c).pstate ≡ false → get_pcb c k ≡ some c
unfolding get_pcb
get_pcb-used c k e = ground arith

module _ {n : ℕ} {fl : List ℕ} {k : Kernel} (small : n ≤ max_proc) (t : Tree k)
    (table : Table n fl k) where
  unlinked-Table : (c : ℕ) → Table n fl (unlink_child c k)
  unfolding unlink_child
  unlinked-Table c = record {
    chain =
        Chain-same k.pt (unlink_child c k).pt k.pcb_freelist fl (λ q h. ground arith) table.chain;
    distinct = table.distinct;
    states = λ q lt. ground (arith, table.states q lt);
    outside = λ q ge. ground (arith, table.outside q ge);
    within = table.within;
    total = table.total;
  }

  cleaned-Table : (c : ℕ) → Exited k c → Table n (c ∷ fl) (cleanup_zombie c k)
  cleaned-Table c x =
      unfold cleanup_zombie in
      release_pcb-Table c fl small (unlinked-Table c) below
        (ground (arith, table.states c below, x.dead))
    where
      below : c < n
      below = elim (dec_lt c n) [
        | yes lt ↦ lt
        | no ge ↦ absurd (ground (arith, table.outside c (omega arith), x.dead))
      ]

  reap-Outcome : (c : ℕ) → Exited k c → Outcome n fl k (reap c k)
  unfolding reap
  reap-Outcome c x = (x, refl, cleanup_zombie-Tree t c x.dead x.mine, cleaned-Table c x, refl)

  reap_ended-Outcome :
      (s : PidState) (c : ℕ)
      → (k.pt c).pstate ≡ s
      → is_free s ≡ false
      → (k.pt c).parent ≡ some k.curproc
      → Outcome n fl k (reap_ended s c k)
  unfolding reap_ended
  reap_ended-Outcome free c e used mine = absurd (false≢true (sym used))
  reap_ended-Outcome alive c e used mine = (c, e, mine)
  reap_ended-Outcome zombie c e used mine = reap-Outcome c (record { dead = e; mine = mine })

  is_child_of-Outcome :
      (o : Option ℕ) (c : ℕ)
      → (k.pt c).parent ≡ o
      → is_free (k.pt c).pstate ≡ false
      → Outcome n fl k (is_child_of c o k)
  unfolding is_child_of wait_specific_loop
  is_child_of-Outcome none c e used = (refl, refl)
  is_child_of-Outcome (some q) c e used = elim (Bool-cases (q == k.curproc)) [
    | inl mine ↦
        rw mine (reap_ended-Outcome (k.pt c).pstate c refl used (e ∙ ap some (ground arith)))
    | inr other ↦ rw other (refl, refl)
  ]

  check_child-Outcome :
      (c : ℕ) (s : PidState) → (k.pt c).pstate ≡ s → Outcome n fl k (check_child (get_pcb c k) k)
  unfolding check_child
  check_child-Outcome c free e = rw (get_pcb-free c k e, check_child) (refl, refl)
  check_child-Outcome c alive e =
      rw (get_pcb-used c k (ground arith), check_child)
        (is_child_of-Outcome (k.pt c).parent c refl (ground arith))
  check_child-Outcome c zombie e =
      rw (get_pcb-used c k (ground arith), check_child)
        (is_child_of-Outcome (k.pt c).parent c refl (ground arith))

  -- With a child the loop does not sleep for ever: some child lives.
  take_exited-Outcome :
      (xs : List ℕ) (c : ℕ)
      → (cur k).exited_list ≡ xs
      → has c (cur k).children_list ≡ true
      → Outcome n fl k (take_exited xs k)
  unfolding take_exited
  take_exited-Outcome [] c e child =
      (c, ground (arith, t.pairs k.curproc c, ap (has c) e), ground (arith, t.pairs k.curproc c))
  take_exited-Outcome (x ∷ xs) c e child =
      let p = (t.pairs k.curproc x).exited_of (rw e (rw (==_refl x))) in
      rw (p.0, reap_zombie) (reap-Outcome x (record { dead = p.0; mine = p.1 }))

  -- The loop of wait_for_any_child, run by a process that has a child.
  pub wait_any_loop-Outcome :
      (c : ℕ) → has c (cur k).children_list ≡ true → Outcome n fl k (wait_any_loop k)
  unfolding wait_any_loop
  wait_any_loop-Outcome c child = take_exited-Outcome (cur k).exited_list c refl child

  check_children-Outcome :
      (xs : List ℕ) → (cur k).children_list ≡ xs → Outcome n fl k (check_children xs k)
  check_children-Outcome [] e = unfold check_children in (refl, refl)
  check_children-Outcome (c ∷ xs) e =
      unfold check_children in wait_any_loop-Outcome c (rw e (rw (==_refl c)))

  -- What each call of WaitChild comes to, without which one it is.
  pub sys_wait_child-any : (cpid : ℤ) → Outcome n fl k (sys_wait_child cpid k)
  unfolding sys_wait_child wait_for_any_child wait_for_specific_child
  sys_wait_child-any (negsuc zero) = check_children-Outcome (cur k).children_list refl
  sys_wait_child-any (negsuc (suc m)) = (refl, refl)
  sys_wait_child-any (pos c) = elim (Bool-cases (ltb c max_proc)) [
    | inl legal ↦ rw legal (check_child-Outcome c (k.pt c).pstate refl)
    | inr illegal ↦ rw illegal (refl, refl)
  ]
