-- ===== src/Runs/Init.antt =====
-- Exit of process 1 in a run (kernel_proc.c): it waits for all its children, then exits as others do.
use tiny_os.Prelude.{
  ℕ, zero, suc, ◌≤◌, ◌≡◌, refl, some, Option, [], ℤ, pos, negsuc, minus_one, sym, subst,
  some-injective,
}
use tiny_os.Kernel.{max_proc, alive, Kernel, cur}
use tiny_os.Proc.{Waited, returned, waits, assertion_failed, sys_wait_child}
use tiny_os.Proc.Exit.{sys_exit}
use tiny_os.Proc.Drain.{Drained, drained, sleeps, failed, drain_round, drain}
use tiny_os.Proc.Wait.{Outcome, sys_wait_child-any}
use tiny_os.Proc.Answers.{Answers, sys_wait_child-Answers}
use tiny_os.Proc.Orphans.Childless.{childless-Forest}
use tiny_os.Runs.{State, with_kernel}
use tiny_os.Runs.Safe.{WellFormed, the-Tree}
use tiny_os.Runs.Processes.{exit-WellFormed, reap-WellFormed}

-- The loop leaves a well-formed kernel and the caller alive, without children if it has come to its end.
abbrev pub Kept : ℕ → State → Drained → Type 0
Kept n s (drained k) =
    WellFormed n (with_kernel k s) × ((cur k).pstate ≡ alive) × ((cur k).children_list ≡ [])
Kept n s (sleeps k) = WellFormed n (with_kernel k s) × ((cur k).pstate ≡ alive)
Kept n s (failed k) = Unit {0}

module _ {n : ℕ} (small : n ≤ max_proc) where
  round-Kept :
      (more : Kernel → Option Drained) {s : State} (w : WellFormed n s)
      (running : (cur s.k).pstate ≡ alive)
      (again : (k' : Kernel)
        → WellFormed n (with_kernel k' s)
        → (cur k').pstate ≡ alive
        → (r : Drained) → more k' ≡ some r
        → Kept n s r)
      (o : Waited)
      → sys_wait_child minus_one s.k ≡ o
      → (r : Drained) → drain_round more s.k o ≡ some r
      → Kept n s r
  unfolding drain_round
  round-Kept more {s} w running again (returned (pos c) status k') e r done =
      let (fl, t) = w.table in
      let out : Outcome n fl s.k (returned (pos c) status k') =
        subst (Outcome n fl s.k) e
          (sys_wait_child-any small (the-Tree small w running) t minus_one) in
      again k' (reap-WellFormed small w running minus_one c status k' e) out.2.running r done
  round-Kept more {s} w running again (returned (negsuc m) status k') e r done =
      let (fl, t) = w.table in
      let out : Outcome n fl s.k (returned (negsuc m) status k') =
        subst (Outcome n fl s.k) e
          (sys_wait_child-any small (the-Tree small w running) t minus_one) in
      let ans : Answers minus_one s.k (returned (negsuc m) status k') =
        subst (Answers minus_one s.k) e
          (sys_wait_child-Answers (the-Tree small w running) minus_one) in
      subst (Kept n s) (some-injective _ _ done) (
        subst
          (λ k.
            WellFormed n (with_kernel k s)
            × ((cur k).pstate ≡ alive)
            × ((cur k).children_list ≡ []))
          (sym out.1) (w, running, ans.1))
  round-Kept more {s} w running again waits e r done =
      subst (Kept n s) (some-injective _ _ done) (w, running)
  round-Kept more {s} w running again assertion_failed e r done =
      subst (Kept n s) (some-injective _ _ done) tt

  pub drain-Kept :
      (fuel : ℕ) {s : State} (w : WellFormed n s) (running : (cur s.k).pstate ≡ alive) (r : Drained)
      → drain fuel s.k ≡ some r
      → Kept n s r
  unfolding drain
  drain-Kept zero w running r done = absurd (cc)
  drain-Kept (suc fuel) {s} w running r done =
      round-Kept (drain fuel) w running
        (λ k' w' running' r' done'. drain-Kept fuel {s = with_kernel k' s} w' running' r' done')
        (sys_wait_child minus_one s.k) refl r done

  pub init_exits-WellFormed :
      (s : State) {k' : Kernel} (w : WellFormed n (with_kernel k' s))
      (running : (cur k').pstate ≡ alive) (exitval : ℤ)
      → (cur k').children_list ≡ []
      → WellFormed n (with_kernel (sys_exit exitval k') s)
  init_exits-WellFormed s {k'} w running exitval none_left =
      exit-WellFormed small {s = with_kernel k' s} w running exitval
        (childless-Forest exitval (the-Tree small w running) none_left)
