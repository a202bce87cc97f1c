-- ===== src/Proc/Reported.antt =====
-- Exit and WaitChild together (kernel_proc.c): the parent gets the exit value.
use tiny_os.Prelude.{
  ℕ, ◌<◌, ◌≡◌, true, none, some, arith, ℤ, pos, ap, ◌∙◌, ltb, lt→ltb, ==_refl, minus_one,
  if◌then◌else◌,
}
use tiny_os.Kernel.{max_proc, zombie, Kernel, cur}
use tiny_os.Proc.{
  returned, get_pcb, reap, reap_ended, cleanup_zombie, wait_specific_loop, is_child_of, check_child,
  wait_for_specific_child, sys_wait_child,
}
use tiny_os.Proc.Exit.{die, sys_exit}
use tiny_os.Proc.Tree.{Tree}
use tiny_os.Proc.Died.{sys_exit-Died, sys_exit-Left}

-- WaitChild of a child that has exited.
wait_zombie :
    (c : ℕ) (v : ℤ) (k : Kernel)
    → c < max_proc
    → (k.pt c).pstate ≡ zombie
    → (k.pt c).parent ≡ some k.curproc
    → (k.pt c).exitval ≡ v
    → sys_wait_child (pos c) k ≡ returned (pos c) (some v) (cleanup_zombie c k)
unfolding sys_wait_child wait_for_specific_child check_child get_pcb is_child_of wait_specific_loop
    reap_ended reap
wait_zombie c v k lt dead mine value =
    let legal : ltb c max_proc ≡ true = lt→ltb c max_proc lt in
    let used : get_pcb c k ≡ some c = ground (arith, dead) in
    ap (λ b. if b then check_child (get_pcb c k) k else returned minus_one none k) legal
    ∙ ap (λ o. check_child o k) used
    ∙ ap (λ o. is_child_of c o k) mine
    ∙ ap (λ b. if b then wait_specific_loop c k else returned minus_one none k) (==_refl k.curproc)
    ∙ ap (λ s. reap_ended s c k) dead
    ∙ ap (λ x. returned (pos c) (some x) (cleanup_zombie c k)) value

exit_value : (v : ℤ) (k : Kernel) → ((sys_exit v k).pt k.curproc).exitval ≡ v
unfolding die
exit_value v k =
    let (k1, l, e) = sys_exit-Left v k in
    ap (λ k'. (k'.pt k.curproc).exitval) e ∙ ground (arith, l.current)

-- In a well-formed tree, after Exit(v) of a process of the table with parent `p`, WaitChild of that process
-- by `p` returns its pid with the exit value v, and reaps it.
pub exit_then_wait :
    (v : ℤ) (p : ℕ) (k : Kernel)
    → Tree k
    → k.curproc < max_proc
    → (cur k).parent ≡ some p
    → let k' : Kernel = record (sys_exit v k) { curproc = p } in
      sys_wait_child (pos k.curproc) k'
      ≡ returned (pos k.curproc) (some v) (cleanup_zombie k.curproc k')
exit_then_wait v p k t lt mine =
    let d = sys_exit-Died v k in
    wait_zombie k.curproc v (record (sys_exit v k) { curproc = p }) lt
      (d.pstate k.curproc ∙ ground arith)
      (d.parent k.curproc (ground (arith, t.pairs k.curproc k.curproc)) ∙ mine) (exit_value v k)
