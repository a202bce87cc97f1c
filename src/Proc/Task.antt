-- ===== src/Proc/Task.antt =====
-- What Exec gives the new process to run (kernel_proc.c).
use tiny_os.Prelude.{refl, Option, none, ◌≤◌, pos, ap, ◌∙◌, ℕ, ◌≡◌, some, List, arith, subst, sym}
use tiny_os.Kernel.{Kernel}
use tiny_os.Proc.{
  get_pid, acquire_at, acquire_pcb, exec_at, start_thread, set_task, set_parent, copy_args,
  sys_exec,
}

-- Process `p` has this task and arguments.
pub record HasTask (k : Kernel) (p call size : ℕ) (bytes : Option (List ℕ)) : Type 0 where
  pub main_task : (k.pt p).main_task ≡ some call
  pub argl : (k.pt p).argl ≡ size
  pub args : (k.pt p).args ≡ bytes

exec_at-HasTask :
    (p call argl : ℕ) (args : Option (List ℕ)) (k : Kernel)
    → HasTask (exec_at (some p) (some call) argl args k).1 p call argl (copy_args argl args)
unfolding exec_at start_thread set_task copy_args
exec_at-HasTask p call argl args k = record {
  main_task = ground arith;
  argl = ground arith;
  args = ground arith;
}

-- Exec gives the process that acquire_PCB finds its task and a copy of its arguments.
pub sys_exec-HasTask :
    (p call argl : ℕ) (args : Option (List ℕ)) (k : Kernel)
    → (acquire_pcb k).0 ≡ some p
    → HasTask (sys_exec (some call) argl args k).1 p call argl (copy_args argl args)
unfolding sys_exec
sys_exec-HasTask p call argl args k found =
    subst
      (λ r.
        HasTask (exec_at r (some call) argl args (acquire_pcb k).1).1 p call argl
          (copy_args argl args))
      (sym found) (exec_at-HasTask p call argl args (acquire_pcb k).1)

-- Processes 0 and 1 have no parent, and Exec leaves the rest of the table alone.
exec_at-first :
    (p argl : ℕ) (call : Option ℕ) (args : Option (List ℕ)) (k : Kernel)
    → p ≤ 1
    → ((exec_at (some p) call argl args k).0 ≡ pos p)
      × ((exec_at (some p) call argl args k).1.pcb_freelist ≡ k.pcb_freelist)
unfolding exec_at get_pid start_thread set_task set_parent
exec_at-first p argl none args k small = (refl, ground arith)
exec_at-first p argl (some call) args k small = (refl, ground arith)

acquired-first :
    (o : Option ℕ) (p argl : ℕ) (call : Option ℕ) (args : Option (List ℕ)) (k : Kernel)
    → o ≡ some p
    → p ≤ 1
    → let (r, k1) = acquire_at o k in
      ((exec_at r call argl args k1).0 ≡ pos p)
      × ((exec_at r call argl args k1).1.pcb_freelist ≡ (k.pt p).parent)
unfolding acquire_at
acquired-first none p argl call args k found small = absurd (cc)
acquired-first (some q) p argl call args k found small =
    let k1 = (acquire_at (some q) k).1 in
    let e : q ≡ p = cc in
    let (same, rest) = exec_at-first q argl call args k1 (ground (arith, e)) in
    (same ∙ ap pos e, rest ∙ ap (λ u. (k.pt u).parent) e)

pub acquire_pcb-first : (k : Kernel) (p : ℕ) → k.pcb_freelist ≡ some p → (acquire_pcb k).0 ≡ some p
unfolding acquire_pcb acquire_at
acquire_pcb-first k p e = ap (λ o. (acquire_at o k).0) e

-- The pid that Exec returns for process 0 or 1, and the free list that it leaves.
pub sys_exec-first :
    (p argl : ℕ) (call : Option ℕ) (args : Option (List ℕ)) (k : Kernel)
    → k.pcb_freelist ≡ some p
    → p ≤ 1
    → ((sys_exec call argl args k).0 ≡ pos p)
      × ((sys_exec call argl args k).1.pcb_freelist ≡ (k.pt p).parent)
unfolding sys_exec acquire_pcb
sys_exec-first p argl call args k found small =
    acquired-first k.pcb_freelist p argl call args k found small
