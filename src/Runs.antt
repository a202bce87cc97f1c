-- ===== src/Runs.antt =====
-- What processes do in the kernel, one system call at a time (kernel_proc.c, kernel_streams.c). A call
-- runs with the kernel locked from its start to its end or to a sleep, so it is a step; Read and Write
-- are two, the part before the driver's method and the part after it, and others may take steps between
-- them. A call that changes nothing is no step.
pub mod Processes
pub mod Safe
pub mod Init
pub mod Reach
use tiny_os.Prelude.{
  ℕ, suc, ◌<◌, ◌≡◌, ◌==◌, Bool, true, false, Option, none, some, List, [], ◌∷◌, ℤ, pos, length, has,
  erase, ◌⊎◌,
}
use tiny_os.Kernel.{max_proc, PidState, free, alive, zombie, DeviceType, Kernel, cur}
use tiny_os.Streams.{io_begin, io_end, open_stream, sys_close, sys_dup2}
use tiny_os.Proc.{sys_exec, sys_wait_child, returned}
use tiny_os.Proc.Exit.{sys_exit}
use tiny_os.Proc.Drain.{drain, drained, sleeps}

-- `held` are the blocks that the calls of Read and Write in progress refer to.
pub record State : Type 0 where
  pub k : Kernel
  pub held : List ℕ

abbrev pub with_kernel : Kernel → State → State
with_kernel k' s = record s { k = k' }

pub data Step (s : State) : State → Type 0 where
  -- Another process gets the kernel; it is one that lives.
  switches :
      (p : ℕ) → (s.k.pt p).pstate ≡ alive → Step s (with_kernel (record s.k { curproc = p }) s)
  execs :
      (call : Option ℕ) (argl : ℕ) (args : Option (List ℕ))
      → (cur s.k).pstate ≡ alive
      → Step s (with_kernel (sys_exec call argl args s.k).1 s)
  -- Exit of a process other than 1, while process 1 lives or by a process without children.
  exits :
      (exitval : ℤ)
      → (cur s.k).pstate ≡ alive
      → (s.k.curproc == 1) ≡ false
      → ((s.k.pt 1).pstate ≡ alive) ⊎ ((cur s.k).children_list ≡ [])
      → Step s (with_kernel (sys_exit exitval s.k) s)
  -- Exit of process 1, whose loop over WaitChild comes to a sleep; at a wake-up it is called again.
  init_waits :
      (fuel : ℕ) (k' : Kernel)
      → (cur s.k).pstate ≡ alive
      → (s.k.curproc == 1) ≡ true
      → drain fuel s.k ≡ some (sleeps k')
      → Step s (with_kernel k' s)
  -- Exit of process 1, whose loop over WaitChild comes to its end.
  init_exits :
      (fuel : ℕ) (exitval : ℤ) (k' : Kernel)
      → (cur s.k).pstate ≡ alive
      → (s.k.curproc == 1) ≡ true
      → drain fuel s.k ≡ some (drained k')
      → Step s (with_kernel (sys_exit exitval k') s)
  -- WaitChild that reaps the process `c`.
  reaps :
      (cpid : ℤ) (c : ℕ) (status : Option ℤ) (k' : Kernel)
      → (cur s.k).pstate ≡ alive
      → sys_wait_child cpid s.k ≡ returned (pos c) status k'
      → Step s (with_kernel k' s)
  opens :
      (major : DeviceType) (minor : ℕ)
      → (cur s.k).pstate ≡ alive
      → Step s (with_kernel (open_stream major minor s.k).1 s)
  closes : (fd : ℤ) → (cur s.k).pstate ≡ alive → Step s (with_kernel (sys_close fd s.k).1 s)
  dups :
      (oldfd newfd : ℤ)
      → (cur s.k).pstate ≡ alive
      → Step s (with_kernel (sys_dup2 oldfd newfd s.k).1 s)
  -- A process has at most one call in progress.
  begins :
      (fd : ℤ) (f : ℕ)
      → (cur s.k).pstate ≡ alive
      → (io_begin fd s.k).0 ≡ some f
      → suc (length s.held) < max_proc
      → Step s (record { k = (io_begin fd s.k).1; held = f ∷ s.held })
  ends : (f : ℕ) → has f s.held ≡ true → Step s (record { k = io_end f s.k; held = erase f s.held })

pub data Reaches (s : State) : State → Type 0 where
  here : Reaches s s
  after : {s' s'' : State} → Reaches s s' → Step s' s'' → Reaches s s''
