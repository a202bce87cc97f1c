-- ===== src/Boot.antt =====
-- kernel_init.c, and the end of initialize_processes of kernel_proc.c: what core 0 does before it enters
-- the scheduler. initialize_scheduler is not in it, since the tables of the scheduler are not in the
-- state; a call of FATAL is `none`.
pub mod Sequence
pub mod Start
use tiny_os.Prelude.{
  ℕ, zero, suc, Bool, true, false, ◌==◌, Option, none, some, List, ℤ, pos, negsuc, if◌then◌else◌,
}
use tiny_os.Kernel.{Kernel}
use tiny_os.Proc.{initialize_table, sys_exec}
use tiny_os.Streams.{initialize_files}
use tiny_os.Devices.{initialize_devices}

-- `if(Exec(...) != p) FATAL(...)`
unfoldable pub expect_pid : ℕ → ℤ × Kernel → Option Kernel
expect_pid p (pos q, k) = if p == q then some k else none
expect_pid p (negsuc q, k) = none

-- On a table of `procs` entries; process 0 has no task.
unfoldable pub initialize_processes : ℕ → Kernel → Option Kernel
unfolding expect_pid
initialize_processes procs k = expect_pid 0 (sys_exec none 0 none (initialize_table procs k))

unfoldable pub start_init : ℕ → ℕ → ℕ → ℕ → Option (List ℕ) → Option Kernel → Option Kernel
unfolding expect_pid
start_init files ports task argl args none = none
start_init files ports task argl args (some k) =
    expect_pid 1
      (sys_exec (some task) argl args (initialize_files files (initialize_devices ports k)))

-- boot_tinyos_kernel on core 0; `task`, `argl` and `args` are those of boot_rec.
unfoldable pub boot_tinyos_kernel : ℕ → ℕ → ℕ → ℕ → ℕ → Option (List ℕ) → Kernel → Option Kernel
unfolding initialize_processes start_init
boot_tinyos_kernel procs files ports task argl args k =
    start_init files ports task argl args (initialize_processes procs k)
