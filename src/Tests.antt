-- ===== src/Tests.antt =====
-- Runs of the model on small inputs, and the theorems at concrete states.
mod Timers
mod Strings
mod Dinner
mod Lists
mod Machine
mod Programs
mod Turns
mod Ports
use tiny_os.Prelude.{
  erase, ℕ, ◌<◌, ◌≡◌, refl, ◌≢◌, ◌⊎◌, inl, inr, Option, none, some, [], ◌∷◌, arith, ℤ, pos,
  minus_one, update, subst, sym, ◌∙◌, some-injective,
}
use tiny_os.Kernel.{
  max_proc, max_files, max_fileid, free, alive, zombie, Pcb, dev_null, dev_serial, nulldev_fops,
  Fcb, Kernel, cur,
}
use tiny_os.Streams.{
  initialize_files, open_stream, sys_close, sys_dup2, sys_io, fcb_reserve, fid_index,
}
use tiny_os.Streams.Calls.{Exact, Ready, sys_close-Exact, sys_dup2-Exact, sys_io-Exact}
use tiny_os.Streams.Calls.Dup2.{Duplicated, sys_dup2-legal, sys_dup2-illegal}
use tiny_os.Streams.Reserve.{Reserved, fcb_reserve-Exact, fcb_reserve-Reserved}
use tiny_os.Streams.Open.{Opened, open_stream-Opened, open_stream-Exact, open_stream-current}
use tiny_os.Streams.Init.{initialize_files-Exact, initialize_files-same}
use tiny_os.Proc.{
  acquire_pcb, release_pcb, initialize_table, sys_exec, sys_wait_child, returned, cleanup_zombie,
}
use tiny_os.Proc.Exit.{
  sys_exit, die, tell_parent, give_exited, reparent, close_files, close_one, free_args, move_child,
}
use tiny_os.Proc.Files.Exec.{NextIsClosed}
use tiny_os.Proc.Files.Shares.{Inherits, sys_exec-Shares}
use tiny_os.Proc.Files.Exit.{sys_exit-Exact}
use tiny_os.Proc.Table.{
  Table, Acquired, below, acquire_pcb-Acquired, release_pcb-Table, initialize_table-Table,
}
use tiny_os.Proc.Tree.{Tree, Forest}
use tiny_os.Proc.Tree.Exec.{sys_exec-Tree}
use tiny_os.Proc.Wait.{Outcome}
use tiny_os.Proc.Answers.{Answers, sys_wait_child-Outcome}
use tiny_os.Proc.Orphans.{sys_exit-Forest}
use tiny_os.Proc.Reported.{exit_then_wait}
use tiny_os.Proc.Drain.{Drained, drain, drain_round, drained, sleeps, Ends, drain-Ends}
use tiny_os.Runs.{State, Reaches, here, after, exits, switches, init_exits}
use tiny_os.Boot.{boot_tinyos_kernel}
use tiny_os.Boot.Start.{boot-WellFormed}
use tiny_os.Runs.Safe.{WellFormed}

abbrev blank : Pcb
blank = record {
  pstate = free;
  parent = none;
  exitval = pos 0;
  main_thread = none;
  main_task = none;
  argl = 0;
  args = none;
  children_list = [];
  exited_list = [];
  fidt = λ i. none;
}

-- Process 2, a child of 1, runs; its child 3 has exited with 7; entry 4 is free.
abbrev family : ℕ → Pcb
family =
    update
      (update
        (update (update (λ p. blank) 0 (record blank { pstate = alive })) 1
          (record blank { pstate = alive; children_list = 2 ∷ [] }))
        2
        (record blank {
          pstate = alive;
          parent = some 1;
          children_list = 3 ∷ [];
          exited_list = 3 ∷ [];
        }))
      3 (record blank { pstate = zombie; parent = some 2; exitval = pos 7 })

abbrev family_kernel : Kernel
family_kernel = record {
  pt = family;
  pcb_freelist = some 4;
  process_count = 4;
  curproc = 2;
  ft = λ f. record { refcount = 0; streamobj = none; streamfunc = nulldev_fops };
  fcb_freelist = [];
  devnum = λ d. 1;
  calls = [];
}

family-Table : Table 5 (4 ∷ []) family_kernel
family-Table = record {
  chain = (refl, refl);
  distinct = (refl, tt);
  states = λ p lt. ground arith;
  outside = λ p ge. ground arith;
  within = λ p h. ground arith;
  total = refl;
}

family-Tree : Tree family_kernel
family-Tree = record {
  running = refl;
  children = λ p. ground arith;
  exited = λ p. ground arith;
  pairs = λ p c. record {
    child_of = ground arith;
    of_child = ground arith;
    exited_of = ground arith;
    of_exited = ground arith;
    parent_alive = ground arith;
  };
}

-- A booted kernel with all file control blocks free, and process 1 running.
abbrev boot_kernel : Kernel
boot_kernel = record family_kernel { curproc = 1 }

abbrev files_kernel : Kernel
files_kernel = initialize_files max_files boot_kernel

files-Exact : Exact [] files_kernel
files-Exact = initialize_files-Exact boot_kernel (λ p i. ground arith)

files-Ready : Ready [] files_kernel
files-Ready = record {
  room = omega arith;
  current = rw ((initialize_files-same max_files boot_kernel).1) (omega arith);
}

-- The same with file id 0 on the null device.
abbrev opened_kernel : Kernel
opened_kernel = (open_stream dev_null 0 files_kernel).1

opened-Exact : Exact [] opened_kernel
opened-Exact = open_stream-Exact files-Exact files-Ready dev_null 0

opened-Ready : Ready [] opened_kernel
opened-Ready = record {
  room = omega arith;
  current = rw (open_stream-current dev_null 0 files_kernel) files-Ready.current;
}

sys_dup2-Exact_example : Exact [] (sys_dup2 (pos 0) (pos 5) opened_kernel).1
sys_dup2-Exact_example = sys_dup2-Exact opened-Exact opened-Ready (pos 0) (pos 5)

abbrev read_three : Fcb → Option (Kernel → ℤ × Kernel)
read_three fcb = some (λ k. (pos 3, k))

read_three-keeps :
    (fcb : Fcb) (run : Kernel → ℤ × Kernel) (f : ℕ) (k : Kernel)
    → read_three fcb ≡ some run
    → Exact (f ∷ []) k
    → Exact (f ∷ []) (run k).1
read_three-keeps fcb run f k e c = subst (λ m. Exact (f ∷ []) (m k).1) (some-injective _ _ e) c

sys_io-Exact_example : Exact [] (sys_io read_three (pos 0) opened_kernel).1
sys_io-Exact_example = sys_io-Exact opened-Exact opened-Ready read_three read_three-keeps (pos 0)

fcb_reserve-Reserved_example :
    Exact [] (fcb_reserve 2 opened_kernel).1
    × Reserved 2 opened_kernel (fcb_reserve 2 opened_kernel).0 (fcb_reserve 2 opened_kernel).1
fcb_reserve-Reserved_example = fcb_reserve-Reserved 2 opened-Exact opened-Ready

open_stream-Opened_example :
    Opened dev_serial 3 opened_kernel
      (open_stream dev_serial 3 opened_kernel).0
      (open_stream dev_serial 3 opened_kernel).1
open_stream-Opened_example = open_stream-Opened dev_serial 3 opened_kernel

boot-NextIsClosed : NextIsClosed files_kernel
boot-NextIsClosed = record {
  next = λ p e. next_closed p (sym (initialize_files-same max_files boot_kernel).2 ∙ e);
}
  where
    next_closed :
        (p : ℕ)
        → ◌≡◌ {A = Option ℕ} (some 4) (some p)
        → (p < max_proc)
          × (p ≢ files_kernel.curproc)
          × ((i : ℕ) → (files_kernel.pt p).fidt i ≡ none)
    next_closed p e =
        let e' : 4 ≡ p = some-injective _ _ e in
        rw
          (
            (initialize_files-same max_files boot_kernel).0,
            (initialize_files-same max_files boot_kernel).1,
          )
          (omega arith, ground arith, λ i. ground arith)

sys_exec-Shares_example :
    Exact [] (sys_exec (some 1) 2 (some (7 ∷ 8 ∷ [])) files_kernel).1
    × ((p : ℕ)
        → files_kernel.pcb_freelist ≡ some p
        → Inherits p files_kernel (sys_exec (some 1) 2 (some (7 ∷ 8 ∷ [])) files_kernel).1)
sys_exec-Shares_example =
    sys_exec-Shares (some 1) 2 (some (7 ∷ 8 ∷ [])) files-Exact files-Ready boot-NextIsClosed

sys_exit-Exact_example :
    Exact [] (sys_exit (pos 3) opened_kernel)
    × ((j : ℕ)
        → j < max_fileid
        → ((sys_exit (pos 3) opened_kernel).pt opened_kernel.curproc).fidt j ≡ none)
sys_exit-Exact_example = sys_exit-Exact (pos 3) opened-Exact opened-Ready

sys_wait_child-Outcome_example :
    Outcome 5 (4 ∷ []) family_kernel (sys_wait_child (pos 3) family_kernel)
    × Answers (pos 3) family_kernel (sys_wait_child (pos 3) family_kernel)
sys_wait_child-Outcome_example =
    sys_wait_child-Outcome (omega arith) family-Tree family-Table (pos 3)

sys_exit-Forest_example :
    Forest (sys_exit (pos 9) family_kernel).pt
    × (((sys_exit (pos 9) family_kernel).pt 2).pstate ≡ zombie)
sys_exit-Forest_example = sys_exit-Forest (pos 9) family_kernel family-Tree refl refl

-- Process 3 is reaped, then its entry comes first on the free list.
reaped_first :
    (sys_wait_child minus_one family_kernel
      ≡ returned (pos 3) (some (pos 7)) (record family_kernel {
        pt = (cleanup_zombie 3 family_kernel).pt;
        pcb_freelist = some 3;
        process_count = 3;
      }))
unfolding sys_wait_child cleanup_zombie
reaped_first = refl

-- After Exit of process 2, its child is process 1's, and process 1 is told.
exit_tells_init : ((sys_exit (pos 9) family_kernel).pt 1).children_list ≡ 3 ∷ 2 ∷ []
unfolding sys_exit die tell_parent give_exited reparent close_files close_one free_args move_child
exit_tells_init = refl

exit_then_wait_example :
    let k' : Kernel = record (sys_exit (pos 9) family_kernel) { curproc = 1 } in
    sys_wait_child (pos 2) k' ≡ returned (pos 2) (some (pos 9)) (cleanup_zombie 2 k')
exit_then_wait_example = exit_then_wait (pos 9) 1 family_kernel family-Tree (omega arith) refl

-- Process 2 waits in a loop for its child, as process 1 does in Exit.
drain-Ends_example : (r : Drained) × (drain 2 family_kernel ≡ some r) × Ends 5 2 r
drain-Ends_example =
    drain-Ends (omega arith) 2 family_kernel (4 ∷ []) family-Tree family-Table (omega arith)

-- A machine that has not booted.
abbrev raw_kernel : Kernel
raw_kernel = record family_kernel { pt = λ p. blank; curproc = 0 }

boot-WellFormed_example :
    (k' : Kernel) × (boot_tinyos_kernel 5 max_files 4 7 0 none raw_kernel ≡ some k')
    × ((s : State) → Reaches (record { k = k'; held = [] }) s → WellFormed 5 s)
boot-WellFormed_example =
    boot-WellFormed 3 4 7 0 none raw_kernel (omega arith) refl (λ q ge. refl)
      (λ q ge. record { children = refl; exited = refl; fidt = λ i. refl })

-- Process 1 has a child that lives, so its Exit sleeps.
init_sleeps : drain 1 boot_kernel ≡ some (sleeps boot_kernel)
unfolding drain drain_round sys_wait_child
init_sleeps = refl

abbrev orphaned : Kernel
orphaned = record (sys_exit (pos 9) family_kernel) { curproc = 1 }

-- After Exit of process 2, process 1 reaps it and the child that it has from it.
init_reaps : drain 3 orphaned ≡ some (drained (cleanup_zombie 3 (cleanup_zombie 2 orphaned)))
unfolding drain drain_round sys_wait_child sys_exit die tell_parent give_exited reparent close_files
    close_one free_args move_child cleanup_zombie erase
init_reaps = refl

one_lives : ((sys_exit (pos 9) family_kernel).pt 1).pstate ≡ alive
unfolding sys_exit die tell_parent give_exited reparent close_files close_one free_args move_child
one_lives = refl

-- A run in which all processes exit, process 1 as the last one.
all_exit :
    Reaches
      (record { k = family_kernel; held = [] })
      (record { k = sys_exit (pos 0) (cleanup_zombie 3 (cleanup_zombie 2 orphaned)); held = [] })
all_exit =
    after (after (after here (exits (pos 9) refl refl (inl refl))) (switches 1 one_lives)) (
      init_exits 3 (pos 0) (cleanup_zombie 3 (cleanup_zombie 2 orphaned)) one_lives refl init_reaps)
