-- ===== src/Proc.antt =====
-- kernel_proc.c: the process table and its free list, Exec, GetPid, GetPPid, WaitChild and Exit.
-- A call that sleeps in `kernel_wait` is given as its parts before and after the sleep: the first
-- part runs once, the loop is run again at each wake-up, in the state that the others have left.
pub mod Exit
pub mod Files
pub mod Table
pub mod Task
pub mod Tree
pub mod Wait
pub mod Answers
pub mod Drain
pub mod Steady
pub mod Died
pub mod Reported
pub mod Blank
pub mod Orphans
use tiny_os.Prelude.{
  ℕ, zero, suc, ◌+◌, ◌-◌, ◌%◌, ◌^◌, Option, none, some, List, [], ◌∷◌, ◌++◌, ℤ, pos, negsuc,
  minus_one, ◌==◌, ltb, leb, if◌then◌else◌, update, erase, take,
}
use tiny_os.Kernel.{
  max_proc, max_fileid, PidState, free, alive, zombie, Pcb, Call, spawn_thread, wakeup,
  broadcast_child_exit, sleep_exited, Kernel, cur, set_pcb, set_fid,
}
use tiny_os.Streams.{fcb_incref, fcb_decref}

-- PCB *get_pcb(Pid_t), for a pid within the table
unfoldable pub get_pcb : ℕ → Kernel → Option ℕ
get_pcb p k = elim (k.pt p).pstate [ free ↦ none | _ ↦ some p ]

unfoldable pub get_pid : Option ℕ → ℤ
get_pid none = minus_one
get_pid (some p) = pos p

initialize_pcb : Pcb → Pcb
initialize_pcb pcb = record pcb {
  pstate = free;
  argl = 0;
  args = none;
  children_list = [];
  exited_list = [];
  fidt = λ i. none;
}

-- The first loop of initialize_processes, with `n` entries still to come.
init_pcbs : ℕ → ℕ → Kernel → Kernel
init_pcbs zero p k = k
init_pcbs (suc n) p k = init_pcbs n (p + 1) (set_pcb p (initialize_pcb (k.pt p)) k)

-- The second loop links the entries below `n` into the free list, from the last to the first.
link_pcbs : ℕ → Kernel → Kernel
link_pcbs zero k = k
link_pcbs (suc p) k =
    link_pcbs p
      (record (set_pcb p (record (k.pt p) { parent = k.pcb_freelist }) k) { pcb_freelist = some p })

-- initialize_processes up to the Exec of the idle process.
unfoldable pub initialize_table : ℕ → Kernel → Kernel
unfolding init_pcbs link_pcbs initialize_pcb
initialize_table n k = record (link_pcbs n (record (init_pcbs n 0 k) { pcb_freelist = none })) {
  process_count = 0;
}

pub acquire_at : Option ℕ → Kernel → Option ℕ × Kernel
acquire_at none k = (none, k)
acquire_at (some p) k = (
  some p,
  record k {
    pt = update k.pt p (record (k.pt p) { pstate = alive });
    pcb_freelist = (k.pt p).parent;
    process_count = (k.process_count + 1) % 2 ^ 32;
  },
)

unfoldable pub acquire_pcb : Kernel → Option ℕ × Kernel
unfolding acquire_at
acquire_pcb k = acquire_at k.pcb_freelist k

unfoldable pub release_pcb : ℕ → Kernel → Kernel
release_pcb p k = record k {
  pt = update k.pt p (record (k.pt p) { pstate = free; parent = k.pcb_freelist });
  pcb_freelist = some p;
  process_count = (k.process_count + 2 ^ 32 - 1) % 2 ^ 32;
}

pub inherit_one : ℕ → ℕ → Option ℕ → Kernel → Kernel
inherit_one p i none k = set_fid p i none k
inherit_one p i (some f) k = fcb_incref f (set_fid p i (some f) k)

-- The loop of sys_Exec over the file ids, `rounds` being `MAX_FILEID - i`.
pub inherit_files : ℕ → ℕ → ℕ → Kernel → Kernel
inherit_files zero i p k = k
inherit_files (suc rounds) i p k =
    inherit_files rounds (i + 1) p (inherit_one p i ((cur k).fidt i) k)

-- The parent's side of sys_Exec, but for the file ids.
pub adopt : ℕ → Kernel → Kernel
adopt p k =
    let k' = set_pcb p (record (k.pt p) { parent = some k.curproc }) k in
    set_pcb k'.curproc (record (cur k') { children_list = p ∷ (cur k').children_list }) k'

set_parent : ℕ → Kernel → Kernel
unfolding adopt inherit_files inherit_one
set_parent p k =
    if leb p 1
    then set_pcb p (record (k.pt p) { parent = none }) k
    else inherit_files max_fileid 0 p (adopt p k)

-- `malloc` and `memcpy` of `argl` bytes.
unfoldable pub copy_args : ℕ → Option (List ℕ) → Option (List ℕ)
copy_args argl none = none
copy_args argl (some bytes) = some (take argl bytes)

pub set_task : ℕ → Option ℕ → ℕ → Option (List ℕ) → Kernel → Kernel
unfolding copy_args
set_task p call argl args k =
    set_pcb p (record (k.pt p) { main_task = call; argl = argl; args = copy_args argl args }) k

-- The main thread of process `p` is named by `p`.
pub start_thread : ℕ → Option ℕ → Kernel → Kernel
start_thread p none k = k
start_thread p (some call) k = record (set_pcb p (record (k.pt p) { main_thread = some p }) k) {
  calls = k.calls ++ spawn_thread p ∷ wakeup p ∷ [];
}

exec_at : Option ℕ → Option ℕ → ℕ → Option (List ℕ) → Kernel → ℤ × Kernel
unfolding set_parent set_task start_thread
exec_at none call argl args k = (get_pid none, k)
exec_at (some p) call argl args k =
    (get_pid (some p), start_thread p call (set_task p call argl args (set_parent p k)))

unfoldable pub sys_exec : Option ℕ → ℕ → Option (List ℕ) → Kernel → ℤ × Kernel
unfolding exec_at acquire_pcb get_pid
sys_exec call argl args k = let (r, k') = acquire_pcb k in exec_at r call argl args k'

unfoldable pub sys_get_pid : Kernel → ℤ
unfolding get_pid
sys_get_pid k = get_pid (some k.curproc)

unfoldable pub sys_get_ppid : Kernel → ℤ
unfolding get_pid
sys_get_ppid k = get_pid (cur k).parent

-- What a part of WaitChild comes to: the pid returned, with the exit value stored in `*status` if
-- one is; a sleep on `child_exit`; or a failed assertion.
pub data Waited : Type 0 where
  returned : ℤ → Option ℤ → Kernel → Waited
  waits : Waited
  assertion_failed : Waited

-- The child is on the lists of its parent, the current process.
unlink_child : ℕ → Kernel → Kernel
unlink_child c k =
    set_pcb k.curproc
      (record (cur k) {
        children_list = erase c (cur k).children_list;
        exited_list = erase c (cur k).exited_list;
      })
      k

unfoldable pub cleanup_zombie : ℕ → Kernel → Kernel
unfolding release_pcb unlink_child
cleanup_zombie c k = release_pcb c (unlink_child c k)

reap : ℕ → Kernel → Waited
unfolding cleanup_zombie
reap c k = returned (pos c) (some (k.pt c).exitval) (cleanup_zombie c k)

reap_ended : PidState → ℕ → Kernel → Waited
unfolding reap
reap_ended alive c k = waits
reap_ended _ c k = reap c k

-- The loop of wait_for_specific_child.
unfoldable pub wait_specific_loop : ℕ → Kernel → Waited
unfolding reap_ended
wait_specific_loop c k = reap_ended (k.pt c).pstate c k

is_child_of : ℕ → Option ℕ → Kernel → Waited
is_child_of p none k = returned minus_one none k
is_child_of p (some q) k =
    if q == k.curproc then wait_specific_loop p k else returned minus_one none k

check_child : Option ℕ → Kernel → Waited
unfolding is_child_of
check_child none k = returned minus_one none k
check_child (some c) k = is_child_of c (k.pt c).parent k

unfoldable pub wait_for_specific_child : ℤ → Kernel → Waited
unfolding check_child get_pcb
wait_for_specific_child (negsuc n) k = returned minus_one none k
wait_for_specific_child (pos c) k =
    if ltb c max_proc then check_child (get_pcb c k) k else returned minus_one none k

-- `assert(child->pstate == ZOMBIE)`
reap_zombie : PidState → ℕ → Kernel → Waited
unfolding reap
reap_zombie zombie c k = reap c k
reap_zombie _ c k = assertion_failed

take_exited : List ℕ → Kernel → Waited
unfolding reap_zombie
take_exited [] k = waits
take_exited (c ∷ cs) k = reap_zombie (k.pt c).pstate c k

-- The loop of wait_for_any_child, and what follows it.
unfoldable pub wait_any_loop : Kernel → Waited
unfolding take_exited
wait_any_loop k = take_exited (cur k).exited_list k

check_children : List ℕ → Kernel → Waited
unfolding wait_any_loop
check_children [] k = returned minus_one none k
check_children (c ∷ cs) k = wait_any_loop k

unfoldable pub wait_for_any_child : Kernel → Waited
unfolding check_children
wait_for_any_child k = check_children (cur k).children_list k

unfoldable pub sys_wait_child : ℤ → Kernel → Waited
unfolding wait_for_specific_child wait_for_any_child
sys_wait_child (negsuc zero) k = wait_for_any_child k
sys_wait_child cpid k = wait_for_specific_child cpid k
