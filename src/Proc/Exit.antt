-- ===== src/Proc/Exit.antt =====
-- sys_Exit of kernel_proc.c, after the loop that waits for all children when the caller is process 1.
use tiny_os.Prelude.{ℕ, zero, suc, ◌+◌, Option, none, some, List, [], ◌∷◌, ◌++◌, ℤ}
use tiny_os.Kernel.{
  max_fileid, zombie, broadcast_child_exit, sleep_exited, Kernel, cur, set_pcb, set_fid,
}
use tiny_os.Streams.{fcb_decref}
use tiny_os.Proc.{get_pcb}

unfoldable pub close_one : ℕ → Option ℕ → Kernel → Kernel
close_one i none k = k
close_one i (some f) k = set_fid k.curproc i none (fcb_decref f k).1

-- The loop over the file ids, `rounds` being `MAX_FILEID - i`.
unfoldable pub close_files : ℕ → ℕ → Kernel → Kernel
close_files zero i k = k
close_files (suc rounds) i k = close_files rounds (i + 1) (close_one i ((cur k).fidt i) k)

-- One round of the loop over the children: the first child `c` moves to process 1.
unfoldable pub move_child : Option ℕ → ℕ → List ℕ → Kernel → Kernel
move_child initpcb c rest k =
    let k1 = set_pcb k.curproc (record (cur k) { children_list = rest }) k in
    let k2 = set_pcb c (record (k1.pt c) { parent = initpcb }) k1 in
    set_pcb 1 (record (k2.pt 1) { children_list = c ∷ (k2.pt 1).children_list }) k2

-- The list is that of the current process. Process 1 comes here with no children (its calls of
-- WaitChild have returned NOPROC), so the list that shrinks is not the one that grows.
unfoldable pub reparent : Option ℕ → List ℕ → Kernel → Kernel
reparent initpcb [] k = k
reparent initpcb (c ∷ cs) k = reparent initpcb cs (move_child initpcb c cs k)

unfoldable pub give_exited : List ℕ → Kernel → Kernel
give_exited [] k = k
give_exited (c ∷ cs) k =
    let k1 = set_pcb k.curproc (record (cur k) { exited_list = [] }) k in
    record (set_pcb 1 (record (k1.pt 1) { exited_list = (k1.pt 1).exited_list ++ c ∷ cs }) k1) {
      calls = k.calls ++ broadcast_child_exit 1 ∷ [];
    }

unfoldable pub tell_parent : Option ℕ → Kernel → Kernel
tell_parent none k = k
tell_parent (some q) k =
    record (set_pcb q (record (k.pt q) { exited_list = k.curproc ∷ (k.pt q).exited_list }) k) {
      calls = k.calls ++ broadcast_child_exit q ∷ [];
    }

unfoldable pub die : ℤ → Kernel → Kernel
die exitval k =
    record (set_pcb k.curproc
      (record (cur k) { main_thread = none; pstate = zombie; exitval = exitval }) k) {
        calls = k.calls ++ sleep_exited ∷ [];
      }

unfoldable pub free_args : Kernel → Kernel
free_args k = set_pcb k.curproc (record (cur k) { args = none }) k

unfoldable pub sys_exit : ℤ → Kernel → Kernel
sys_exit exitval k =
    let k1 = close_files max_fileid 0 (free_args k) in
    let k2 = reparent (get_pcb 1 k1) (cur k1).children_list k1 in
    let k3 = give_exited (cur k2).exited_list k2 in die exitval (tell_parent (cur k3).parent k3)
