-- ===== src/Kernel.antt =====
-- The tables of the kernel: kernel_proc.h (PCB), kernel_streams.h (FCB), kernel_dev.h (the device
-- types) and the constants of tinyos.h. Objects are named by their index in their table, a null
-- pointer is `none`, and an intrusive list is the list of the objects on it.
use tiny_os.Prelude.{ℕ, Option, List, ℤ, update}

abbrev pub max_proc : ℕ
max_proc = 65536

abbrev pub max_files : ℕ
max_files = max_proc

abbrev pub max_fileid : ℕ
max_fileid = 16

pub data PidState : Type 0 where
  free alive zombie : PidState

-- `fidt i` is the file table's entry `i`, an index into the FCB table. `parent` is the parent of
-- a process in use, and the link of the free list otherwise. The condition variable `child_exit`
-- is seen only through the calls below.
pub record Pcb : Type 0 where
  pub pstate : PidState
  pub parent : Option ℕ
  pub exitval : ℤ
  pub main_thread : Option ℕ
  pub main_task : Option ℕ
  pub argl : ℕ
  pub args : Option (List ℕ)
  pub children_list : List ℕ
  pub exited_list : List ℕ
  pub fidt : ℕ → Option ℕ

pub data DeviceType : Type 0 where
  dev_null dev_serial : DeviceType

-- The tables of stream methods that the kernel has.
pub data FileOps : Type 0 where
  nulldev_fops serial_fops stdio_ops : FileOps

pub record Fcb : Type 0 where
  pub refcount : ℕ  -- 32 bits
  pub streamobj : Option ℕ
  pub streamfunc : FileOps

-- What the system calls ask of the scheduler and of the condition variables, oldest first.
pub data Call : Type 0 where
  spawn_thread : ℕ → Call
  wakeup : ℕ → Call
  broadcast_child_exit : ℕ → Call
  sleep_exited : Call

pub record Kernel : Type 0 where
  pub pt : ℕ → Pcb
  pub pcb_freelist : Option ℕ
  pub process_count : ℕ
  pub curproc : ℕ
  pub ft : ℕ → Fcb
  pub fcb_freelist : List ℕ
  pub devnum : DeviceType → ℕ
  pub calls : List Call

-- `CURPROC`
abbrev pub cur : Kernel → Pcb
cur k = k.pt k.curproc

abbrev pub set_pcb : ℕ → Pcb → Kernel → Kernel
set_pcb p pcb k = record k { pt = update k.pt p pcb }

abbrev pub set_fcb : ℕ → Fcb → Kernel → Kernel
set_fcb f fcb k = record k { ft = update k.ft f fcb }

-- `PT[p].FIDT[i] = v`
unfoldable pub set_fid : ℕ → ℕ → Option ℕ → Kernel → Kernel
set_fid p i v k = set_pcb p (record (k.pt p) { fidt = update (k.pt p).fidt i v }) k
