-- ===== src/Streams.antt =====
-- kernel_streams.c: file control blocks, their reference counts and free list, reservation of file
-- ids, and the system calls Read, Write, Close, Dup2, OpenNull and OpenTerminal.
-- A call returns its result and the new state. `int` arguments are ℤ.
pub mod Counts
pub mod Counted
pub mod Calls
pub mod Reserve
pub mod Open
pub mod Init
pub mod Calm
use mathlib.Core.Option
use tiny_os.Prelude.{
  ℕ, zero, suc, ◌+◌, ◌-◌, ◌%◌, ◌^◌, Option, none, some, List, [], ◌∷◌, ◌++◌, reverse, ℤ, pos,
  negsuc, minus_one, ◌==◌, ltb, leb, if◌then◌else◌, update, is_none,
}
use tiny_os.Kernel.{
  max_fileid, DeviceType, dev_null, dev_serial, FileOps, nulldev_fops, serial_fops, stdio_ops, Fcb,
  Kernel, cur, set_fcb, set_fid,
}

-- FCB *acquire_FCB()
pub acquire_from : List ℕ → Kernel → Option ℕ × Kernel
acquire_from [] k = (none, k)
acquire_from (f ∷ fs) k =
    (some f, record k { fcb_freelist = fs; ft = update k.ft f (record (k.ft f) { refcount = 0 }) })

unfoldable pub acquire_fcb : Kernel → Option ℕ × Kernel
unfolding acquire_from
acquire_fcb k = acquire_from k.fcb_freelist k

unfoldable pub release_fcb : ℕ → Kernel → Kernel
release_fcb f k = record k { fcb_freelist = k.fcb_freelist ++ f ∷ [] }

abbrev set_refcount : ℕ → ℕ → Kernel → Kernel
set_refcount f n k = set_fcb f (record (k.ft f) { refcount = n }) k

unfoldable pub fcb_incref : ℕ → Kernel → Kernel
fcb_incref f k = set_refcount f (((k.ft f).refcount + 1) % 2 ^ 32) k

-- The Close methods of the drivers: nulldev_close, serial_close, stdio_close.
unfoldable pub close_method : FileOps → Option ℕ → ℤ
close_method nulldev_fops dev = pos 0
close_method serial_fops dev = pos 0
close_method stdio_ops dev = pos 0

unfoldable pub fcb_decref : ℕ → Kernel → ℤ × Kernel
unfolding release_fcb
fcb_decref f k =
    let n = ((k.ft f).refcount + 2 ^ 32 - 1) % 2 ^ 32 in
    let k' = set_refcount f n k in
    if n == 0
    then (close_method (k.ft f).streamfunc (k.ft f).streamobj, release_fcb f k')
    else (pos 0, k')

-- The inner loop of FCB_reserve: from `f` on, skip the ids in use, `rounds` being `MAX_FILEID - f`.
pub skip_used : ℕ → (ℕ → Option ℕ) → ℕ → ℕ
skip_used zero t f = f
skip_used (suc rounds) t f =
    let next = skip_used rounds t (f + 1) in if is_none (t f) then f else next

-- The first loop of FCB_reserve: `num` distinct ids from `f` on, `none` if they are too few.
pub find_fids : ℕ → (ℕ → Option ℕ) → ℕ → Option (List ℕ)
find_fids zero t f = some []
find_fids (suc num) t f =
    let g = skip_used (max_fileid - f) t f in
    let rest = Option.map (λ fids. g ∷ fids) (find_fids num t (g + 1)) in
    if g == max_fileid then none else rest

-- The roll back of FCB_reserve: what was acquired, the latest first.
pub release_all : List ℕ → Kernel → Kernel
release_all [] k = k
release_all (f ∷ fs) k = release_all fs (release_fcb f k)

alloc_next : Option ℕ → List ℕ → (ℕ → Option (List ℕ) × Kernel) → Kernel → Option (List ℕ) × Kernel
alloc_next none got more k = (none, release_all got k)
alloc_next (some f) got more k = more f

-- The second loop of FCB_reserve. `got` holds what has been acquired, the latest first.
pub alloc_fcbs : ℕ → List ℕ → Kernel → Option (List ℕ) × Kernel
alloc_fcbs zero got k = (some (reverse got), k)
alloc_fcbs (suc num) got k =
    let (r, k') = acquire_fcb k in
    let more = λ (f : ℕ). alloc_fcbs num (f ∷ got) k' in alloc_next r got more k'

-- The last loop of FCB_reserve.
pub install_fcbs : List ℕ → List ℕ → Kernel → Kernel
install_fcbs [] fcbs k = k
install_fcbs (i ∷ fids) [] k = k
install_fcbs (i ∷ fids) (f ∷ fcbs) k =
    install_fcbs fids fcbs (fcb_incref f (set_fid k.curproc i (some f) k))

finish_reserve : List ℕ → Option (List ℕ) → Kernel → Option (List ℕ × List ℕ) × Kernel
finish_reserve fids none k = (none, k)
finish_reserve fids (some fcbs) k = (some (fids, fcbs), install_fcbs fids fcbs k)

reserve_at : ℕ → Option (List ℕ) → Kernel → Option (List ℕ × List ℕ) × Kernel
unfolding finish_reserve
reserve_at num none k = (none, k)
reserve_at num (some fids) k = let (r, k') = alloc_fcbs num [] k in finish_reserve fids r k'

-- `none` is the return value 0; `some` is 1, with the contents of the two arrays.
unfoldable pub fcb_reserve : ℕ → Kernel → Option (List ℕ × List ℕ) × Kernel
unfolding reserve_at
fcb_reserve num k = reserve_at num (find_fids num (cur k).fidt 0) k

-- void FCB_unreserve(num, fid, fcb)
pub fcb_unreserve : List ℕ → List ℕ → Kernel → Kernel
fcb_unreserve [] fcbs k = k
fcb_unreserve (i ∷ fids) [] k = k
fcb_unreserve (i ∷ fids) (f ∷ fcbs) k =
    fcb_unreserve fids fcbs (release_fcb f (set_fid k.curproc i none k))

-- `0 <= fid < MAX_FILEID`
unfoldable pub fid_index : ℤ → Option ℕ
fid_index (pos n) = if ltb n max_fileid then some n else none
fid_index (negsuc n) = none

entry : Option ℕ → Kernel → Option ℕ
entry none k = none
entry (some i) k = (cur k).fidt i

unfoldable pub get_fcb : ℤ → Kernel → Option ℕ
unfolding entry fid_index
get_fcb fid k = entry (fid_index fid) k

-- The common part of sys_Read and sys_Write before the driver's method runs.
pin : Option ℕ → Kernel → Option ℕ × Kernel
pin none k = (none, k)
pin (some f) k = (some f, fcb_incref f k)

unfoldable pub io_begin : ℤ → Kernel → Option ℕ × Kernel
unfolding pin get_fcb
io_begin fd k = pin (get_fcb fd k) k

-- The part after it.
unfoldable pub io_end : ℕ → Kernel → Kernel
unfolding fcb_decref
io_end f k = (fcb_decref f k).1

io_run : ℕ → Option (Kernel → ℤ × Kernel) → Kernel → ℤ × Kernel
unfolding io_end
io_run f none k = (minus_one, io_end f k)
io_run f (some run) k = let (retcode, k') = run k in (retcode, io_end f k')

io_with : Option ℕ → (Fcb → Option (Kernel → ℤ × Kernel)) → (ℕ → Fcb) → Kernel → ℤ × Kernel
io_with none method ft k = (minus_one, k)
io_with (some f) method ft k = io_run f (method (ft f)) k

-- sys_Read and sys_Write. `method` is the driver's Read or Write with its buffer, together with
-- all that other processes do in the kernel while it sleeps; `none` is a null pointer. The fields
-- of the block are read before its count is raised.
unfoldable pub sys_io : (Fcb → Option (Kernel → ℤ × Kernel)) → ℤ → Kernel → ℤ × Kernel
unfolding io_with io_run
sys_io method fd k = let (r, k') = io_begin fd k in io_with r method k.ft k'

close_at : ℕ → Option ℕ → Kernel → ℤ × Kernel
close_at i none k = (pos 0, k)
close_at i (some f) k = fcb_decref f (set_fid k.curproc i none k)

close_index : Option ℕ → Kernel → ℤ × Kernel
close_index none k = (minus_one, k)
close_index (some i) k = close_at i ((cur k).fidt i) k

unfoldable pub sys_close : ℤ → Kernel → ℤ × Kernel
unfolding close_index close_at fid_index
sys_close fd k = close_index (fid_index fd) k

dup2_at : ℕ → Option ℕ → Option ℕ → Kernel → ℤ × Kernel
dup2_at i none new k = (minus_one, k)
dup2_at i (some f) none k = (pos 0, set_fid k.curproc i (some f) (fcb_incref f k))
dup2_at i (some f) (some g) k =
    if f == g
    then (pos 0, k)
    else (pos 0, set_fid k.curproc i (some f) (fcb_incref f (fcb_decref g k).1))

dup2_index : Option ℕ → Option ℕ → Kernel → ℤ × Kernel
dup2_index none new k = (minus_one, k)
dup2_index (some o) none k = (minus_one, k)
dup2_index (some o) (some n) k = dup2_at n ((cur k).fidt o) ((cur k).fidt n) k

unfoldable pub sys_dup2 : ℤ → ℤ → Kernel → ℤ × Kernel
unfolding dup2_index dup2_at fid_index
sys_dup2 oldfd newfd k = dup2_index (fid_index oldfd) (fid_index newfd) k

abbrev fops_of : DeviceType → FileOps
fops_of dev_null = nulldev_fops
fops_of dev_serial = serial_fops

-- nulldev_open and serial_open: the null device has no stream object.
abbrev open_method : DeviceType → ℕ → Option ℕ
open_method dev_null minor = none
open_method dev_serial minor = some minor

-- `none` is the return value -1.
unfoldable pub device_open : DeviceType → ℕ → Kernel → Option (Option ℕ × FileOps)
device_open major minor k =
    if leb (k.devnum major) minor then none else some (open_method major minor, fops_of major)

open_reserved : Option (Option ℕ × FileOps) → List ℕ → List ℕ → Kernel → ℤ × Kernel
open_reserved none fids fcbs k = (minus_one, fcb_unreserve fids fcbs k)
open_reserved (some (obj, ops)) (i ∷ _) (f ∷ _) k =
    (pos i, set_fcb f (record (k.ft f) { streamobj = obj; streamfunc = ops }) k)
open_reserved (some _) _ _ k = (minus_one, k)

open_with : DeviceType → ℕ → Option (List ℕ × List ℕ) → Kernel → ℤ × Kernel
unfolding open_reserved
open_with major minor none k = (minus_one, k)
open_with major minor (some (fids, fcbs)) k = open_reserved (device_open major minor k) fids fcbs k

unfoldable pub open_stream : DeviceType → ℕ → Kernel → ℤ × Kernel
unfolding open_with
open_stream major minor k = let (r, k') = fcb_reserve 1 k in open_with major minor r k'

unfoldable pub sys_open_null : Kernel → ℤ × Kernel
unfolding open_stream
sys_open_null k = open_stream dev_null 0 k

unfoldable pub sys_open_terminal : ℕ → Kernel → ℤ × Kernel
unfolding open_stream
sys_open_terminal termno k = open_stream dev_serial termno k

-- The loop of initialize_files, with `n` entries still to come.
init_loop : ℕ → ℕ → Kernel → Kernel
init_loop zero i k = k
init_loop (suc n) i k =
    init_loop n (i + 1) (record (set_refcount i 0 k) { fcb_freelist = k.fcb_freelist ++ i ∷ [] })

unfoldable pub initialize_files : ℕ → Kernel → Kernel
unfolding init_loop
initialize_files files k = init_loop files 0 (record k { fcb_freelist = [] })
