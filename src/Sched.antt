-- ===== src/Sched.antt =====
-- kernel_sched.c and the types of kernel_sched.h: the scheduler queue, the list of timeouts, wakeup,
-- sleep, yield and gain. A thread is named by a number. Each function below runs with
-- `sched_spinlock` held from its start to its end, so it is one step; `yield` is two, `yield_select`
-- before the context switch and `gain` after it.
-- The asserted conditions are not tested.
pub mod Timeouts
pub mod Woken
pub mod Steps
pub mod Sound
pub mod Cores
pub mod Fair
use tiny_os.Prelude.{
  ℕ, ◌+◌, ◌-◌, ◌%◌, ◌^◌, Bool, true, false, Option, none, some, List, [], ◌∷◌, ◌++◌, ◌==◌, ltb,
  if◌then◌else◌, update, erase,
}

pub data ThreadState : Type 0 where
  init ready running stopped exited : ThreadState

pub data ThreadPhase : Type 0 where
  ctx_clean ctx_dirty : ThreadPhase

pub data ThreadType : Type 0 where
  idle_thread normal_thread : ThreadType

-- NO_TIMEOUT, the greatest 64-bit number
abbrev pub no_timeout : ℕ
no_timeout = 0xffff_ffff_ffff_ffff

-- `next` is written by yield and read by nobody; the context belongs to the machine.
pub record Tcb : Type 0 where
  pub type : ThreadType
  pub state : ThreadState
  pub phase : ThreadPhase
  pub wakeup_time : ℕ  -- 64 bits
  pub prev : ℕ

-- `idle c` is the idle thread of core `c`, `current c` the thread that has the core. `clock` is what
-- `bios_clock` returns; `freed` are the threads whose memory has been given back.
pub record Scheduler : Type 0 where
  pub tcb : ℕ → Tcb
  pub sched : List ℕ
  pub timeout_list : List ℕ
  pub current : ℕ → ℕ
  pub idle : ℕ → ℕ
  pub clock : ℕ
  pub active_threads : ℕ
  pub freed : List ℕ

abbrev pub set_tcb : ℕ → Tcb → Scheduler → Scheduler
set_tcb t x s = record s { tcb = update s.tcb t x }

-- The block that allocate_thread returns is `t`.
unfoldable pub spawn_thread : ℕ → Scheduler → Scheduler
spawn_thread t s = record s {
  tcb = update s.tcb t (record (s.tcb t) {
    type = normal_thread;
    state = init;
    phase = ctx_clean;
    wakeup_time = no_timeout;
  });
  active_threads = (s.active_threads + 1) % 2 ^ 32;
}

unfoldable pub release_tcb : ℕ → Scheduler → Scheduler
release_tcb t s = record s {
  freed = t ∷ s.freed;
  active_threads = (s.active_threads + 2 ^ 32 - 1) % 2 ^ 32;
}

unfoldable pub initialize_scheduler : Scheduler → Scheduler
initialize_scheduler s = record s { sched = []; timeout_list = [] }

-- run_scheduler on core `c`, up to the call of idle_thread; the interrupt handlers are not in the state.
unfoldable pub run_scheduler : ℕ → Scheduler → Scheduler
run_scheduler c s = record s {
  current = update s.current c (s.idle c);
  tcb = update s.tcb (s.idle c) (record (s.tcb (s.idle c)) {
    type = idle_thread;
    state = running;
    phase = ctx_dirty;
    wakeup_time = no_timeout;
  });
}

-- The test of the loop of idle_thread: it goes on to halt the core and to yield.
unfoldable pub idle_continues : Scheduler → Bool
idle_continues s = ltb 0 s.active_threads

-- The loop of sched_register_timeout: `t` goes before the first thread that wakes later.
pub insert_timeout : (ℕ → Tcb) → ℕ → ℕ → List ℕ → List ℕ
insert_timeout tcb t w [] = t ∷ []
insert_timeout tcb t w (n ∷ ns) =
    if ltb w (tcb n).wakeup_time then t ∷ n ∷ ns else n ∷ insert_timeout tcb t w ns

unfoldable pub sched_register_timeout : ℕ → ℕ → Scheduler → Scheduler
sched_register_timeout t timeout s =
    let w = (s.clock + timeout) % 2 ^ 64 in
    if timeout == no_timeout
    then s
    else record (set_tcb t (record (s.tcb t) { wakeup_time = w }) s) {
      timeout_list = insert_timeout s.tcb t w s.timeout_list;
    }

-- The call of cpu_core_restart_one, a signal to a halted core, is left out.
unfoldable pub sched_queue_add : ℕ → Scheduler → Scheduler
sched_queue_add t s = record s { sched = s.sched ++ t ∷ [] }

unfoldable pub cancel_timeout : ℕ → Scheduler → Scheduler
cancel_timeout t s =
    if (s.tcb t).wakeup_time == no_timeout
    then s
    else record (set_tcb t (record (s.tcb t) { wakeup_time = no_timeout }) s) {
      timeout_list = erase t s.timeout_list;
    }

unfoldable pub queue_clean : ThreadPhase → ℕ → Scheduler → Scheduler
unfolding sched_queue_add
queue_clean ctx_clean t s = sched_queue_add t s
queue_clean ctx_dirty t s = s

unfoldable pub sched_make_ready : ℕ → Scheduler → Scheduler
unfolding cancel_timeout queue_clean
sched_make_ready t s =
    let s1 = cancel_timeout t s in
    let s2 = set_tcb t (record (s1.tcb t) { state = ready }) s1 in queue_clean (s2.tcb t).phase t s2

-- The loop of sched_queue_select over TIMEOUT_LIST.
unfoldable pub wake_expired : List ℕ → Scheduler → Scheduler
wake_expired [] s = s
wake_expired (t ∷ ts) s =
    let rest = wake_expired ts (sched_make_ready t s) in
    if ltb s.clock (s.tcb t).wakeup_time then s else rest

unfoldable pub pop_sched : List ℕ → Scheduler → Option ℕ × Scheduler
pop_sched [] s = (none, s)
pop_sched (t ∷ ts) s = (some t, record s { sched = ts })

unfoldable pub sched_queue_select : Scheduler → Option ℕ × Scheduler
unfolding pop_sched
sched_queue_select s = let s' = wake_expired s.timeout_list s in pop_sched s'.sched s'

-- The states that wakeup and sched_make_ready accept.
unfoldable pub can_wake : ThreadState → Bool
can_wake stopped = true
can_wake init = true
can_wake _ = false

unfoldable pub wakeup : ℕ → Scheduler → Bool × Scheduler
unfolding can_wake
wakeup t s = if can_wake (s.tcb t).state then (true, sched_make_ready t s) else (false, s)

register_unless_exited : ThreadState → ℕ → ℕ → Scheduler → Scheduler
register_unless_exited exited t timeout s = s
register_unless_exited _ t timeout s = sched_register_timeout t timeout s

-- sleep_releasing on core `c` up to the unlock of the mutex; `state` is `stopped` or `exited`. The
-- call of yield follows.
unfoldable pub sleep_releasing : ℕ → ThreadState → ℕ → Scheduler → Scheduler
unfolding register_unless_exited
sleep_releasing c state timeout s =
    let t = s.current c in
    register_unless_exited state t timeout (set_tcb t (record (s.tcb t) { state = state }) s)

-- The first `switch` of yield: the state that the thread has then, and `current_ready`.
unfoldable pub yield_state : ThreadState → ThreadState × Bool
yield_state running = (ready, true)
yield_state ready = (ready, true)
yield_state st = (st, false)

unfoldable pub choose_next : Option ℕ → Bool → ℕ → ℕ → ℕ
choose_next (some t) current_ready t0 idle = t
choose_next none true t0 idle = t0
choose_next none false t0 idle = idle

unfoldable pub yield_select : ℕ → Scheduler → Scheduler
unfolding yield_state choose_next
yield_select c s =
    let t0 = s.current c in
    let (st, current_ready) = yield_state (s.tcb t0).state in
    let (r, s2) = sched_queue_select (set_tcb t0 (record (s.tcb t0) { state = st }) s) in
    let next = choose_next r current_ready t0 (s.idle c) in
    record (set_tcb next (record (s2.tcb next) { prev = t0 }) s2) {
      current = update s2.current c next;
    }

queue_normal : ThreadType → ℕ → Scheduler → Scheduler
unfolding sched_queue_add
queue_normal idle_thread t s = s
queue_normal normal_thread t s = sched_queue_add t s

-- The `switch` of gain on the state of the previous thread.
settle_prev : ThreadState → ℕ → Scheduler → Scheduler
unfolding queue_normal release_tcb
settle_prev ready p s = queue_normal (s.tcb p).type p s
settle_prev exited p s = release_tcb p s
settle_prev _ p s = s

unfoldable pub gain : ℕ → Scheduler → Scheduler
unfolding settle_prev
gain c s =
    let t = s.current c in
    let p = (s.tcb t).prev in
    let s1 = set_tcb t (record (s.tcb t) { state = running; phase = ctx_dirty }) s in
    if t == p
    then s1
    else settle_prev (s1.tcb p).state p (set_tcb p (record (s1.tcb p) { phase = ctx_clean }) s1)
