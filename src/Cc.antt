-- ===== src/Cc.antt =====
-- kernel_cc.c: mutexes, condition variables, preemption and the kernel lock. A waiter is named by
-- the address of its ring node. What runs with `waitset_lock` held is one step, so that lock is not
-- in the state; a thread spins on a mutex until test_and_set finds it clear.
pub mod Waiters
pub mod Others
pub mod Signal
pub mod Broadcast
use tiny_os.Prelude.{
  ℕ, zero, suc, ◌+◌, ◌*◌, ◌%◌, ◌^◌, Bool, true, false, Option, none, some, ◌==◌, ltb, update,
  if◌then◌else◌,
}
use tiny_os.Rings.{Nodes, rlnode_init, rlist_push_back, rlist_remove}
use tiny_os.Sched.{Scheduler, stopped, no_timeout, wakeup, sleep_releasing}

-- __cv_waiter, but for its node
pub record Waiter : Type 0 where
  pub thread : ℕ
  pub signalled : Bool
  pub removed : Bool

-- `waitset` gives the first waiter of each condition variable, `locked` the mutexes.
pub record Cc : Type 0 where
  pub nodes : Nodes
  pub waiter : ℕ → Waiter
  pub waitset : ℕ → Option ℕ
  pub locked : ℕ → Bool
  pub scheduler : Scheduler

-- `__atomic_test_and_set`: true if the mutex was locked already, and the loop goes on.
unfoldable pub test_and_set : ℕ → Cc → Bool × Cc
test_and_set mx s = (s.locked mx, record s { locked = update s.locked mx true })

unfoldable pub mutex_unlock : ℕ → Cc → Cc
mutex_unlock mx s = record s { locked = update s.locked mx false }

unfoldable pub advance_waitset : Option ℕ → ℕ → ℕ → Cc → Cc
advance_waitset none cv w s = s
advance_waitset (some first) cv w s =
    if first == w
    then record s {
      waitset =
          update s.waitset cv
            (let nextw = s.nodes.key (s.nodes.next w) in if nextw == w then none else some nextw);
    }
    else s

unfoldable pub remove_from_ring : ℕ → ℕ → Cc → Cc
unfolding advance_waitset
remove_from_ring cv w s =
    let s1 = advance_waitset (s.waitset cv) cv w s in record s1 { nodes = rlist_remove w s1.nodes }

unfoldable pub enqueue : Option ℕ → ℕ → ℕ → Cc → Cc
enqueue (some wset) cv w s = record s { nodes = rlist_push_back wset w s.nodes }
enqueue none cv w s = record s { waitset = update s.waitset cv (some w) }

-- cv_wait up to the sleep, by the thread on core `c`, with a waiter at `w`.
unfoldable pub cv_wait_begin : ℕ → ℕ → ℕ → ℕ → ℕ → Cc → Cc
unfolding enqueue mutex_unlock
cv_wait_begin c mx cv w timeout s =
    let s1 = record s {
      nodes = rlnode_init w w s.nodes;
      waiter =
          update s.waiter w
            (record { thread = s.scheduler.current c; signalled = false; removed = false });
    } in
    let s2 = mutex_unlock mx (enqueue (s1.waitset cv) cv w s1) in
    record s2 { scheduler = sleep_releasing c stopped timeout s2.scheduler }

-- cv_wait after the sleep, up to the lock of the mutex; `none` is a failed assertion.
unfoldable pub cv_wait_end : ℕ → ℕ → Cc → Option (Bool × Cc)
cv_wait_end cv w s =
    if (s.waiter w).removed
    then some ((s.waiter w).signalled, s)
    else (if (s.waiter w).signalled
        then none
        else some ((s.waiter w).signalled, remove_from_ring cv w s))

-- What follows the call of wakeup in the body of the loop of cv_signal: whether it returns.
unfoldable pub signalled_if : ℕ → Bool × Scheduler → Cc → Bool × Cc
signalled_if w (true, sched) s = (
  true,
  record s {
    waiter = update s.waiter w (record (s.waiter w) { signalled = true });
    scheduler = sched;
  },
)
signalled_if w (false, sched) s = (false, record s { scheduler = sched })

-- The body of the loop, for the waiter `w`.
unfoldable pub signal_one : ℕ → ℕ → Cc → Bool × Cc
unfolding signalled_if
signal_one cv w s =
    let s1 = remove_from_ring cv w s in
    let s2 = record s1 { waiter = update s1.waiter w (record (s1.waiter w) { removed = true }) } in
    signalled_if w (wakeup (s2.waiter w).thread s2.scheduler) s2

unfoldable pub signal_at : Option ℕ → ℕ → (Cc → Option Cc) → Cc → Option Cc
signal_at none cv more s = some s
signal_at (some w) cv more s =
    let (returns, s') = signal_one cv w s in if returns then some s' else more s'

-- The loop of cv_signal, for at most `fuel` waiters.
unfoldable pub cv_signal : ℕ → ℕ → Cc → Option Cc
unfolding signal_at
cv_signal zero cv s = none
cv_signal (suc fuel) cv s = signal_at (s.waitset cv) cv (λ s'. cv_signal fuel cv s') s

unfoldable pub cond_wait_begin : ℕ → ℕ → ℕ → ℕ → Cc → Cc
cond_wait_begin c mx cv w s = cv_wait_begin c mx cv w no_timeout s

-- The timeout is in milliseconds; the product has 64 bits.
unfoldable pub cond_timed_wait_begin : ℕ → ℕ → ℕ → ℕ → ℕ → Cc → Cc
cond_timed_wait_begin c mx cv w timeout s = cv_wait_begin c mx cv w (timeout * 1000 % 2 ^ 64) s

unfoldable pub cond_signal : ℕ → ℕ → Cc → Option Cc
cond_signal fuel cv s = cv_signal fuel cv s

unfoldable pub broadcast_at : Option ℕ → (Cc → Option Cc) → Option Cc → Cc → Option Cc
broadcast_at none more o s = some s
broadcast_at (some w) more none s = none
broadcast_at (some w) more (some s') s = more s'

-- Cond_Broadcast, with the same fuel for each round of its loop.
unfoldable pub cond_broadcast : ℕ → ℕ → ℕ → Cc → Option Cc
unfolding broadcast_at
cond_broadcast zero fuel cv s = none
cond_broadcast (suc rounds) fuel cv s =
    broadcast_at (s.waitset cv) (λ s'. cond_broadcast rounds fuel cv s') (cv_signal fuel cv s) s
