-- ===== src/Tests/Lists.antt =====
-- The lists of util.h and the condition variables of kernel_cc.c at concrete states.
use tiny_os.Prelude.{
  ℕ, suc, ◌-◌, ◌≡◌, refl, Bool, true, false, none, some, [], ◌∷◌, arith, ◌==◌, count, map, ◌↔◌,
  if◌then◌else◌, ltb,
}
use tiny_os.Rings.{
  Nodes, rlist_remove, rlist_pop_back, rlist_append, rlist_select, rlist_reverse, rlist_equal,
}
use tiny_os.Rings.Splice.{Ring}
use tiny_os.Rings.Push.{Apart}
use tiny_os.Rings.Lists.{Removed, rlist_remove-Removed, rlist_pop_back-Ring, rlist_append-Ring}
use tiny_os.Rings.Select.{rlist_select-Ring}
use tiny_os.Rings.Reverse.{rlist_reverse-Ring}
use tiny_os.Rings.Walks.{rlist_equal_lem}
use tiny_os.Sched.{Tcb, normal_thread, stopped, ctx_clean, no_timeout}
use tiny_os.Cc.{Cc, cv_signal, cond_broadcast, cv_wait_begin}
use tiny_os.Cc.Waiters.{Waits, Waiting, cv_wait_begin-Waits}
use tiny_os.Cc.Signal.{Shows, signal_first, cv_signal-Shows}
use tiny_os.Cc.Broadcast.{broadcast_all, cond_broadcast-Shows}

-- The lists [1, 2, 3] of sentinel 0 and [5] of sentinel 4; a node's key is its address.
abbrev next_of : ℕ → ℕ
next_of u = if u == 3 then 0 else (if u == 5 then 4 else suc u)

abbrev prev_of : ℕ → ℕ
prev_of u = if u == 0 then 3 else (if u == 4 then 5 else u - 1)

abbrev two_lists : Nodes
two_lists = record { key = λ u. u; prev = prev_of; next = next_of }

long : Ring two_lists 0 (1 ∷ 2 ∷ 3 ∷ [])
unfolding count
long = record {
  once = λ u. ground arith;
  start = (refl, refl);
  links = ((refl, refl), ((refl, refl), ((refl, refl), tt)));
}

short : Ring two_lists 4 (5 ∷ [])
unfolding count
short = record { once = λ u. ground arith; start = (refl, refl); links = ((refl, refl), tt) }

apart : Apart 0 (1 ∷ 2 ∷ 3 ∷ []) 4 (5 ∷ [])
unfolding count
apart u = ground arith

rlist_remove-Removed_example : Removed two_lists (rlist_remove 2 two_lists) 2 0 (1 ∷ []) (3 ∷ [])
rlist_remove-Removed_example = rlist_remove-Removed two_lists 2 0 (1 ∷ []) (3 ∷ []) long

rlist_pop_back-Ring_example :
    ((rlist_pop_back 0 two_lists).0 ≡ 3)
    × Ring (rlist_pop_back 0 two_lists).1 0 []
    × Ring (rlist_pop_back 0 two_lists).1 3 (1 ∷ 2 ∷ [])
rlist_pop_back-Ring_example = rlist_pop_back-Ring two_lists 0 3 (1 ∷ 2 ∷ []) long

rlist_append-Ring_example :
    Ring (rlist_append 0 4 two_lists) 0 (1 ∷ 2 ∷ 3 ∷ 5 ∷ [])
    × Ring (rlist_append 0 4 two_lists) 4 []
rlist_append-Ring_example =
    rlist_append-Ring two_lists 0 4 (1 ∷ 2 ∷ 3 ∷ []) (5 ∷ []) apart long short

rlist_select-Ring_example :
    (m' : Nodes) × (rlist_select 4 0 4 (λ x. ltb x 3) two_lists ≡ some m')
    × Ring m' 0 (3 ∷ [])
    × Ring m' 4 (5 ∷ 1 ∷ 2 ∷ [])
rlist_select-Ring_example =
    rlist_select-Ring 0 4 (λ x. ltb x 3) two_lists (1 ∷ 2 ∷ 3 ∷ []) (5 ∷ []) 4 long short apart
      (omega arith)

rlist_reverse-Ring_example :
    (m' : Nodes) × (rlist_reverse 4 0 two_lists ≡ some m') × Ring m' 0 (3 ∷ 2 ∷ 1 ∷ [])
rlist_reverse-Ring_example = rlist_reverse-Ring two_lists 0 (1 ∷ 2 ∷ 3 ∷ []) 4 long (omega arith)

rlist_equal_lem_example :
    (b : Bool) × (rlist_equal 4 0 4 two_lists ≡ some b)
    × ((b ≡ true) ↔ (map two_lists.key (1 ∷ 2 ∷ 3 ∷ []) ≡ map two_lists.key (5 ∷ [])))
rlist_equal_lem_example =
    rlist_equal_lem two_lists 0 4 (1 ∷ 2 ∷ 3 ∷ []) (5 ∷ []) 4 long short (omega arith)

-- Threads 1 and 2 wait on the condition variable 9, with their waiters at 1 and 2.
abbrev asleep : Tcb
asleep = record {
  type = normal_thread;
  state = stopped;
  phase = ctx_clean;
  wakeup_time = no_timeout;
  prev = 0;
}

abbrev two_waiters : Cc
two_waiters = record {
  nodes = record {
    key = λ u. u;
    prev = λ u. if u == 1 then 2 else 1;
    next = λ u. if u == 1 then 2 else 1;
  };
  waiter = λ w. record { thread = w; signalled = false; removed = false };
  waitset = λ cv. if cv == 9 then some 1 else none;
  locked = λ mx. true;
  scheduler = record {
    tcb = λ t. asleep;
    sched = [];
    timeout_list = [];
    current = λ c. 3;
    idle = λ c. 0;
    clock = 0;
    active_threads = 3;
    freed = [];
  };
}

two_waiters-Waits : Waits two_waiters 9 (1 ∷ 2 ∷ [])
two_waiters-Waits = record {
  waitset = refl;
  ring =
      unfold count in
      record { once = λ u. ground arith; start = (refl, refl); links = ((refl, refl), tt) };
  keys = λ u i. refl;
}

cv_signal-Shows_example :
    (s' : Cc) × (cv_signal 3 9 two_waiters ≡ some s')
    × Shows two_waiters s' 9
        (1 ∷ 2 ∷ [])
        (signal_first (1 ∷ 2 ∷ []) two_waiters.waiter two_waiters.scheduler)
cv_signal-Shows_example =
    cv_signal-Shows 3 two_waiters 9 (1 ∷ 2 ∷ []) two_waiters-Waits (omega arith)

cond_broadcast-Shows_example :
    (s' : Cc) × (cond_broadcast 3 3 9 two_waiters ≡ some s')
    × Shows two_waiters s' 9
        (1 ∷ 2 ∷ [])
        (broadcast_all (1 ∷ 2 ∷ []) two_waiters.waiter two_waiters.scheduler)
    × Waits s' 9 []
cond_broadcast-Shows_example =
    cond_broadcast-Shows 3 3 two_waiters 9 (1 ∷ 2 ∷ []) two_waiters-Waits (omega arith)
      (omega arith)

cv_wait_begin-Waits_example :
    Waiting two_waiters
      (cv_wait_begin 0 8 9 3 no_timeout two_waiters)
      0
      8
      9
      3
      no_timeout
      (1 ∷ 2 ∷ [])
unfolding count
cv_wait_begin-Waits_example =
    cv_wait_begin-Waits two_waiters 0 8 9 3 no_timeout (1 ∷ 2 ∷ []) two_waiters-Waits refl
