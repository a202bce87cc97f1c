-- ===== src/Tests/Timers.antt =====
-- The timeouts of the scheduler at a concrete state.
use tiny_os.Prelude.{ℕ, ◌≡◌, refl, [], ◌∷◌, arith, update}
use tiny_os.Sched.{
  Tcb, Scheduler, normal_thread, stopped, running, ctx_clean, ctx_dirty, no_timeout,
  sched_queue_select, pop_sched,
}
use tiny_os.Sched.Timeouts.{Timeouts}
use tiny_os.Sched.Woken.{Woken, sched_queue_select-Woken}

-- A thread that runs.
abbrev busy : Tcb
busy = record {
  type = normal_thread;
  state = running;
  phase = ctx_dirty;
  wakeup_time = no_timeout;
  prev = 0;
}

abbrev asleep_until : ℕ → Tcb
asleep_until w = record {
  type = normal_thread;
  state = stopped;
  phase = ctx_clean;
  wakeup_time = w;
  prev = 0;
}

-- At time 7, thread 1 sleeps until 5 and thread 2 until 10.
abbrev two_asleep : Scheduler
two_asleep = record {
  tcb = update (update (λ t. busy) 1 (asleep_until 5)) 2 (asleep_until 10);
  sched = [];
  timeout_list = 1 ∷ 2 ∷ [];
  current = λ c. 3;
  idle = λ c. 0;
  clock = 7;
  active_threads = 3;
  freed = [];
}

two_asleep-Timeouts : Timeouts two_asleep
two_asleep-Timeouts = record {
  sorted = (λ u i. ground arith, (λ u i. ground arith, tt));
  distinct = (refl, (refl, tt));
  listed = λ t. ground arith;
}

sched_queue_select-Woken_example :
    (s' : Scheduler) × Woken two_asleep s' × (sched_queue_select two_asleep ≡ pop_sched s'.sched s')
sched_queue_select-Woken_example =
    sched_queue_select-Woken two_asleep (omega arith) two_asleep-Timeouts
