-- ===== src/Tests/Turns.antt =====
-- Two cores that run a thread.
use tiny_os.Prelude.{ℕ, ◌+◌, ◌≡◌, ◌==◌, true, false, Distinct, has, refl, [], ◌∷◌, arith}
use tiny_os.Sched.{
  Tcb, normal_thread, stopped, running, ready, exited, ctx_clean, no_timeout, run_scheduler,
  initialize_scheduler, spawn_thread, wakeup, yield_select, gain, sched_make_ready, cancel_timeout,
  queue_clean, sched_queue_add, can_wake, wake_expired, sched_queue_select, pop_sched, choose_next,
  yield_state,
}
use tiny_os.Sched.Steps.{
  System, Reaches, Initial, starting, switches, runs, here, after, starts, spawns, wakes, yields,
  gains, move_to, occupies, slept,
}
use tiny_os.Sched.Sound.{is_settled}
use tiny_os.Sched.Cores.{on_one_core, no_lost_thread, assertions_hold}
use tiny_os.Sched.Fair.{no_starvation, is_selected, selections, selects}

abbrev unborn : Tcb
unborn = record {
  type = normal_thread;
  state = exited;
  phase = ctx_clean;
  wakeup_time = no_timeout;
  prev = 0;
}

-- The idle thread of core `c` is `c + 100`.
abbrev machine : System
machine = record {
  s = record {
    tcb = λ t. unborn;
    sched = [];
    timeout_list = [];
    current = λ c. 0;
    idle = λ c. c + 100;
    clock = 0;
    active_threads = 0;
    freed = [];
  };
  stage = λ c. starting;
}

machine-Initial : Initial machine
unfolding initialize_scheduler
machine-Initial = record {
  stage = λ c. refl;
  scheduler = refl;
  state = λ t. refl;
  phase = λ t. refl;
  wakeup_time = λ t. refl;
  idle = λ c d. ground arith;
}

-- Both cores have begun, and thread 1 waits for one of them.
abbrev begun : System
begun =
    let k1 = move_to 0 runs (run_scheduler 0 machine.s) machine in
    let k2 = move_to 1 runs (run_scheduler 1 k1.s) k1 in
    let k3 : System = record k2 { s = spawn_thread 1 k2.s } in record k3 { s = (wakeup 1 k3.s).1 }

begins : Reaches machine begun
unfolding run_scheduler spawn_thread
begins =
    after
      (after (after (after here (starts 0 refl)) (starts 1 refl))
        (spawns 1 refl (λ c. ground arith) (λ c. ground arith)))
      (wakes 1)

-- Core 1 turns from its idle thread to thread 1.
abbrev turning : System
turning = move_to 1 switches (yield_select 1 begun.s) begun

abbrev turned : System
turned = move_to 1 runs (gain 1 turning.s) turning

abbrev begins_turning : Reaches machine turning
begins_turning = after begins (yields 1 (ground arith))

abbrev turns : Reaches begun turned
turns = after (after here (yields 1 (ground arith))) (gains 1 (ground arith))

one_waits : begun.s.sched ≡ 1 ∷ []
unfolding run_scheduler spawn_thread wakeup sched_make_ready cancel_timeout queue_clean
    sched_queue_add can_wake yield_select yield_state sched_queue_select wake_expired pop_sched
    choose_next
one_waits = refl

one_turns : selections turns ≡ 1
unfolding selections selects
one_turns = refl

no_starvation_example : is_selected 1 turns ≡ true
no_starvation_example = no_starvation 1 [] [] turns one_waits (rw one_turns (omega arith))

on_core_one : occupies turning 1 1 ≡ true
unfolding run_scheduler spawn_thread wakeup sched_make_ready cancel_timeout queue_clean
    sched_queue_add can_wake yield_select yield_state sched_queue_select wake_expired pop_sched
    choose_next
on_core_one = refl

on_one_core_example : ◌≡◌ {A = ℕ} 1 1
on_one_core_example = on_one_core machine-Initial begins_turning 1 1 1 on_core_one on_core_one

no_lost_thread_example :
    Distinct begun.s.sched
    × ((t : ℕ)
        → (has t begun.s.sched ≡ true
            → ((begun.s.tcb t).type ≡ normal_thread)
              × ((begun.s.tcb t).state ≡ ready)
              × ((c : ℕ) → occupies begun c t ≡ false))
          × ((begun.s.tcb t).type ≡ normal_thread
              → (begun.s.tcb t).state ≡ ready
              → ((c : ℕ) → occupies begun c t ≡ false)
              → has t begun.s.sched ≡ true))
no_lost_thread_example = no_lost_thread machine-Initial begins

assertions_hold_example :
    ((t : ℕ) → has t turning.s.timeout_list ≡ true → (turning.s.tcb t).state ≡ stopped)
    × ((t : ℕ)
        → ((turning.s.tcb t).wakeup_time == no_timeout) ≡ false
        → (has t turning.s.timeout_list ≡ true) × ((turning.s.tcb t).state ≡ stopped))
    × ((c : ℕ)
        → turning.stage c ≡ slept
        → is_settled (turning.s.tcb (turning.s.current c)).state ≡ true)
    × ((c : ℕ)
        → turning.stage c ≡ switches
        → ((turning.s.tcb (turning.s.current c)).state ≡ ready)
          × ((turning.s.current c == (turning.s.tcb (turning.s.current c)).prev) ≡ false
              → ((turning.s.tcb (turning.s.current c)).phase ≡ ctx_clean)
                × (is_settled (turning.s.tcb (turning.s.tcb (turning.s.current c)).prev).state
                    ≡ true)))
    × ((c : ℕ) → turning.stage c ≡ runs → (turning.s.tcb (turning.s.current c)).state ≡ running)
assertions_hold_example = assertions_hold machine-Initial begins_turning
