-- ===== src/Sched/Steps.antt =====
-- The scheduler of kernel_sched.c on several cores, as a step relation: each step is what one core does
-- while it holds `sched_spinlock`, and any core may take the next one.
use tiny_os.Prelude.{ℕ, ◌+◌, ◌%◌, ◌^◌, ◌≡◌, Bool, true, false, ◌==◌, ◌||◌, update}
use tiny_os.Sched.{
  Scheduler, ThreadState, ThreadType, ThreadPhase, ready, stopped, exited, ctx_clean, ctx_dirty,
  idle_thread, normal_thread, no_timeout, spawn_thread, wakeup, sleep_releasing, yield_select, gain,
  run_scheduler, idle_continues, initialize_scheduler,
}

-- Where a core is: not yet in run_scheduler; running its current thread; between the sleep of its
-- thread and the call of yield; between the selection of the next thread and gain; or out of the
-- scheduler again.
pub data Stage : Type 0 where
  starting runs slept switches finished : Stage

pub record System : Type 0 where
  pub s : Scheduler
  pub stage : ℕ → Stage

abbrev pub move_to : ℕ → Stage → Scheduler → System → System
move_to c st s' k = record { s = s'; stage = update k.stage c st }

abbrev pub holds : Stage → ℕ → ℕ → ℕ → Bool
holds starting current prev t = false
holds runs current prev t = current == t
holds slept current prev t = current == t
holds switches current prev t = (current == t) || (prev == t)
holds finished current prev t = current == t

-- Core `c` has the thread `t`: it is its current one, or the one that it is switching from.
abbrev pub occupies : System → ℕ → ℕ → Bool
occupies k c t = holds (k.stage c) (k.s.current c) (k.s.tcb (k.s.current c)).prev t

abbrev pub is_normal : ThreadType → Bool
is_normal normal_thread = true
is_normal idle_thread = false

abbrev pub is_ready : ThreadState → Bool
is_ready ready = true
is_ready _ = false

abbrev pub is_dirty : ThreadPhase → Bool
is_dirty ctx_dirty = true
is_dirty ctx_clean = false

pub data Step (k : System) : System → Type 0 where
  starts : (c : ℕ) → k.stage c ≡ starting → Step k (move_to c runs (run_scheduler c k.s) k)
  -- The thread has no memory yet, or its memory was given back.
  spawns :
      (t : ℕ)
      → (k.s.tcb t).state ≡ exited
      → ((c : ℕ) → occupies k c t ≡ false)
      → ((c : ℕ) → (k.s.idle c == t) ≡ false)
      → Step k (record k { s = spawn_thread t k.s })
  wakes : (t : ℕ) → Step k (record k { s = (wakeup t k.s).1 })
  -- Only normal threads sleep.
  stops :
      (c timeout : ℕ)
      → k.stage c ≡ runs
      → (k.s.tcb (k.s.current c)).type ≡ normal_thread
      → (((k.s.clock + timeout) % 2 ^ 64) == no_timeout) ≡ false
      → Step k (move_to c slept (sleep_releasing c stopped timeout k.s) k)
  exits :
      (c : ℕ)
      → k.stage c ≡ runs
      → (k.s.tcb (k.s.current c)).type ≡ normal_thread
      → Step k (move_to c slept (sleep_releasing c exited no_timeout k.s) k)
  yields : (c : ℕ) → k.stage c ≡ runs → Step k (move_to c switches (yield_select c k.s) k)
  yields_asleep : (c : ℕ) → k.stage c ≡ slept → Step k (move_to c switches (yield_select c k.s) k)
  gains : (c : ℕ) → k.stage c ≡ switches → Step k (move_to c runs (gain c k.s) k)
  -- The idle thread leaves the scheduler.
  finishes :
      (c : ℕ)
      → k.stage c ≡ runs
      → (k.s.current c == k.s.idle c) ≡ true
      → idle_continues k.s ≡ false
      → Step k (move_to c finished k.s k)
  ticks : (d : ℕ) → Step k (record k { s = record k.s { clock = (k.s.clock + d) % 2 ^ 64 } })

pub data Reaches (k : System) : System → Type 0 where
  here : Reaches k k
  after : {k' k'' : System} → Reaches k k' → Step k' k'' → Reaches k k''

-- Before any core runs the scheduler there is no thread.
pub record Initial (k : System) : Type 0 where
  pub stage : (c : ℕ) → k.stage c ≡ starting
  pub scheduler : initialize_scheduler k.s ≡ k.s
  pub state : (t : ℕ) → (k.s.tcb t).state ≡ exited
  pub phase : (t : ℕ) → (k.s.tcb t).phase ≡ ctx_clean
  pub wakeup_time : (t : ℕ) → (k.s.tcb t).wakeup_time ≡ no_timeout
  pub idle : (c d : ℕ) → (k.s.idle c == k.s.idle d) ≡ (c == d)
