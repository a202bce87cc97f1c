-- ===== src/Sched/Cores.antt =====
-- The scheduler on several cores, from the start (kernel_sched.c): whatever the cores do, and in
-- whatever order, no thread is on two cores and no ready thread is lost.
use tiny_os.Prelude.{ℕ, ◌≡◌, ◌==◌, true, false, Distinct, has, arith, subst}
use tiny_os.Sched.{ready, running, stopped, ctx_clean, normal_thread, no_timeout}
use tiny_os.Sched.Steps.{
  System, Step, Reaches, Initial, runs, slept, switches, occupies, starts, spawns, wakes, stops,
  exits, yields, yields_asleep, gains, finishes, ticks, here, after,
}
use tiny_os.Sched.Sound.{Sound, Fits, is_settled, Initial-Sound}
use tiny_os.Sched.Sound.Elsewhere.{owner-free}
use tiny_os.Sched.Sound.Wake.{wakeup-Sound}
use tiny_os.Sched.Sound.Select.{yield_select-Sound}
use tiny_os.Sched.Sound.Gain.{gain-Sound}
use tiny_os.Sched.Sound.Moves.{ticks-Sound, finishes-Sound, now_runs}
use tiny_os.Sched.Sound.Sleep.{stops-Sound, exits-Sound}
use tiny_os.Sched.Sound.Begin.{spawns-Sound, starts-Sound}

Sound-switches :
    {k : System} {owner : ℕ → ℕ}
    → Sound k owner
    → (c : ℕ) → k.stage c ≡ switches
    → Fits switches
        (k.s.tcb (k.s.current c))
        (k.s.tcb (k.s.tcb (k.s.current c)).prev)
        (k.s.current c == (k.s.tcb (k.s.current c)).prev)
Sound-switches {k} h c at =
    subst
      (λ q.
        Fits q (k.s.tcb (k.s.current c)) (k.s.tcb (k.s.tcb (k.s.current c)).prev)
          (k.s.current c == (k.s.tcb (k.s.current c)).prev))
      at (h.fits c)

Sound-slept :
    {k : System} {owner : ℕ → ℕ}
    → Sound k owner
    → (c : ℕ) → k.stage c ≡ slept
    → Fits slept
        (k.s.tcb (k.s.current c))
        (k.s.tcb (k.s.tcb (k.s.current c)).prev)
        (k.s.current c == (k.s.tcb (k.s.current c)).prev)
Sound-slept {k} h c at =
    subst
      (λ q.
        Fits q (k.s.tcb (k.s.current c)) (k.s.tcb (k.s.tcb (k.s.current c)).prev)
          (k.s.current c == (k.s.tcb (k.s.current c)).prev))
      at (h.fits c)

Step-Sound :
    {k k' : System} {owner : ℕ → ℕ} → Step k k' → Sound k owner → (owner' : ℕ → ℕ) × Sound k' owner'
Step-Sound (starts c at) h = (_, starts-Sound h c at)
Step-Sound (spawns t dead free not_idle) h = (_, spawns-Sound h t dead free not_idle)
Step-Sound (wakes t) h = (_, wakeup-Sound t h)
Step-Sound (stops c timeout at normal real) h = (_, stops-Sound h c at normal timeout real)
Step-Sound (exits c at normal) h = (_, exits-Sound h c at normal)
Step-Sound (yields c at) h = yield_select-Sound h c (ground (arith, at))
Step-Sound (yields_asleep c at) h = yield_select-Sound h c (ground (arith, at))
Step-Sound (gains c at) h = (_, gain-Sound h c at)
Step-Sound (finishes c at idle ends) h = (_, finishes-Sound h c at)
Step-Sound (ticks d) h = (_, ticks-Sound h d)

Reaches-Sound : {k k' : System} → Initial k → Reaches k k' → (owner : ℕ → ℕ) × Sound k' owner
Reaches-Sound i here = (λ t. 0, Initial-Sound _ i)
Reaches-Sound i (after run step) = let (owner, h) = Reaches-Sound i run in Step-Sound step h

module _ {k k' : System} (i : Initial k) (run : Reaches k k') where
  -- From the start of the scheduler, whatever the cores do and in whatever order: a thread that is on
  -- two cores is on one, where a core has its current thread and, between the selection of the next
  -- thread and gain, the one that it switches from.
  pub on_one_core : (c d t : ℕ) → occupies k' c t ≡ true → occupies k' d t ≡ true → c ≡ d
  on_one_core c d t on_c on_d =
      let (owner, h) = Reaches-Sound i run in ground (arith, h.owned c t, h.owned d t)

  -- From the start of the scheduler, whatever the cores do and in whatever order: the queue holds a
  -- thread exactly if it is a normal thread, READY, and no core has it; and it holds it once.
  pub no_lost_thread :
      Distinct k'.s.sched
      × ((t : ℕ)
          → (has t k'.s.sched ≡ true
              → ((k'.s.tcb t).type ≡ normal_thread)
                × ((k'.s.tcb t).state ≡ ready)
                × ((c : ℕ) → occupies k' c t ≡ false))
            × ((k'.s.tcb t).type ≡ normal_thread
                → (k'.s.tcb t).state ≡ ready
                → ((c : ℕ) → occupies k' c t ≡ false)
                → has t k'.s.sched ≡ true))
  no_lost_thread =
      let (owner, h) = Reaches-Sound i run in
      (
        h.once,
        λ t. (
          λ q. (
            ground (arith, h.queued t),
            ground (arith, h.queued t),
            λ c. ground (arith, h.queued t, h.owned c t),
          ),
          λ normal rdy free. ground (arith, h.queued t, normal, rdy, owner-free h t free),
        ),
      )

  -- From the start of the scheduler, whatever the cores do and in whatever order, the assertions of
  -- the scheduler hold: the threads of TIMEOUT_LIST are STOPPED, so that sched_make_ready takes
  -- them; a thread with a timeout is on TIMEOUT_LIST and STOPPED, so that it can be taken off;
  -- where a core is about to call yield, its thread is RUNNING, READY, STOPPED or EXITED, the
  -- states that yield has a case for; where a core is about to call gain, its next thread is READY,
  -- and if that is not the thread that it switches from, the next thread's context has been saved
  -- and the previous one is READY, STOPPED or EXITED; and a core that runs has a RUNNING thread.
  pub assertions_hold :
      ((t : ℕ) → has t k'.s.timeout_list ≡ true → (k'.s.tcb t).state ≡ stopped)
      × ((t : ℕ)
          → ((k'.s.tcb t).wakeup_time == no_timeout) ≡ false
          → (has t k'.s.timeout_list ≡ true) × ((k'.s.tcb t).state ≡ stopped))
      × ((c : ℕ) → k'.stage c ≡ slept → is_settled (k'.s.tcb (k'.s.current c)).state ≡ true)
      × ((c : ℕ)
          → k'.stage c ≡ switches
          → ((k'.s.tcb (k'.s.current c)).state ≡ ready)
            × ((k'.s.current c == (k'.s.tcb (k'.s.current c)).prev) ≡ false
                → ((k'.s.tcb (k'.s.current c)).phase ≡ ctx_clean)
                  × (is_settled (k'.s.tcb (k'.s.tcb (k'.s.current c)).prev).state ≡ true)))
      × ((c : ℕ) → k'.stage c ≡ runs → (k'.s.tcb (k'.s.current c)).state ≡ running)
  assertions_hold =
      let (owner, h) = Reaches-Sound i run in
      (
        λ t e. ground (arith, h.asleep t e),
        λ t timed. (
          ground (arith, h.timeouts.listed t, timed),
          ground (arith, h.asleep t, h.timeouts.listed t, timed),
        ),
        λ c at. (Sound-slept h c at).0,
        λ c at. (
          ground (arith, Sound-switches h c at),
          λ apart. (ground (arith, Sound-switches h c at), ground (arith, Sound-switches h c at)),
        ),
        λ c at. ground (arith, now_runs h c at),
      )
