-- ===== src/Sched/Sound.antt =====
-- The invariant of the scheduler on several cores (kernel_sched.c).
pub mod Elsewhere
pub mod Settle
pub mod Wake
pub mod Moves
pub mod Sleep
pub mod Begin
pub mod Link
pub mod Select
pub mod Gain
use tiny_os.Prelude.{
  ℕ, zero, suc, ◌≡◌, ◌==◌, ◌&&◌, ◌||◌, Bool, true, false, not, Distinct, has, refl, arith,
  if◌then◌else◌, sym, subst, ap, ◌∙◌,
}
use tiny_os.Sched.{
  Tcb, Scheduler, ThreadState, init, ready, running, stopped, exited, ctx_clean, ctx_dirty,
  idle_thread, normal_thread, can_wake, initialize_scheduler, no_timeout,
}
use tiny_os.Sched.Timeouts.{Timeouts, Sorted}
use tiny_os.Sched.Steps.{
  Stage, System, starting, runs, slept, switches, finished, occupies, is_normal, is_ready, is_dirty,
  holds, Initial,
}

abbrev pub is_stopped : ThreadState → Bool
is_stopped stopped = true
is_stopped _ = false

abbrev pub is_running : ThreadState → Bool
is_running running = true
is_running _ = false

-- The states that a thread has when its core switches from it.
abbrev pub is_settled : ThreadState → Bool
is_settled init = false
is_settled running = false
is_settled _ = true

abbrev pub is_starting : Stage → Bool
is_starting starting = true
is_starting _ = false

-- What the stage of a core says of its current thread and of the one that it switches from.
abbrev pub Fits : Stage → Tcb → Tcb → Bool → Type 0
Fits starting now prev same = Unit {0}
Fits runs now prev same = (is_running now.state ≡ true) × (is_dirty now.phase ≡ true)
Fits slept now prev same = (is_settled now.state ≡ true) × (is_dirty now.phase ≡ true)
Fits switches now prev same =
    (is_ready now.state ≡ true)
    × ((same ≡ false → (is_settled prev.state ≡ true) × (is_dirty now.phase ≡ false)))
Fits finished now prev same = is_running now.state ≡ true

-- `owner t` is 0 if no core has the thread, and `suc c` if core `c` has it.
pub record Sound (k : System) (owner : ℕ → ℕ) : Type 0 where
  pub owned : (c t : ℕ) → occupies k c t ≡ (owner t == suc c)
  pub queued :
      (t : ℕ)
      → has t k.s.sched
        ≡ (is_normal (k.s.tcb t).type && (is_ready (k.s.tcb t).state && (owner t == 0)))
  pub once : Distinct k.s.sched
  pub clean : (t : ℕ) → owner t ≡ 0 → is_dirty (k.s.tcb t).phase ≡ false
  pub dirty :
      (t : ℕ) → can_wake (k.s.tcb t).state ≡ true → is_dirty (k.s.tcb t).phase ≡ not (owner t == 0)
  pub wakeable : (t : ℕ) → can_wake (k.s.tcb t).state ≡ true → is_normal (k.s.tcb t).type ≡ true
  pub asleep : (t : ℕ) → has t k.s.timeout_list ≡ true → is_stopped (k.s.tcb t).state ≡ true
  pub timeouts : Timeouts k.s
  pub fits :
      (c : ℕ)
      → Fits
          (k.stage c)
          (k.s.tcb (k.s.current c))
          (k.s.tcb (k.s.tcb (k.s.current c)).prev)
          (k.s.current c == (k.s.tcb (k.s.current c)).prev)
  -- The idle thread of a core belongs to no other, and is ready when its core does not have it.
  pub idles : (c d : ℕ) → (k.s.idle c == k.s.idle d) ≡ (c == d)
  pub idle_home : (c : ℕ) → (owner (k.s.idle c) == 0) ≡ false → owner (k.s.idle c) ≡ suc c
  pub idle_type :
      (c : ℕ) → is_starting (k.stage c) ≡ false → is_normal (k.s.tcb (k.s.idle c)).type ≡ false
  pub idle_state :
      (c : ℕ)
      → is_starting (k.stage c) ≡ false
      → (is_running (k.s.tcb (k.s.idle c)).state || is_ready (k.s.tcb (k.s.idle c)).state) ≡ true
  pub idle_ready :
      (c : ℕ)
      → is_starting (k.stage c) ≡ false
      → owner (k.s.idle c) ≡ 0
      → is_ready (k.s.tcb (k.s.idle c)).state ≡ true
  pub idle_none : (c : ℕ) → is_starting (k.stage c) ≡ true → (k.s.tcb (k.s.idle c)).state ≡ exited

-- What Fits needs when the threads of a core change.
pub record Keeps (now now' prev prev' : Tcb) : Type 0 where
  pub running : is_running now.state ≡ true → is_running now'.state ≡ true
  pub settled : is_settled now.state ≡ true → is_settled now'.state ≡ true
  pub ready : is_ready now.state ≡ true → is_ready now'.state ≡ true
  pub phase : is_dirty now'.phase ≡ is_dirty now.phase
  pub before : is_settled prev.state ≡ true → is_settled prev'.state ≡ true

pub Fits-Keeps :
    (st : Stage) (now now' prev prev' : Tcb) (same : Bool)
    → Keeps now now' prev prev'
    → Fits st now prev same
    → Fits st now' prev' same
Fits-Keeps starting now now' prev prev' same h f = tt
Fits-Keeps runs now now' prev prev' same h f = ground (arith, h.running, h.phase, f)
Fits-Keeps slept now now' prev prev' same h f = ground (arith, h.settled, h.phase, f)
Fits-Keeps switches now now' prev prev' same h (a, f) =
    (h.ready a, λ apart. let (b, d) = f apart in (h.before b, h.phase ∙ d))
Fits-Keeps finished now now' prev prev' same h f = h.running f

-- Where the cores and the links between threads stay, threads change as Keeps says.
module _ (k : System) (s' : Scheduler) (current : s'.current ≡ k.s.current)
    (prev : (u : ℕ) → (s'.tcb u).prev ≡ (k.s.tcb u).prev) where
  pub occupies-same : (c u : ℕ) → occupies (record k { s = s' }) c u ≡ occupies k c u
  occupies-same c u =
      ap (λ f. holds (k.stage c) (f c) (s'.tcb (f c)).prev u) current
      ∙ ap (λ p. holds (k.stage c) (k.s.current c) p u) (prev (k.s.current c))

  pub Fits-same :
      (c : ℕ)
      → Keeps
          (k.s.tcb (k.s.current c))
          (s'.tcb (k.s.current c))
          (k.s.tcb (k.s.tcb (k.s.current c)).prev)
          (s'.tcb (k.s.tcb (k.s.current c)).prev)
      → Fits
          (k.stage c)
          (k.s.tcb (k.s.current c))
          (k.s.tcb (k.s.tcb (k.s.current c)).prev)
          (k.s.current c == (k.s.tcb (k.s.current c)).prev)
      → Fits
          (k.stage c)
          (s'.tcb (s'.current c))
          (s'.tcb (s'.tcb (s'.current c)).prev)
          (s'.current c == (s'.tcb (s'.current c)).prev)
  Fits-same c keeps f =
      subst
        (λ f.
          Fits (k.stage c) (s'.tcb (f c)) (s'.tcb (s'.tcb (f c)).prev) (f c == (s'.tcb (f c)).prev))
        (sym current)
        (subst (λ p. Fits (k.stage c) (s'.tcb (k.s.current c)) (s'.tcb p) (k.s.current c == p))
          (sym (prev (k.s.current c))) (Fits-Keeps (k.stage c) _ _ _ _ _ keeps f))

-- Before the cores start.
pub Initial-Sound : (k : System) → Initial k → Sound k (λ t. 0)
unfolding initialize_scheduler
Initial-Sound k i = record {
  owned = λ c t. ground (arith, i.stage c);
  queued = λ t. ground (arith, i.state t, empty_queue t);
  once = subst (λ l. Distinct l) (ap (λ s. s.sched) i.scheduler) tt;
  clean = λ t e. ground (arith, i.phase t);
  dirty = λ t e. ground (arith, i.state t, i.phase t);
  wakeable = λ t e. absurd (unfold can_wake in ground (arith, i.state t));
  asleep = λ t e. absurd (ground (arith, empty_list t));
  timeouts = record {
    sorted = subst (λ l. Sorted k.s.tcb l) (ap (λ s. s.timeout_list) i.scheduler) tt;
    distinct = subst (λ l. Distinct l) (ap (λ s. s.timeout_list) i.scheduler) tt;
    listed = λ t. ground (arith, empty_list t, i.wakeup_time t);
  };
  fits = λ c. fit (k.stage c) (i.stage c) _ _ _;
  idles = i.idle;
  idle_home = λ c e. absurd (cc);
  idle_type = λ c e. absurd (ground (arith, i.stage c));
  idle_state = λ c e. absurd (ground (arith, i.stage c));
  idle_ready = λ c e. absurd (ground (arith, i.stage c));
  idle_none = λ c e. i.state (k.s.idle c);
}
  where
    empty_queue : (t : ℕ) → has t k.s.sched ≡ false
    empty_queue t = ap (λ s. has t s.sched) (sym i.scheduler)

    empty_list : (t : ℕ) → has t k.s.timeout_list ≡ false
    empty_list t = ap (λ s. has t s.timeout_list) (sym i.scheduler)

    fit : (st : Stage) → st ≡ starting → (now prev : Tcb) (same : Bool) → Fits st now prev same
    fit st e now prev same = subst (λ q. Fits q now prev same) (sym e) tt
