-- ===== src/Sched/Sound/Sleep.antt =====
-- A thread goes to sleep or leaves: sleep_releasing keeps the scheduler sound (kernel_sched.c).
use tiny_os.Prelude.{
  ℕ, suc, ◌+◌, ◌%◌, ◌^◌, ◌≡◌, ◌==◌, ◌||◌, true, false, Distinct, has, refl, arith, sym, subst, ap,
  ◌∙◌,
}
use tiny_os.Sched.{
  Scheduler, stopped, exited, normal_thread, can_wake, no_timeout, sleep_releasing,
  register_unless_exited, sched_register_timeout,
}
use tiny_os.Sched.Timeouts.{sched_register_timeout-Timeouts, has-insert_timeout}
use tiny_os.Sched.Steps.{System, runs, slept, is_normal, is_ready, is_dirty, move_to}
use tiny_os.Sched.Sound.{Sound, Keeps, is_running, is_settled}
use tiny_os.Sched.Sound.{Fits-same, occupies-same}
use tiny_os.Sched.Sound.Elsewhere.{owner-current}
use tiny_os.Sched.Sound.Settle.{settle-Sound}
use tiny_os.Sched.Sound.Moves.{now_runs}

module _ {k : System} {owner : ℕ → ℕ} (h : Sound k owner) (t timeout : ℕ)
    (stops_now : (k.s.tcb t).state ≡ stopped) (untimed : (k.s.tcb t).wakeup_time ≡ no_timeout)
    (real : (((k.s.clock + timeout) % 2 ^ 64) == no_timeout) ≡ false) where
  abbrev timed : Scheduler
  timed = sched_register_timeout t timeout k.s

  -- What sched_register_timeout leaves of a thread.
  Untouched : ℕ → Type 0
  Untouched u =
      ((timed.tcb u).state ≡ (k.s.tcb u).state)
      × ((timed.tcb u).type ≡ (k.s.tcb u).type)
      × ((timed.tcb u).phase ≡ (k.s.tcb u).phase)
      × ((timed.tcb u).prev ≡ (k.s.tcb u).prev)

  untouched : (u : ℕ) → Untouched u
  unfolding Untouched sched_register_timeout
  untouched u = (ground arith, ground arith, ground arith, ground arith)

  listed-register :
      (u : ℕ) → has u timed.timeout_list ≡ true → (u == t) || has u k.s.timeout_list ≡ true
  unfolding sched_register_timeout
  listed-register u e =
      ground
        (arith, has-insert_timeout k.s.tcb t ((k.s.clock + timeout) % 2 ^ 64) u k.s.timeout_list)

  same_lists : (timed.sched ≡ k.s.sched) × (timed.current ≡ k.s.current) × (timed.idle ≡ k.s.idle)
  unfolding sched_register_timeout
  same_lists = (ground arith, ground arith, ground arith)

  Keeps-register :
      (c : ℕ)
      → Keeps
          (k.s.tcb (k.s.current c))
          (timed.tcb (k.s.current c))
          (k.s.tcb (k.s.tcb (k.s.current c)).prev)
          (timed.tcb (k.s.tcb (k.s.current c)).prev)
  unfolding Untouched
  Keeps-register c = record {
    running = λ e. ap is_running (untouched (k.s.current c)).0 ∙ e;
    settled = λ e. ap is_settled (untouched (k.s.current c)).0 ∙ e;
    ready = λ e. ap is_ready (untouched (k.s.current c)).0 ∙ e;
    phase = ap is_dirty (untouched (k.s.current c)).2;
    before = λ e. ap is_settled (untouched (k.s.tcb (k.s.current c)).prev).0 ∙ e;
  }

  prev_same : (u : ℕ) → (timed.tcb u).prev ≡ (k.s.tcb u).prev
  unfolding Untouched
  prev_same u = (untouched u).3

  -- A thread that is STOPPED and not listed may be listed.
  register-Sound : Sound (record k { s = timed }) owner
  unfolding Untouched can_wake
  register-Sound =
      let (sched_eq, current_eq, idle_eq) = same_lists in
      record {
        owned = λ c u. occupies-same k timed current_eq prev_same c u ∙ h.owned c u;
        queued = λ u. ground (arith, ap (has u) sched_eq, h.queued u, untouched u);
        once = subst (λ l. Distinct l) (sym sched_eq) h.once;
        clean = λ u e. ground (arith, h.clean u, untouched u);
        dirty = λ u e. ground (arith, h.dirty u, untouched u);
        wakeable = λ u e. ground (arith, h.wakeable u, untouched u);
        asleep = λ u e. ground (arith, listed-register u e, h.asleep u, untouched u);
        timeouts = sched_register_timeout-Timeouts t h.timeouts timeout untimed real;
        fits = λ c. Fits-same k timed current_eq prev_same c (Keeps-register c) (h.fits c);
        idles = λ c d. ap (λ f. f c == f d) idle_eq ∙ h.idles c d;
        idle_home = λ c.
            subst (λ f. (owner (f c) == 0) ≡ false → owner (f c) ≡ suc c) (sym idle_eq)
              (h.idle_home c);
        idle_type = λ c e.
            subst (λ f. is_normal (timed.tcb (f c)).type ≡ false) (sym idle_eq)
              (ground (arith, h.idle_type c e, untouched (k.s.idle c)));
        idle_state = λ c e.
            subst
              (λ f. (is_running (timed.tcb (f c)).state || is_ready (timed.tcb (f c)).state) ≡ true)
              (sym idle_eq) (ground (arith, h.idle_state c e, untouched (k.s.idle c)));
        idle_ready = λ c e.
            subst (λ f. owner (f c) ≡ 0 → is_ready (timed.tcb (f c)).state ≡ true) (sym idle_eq)
              (λ z. ground (arith, h.idle_ready c e z, untouched (k.s.idle c)));
        idle_none = λ c e.
            subst (λ f. (timed.tcb (f c)).state ≡ exited) (sym idle_eq)
              (ground (arith, h.idle_none c e, untouched (k.s.idle c)));
      }

-- Going to sleep.
module _ {k : System} {owner : ℕ → ℕ} (h : Sound k owner) (c : ℕ) (at : k.stage c ≡ runs)
    (normal : (k.s.tcb (k.s.current c)).type ≡ normal_thread) where
  own : owner (k.s.current c) ≡ suc c
  own = owner-current h c (ground (arith, at))

  now :
      (is_running (k.s.tcb (k.s.current c)).state ≡ true)
      × (is_dirty (k.s.tcb (k.s.current c)).phase ≡ true)
  now = now_runs h c at

  not_idle : (d : ℕ) → (k.s.idle d == k.s.current c) ≡ true → is_ready stopped ≡ true
  not_idle d e = absurd (ground (arith, h.idle_type d, h.idle_none d, normal, now))

  not_listed : has (k.s.current c) k.s.timeout_list ≡ false
  not_listed = ground (arith, h.asleep (k.s.current c), now)

  pub exits-Sound : Sound (move_to c slept (sleep_releasing c exited no_timeout k.s) k) owner
  unfolding sleep_releasing register_unless_exited can_wake
  exits-Sound =
      settle-Sound h c exited (ground (arith, at)) refl (λ e. absurd (ground arith)) not_idle
        (λ e. absurd (ground (arith, not_listed)))

  pub stops-Sound :
      (timeout : ℕ)
      → (((k.s.clock + timeout) % 2 ^ 64) == no_timeout) ≡ false
      → Sound (move_to c slept (sleep_releasing c stopped timeout k.s) k) owner
  unfolding sleep_releasing register_unless_exited
  stops-Sound timeout real =
      register-Sound
        (settle-Sound h c stopped (ground (arith, at)) refl (λ e. ap is_normal normal) not_idle
          (λ e. refl))
        (k.s.current c) timeout (ground arith)
        (ground (arith, h.timeouts.listed (k.s.current c), not_listed)) real
