-- ===== src/Sched/Sound/Wake.antt =====
-- wakeup and sched_make_ready keep the scheduler sound (kernel_sched.c).
use tiny_os.Prelude.{
  ℕ, suc, ◌≡◌, ◌==◌, ◌&&◌, ◌||◌, true, false, not, Distinct, has, refl, arith, if◌then◌else◌, sym,
  subst, ap, ◌∙◌, Bool-cases, inl, inr, has-append, has-erase_self, has-erase_ne,
  Distinct-append_one, ◌++◌, [], ◌∷◌,
}
use tiny_os.Sched.{
  Scheduler, ready, exited, can_wake, sched_make_ready, wakeup, cancel_timeout, queue_clean,
  sched_queue_add,
}
use tiny_os.Sched.Timeouts.{Timeouts, sched_make_ready-Readied}
use tiny_os.Sched.Steps.{System, is_normal, is_ready, is_dirty}
use tiny_os.Sched.Sound.{Sound, Keeps, Fits-same, occupies-same, is_running}

-- The thread that is made ready, and the others.
pub record Woke (t : ℕ) (s s' : Scheduler) : Type 0 where
  pub state : (u : ℕ) → (s'.tcb u).state ≡ (if t == u then ready else (s.tcb u).state)
  pub type : (u : ℕ) → (s'.tcb u).type ≡ (s.tcb u).type
  pub phase : (u : ℕ) → (s'.tcb u).phase ≡ (s.tcb u).phase
  pub prev : (u : ℕ) → (s'.tcb u).prev ≡ (s.tcb u).prev
  pub current : s'.current ≡ s.current
  pub idle : s'.idle ≡ s.idle
  pub sched : s'.sched ≡ (if is_dirty (s.tcb t).phase then s.sched else s.sched ++ t ∷ [])

pub sched_make_ready-Woke : (t : ℕ) (s : Scheduler) → Woke t s (sched_make_ready t s)
unfolding sched_make_ready cancel_timeout queue_clean sched_queue_add
sched_make_ready-Woke t s = record {
  state = λ u. ground arith;
  type = λ u. ground arith;
  phase = λ u. ground arith;
  prev = λ u. ground arith;
  current = ground arith;
  idle = ground arith;
  sched = ground arith;
}

-- The list of timeouts loses the thread.
listed-make_ready :
    (t u : ℕ) (s : Scheduler)
    → Timeouts s
    → has u (sched_make_ready t s).timeout_list ≡ (has u s.timeout_list && not (t == u))
unfolding sched_make_ready cancel_timeout queue_clean sched_queue_add
listed-make_ready t u s h = ground (
  arith,
  h.listed t,
  h.listed u,
  has-erase_self t s.timeout_list h.distinct,
  has-erase_ne u t s.timeout_list,
)

module _ {k : System} {owner : ℕ → ℕ} (h : Sound k owner) (t : ℕ)
    (wakes : can_wake (k.s.tcb t).state ≡ true) where
  abbrev s' : Scheduler
  s' = sched_make_ready t k.s

  abbrev k' : System
  k' = record k { s = sched_make_ready t k.s }

  w : Woke t k.s s'
  w = sched_make_ready-Woke t k.s

  sched-busy : is_dirty (k.s.tcb t).phase ≡ true → s'.sched ≡ k.s.sched
  sched-busy e = w.sched ∙ rw e refl

  sched-saved : is_dirty (k.s.tcb t).phase ≡ false → s'.sched ≡ k.s.sched ++ t ∷ []
  sched-saved e = w.sched ∙ rw e refl

  queued-wake :
      (u : ℕ)
      → has u s'.sched
        ≡ (is_normal (s'.tcb u).type && (is_ready (s'.tcb u).state && (owner u == 0)))
  unfolding can_wake
  queued-wake u = elim (Bool-cases (is_dirty (k.s.tcb t).phase)) [
    | inl busy ↦
        ap (has u) (sched-busy busy)
        ∙ ground (arith, h.queued u, h.queued t, h.dirty t wakes, w.state u, w.type u)
    | inr saved ↦
        ap (has u) (sched-saved saved)
        ∙ has-append u k.s.sched (t ∷ [])
        ∙ ground (arith, h.queued u, h.wakeable t wakes, h.dirty t wakes, w.state u, w.type u)
  ]

  once-wake : Distinct s'.sched
  unfolding can_wake
  once-wake =
      subst (λ l. Distinct l) (sym w.sched)
        (elim (Bool-cases (is_dirty (k.s.tcb t).phase)) [
          | inl busy ↦ rw busy h.once
          | inr saved ↦
              rw saved (Distinct-append_one k.s.sched t h.once (ground (arith, h.queued t)))
        ])

  Keeps-wake :
      (c : ℕ)
      → Keeps
          (k.s.tcb (k.s.current c))
          (s'.tcb (k.s.current c))
          (k.s.tcb (k.s.tcb (k.s.current c)).prev)
          (s'.tcb (k.s.tcb (k.s.current c)).prev)
  unfolding can_wake
  Keeps-wake c = record {
    running = λ e. ground (arith, w.state (k.s.current c));
    settled = λ e. ground (arith, w.state (k.s.current c));
    ready = λ e. ground (arith, w.state (k.s.current c));
    phase = ap is_dirty (w.phase (k.s.current c));
    before = λ e. ground (arith, w.state (k.s.tcb (k.s.current c)).prev);
  }

  -- Making a thread ready that is STOPPED or INIT keeps the scheduler sound.
  pub sched_make_ready-Sound : Sound k' owner
  unfolding can_wake
  sched_make_ready-Sound = record {
    owned = λ c u. occupies-same k s' w.current w.prev c u ∙ h.owned c u;
    queued = queued-wake;
    once = once-wake;
    clean = λ u e. ap is_dirty (w.phase u) ∙ h.clean u e;
    dirty = λ u e. ground (arith, h.dirty u, w.state u, w.phase u);
    wakeable = λ u e. ap is_normal (w.type u) ∙ ground (arith, h.wakeable u, w.state u);
    asleep = λ u e. ground (arith, h.asleep u, listed-make_ready t u k.s h.timeouts, w.state u);
    timeouts = (sched_make_ready-Readied t k.s).timeouts h.timeouts;
    fits = λ c. Fits-same k s' w.current w.prev c (Keeps-wake c) (h.fits c);
    idles = λ c d. ap (λ f. f c == f d) w.idle ∙ h.idles c d;
    idle_home = λ c.
        subst (λ f. (owner (f c) == 0) ≡ false → owner (f c) ≡ suc c) (sym w.idle) (h.idle_home c);
    idle_type = λ c e.
        subst (λ f. is_normal (s'.tcb (f c)).type ≡ false) (sym w.idle)
          (ap is_normal (w.type (k.s.idle c)) ∙ h.idle_type c e);
    idle_state = λ c e.
        subst (λ f. (is_running (s'.tcb (f c)).state || is_ready (s'.tcb (f c)).state) ≡ true)
          (sym w.idle) (ground (arith, h.idle_state c e, w.state (k.s.idle c)));
    idle_ready = λ c e.
        subst (λ f. owner (f c) ≡ 0 → is_ready (s'.tcb (f c)).state ≡ true) (sym w.idle)
          (λ z. ground (arith, h.idle_ready c e z, w.state (k.s.idle c)));
    idle_none = λ c e.
        subst (λ f. (s'.tcb (f c)).state ≡ exited) (sym w.idle)
          (ground (arith, h.idle_none c e, w.state (k.s.idle c)));
  }

pub wakeup-Sound :
    {k : System} {owner : ℕ → ℕ} (t : ℕ)
    → Sound k owner
    → Sound (record k { s = (wakeup t k.s).1 }) owner
unfolding wakeup
wakeup-Sound {k} {owner} t h = elim (Bool-cases (can_wake (k.s.tcb t).state)) [
  | inl wakes ↦ rw wakes (sched_make_ready-Sound h t wakes)
  | inr not ↦ rw not h
]
