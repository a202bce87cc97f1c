-- ===== src/Sched/Sound/Gain.antt =====
-- gain keeps the scheduler sound (kernel_sched.c).
use tiny_os.Prelude.{
  ℕ, suc, ◌≡◌, ◌==◌, ◌&&◌, ◌||◌, Bool, true, false, not, Distinct, has, refl, arith, if◌then◌else◌,
  sym, subst, ap, ◌∙◌, Bool-cases, inl, inr, [], ◌∷◌, ◌++◌, has-append, Distinct-append_one,
}
use tiny_os.Sched.{
  Scheduler, running, exited, can_wake, gain, settle_prev, queue_normal, release_tcb,
  sched_queue_add,
}
use tiny_os.Sched.Timeouts.{Timeouts-same}
use tiny_os.Sched.Steps.{System, runs, switches, occupies, is_normal, is_ready, is_dirty, move_to}
use tiny_os.Sched.Sound.{Sound, Fits, is_running, is_settled}
use tiny_os.Sched.Sound.Elsewhere.{
  Elsewhere, Elsewhere-occupies, Elsewhere-Fits, owner-current, owner-prev,
}

-- Core `c` gains the thread `t`, after `p`.
pub record Gained (c t p : ℕ) (s s' : Scheduler) : Type 0 where
  pub state : (u : ℕ) → (s'.tcb u).state ≡ (if t == u then running else (s.tcb u).state)
  pub phase :
      (u : ℕ)
      → is_dirty (s'.tcb u).phase
        ≡ (if t == u then true else (if p == u then false else is_dirty (s.tcb u).phase))
  pub other : (u : ℕ) → (t == u) ≡ false → (p == u) ≡ false → s'.tcb u ≡ s.tcb u
  pub type : (u : ℕ) → (s'.tcb u).type ≡ (s.tcb u).type
  pub prev : (u : ℕ) → (s'.tcb u).prev ≡ (s.tcb u).prev
  pub wakeup_time : (u : ℕ) → (s'.tcb u).wakeup_time ≡ (s.tcb u).wakeup_time
  pub current : s'.current ≡ s.current
  pub idle : s'.idle ≡ s.idle
  pub timeout_list : s'.timeout_list ≡ s.timeout_list
  pub sched : s'.sched ≡ (
      if not (t == p) && (is_normal (s.tcb p).type && is_ready (s.tcb p).state)
      then s.sched ++ p ∷ []
      else s.sched)

pub gain-Gained :
    (c : ℕ) (s : Scheduler) → Gained c (s.current c) (s.tcb (s.current c)).prev s (gain c s)
unfolding gain settle_prev queue_normal release_tcb sched_queue_add
gain-Gained c s = record {
  state = λ u. ground arith;
  phase = λ u. ground arith;
  other = λ u a b. ground arith;
  type = λ u. ground arith;
  prev = λ u. ground arith;
  wakeup_time = λ u. ground arith;
  current = ground arith;
  idle = ground arith;
  timeout_list = ground arith;
  sched = ground arith;
}

module _ {k : System} {owner : ℕ → ℕ} (h : Sound k owner) (c : ℕ) (at : k.stage c ≡ switches) where
  abbrev t : ℕ
  t = k.s.current c

  abbrev p : ℕ
  p = (k.s.tcb (k.s.current c)).prev

  abbrev s' : Scheduler
  s' = gain c k.s

  abbrev k' : System
  k' = move_to c runs (gain c k.s) k

  -- The previous thread is given up.
  abbrev owner' : ℕ → ℕ
  owner' u = if not (t == p) && (p == u) then 0 else owner u

  g : Gained c t p k.s s'
  g = gain-Gained c k.s

  own : owner t ≡ suc c
  own = owner-current h c (ground (arith, at))

  own_p : owner p ≡ suc c
  own_p = owner-prev h c at

  fit :
      (is_ready (k.s.tcb t).state ≡ true)
      × (((t == p) ≡ false)
          → (is_settled (k.s.tcb p).state ≡ true) × (is_dirty (k.s.tcb t).phase ≡ false))
  fit = subst (λ q. Fits q (k.s.tcb t) (k.s.tcb p) (t == p)) at (h.fits c)

  elsewhere : (d : ℕ) → (c == d) ≡ false → Elsewhere k k' owner d
  elsewhere d ne = record {
    stage = ground arith;
    current = ap (λ f. f d) g.current;
    tcb = λ u e. g.other u (ground (arith, own)) (ground (arith, own_p));
  }

  own_occupies : (u : ℕ) → occupies k' c u ≡ (owner' u == suc c)
  own_occupies u = ground (arith, h.owned c u, at, own, own_p, ap (λ f. f c) g.current)

  owned-gain : (d u : ℕ) → occupies k' d u ≡ (owner' u == suc d)
  owned-gain d u = elim (Bool-cases (c == d)) [
    | inl same ↦
        let e : c ≡ d = ground arith in
        subst (λ d. occupies k' d u ≡ (owner' u == suc d)) e (own_occupies u)
    | inr other ↦ Elsewhere-occupies h d (elsewhere d other) u ∙ h.owned d u ∙ ground (arith, own_p)
  ]

  abbrev FitsNow : ℕ → Type 0
  FitsNow d =
      Fits (k'.stage d) (s'.tcb (s'.current d)) (s'.tcb (s'.tcb (s'.current d)).prev)
        (s'.current d == (s'.tcb (s'.current d)).prev)

  own_fits : FitsNow c
  own_fits = ground (arith, ap (λ f. f c) g.current, g.state t, g.phase t)

  fits-gain : (d : ℕ) → FitsNow d
  fits-gain d = elim (Bool-cases (c == d)) [
    | inl same ↦ let e : c ≡ d = ground arith in subst FitsNow e own_fits
    | inr other ↦ Elsewhere-Fits h d (elsewhere d other)
  ]

  gives_up : Bool
  gives_up = not (t == p) && (is_normal (k.s.tcb p).type && is_ready (k.s.tcb p).state)

  sched-queued : gives_up ≡ true → s'.sched ≡ k.s.sched ++ p ∷ []
  unfolding gives_up
  sched-queued e = g.sched ∙ rw e refl

  sched-same : gives_up ≡ false → s'.sched ≡ k.s.sched
  unfolding gives_up
  sched-same e = g.sched ∙ rw e refl

  queued-gain :
      (u : ℕ)
      → has u s'.sched
        ≡ (is_normal (s'.tcb u).type && (is_ready (s'.tcb u).state && (owner' u == 0)))
  unfolding gives_up
  queued-gain u = elim (Bool-cases gives_up) [
    | inl e ↦
        ap (has u) (sched-queued e)
        ∙ has-append u k.s.sched (p ∷ [])
        ∙ ground (arith, h.queued u, h.queued p, g.state u, g.type u, own, own_p, fit)
    | inr e ↦
        ap (has u) (sched-same e)
        ∙ ground (arith, h.queued u, h.queued p, g.state u, g.type u, own, own_p, fit)
  ]

  once-gain : Distinct s'.sched
  once-gain = elim (Bool-cases gives_up) [
    | inl e ↦
        subst (λ l. Distinct l) (sym (sched-queued e))
          (Distinct-append_one k.s.sched p h.once (ground (arith, h.queued p, own_p)))
    | inr e ↦ subst (λ l. Distinct l) (sym (sched-same e)) h.once
  ]

  -- The core runs its thread, and the previous one is back in the queue if it is ready.
  pub gain-Sound : Sound k' owner'
  unfolding can_wake
  gain-Sound = record {
    owned = owned-gain;
    queued = queued-gain;
    once = once-gain;
    clean = λ u e. ground (arith, h.clean u, g.phase u, own, own_p);
    dirty = λ u e. ground (arith, h.dirty u, g.phase u, g.state u, own, own_p);
    wakeable = λ u e. ground (arith, h.wakeable u, g.state u, g.type u);
    asleep = λ u e. ground (arith, h.asleep u, g.state u, ap (has u) g.timeout_list, fit);
    timeouts = Timeouts-same g.timeout_list g.wakeup_time h.timeouts;
    fits = fits-gain;
    idles = λ d e. ap (λ f. f d == f e) g.idle ∙ h.idles d e;
    idle_home = λ d.
        subst (λ f. (owner' (f d) == 0) ≡ false → owner' (f d) ≡ suc d) (sym g.idle)
          (λ e. ground (arith, h.idle_home d));
    idle_type = λ d e.
        subst (λ f. is_normal (s'.tcb (f d)).type ≡ false) (sym g.idle)
          (ground (arith, h.idle_type d, g.type (k.s.idle d), at));
    idle_state = λ d e.
        subst (λ f. (is_running (s'.tcb (f d)).state || is_ready (s'.tcb (f d)).state) ≡ true)
          (sym g.idle) (ground (arith, h.idle_state d, g.state (k.s.idle d), at));
    idle_ready = λ d e.
        subst (λ f. owner' (f d) ≡ 0 → is_ready (s'.tcb (f d)).state ≡ true) (sym g.idle)
          (λ z. ground (arith, h.idle_ready d, h.idle_state d, g.state (k.s.idle d), at, fit, own));
    idle_none = λ d e.
        subst (λ f. (s'.tcb (f d)).state ≡ exited) (sym g.idle)
          (ground (arith, h.idle_none d, g.state (k.s.idle d), at, fit));
  }
