-- ===== src/Sched/Sound/Begin.antt =====
-- A core begins, and a thread is spawned: both keep the scheduler sound (kernel_sched.c).
use tiny_os.Prelude.{
  ℕ, suc, ◌≡◌, ◌==◌, false, refl, arith, subst, ◌∙◌, Bool-cases, inl, inr, update,
}
use tiny_os.Sched.{Scheduler, exited, can_wake, no_timeout, spawn_thread, run_scheduler}
use tiny_os.Sched.Timeouts.{Timeouts-same}
use tiny_os.Sched.Steps.{System, starting, runs, occupies, move_to}
use tiny_os.Sched.Sound.{Sound, Fits}
use tiny_os.Sched.Sound.Elsewhere.{Elsewhere, Elsewhere-occupies, Elsewhere-Fits, owner-free}

module _ {k : System} {owner : ℕ → ℕ} (h : Sound k owner) (t : ℕ)
    (dead : (k.s.tcb t).state ≡ exited) (free : (c : ℕ) → occupies k c t ≡ false)
    (not_idle : (c : ℕ) → (k.s.idle c == t) ≡ false) where
  unowned : owner t ≡ 0
  unowned = owner-free h t free

  Elsewhere-spawn : (d : ℕ) → Elsewhere k (record k { s = spawn_thread t k.s }) owner d
  unfolding spawn_thread
  Elsewhere-spawn d = record { stage = refl; current = refl; tcb = λ u e. ground (arith, unowned) }

  pub spawns-Sound : Sound (record k { s = spawn_thread t k.s }) owner
  unfolding spawn_thread can_wake
  spawns-Sound = record {
    owned = λ d u. Elsewhere-occupies h d (Elsewhere-spawn d) u ∙ h.owned d u;
    queued = λ u. ground (arith, h.queued u, dead);
    once = h.once;
    clean = λ u e. ground (arith, h.clean u);
    dirty = λ u e. ground (arith, h.dirty u, unowned);
    wakeable = λ u e. ground (arith, h.wakeable u);
    asleep = λ u e. ground (arith, h.asleep u, dead);
    timeouts =
        Timeouts-same refl (λ u. ground (arith, h.timeouts.listed t, h.asleep t, dead)) h.timeouts;
    fits = λ d. Elsewhere-Fits h d (Elsewhere-spawn d);
    idles = h.idles;
    idle_home = h.idle_home;
    idle_type = λ d e. ground (arith, h.idle_type d, not_idle d);
    idle_state = λ d e. ground (arith, h.idle_state d, not_idle d);
    idle_ready = λ d e z. ground (arith, h.idle_ready d, not_idle d);
    idle_none = λ d e. ground (arith, h.idle_none d, not_idle d);
  }

-- Core `c` begins to run its idle thread.
module _ {k : System} {owner : ℕ → ℕ} (h : Sound k owner) (c : ℕ) (at : k.stage c ≡ starting) where
  abbrev i : ℕ
  i = k.s.idle c

  abbrev s' : Scheduler
  s' = run_scheduler c k.s

  abbrev k' : System
  k' = move_to c runs (run_scheduler c k.s) k

  abbrev owner' : ℕ → ℕ
  owner' = update owner i (suc c)

  unheld : owner i ≡ 0
  unheld = ground (arith, h.idle_home c, h.owned c i, at)

  none_yet : (k.s.tcb i).state ≡ exited
  none_yet = h.idle_none c (ground (arith, at))

  untimed : (k.s.tcb i).wakeup_time ≡ no_timeout
  untimed = ground (arith, h.timeouts.listed i, h.asleep i, none_yet)

  Elsewhere-start : (d : ℕ) → (c == d) ≡ false → Elsewhere k k' owner d
  unfolding run_scheduler
  Elsewhere-start d ne = record {
    stage = ground arith;
    current = ground arith;
    tcb = λ u e. ground (arith, unheld);
  }

  own_occupies : (u : ℕ) → occupies k' c u ≡ (owner' u == suc c)
  unfolding run_scheduler
  own_occupies u = ground (arith, h.owned c u, at)

  owned-start : (d u : ℕ) → occupies k' d u ≡ (owner' u == suc d)
  owned-start d u = elim (Bool-cases (c == d)) [
    | inl same ↦
        let e : c ≡ d = ground arith in
        subst (λ d. occupies k' d u ≡ (owner' u == suc d)) e (own_occupies u)
    | inr other ↦
        Elsewhere-occupies h d (Elsewhere-start d other) u ∙ h.owned d u ∙ ground (arith, unheld)
  ]

  abbrev FitsNow : ℕ → Type 0
  FitsNow d =
      Fits (k'.stage d) (s'.tcb (s'.current d)) (s'.tcb (s'.tcb (s'.current d)).prev)
        (s'.current d == (s'.tcb (s'.current d)).prev)

  own_fits : FitsNow c
  unfolding run_scheduler
  own_fits = ground arith

  fits-start : (d : ℕ) → FitsNow d
  fits-start d = elim (Bool-cases (c == d)) [
    | inl same ↦ let e : c ≡ d = ground arith in subst FitsNow e own_fits
    | inr other ↦ Elsewhere-Fits h d (Elsewhere-start d other)
  ]

  pub starts-Sound : Sound k' owner'
  unfolding run_scheduler can_wake
  starts-Sound = record {
    owned = owned-start;
    queued = λ u. ground (arith, h.queued u, none_yet, unheld);
    once = h.once;
    clean = λ u e. ground (arith, h.clean u);
    dirty = λ u e. ground (arith, h.dirty u);
    wakeable = λ u e. ground (arith, h.wakeable u);
    asleep = λ u e. ground (arith, h.asleep u, none_yet);
    timeouts = Timeouts-same refl (λ u. ground (arith, untimed)) h.timeouts;
    fits = fits-start;
    idles = h.idles;
    idle_home = λ d e. ground (arith, h.idle_home d, h.idles c d);
    idle_type = λ d e. ground (arith, h.idle_type d, h.idles c d);
    idle_state = λ d e. ground (arith, h.idle_state d, h.idles c d);
    idle_ready = λ d e z. ground (arith, h.idle_ready d, h.idles c d);
    idle_none = λ d e. ground (arith, h.idle_none d, h.idles c d);
  }
